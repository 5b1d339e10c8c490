-- ===== src/Release/Npm/References.antt =====
-- The references of the components that `_npm_components` of scripts/release/release_artifacts.py makes
-- are all different.
use codex_subscription_route.Prelude.{
  ok-injective, ◌≡◌, ◌≢◌, ◌∙◌, refl, sym, ap, subst, true, false, some, List, [], ◌∷◌, ◌++◌, map,
  arith, drop, Bool-cases, Option-cases, inl, inr, All, not_of_false, and-eq-true, or-eq-false, ok,
  >>=-eq-ok,
}
use codex_subscription_route.Text.{
  Bytes, codes, bytes_eq, bytes_eq_iff, contains, has_byte, has_byte-append, Lacks, Lacks-append,
  quote, quote-Lacks, quote-injective, sort_by, sort_by-Distinct, Distinct, is_distinct,
  is_distinct_iff, includes, after_last,
}
use codex_subscription_route.Json.{
  Json, object, lookup, keys, well_formed, lookup-well_formed, keys-entries_of, null,
}
use codex_subscription_route.Release.Errors.{no_npm_version}
use codex_subscription_route.Release.Library.{Library, Repository, get, empty_object}
use codex_subscription_route.Release.Npm.{
  Component, npm_purl, npm_component, npm_loop, npm_components, text_or_error, read_integrity,
  node_modules, loads_or_error, items_or_error, read_file,
}

abbrev pub refs_of : List Component → List Bytes
refs_of cs = map (λ c. c.bom_ref) cs

pub bytes_eq-false : (s t : Bytes) → s ≢ t → bytes_eq s t ≡ false
bytes_eq-false s t h = ground (arith, bytes_eq_iff s t)

-- A reference that ends in the path of a package, behind its only question mark.
abbrev NpmRef : Bytes → Bytes → Type 0
NpmRef lock ref =
    (purl : Bytes) × Lacks b'?' purl × (ref ≡ purl ++ (b'?' ∷ (codes "path=" ++ quote [] lock)))

NpmRef-injective : (lock lock' ref : Bytes) → NpmRef lock ref → NpmRef lock' ref → lock ≡ lock'
unfolding has_byte
NpmRef-injective lock lock' ref (p, h, e) (q, k, f) =
    let (_, tails) =
      Lacks-append b'?' p q (codes "path=" ++ quote [] lock) (codes "path=" ++ quote [] lock') h k
        (sym e ∙ f) in
    quote-injective [] lock lock' refl (ap (drop 5) tails)

NpmRef-mark : (lock ref : Bytes) → NpmRef lock ref → has_byte b'?' ref ≡ true
unfolding has_byte
NpmRef-mark lock ref (p, h, e) =
    ap (has_byte b'?') e
    ∙ has_byte-append b'?' p (b'?' ∷ (codes "path=" ++ quote [] lock))
    ∙ ground arith

npm_purl-Lacks : (name version : Bytes) → Lacks b'?' (npm_purl name version)
unfolding has_byte
npm_purl-Lacks name version =
    has_byte-append b'?' (codes "pkg:npm/")
      (quote (codes "/") name ++ (codes "@" ++ quote [] version))
    ∙ has_byte-append b'?' (quote (codes "/") name) (codes "@" ++ quote [] version)
    ∙ rw (quote-Lacks (codes "/") b'?' name (refl, refl, refl, omega arith))
        (quote-Lacks [] b'?' version (refl, refl, refl, omega arith))

npm_component-NpmRef :
    (py : Library) (lock : Bytes) (entry : Json) {c : Component}
    → npm_component py lock entry ≡ ok c
    → NpmRef lock c.bom_ref
unfolding npm_component
npm_component-NpmRef py lock entry h =
    let (found, _, h1) = >>=-eq-ok (get (codes "version") null entry) _ h in
    let (version, _, h2) = >>=-eq-ok (text_or_error no_npm_version found) _ h1 in
    let (_, _, h3) = >>=-eq-ok (get (codes "optional") null entry) _ h2 in
    let (_, _, h4) = >>=-eq-ok (get (codes "license") null entry) _ h3 in
    let (integrity, _, h5) = >>=-eq-ok (get (codes "integrity") null entry) _ h4 in
    let (_, _, h6) = >>=-eq-ok (read_integrity py integrity) _ h5 in
    let name = after_last node_modules lock in
    (
      npm_purl name version,
      npm_purl-Lacks name version,
      sym (ap (λ c. c.bom_ref) (ok-injective h6)),
    )

abbrev pub paths_of : List (Bytes × Json) → List Bytes
paths_of entries = map (λ e. e.0) entries

-- A path that is not among those of the loop has a reference that is not among those of the result.
npm_loop-fresh :
    (py : Library) (entries : List (Bytes × Json)) (lock ref : Bytes) {cs : List Component}
    → npm_loop py entries ≡ ok cs
    → NpmRef lock ref
    → contains (paths_of entries) lock ≡ false
    → contains (refs_of cs) ref ≡ false
unfolding npm_loop contains
npm_loop-fresh py [] lock ref h n away =
    subst (λ cs. contains (refs_of cs) ref ≡ false) (ok-injective h) refl
npm_loop-fresh py ((path, entry) ∷ entries) lock ref h n away =
    let (other, rest) = or-eq-false (bytes_eq lock path) _ away in
    elim (Bool-cases (includes node_modules path)) [
      | inr skip ↦ let h' = rw (skip) at h in npm_loop-fresh py entries lock ref h' n rest
      | inl installed ↦
          let h' = rw (installed) at h in
          let (c, made, h1) = >>=-eq-ok (npm_component py path entry) _ h' in
          let (cs, looped, h2) = >>=-eq-ok (npm_loop py entries) _ h1 in
          let later = npm_loop-fresh py entries lock ref looped n rest in
          let apart : bytes_eq ref c.bom_ref ≡ false = bytes_eq-false ref c.bom_ref (λ same.
            let own = npm_component-NpmRef py path entry made in
            let equal = NpmRef-injective lock path ref n (subst (NpmRef path) (sym same) own) in
            not_of_false (bytes_eq lock path) (bytes_eq_iff lock path).1 other equal) in
          subst (λ ds. contains (refs_of ds) ref ≡ false) (ok-injective h2) (rw (apart) later)
    ]

pub npm_loop-Distinct :
    (py : Library) (entries : List (Bytes × Json)) {cs : List Component}
    → npm_loop py entries ≡ ok cs
    → Distinct (paths_of entries)
    → Distinct (refs_of cs)
unfolding npm_loop
npm_loop-Distinct py [] h d = subst (λ cs. Distinct (refs_of cs)) (ok-injective h) tt
npm_loop-Distinct py ((path, entry) ∷ entries) h d =
    elim (Bool-cases (includes node_modules path)) [
      | inr skip ↦ let h' = rw (skip) at h in npm_loop-Distinct py entries h' d.1
      | inl installed ↦
          let h' = rw (installed) at h in
          let (c, made, h1) = >>=-eq-ok (npm_component py path entry) _ h' in
          let (cs, looped, h2) = >>=-eq-ok (npm_loop py entries) _ h1 in
          subst (λ ds. Distinct (refs_of ds)) (ok-injective h2)
            (
              npm_loop-fresh py entries path c.bom_ref looped
                  (npm_component-NpmRef py path entry made) d.0,
              npm_loop-Distinct py entries looped d.1,
            )
    ]

pub npm_loop-All :
    (py : Library) (entries : List (Bytes × Json)) {cs : List Component}
    → npm_loop py entries ≡ ok cs
    → All (λ ref. has_byte b'?' ref ≡ true) (refs_of cs)
unfolding npm_loop
npm_loop-All py [] h =
    subst (λ cs. All (λ ref. has_byte b'?' ref ≡ true) (refs_of cs)) (ok-injective h) tt
npm_loop-All py ((path, entry) ∷ entries) h = elim (Bool-cases (includes node_modules path)) [
  | inr skip ↦ let h' = rw (skip) at h in npm_loop-All py entries h'
  | inl installed ↦
      let h' = rw (installed) at h in
      let (c, made, h1) = >>=-eq-ok (npm_component py path entry) _ h' in
      let (cs, looped, h2) = >>=-eq-ok (npm_loop py entries) _ h1 in
      subst (λ ds. All (λ ref. has_byte b'?' ref ≡ true) (refs_of ds)) (ok-injective h2)
        (
          NpmRef-mark path c.bom_ref (npm_component-NpmRef py path entry made),
          npm_loop-All py entries looped,
        )
]

get-well_formed :
    (key : Bytes) (default v : Json) {w : Json}
    → well_formed default ≡ true
    → well_formed v ≡ true
    → get key default v ≡ ok w
    → well_formed w ≡ true
unfolding get well_formed
get-well_formed key default (object entries) d h e = elim (Option-cases (lookup key entries)) [
  | inl nothing ↦
      let e' = rw (nothing) at e in subst (λ w. well_formed w ≡ true) (ok-injective e') d
  | inr (v, there) ↦
      let e' = rw (there) at e in
      let (_, deep) = and-eq-true _ _ h in
      subst (λ w. well_formed w ≡ true) (ok-injective e')
        (lookup-well_formed key entries deep there)
]
get-well_formed key default _ d h e = cc

items_or_error-Distinct :
    (v : Json) {entries : List (Bytes × Json)}
    → well_formed v ≡ true
    → items_or_error v ≡ ok entries
    → Distinct (paths_of entries)
unfolding well_formed
items_or_error-Distinct (object entries) h e =
    let (distinct, _) = and-eq-true (is_distinct (keys entries)) _ h in
    subst (λ es. Distinct (paths_of es)) (ok-injective e)
      (subst Distinct (sym (keys-entries_of entries)) ((is_distinct_iff _).0 distinct))
items_or_error-Distinct _ h e = cc

loads_or_error-well_formed :
    (py : Library) (contents : Bytes) {v : Json}
    → ((s : Bytes) (w : Json) → py.loads s ≡ some w → well_formed w ≡ true)
    → loads_or_error py contents ≡ ok v
    → well_formed v ≡ true
loads_or_error-well_formed py contents dictionaries h = elim (Option-cases (py.loads contents)) [
  | inl bad ↦ let h' = rw (bad) at h in cc
  | inr (w, good) ↦
      let h' = rw (good) at h in
      subst (λ u. well_formed u ≡ true) (ok-injective h') (dictionaries contents w good)
]

-- The references of the npm components are different, and each has a question mark, when the keys of
-- the dictionaries that `json.loads` returns are different.
pub npm_components-Distinct :
    (py : Library) (r : Repository) {cs : List Component}
    → ((s : Bytes) (v : Json) → py.loads s ≡ some v → well_formed v ≡ true)
    → npm_components py r ≡ ok cs
    → Distinct (refs_of cs) × All (λ ref. has_byte b'?' ref ≡ true) (refs_of cs)
unfolding npm_components well_formed is_distinct keys
npm_components-Distinct py r dictionaries h =
    let (contents, _, h1) = >>=-eq-ok (read_file r.package_lock) _ h in
    let (lock, loaded, h2) = >>=-eq-ok (loads_or_error py contents) _ h1 in
    let (packages, found, h3) = >>=-eq-ok (get (codes "packages") empty_object lock) _ h2 in
    let (entries, items, h4) = >>=-eq-ok (items_or_error packages) _ h3 in
    let lock_formed = loads_or_error-well_formed py contents dictionaries loaded in
    let formed = get-well_formed (codes "packages") empty_object lock refl lock_formed found in
    let distinct = items_or_error-Distinct packages formed items in
    let sorted = sort_by (λ e. e.0) entries in
    (
      npm_loop-Distinct py sorted h4 (sort_by-Distinct (λ e. e.0) entries distinct),
      npm_loop-All py sorted h4,
    )
