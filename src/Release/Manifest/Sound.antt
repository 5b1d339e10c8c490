-- ===== src/Release/Manifest/Sound.antt =====
-- What `_parse_manifest` of scripts/release/release_artifacts.py lets through.
use mathlib.Core.List.{map-append}
use codex_subscription_route.Prelude.{
  All-append, is_nil, ◌≡◌, ◌≢◌, refl, subst, Bool, true, false, not, ◌&&◌, Option, none, some, List,
  [], ◌∷◌, ◌++◌, arith, ◌==◌, ltb, all, length, take, drop, ==_iff, Bool-cases, inl, inr, All,
  and-eq-true, ok, >>=-eq-ok, raise_if->>-eq-ok,
}
use codex_subscription_route.Text.{
  Bytes, contains, Distinct, Distinct-snoc, IsSortedBy, is_utf8, is_sorted, is_sorted_iff, number,
  split_lines,
}
use codex_subscription_route.Release.Errors.{
  duplicate_entry, int_limit, not_utf8, unsorted_manifest, empty_manifest,
}
use codex_subscription_route.Release.Path.{normalized_path}
use codex_subscription_route.Release.Path.Canonical.{normalized_path-Passed}
use codex_subscription_route.Release.Manifest.{
  Entry, is_hex, names, int_max_str_digits, after_spaces, size_and_name, after_digest, hash_line,
  accept, parse_lines, parse_manifest,
}
use codex_subscription_route.Release.Manifest.Line.{IsDigest}

pub record IsEntry (e : Entry) : Type 0 where
  pub portable : normalized_path e.name ≡ ok e.name
  pub digest : IsDigest e.digest

size_and_name-digest :
    (d sized digest size name : Bytes)
    → size_and_name d sized ≡ some (digest, size, name)
    → digest ≡ d
unfolding size_and_name
size_and_name-digest d sized digest size name h = ground arith

after_digest-digest :
    (d : Bytes) (o : Option Bytes) (digest size name : Bytes)
    → after_digest d o ≡ some (digest, size, name)
    → digest ≡ d
unfolding after_digest
after_digest-digest d none digest size name h = cc
after_digest-digest d (some sized) digest size name h =
    size_and_name-digest d sized digest size name h

hash_line-IsDigest :
    (line digest size name : Bytes) → hash_line line ≡ some (digest, size, name) → IsDigest digest
unfolding hash_line
hash_line-IsDigest line digest size name h =
    elim (Bool-cases (length (take 64 line) == 64 && all is_hex (take 64 line))) [
      | inl e ↦
          let d : digest ≡ take 64 line =
            after_digest-digest (take 64 line) (after_spaces (drop 64 line)) digest size name
              (rw e at h) in
          let both = and-eq-true (length (take 64 line) == 64) (all is_hex (take 64 line)) e in
          rw d (record { sixty_four = (==_iff _ _).0 both.0; hexadecimal = both.1 })
      | inr e ↦ absurd (hash_none (rw e at h))
    ]
  where
    hash_none : ◌≡◌ {A = Option (Bytes × Bytes × Bytes)} none (some (digest, size, name)) → ⊥
    hash_none p = cc

accept-IsEntry :
    (es : List Entry) (o : Option (Bytes × Bytes × Bytes)) (e : Entry)
    → ((digest size name : Bytes) → o ≡ some (digest, size, name) → IsDigest digest)
    → accept es o ≡ ok e
    → IsEntry e × (contains (names es) e.name ≡ false)
unfolding accept
accept-IsEntry es none e d h = cc
accept-IsEntry es (some (digest, size, name)) e d h =
    let (w, n, h₁) = >>=-eq-ok (normalized_path name) _ h in
    let (fresh, h₂) = raise_if->>-eq-ok (contains (names es) name) duplicate_entry _ h₁ in
    let (short, h₃) = raise_if->>-eq-ok (ltb int_max_str_digits (length size)) int_limit _ h₂ in
    let same : e ≡ record { name = name; digest = digest; size = number size } = cc h₃ in
    let q : normalized_path name ≡ ok name = rw (normalized_path-Passed name n).0 at n in
    rw same (record { portable = q; digest = d digest size name refl }, fresh)

-- The entries that the loop collects keep their form, and no name repeats.
record Collected (es : List Entry) : Type 0 where
  entries : All IsEntry es
  distinct : Distinct (names es)

Collected-snoc :
    (es : List Entry) (e : Entry)
    → Collected es
    → IsEntry e
    → contains (names es) e.name ≡ false
    → Collected (es ++ (e ∷ []))
Collected-snoc es e c h f = record {
  entries = All-append IsEntry es (e ∷ []) c.entries (h, tt);
  distinct = rw map-append (Distinct-snoc (names es) e.name c.distinct f);
}

parse_lines-Collected :
    (es : List Entry) (ls : List Bytes) (r : List Entry)
    → Collected es
    → parse_lines es ls ≡ ok r
    → Collected r
unfolding parse_lines
parse_lines-Collected es [] r c h = subst Collected (cc h) c
parse_lines-Collected es (line ∷ ls) r c h =
    let (e, a, h') = >>=-eq-ok (accept es (hash_line line)) _ h in
    let (form, fresh) = accept-IsEntry es (hash_line line) e (hash_line-IsDigest line) a in
    parse_lines-Collected (es ++ (e ∷ [])) ls r (Collected-snoc es e c form fresh) h'

-- A manifest that is accepted lists at least one file. Every name is portable, no name is listed
-- twice, the names are in order, and every digest has 64 hexadecimal digits.
pub parse_manifest_sound :
    (s : Bytes) (es : List Entry)
    → parse_manifest s ≡ ok es
    → (es ≢ []) × All IsEntry es × Distinct (names es) × IsSortedBy (λ n. n) (names es)
unfolding parse_manifest
parse_manifest_sound s es h =
    let (u, h₁) = raise_if->>-eq-ok (not (is_utf8 s)) not_utf8 _ h in
    let (rs, p, h₂) = >>=-eq-ok (parse_lines [] (split_lines s)) _ h₁ in
    let (sorted, h₃) = raise_if->>-eq-ok (not (is_sorted (names rs))) unsorted_manifest _ h₂ in
    let (full, h₄) = raise_if->>-eq-ok (is_nil rs) empty_manifest _ h₃ in
    let same : rs ≡ es = cc h₄ in
    let c : Collected rs =
      parse_lines-Collected [] (split_lines s) rs (record { entries = tt; distinct = tt }) p in
    subst (λ x. (x ≢ []) × All IsEntry x × Distinct (names x) × IsSortedBy (λ n. n) (names x)) same
      (
        ne_nil rs full,
        c.entries,
        c.distinct,
        (is_sorted_iff (names rs)).0 (not_false (is_sorted (names rs)) sorted),
      )
  where
    ne_nil : (x : List Entry) → is_nil x ≡ false → x ≢ []
    ne_nil [] e = ground arith
    ne_nil (y ∷ ys) e = ground arith

    not_false : (b : Bool) → not b ≡ false → b ≡ true
    not_false b e = ground arith
