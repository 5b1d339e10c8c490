-- ===== src/Release/Go/References.antt =====
-- The references of the components that `_go_components` of scripts/release/release_artifacts.py makes
-- are all different.
use codex_subscription_route.Prelude.{
  is_nil, ◌≡◌, ◌∙◌, refl, ap, true, false, ◌||◌, List, [], ◌∷◌, ◌++◌, map, arith, any, drop,
  Bool-cases, inl, inr, or-eq-false,
}
use codex_subscription_route.Text.{
  Bytes, codes, bytes_eq_iff, bytes_eq_comm, contains, has_byte, has_byte-append, Lacks,
  Lacks-append, quote, quote-Lacks, quote-injective, Distinct,
}
use codex_subscription_route.Release.Go.{
  go_purl, go_component, insert_pair, sorted_set, same_pair, pair_le,
}
use codex_subscription_route.Release.Npm.References.{refs_of, bytes_eq-false}

abbrev pub DistinctPairs : List (Bytes × Bytes) → Type 0
DistinctPairs [] = Unit
DistinctPairs (p ∷ ps) = (any (same_pair p) ps ≡ false) × DistinctPairs ps

same_pair_comm : (p q : Bytes × Bytes) → same_pair p q ≡ same_pair q p
same_pair_comm (a, b) (c, d) = rw (bytes_eq_comm a c, bytes_eq_comm b d)

any-insert_pair :
    (p q : Bytes × Bytes) (ps : List (Bytes × Bytes))
    → any (same_pair p) (insert_pair q ps) ≡ (same_pair p q || any (same_pair p) ps)
unfolding insert_pair
any-insert_pair p q [] = refl
any-insert_pair p q (r ∷ rs) = elim (Bool-cases (pair_le q r)) [
  | inl here ↦ rw (here) refl
  | inr later ↦ rw (later, any-insert_pair p q rs) (ground arith)
]

insert_pair-Distinct :
    (p : Bytes × Bytes) (ps : List (Bytes × Bytes))
    → any (same_pair p) ps ≡ false
    → DistinctPairs ps
    → DistinctPairs (insert_pair p ps)
unfolding insert_pair
insert_pair-Distinct p [] new d = (refl, tt)
insert_pair-Distinct p (q ∷ qs) new d = elim (Bool-cases (pair_le p q)) [
  | inl here ↦ rw (here) (new, d)
  | inr later ↦
      let (apart, rest) = or-eq-false (same_pair p q) (any (same_pair p) qs) new in
      rw (later) (
        any-insert_pair q p qs ∙ rw (same_pair_comm q p, apart) d.0,
        insert_pair-Distinct p qs rest d.1,
      )
]

pub sorted_set-Distinct : (ps : List (Bytes × Bytes)) → DistinctPairs (sorted_set ps)
unfolding sorted_set
sorted_set-Distinct [] = tt
sorted_set-Distinct (p ∷ ps) = elim (Bool-cases (any (same_pair p) (sorted_set ps))) [
  | inl old ↦ rw (old) (sorted_set-Distinct ps)
  | inr new ↦ rw (new) (insert_pair-Distinct p (sorted_set ps) new (sorted_set-Distinct ps))
]

go_purl-Lacks : (name version : Bytes) → Lacks b'?' (go_purl name version)
unfolding has_byte
go_purl-Lacks name version =
    has_byte-append b'?' (codes "pkg:golang/")
      (quote (codes "/") name ++ (codes "@" ++ quote [] version))
    ∙ has_byte-append b'?' (quote (codes "/") name) (codes "@" ++ quote [] version)
    ∙ rw (quote-Lacks (codes "/") b'?' name (refl, refl, refl, omega arith))
        (quote-Lacks [] b'?' version (refl, refl, refl, omega arith))

go_purl-injective : (n v n' v' : Bytes) → go_purl n v ≡ go_purl n' v' → (n ≡ n') × (v ≡ v')
unfolding has_byte
go_purl-injective n v n' v' h =
    let (names, versions) =
      Lacks-append b'@' (quote (codes "/") n) (quote (codes "/") n') (quote [] v) (quote [] v')
        (quote-Lacks (codes "/") b'@' n (refl, refl, refl, omega arith))
        (quote-Lacks (codes "/") b'@' n' (refl, refl, refl, omega arith)) (ap (drop 11) h) in
    (quote-injective (codes "/") n n' refl names, quote-injective [] v v' refl versions)

module _ (sums : List (Bytes × Bytes × Bytes)) where
  go_ref-fresh :
      (n v : Bytes) (ps : List (Bytes × Bytes))
      → any (same_pair (n, v)) ps ≡ false
      → contains (refs_of (map (go_component sums) ps)) (go_purl n v) ≡ false
  unfolding contains go_component
  go_ref-fresh n v [] h = refl
  go_ref-fresh n v ((n', v') ∷ ps) h =
      let (apart, rest) = or-eq-false (same_pair (n, v) (n', v')) (any (same_pair (n, v)) ps) h in
      rw
        (bytes_eq-false (go_purl n v) (go_purl n' v') (λ same.
          let (e, f) = go_purl-injective n v n' v' same in
          ground (arith, bytes_eq_iff n n', bytes_eq_iff v v')))
        (go_ref-fresh n v ps rest)

  pub go_refs-Distinct :
      (ps : List (Bytes × Bytes))
      → DistinctPairs ps
      → Distinct (refs_of (map (go_component sums) ps))
  unfolding go_component
  go_refs-Distinct [] d = tt
  go_refs-Distinct ((n, v) ∷ ps) d = (go_ref-fresh n v ps d.0, go_refs-Distinct ps d.1)

  -- A reference with a question mark is not that of a Go module.
  pub go_refs-Lacks :
      (ref : Bytes) (ps : List (Bytes × Bytes))
      → has_byte b'?' ref ≡ true
      → contains (refs_of (map (go_component sums) ps)) ref ≡ false
  unfolding contains go_component
  go_refs-Lacks ref [] h = refl
  go_refs-Lacks ref ((n, v) ∷ ps) h =
      rw
        (bytes_eq-false ref (go_purl n v)
          (λ same. let e = ap (has_byte b'?') same in ground (arith, go_purl-Lacks n v)))
        (go_refs-Lacks ref ps h)

  -- No reference of a Go module is empty.
  pub go_refs-ne-nil :
      (ps : List (Bytes × Bytes)) → any is_nil (refs_of (map (go_component sums) ps)) ≡ false
  unfolding go_component
  go_refs-ne-nil [] = refl
  go_refs-ne-nil ((n, v) ∷ ps) = go_refs-ne-nil ps
