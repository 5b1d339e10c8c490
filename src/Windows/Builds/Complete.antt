-- ===== src/Windows/Builds/Complete.antt =====
-- What `validate_approved_source` of scripts/patch_windows_app.py does with `TESTED_SOURCE_BUILDS`.
use codex_subscription_route.Prelude.{
  is_nil, ◌≡◌, refl, subst, Bool, true, false, not, ◌&&◌, Option, none, some, List, [], ◌∷◌, ◌++◌,
  all, Bool-cases, Option-cases, inl, inr, and-eq-true, if◌then◌else◌, ok, err,
}
use mathlib.Core.Option.{some-injective}
use codex_subscription_route.Text.{Bytes, codes, bytes_eq}
use codex_subscription_route.Windows.Approval.{
  SourceInfo, not_approved, Dictionary, get, Comparison, required, optional, mismatch,
  compare_required, compare_optional, mismatches_of, validate_approved_source,
}
use codex_subscription_route.Windows.Builds.{tested_source_builds}

abbrev is_some : Option Bytes → Bool
is_some none = false
is_some (some v) = true

-- Every key that `validate_approved_source` reads with `[]` is there.
abbrev has_keys : SourceInfo → Dictionary Bytes → Bool
has_keys source expected = all (λ c. is_some (get expected c.key)) (required source)

all-get :
    {V : Type 0} (test : V → Bool) (d : Dictionary V) (key : Bytes) {v : V}
    → all (λ e. test e.1) d ≡ true
    → get d key ≡ some v
    → test v ≡ true
unfolding get
all-get test [] key h e = cc
all-get test ((k, w) ∷ d) key h e =
    let (here, rest) = and-eq-true (test w) (all (λ e. test e.1) d) h in
    elim (Bool-cases (bytes_eq key k)) [
      | inl found ↦
          let e' = rw (found) at e in subst (λ u. test u ≡ true) (some-injective _ _ e') here
      | inr other ↦ let e' = rw (other) at e in all-get test d key rest e'
    ]

tested-has_keys : (source : SourceInfo) → all (λ e. has_keys source e.1) tested_source_builds ≡ true
unfolding tested_source_builds get bytes_eq
tested-has_keys source = refl

module _ (lower upper : Bytes → Bytes) where
  compare_required_total :
      (expected : Dictionary Bytes) (cs : List Comparison)
      → all (λ c. is_some (get expected c.key)) cs ≡ true
      → (ms : List Bytes) × (compare_required lower upper expected cs ≡ ok ms)
  unfolding compare_required
  compare_required_total expected [] h = ([], refl)
  compare_required_total expected (c ∷ cs) h =
      let (here, rest) = and-eq-true (is_some (get expected c.key)) _ h in
      let (ms, made) = compare_required_total expected cs rest in
      elim (Option-cases (get expected c.key)) [
        | inl nothing ↦ let here' = rw (nothing) at here in cc here'
        | inr (v, there) ↦ (mismatch lower upper c v ++ ms, rw (there, made) refl)
      ]

  compare_optional_total :
      (expected : Dictionary Bytes) (cs : List Comparison)
      → (ms : List Bytes) × (compare_optional lower upper expected cs ≡ ok ms)
  unfolding compare_optional
  compare_optional_total expected [] = ([], refl)
  compare_optional_total expected (c ∷ cs) =
      let (ms, made) = compare_optional_total expected cs in
      elim (Option-cases (get expected c.key)) [
        | inl nothing ↦ (ms, rw (nothing, made) refl)
        | inr (v, there) ↦ (mismatch lower upper c v ++ ms, rw (there, made) refl)
      ]

  mismatches_total :
      (source : SourceInfo)
      → (ms : List Bytes) × (mismatches_of lower upper source
            (get tested_source_builds source.package_version)
          ≡ ok ms)
  unfolding mismatches_of
  mismatches_total source = elim (Option-cases (get tested_source_builds source.package_version)) [
    | inl nothing ↦ (codes "package version" ∷ [], rw (nothing) refl)
    | inr (expected, there) ↦
        let complete =
          all-get (has_keys source) tested_source_builds source.package_version
            (tested-has_keys source) there in
        let (mandatory, one) = compare_required_total expected (required source) complete in
        let (further, two) = compare_optional_total expected (optional source) in
        (mandatory ++ further, rw (there, one, two) refl)
  ]

  -- With the table of the program, `validate_approved_source` never fails on a missing key, for any source:
  -- it returns the mismatches, or refuses the source with them, where there are some and untested sources
  -- are not allowed.
  pub validate_approved_source-tested :
      (source : SourceInfo) (allow_untested : Bool)
      → (ms : List Bytes) × (mismatches_of lower upper source
            (get tested_source_builds source.package_version)
          ≡ ok ms)
        × (validate_approved_source lower upper tested_source_builds source allow_untested
            ≡ (if not (is_nil ms) && not allow_untested then err (not_approved ms) else ok ms))
  unfolding validate_approved_source
  validate_approved_source-tested source allow_untested =
      let (ms, made) = mismatches_total source in
      (
        ms,
        made,
        rw (made) (elim (Bool-cases (not (is_nil ms) && not allow_untested)) [
          | inl refused ↦ rw (refused) refl
          | inr accepted ↦ rw (accepted) refl
        ]),
      )
