-- ===== src/Windows/Approval/Approved.antt =====
-- Which sources `validate_approved_source` of scripts/patch_windows_app.py approves.
use codex_subscription_route.Prelude.{
  ok-injective, is_nil, ◌⊎◌, ◌≡◌, ◌∙◌, refl, ap, true, false, not, ◌&&◌, Option, none, some, List,
  [], ◌∷◌, ◌++◌, arith, Bool-cases, Option-cases, inl, inr, All, ok, >>=-eq-ok, raise_if->>-eq-ok,
}
use codex_subscription_route.Text.{Bytes, bytes_eq_iff}
use codex_subscription_route.Windows.Approval.{
  SourceInfo, not_approved, Dictionary, get, Comparison, required, optional, cased, agrees,
  mismatch, require, allow_missing, compare_required, compare_optional, mismatches_of,
  validate_approved_source,
}

append-eq-nil : (xs ys : List Bytes) → xs ++ ys ≡ [] → (xs ≡ []) × (ys ≡ [])
append-eq-nil [] ys h = (refl, h)
append-eq-nil (x ∷ xs) ys h = cc

module _ (lower : Bytes → Bytes) (upper : Bytes → Bytes) where
  -- The table has the value of the source under the key, up to case.
  abbrev pub Agrees : Dictionary Bytes → Comparison → Type 0
  Agrees expected c =
      (wanted : Bytes) × (get expected c.key ≡ some wanted)
      × (cased lower upper c.key c.actual ≡ cased lower upper c.key wanted)

  mismatch-nil :
      (c : Comparison) (wanted : Bytes)
      → mismatch lower upper c wanted ≡ []
      → cased lower upper c.key c.actual ≡ cased lower upper c.key wanted
  mismatch-nil c wanted h = elim (Bool-cases (agrees lower upper c wanted)) [
    | inl same ↦ (bytes_eq_iff _ _).0 same
    | inr other ↦ let h' = rw (other) at h in cc
  ]

  require-Agrees :
      (expected : Dictionary Bytes) (c : Comparison)
      → require lower upper c (get expected c.key) ≡ ok []
      → Agrees expected c
  require-Agrees expected c h = elim (Option-cases (get expected c.key)) [
    | inl nothing ↦ let h' = rw (nothing) at h in cc
    | inr (wanted, there) ↦
        let h' = rw (there) at h in (wanted, there, mismatch-nil c wanted (ok-injective h'))
  ]

  compare_required-Agrees :
      (expected : Dictionary Bytes) (cs : List Comparison)
      → compare_required lower upper expected cs ≡ ok []
      → All (Agrees expected) cs
  unfolding compare_required
  compare_required-Agrees expected [] h = tt
  compare_required-Agrees expected (c ∷ cs) h =
      let (here, h1, h2) = >>=-eq-ok (require lower upper c (get expected c.key)) _ h in
      let (rest, h3, h4) = >>=-eq-ok (compare_required lower upper expected cs) _ h2 in
      let (no_here, no_rest) = append-eq-nil here rest (ok-injective h4) in
      (
        require-Agrees expected c (h1 ∙ ap ok no_here),
        compare_required-Agrees expected cs (h3 ∙ ap ok no_rest),
      )

  -- The table has no value under the key, or it agrees.
  abbrev pub AgreesIfThere : Dictionary Bytes → Comparison → Type 0
  AgreesIfThere expected c = (get expected c.key ≡ none) ⊎ Agrees expected c

  allow_missing-Agrees :
      (expected : Dictionary Bytes) (c : Comparison)
      → allow_missing lower upper c (get expected c.key) ≡ ok []
      → AgreesIfThere expected c
  allow_missing-Agrees expected c h = elim (Option-cases (get expected c.key)) [
    | inl nothing ↦ inl nothing
    | inr (wanted, there) ↦
        let h' = rw (there) at h in inr (wanted, there, mismatch-nil c wanted (ok-injective h'))
  ]

  compare_optional-Agrees :
      (expected : Dictionary Bytes) (cs : List Comparison)
      → compare_optional lower upper expected cs ≡ ok []
      → All (AgreesIfThere expected) cs
  unfolding compare_optional
  compare_optional-Agrees expected [] h = tt
  compare_optional-Agrees expected (c ∷ cs) h =
      let (here, h1, h2) = >>=-eq-ok (allow_missing lower upper c (get expected c.key)) _ h in
      let (rest, h3, h4) = >>=-eq-ok (compare_optional lower upper expected cs) _ h2 in
      let (no_here, no_rest) = append-eq-nil here rest (ok-injective h4) in
      (
        allow_missing-Agrees expected c (h1 ∙ ap ok no_here),
        compare_optional-Agrees expected cs (h3 ∙ ap ok no_rest),
      )

  -- The table has an entry that agrees with the source.
  abbrev pub InTable : SourceInfo → Option (Dictionary Bytes) → Type 0
  InTable source entry =
      (expected : Dictionary Bytes) × (entry ≡ some expected)
      × All (Agrees expected) (required source)
      × All (AgreesIfThere expected) (optional source)

  mismatches_of-nil :
      (source : SourceInfo) (entry : Option (Dictionary Bytes))
      → mismatches_of lower upper source entry ≡ ok []
      → InTable source entry
  unfolding mismatches_of
  mismatches_of-nil source none h = let h' = ok-injective h in cc
  mismatches_of-nil source (some expected) h =
      let (mandatory, h1, h2) =
        >>=-eq-ok (compare_required lower upper expected (required source)) _ h in
      let (further, h3, h4) =
        >>=-eq-ok (compare_optional lower upper expected (optional source)) _ h2 in
      let (no_mandatory, no_further) = append-eq-nil mandatory further (ok-injective h4) in
      (
        expected,
        refl,
        compare_required-Agrees expected (required source) (h1 ∙ ap ok no_mandatory),
        compare_optional-Agrees expected (optional source) (h3 ∙ ap ok no_further),
      )

  is_nil-eq-true : (xs : List Bytes) → is_nil xs ≡ true → xs ≡ []
  is_nil-eq-true [] h = refl
  is_nil-eq-true (x ∷ xs) h = cc

  -- Without `allow_untested`, `validate_approved_source` accepts a source only if the table has an
  -- entry for its package version that agrees with it, up to case, in every required value and in
  -- every optional value that the entry has.
  pub validate_approved_source-InTable :
      (tested : Dictionary (Dictionary Bytes)) (source : SourceInfo) (r : List Bytes)
      → validate_approved_source lower upper tested source false ≡ ok r
      → InTable source (get tested source.package_version)
  unfolding validate_approved_source
  validate_approved_source-InTable tested source r h =
      let (mismatches, h1, h2) =
        >>=-eq-ok (mismatches_of lower upper source (get tested source.package_version)) _ h in
      let (none_left, h3) =
        raise_if->>-eq-ok (not (is_nil mismatches) && not false) (not_approved mismatches) _ h2 in
      let empty : mismatches ≡ [] = is_nil-eq-true mismatches (ground arith) in
      mismatches_of-nil source (get tested source.package_version) (h1 ∙ ap ok empty)
