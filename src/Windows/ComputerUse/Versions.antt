-- ===== src/Windows/ComputerUse/Versions.antt =====
-- The versions that `inspect_computer_use_contract` of scripts/patch_windows_app.py accepts.
use mathlib.Core.List.{reverse-append, reverse-reverse}
use codex_subscription_route.Prelude.{
  ◌-◌, ◌≡◌, ◌⊎◌, ◌∙◌, refl, sym, ap, subst, true, not, ◌++◌, reverse, drop, take, length,
  length-append, take-append_length, Bool-cases, inl, inr, arith, ok, >>=-eq-ok, raise_if->>-eq-ok,
  ok-injective,
}
use codex_subscription_route.Text.{
  Bytes, codes, bytes_eq, bytes_eq_iff, ends_with, starts_with-eq_append,
}
use codex_subscription_route.Json.{JsonFields}
use codex_subscription_route.Windows.Disk.{Python, versions_disagree}
use codex_subscription_route.Windows.ComputerUse.Manifest.{
  is_manifest_version, is_binary_version, is_short, require_text, remove_suffix, check_versions,
}

ends_with-eq_append : (s p : Bytes) → ends_with s p ≡ true → (x : Bytes) × (s ≡ x ++ p)
unfolding ends_with
ends_with-eq_append s p h =
    let x = drop (length (reverse p)) (reverse s) in
    (
      reverse x,
      sym (reverse-reverse s)
          ∙ ap reverse (starts_with-eq_append (reverse s) (reverse p) h)
          ∙ reverse-append (reverse p) x
          ∙ ap (λ r. reverse x ++ r) (reverse-reverse p),
    )

take-append_suffix : (x p : Bytes) → take (length (x ++ p) - length p) (x ++ p) ≡ x
take-append_suffix x p =
    let count : length (x ++ p) - length p ≡ length x = omega (arith, length-append x p) in
    ap (λ n. take n (x ++ p)) count ∙ take-append_length x p

-- A text is what is left without the suffix, with the suffix or without.
remove_suffix-cases : (p s : Bytes) → (s ≡ remove_suffix p s) ⊎ (s ≡ remove_suffix p s ++ p)
remove_suffix-cases p s = elim (Bool-cases (ends_with s p)) [
  | inl there ↦
      let (x, same) = ends_with-eq_append s p there in
      let cut : take (length s - length p) s ≡ x =
        ap (λ t. take (length t - length p) t) same ∙ take-append_suffix x p in
      inr (rw (there) (same ∙ ap (λ y. y ++ p) (sym cut)))
  | inr absent ↦ inl (rw (absent) refl)
]

-- The package of Node has the version of its binary, with `-cua.1` behind it or not.
pub check_versions-agree :
    (py : Python) (manifest : JsonFields) (versions : Bytes × Bytes × Bytes)
    → check_versions py manifest ≡ ok versions
    → (versions.0 ≡ versions.1) ⊎ (versions.0 ≡ versions.1 ++ codes "-cua.1")
unfolding check_versions
check_versions-agree py manifest versions h =
    let (found, _, h1) = >>=-eq-ok (require_text is_manifest_version _ _) _ h in
    let (binary, _, h2) = >>=-eq-ok (require_text is_binary_version _ _) _ h1 in
    let (agree, h3) =
      raise_if->>-eq-ok (not (bytes_eq (remove_suffix (codes "-cua.1") found) binary))
        versions_disagree _ h2 in
    let (runtime, _, h4) = >>=-eq-ok (require_text is_short _ _) _ h3 in
    let (_, _, h5) = >>=-eq-ok (require_text _ _ _) _ h4 in
    let same : remove_suffix (codes "-cua.1") found ≡ binary =
      (bytes_eq_iff _ _).0 (ground arith) in
    let cases : (found ≡ binary) ⊎ (found ≡ binary ++ codes "-cua.1") =
      subst (λ b. (found ≡ b) ⊎ (found ≡ b ++ codes "-cua.1")) same
        (remove_suffix-cases (codes "-cua.1") found) in
    subst (λ (v : Bytes × Bytes × Bytes). (v.0 ≡ v.1) ⊎ (v.0 ≡ v.1 ++ codes "-cua.1"))
      (ok-injective h5) cases
