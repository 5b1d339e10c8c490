-- ===== src/Windows/Limits/Within.antt =====
-- What `resolve_control_port` and `validate_windows_path_budget` of scripts/patch_windows_app.py let
-- through.
use codex_subscription_route.Prelude.{
  ok-injective, ℕ, ◌+◌, ◌-◌, ◌≤◌, ◌<◌, ◌≡◌, ◌↔◌, refl, false, not, ◌&&◌, Option, none, some, List,
  [], ◌∷◌, arith, leb, All, ok, >>=-eq-ok, raise_if->>-eq-ok,
}
use codex_subscription_route.Text.{Bytes}
use codex_subscription_route.Release.Library.{ℤ, pos, negsuc}
use codex_subscription_route.Windows.Limits.{
  port_out_of_range, path_too_long, minimum_control_port, maximum_control_port,
  resolve_control_port, utf16_length, check_roots, validate_windows_path_budget,
}

-- A port that is resolved is a dynamic one, if `secrets.randbelow` returns a number below its argument;
-- and it is the one that was asked for, if one was.
resolve_control_port-bounds :
    (randbelow : ℕ) (value : Option ℤ) (port : ℕ)
    → randbelow < maximum_control_port - minimum_control_port + 1
    → resolve_control_port randbelow value ≡ ok port
    → (49152 ≤ port) × (port ≤ 65535) × ((n : ℤ) → value ≡ some n → n ≡ pos port)
unfolding resolve_control_port
resolve_control_port-bounds randbelow none port r h =
    let same = ok-injective h in (omega (arith, r, same), omega (arith, r, same), λ n e. cc e)
resolve_control_port-bounds randbelow (some (negsuc n)) port r h = cc h
resolve_control_port-bounds randbelow (some (pos n)) port r h =
    let (inside, made) =
      raise_if->>-eq-ok (not (leb minimum_control_port n && leb n maximum_control_port))
        port_out_of_range _ h in
    let same = ok-injective made in
    let low : 49152 ≤ n = ground (arith, inside) in
    let high : n ≤ 65535 = ground (arith, inside) in
    (omega (arith, low, same), omega (arith, high, same), λ m e. cc (e, same))

module _ (join : Bytes → Bytes → Bytes) where
  -- Below both roots, the path has fewer than 260 units of UTF-16.
  abbrev pub IsShort : Bytes → Bytes → Bytes → Type 0
  IsShort destination staged_app relative =
      (utf16_length (join destination relative) < 260)
      × (utf16_length (join staged_app relative) < 260)

  -- `validate_windows_path_budget` returns exactly where every path of the source, put below the
  -- destination and below the staging directory, has fewer than 260 units of UTF-16.
  pub validate_windows_path_budget_iff :
      (paths : List Bytes) (destination staged_app : Bytes)
      → (validate_windows_path_budget join paths destination staged_app ≡ ok tt)
        ↔ All (IsShort destination staged_app) paths
  unfolding validate_windows_path_budget check_roots
  validate_windows_path_budget_iff [] destination staged_app = (λ h. tt, λ h. refl)
  validate_windows_path_budget_iff (relative ∷ paths) destination staged_app = (
    λ h.
        let (_, checked, rest) =
          >>=-eq-ok (check_roots join relative (destination ∷ staged_app ∷ [])) _ h in
        let (one, more) =
          raise_if->>-eq-ok (leb 260 (utf16_length (join destination relative)))
            (path_too_long (join destination relative)) _ checked in
        let (two, _) =
          raise_if->>-eq-ok (leb 260 (utf16_length (join staged_app relative)))
            (path_too_long (join staged_app relative)) _ more in
        (
          (ground (arith, one), ground (arith, two)),
          (validate_windows_path_budget_iff paths destination staged_app).0 rest,
        ),
    λ (short, shorts).
        let one : leb 260 (utf16_length (join destination relative)) ≡ false =
          ground (arith, short.0) in
        let two : leb 260 (utf16_length (join staged_app relative)) ≡ false =
          ground (arith, short.1) in
        rw (one, two) ((validate_windows_path_budget_iff paths destination staged_app).1 shorts),
  )
