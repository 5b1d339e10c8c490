-- ===== src/Windows/Limits.antt =====
-- `resolve_control_port` and `validate_windows_path_budget` of scripts/patch_windows_app.py.
pub mod Within
use codex_subscription_route.Prelude.{
  ℕ, ◌+◌, not, ◌&&◌, Option, none, some, List, [], ◌∷◌, ltb, leb, if◌then◌else◌, Outcome, ok, err,
  ◌>>=◌, ◌>>◌, raise_if,
}
use codex_subscription_route.Text.{Bytes}
use codex_subscription_route.Release.Library.{ℤ, pos, negsuc}

pub data LimitError : Type 0 where
  port_out_of_range : LimitError
  path_too_long : Bytes → LimitError

abbrev pub minimum_control_port : ℕ
minimum_control_port = 49152

abbrev pub maximum_control_port : ℕ
maximum_control_port = 65535

-- `randbelow` is what `secrets.randbelow` returns for the number of ports.
unfoldable pub resolve_control_port : ℕ → Option ℤ → Outcome LimitError ℕ
resolve_control_port randbelow none = ok (minimum_control_port + randbelow)
resolve_control_port randbelow (some (negsuc n)) = err port_out_of_range
resolve_control_port randbelow (some (pos n)) = do
  raise_if (not (leb minimum_control_port n && leb n maximum_control_port)) port_out_of_range
  ok n

-- `len(s.encode("utf-16-le")) // 2`: one unit for a character, two beyond the basic plane.
unfoldable pub utf16_length : Bytes → ℕ
utf16_length [] = 0
utf16_length (c ∷ s) =
    let rest = utf16_length s in
    if leb 0x80 c && ltb c 0xc0 then rest else (if leb 0xf0 c then 2 + rest else 1 + rest)

-- `join` is `str(root / relative)`.
module _ (join : Bytes → Bytes → Bytes) where
  -- The loop over the roots.
  unfoldable pub check_roots : Bytes → List Bytes → Outcome LimitError (Unit {0})
  check_roots relative [] = ok tt
  check_roots relative (root ∷ roots) = do
    raise_if (leb 260 (utf16_length (join root relative))) (path_too_long (join root relative))
    check_roots relative roots

  -- The paths below the source, relative to it.
  unfoldable pub validate_windows_path_budget :
      List Bytes → Bytes → Bytes → Outcome LimitError (Unit {0})
  validate_windows_path_budget [] destination staged_app = ok tt
  validate_windows_path_budget (relative ∷ paths) destination staged_app = do
    check_roots relative (destination ∷ staged_app ∷ [])
    validate_windows_path_budget paths destination staged_app
