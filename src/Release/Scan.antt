-- ===== src/Release/Scan.antt =====
-- `scan_source_file` of scripts/release/release_artifacts.py. `lower` is `str.lower`, a parameter:
-- its table for characters outside ASCII is the standard library's.
pub mod Refuses
use codex_subscription_route.Prelude.{
  ℕ, ◌*◌, Bool, ◌&&◌, ◌||◌, List, [], ◌∷◌, ◌++◌, map, ltb, any, length, Outcome, ok, ◌>>=◌, ◌>>◌,
  raise_if,
}
use codex_subscription_route.Text.{Bytes, codes, bytes_eq, contains, starts_with}
use codex_subscription_route.PurePath.{parse_path, parts, name, suffix}
use codex_subscription_route.Release.Errors.{
  ReleaseError, local_state, forbidden_suffix, installed_path, too_large, secret, executable_magic,
  zip_magic,
}
use codex_subscription_route.Release.Path.{normalized_path}
use codex_subscription_route.Release.Secrets.{has_secret}

abbrev pub forbidden_names : List Bytes
forbidden_names =
    codes ".env"
    ∷ codes "auth.json"
    ∷ codes "control-token"
    ∷ codes "credentials.json"
    ∷ codes "state.json"
    ∷ []

abbrev pub forbidden_suffixes : List Bytes
forbidden_suffixes =
    codes ".7z"
    ∷ codes ".a"
    ∷ codes ".app"
    ∷ codes ".appinstaller"
    ∷ codes ".appx"
    ∷ codes ".appxbundle"
    ∷ codes ".appxsym"
    ∷ codes ".appxupload"
    ∷ codes ".asar"
    ∷ codes ".cer"
    ∷ codes ".crt"
    ∷ codes ".dmp"
    ∷ codes ".dll"
    ∷ codes ".dmg"
    ∷ codes ".dylib"
    ∷ codes ".exe"
    ∷ codes ".gz"
    ∷ codes ".key"
    ∷ codes ".lib"
    ∷ codes ".mobileprovision"
    ∷ codes ".msi"
    ∷ codes ".msix"
    ∷ codes ".msixbundle"
    ∷ codes ".msixupload"
    ∷ codes ".node"
    ∷ codes ".nupkg"
    ∷ codes ".o"
    ∷ codes ".obj"
    ∷ codes ".p12"
    ∷ codes ".pem"
    ∷ codes ".pfx"
    ∷ codes ".pkg"
    ∷ codes ".provisionprofile"
    ∷ codes ".rar"
    ∷ codes ".so"
    ∷ codes ".tar"
    ∷ codes ".wasm"
    ∷ codes ".zip"
    ∷ []

abbrev pub forbidden_path_parts : List Bytes
forbidden_path_parts =
    codes "codex subscription router data"
    ∷ codes "openai.codex_2p2nqsd0c76g0"
    ∷ codes "windowsapps"
    ∷ []

abbrev pub max_source_file_size : ℕ
max_source_file_size = 10 * 1024 * 1024

-- `MZ`, ELF, and the Mach-O and universal binaries.
abbrev pub executable_magics : List Bytes
executable_magics =
    codes "MZ"
    ∷ (0x7f ∷ codes "ELF")
    ∷ (0xca ∷ 0xfe ∷ 0xba ∷ 0xbe ∷ [])
    ∷ (0xce ∷ 0xfa ∷ 0xed ∷ 0xfe ∷ [])
    ∷ (0xcf ∷ 0xfa ∷ 0xed ∷ 0xfe ∷ [])
    ∷ (0xfe ∷ 0xed ∷ 0xfa ∷ 0xce ∷ [])
    ∷ (0xfe ∷ 0xed ∷ 0xfa ∷ 0xcf ∷ [])
    ∷ []

-- The tests on the file's name.
unfoldable pub is_local_state : Bytes → Bytes → Bool
is_local_state base ext =
    contains forbidden_names base
    || starts_with base (codes ".env.")
    || (starts_with base (codes "credentials") || starts_with base (codes "secrets"))
      && bytes_eq ext (codes ".json")
    || bytes_eq ext (codes ".token")

-- The test on the directories.
unfoldable pub is_installed : List Bytes → Bool
is_installed lowered =
    any (contains forbidden_path_parts) lowered
    || any (λ p. starts_with p (codes "openai.codex_")) lowered

module _ (lower : Bytes → Bytes) where
  -- The tests after the path is known to be canonical.
  unfoldable pub scan_normalized : Bytes → Bytes → Outcome ReleaseError (Unit {0})
  scan_normalized normalized content = do
    let path = parse_path normalized
    let base = lower (name path)
    let ext = lower (suffix path)
    raise_if (is_local_state base ext) local_state
    raise_if (contains forbidden_suffixes ext) forbidden_suffix
    raise_if (is_installed (map lower (parts path))) installed_path
    raise_if (ltb max_source_file_size (length content)) too_large
    raise_if (has_secret content) secret
    raise_if (any (starts_with content) executable_magics) executable_magic
    raise_if (starts_with content (codes "PK" ++ (0x03 ∷ 0x04 ∷ []))) zip_magic
    ok tt

  unfoldable pub scan_source_file : Bytes → Bytes → Outcome ReleaseError (Unit {0})
  scan_source_file relative_path content = do
    normalized ← normalized_path relative_path
    scan_normalized normalized content
