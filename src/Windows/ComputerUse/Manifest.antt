-- ===== src/Windows/ComputerUse/Manifest.antt =====
-- The manifest that `inspect_computer_use_contract` of scripts/patch_windows_app.py reads.
use codex_subscription_route.Prelude.{
  ◌-◌, Bool, false, not, ◌&&◌, ◌||◌, Option, none, some, List, [], ◌∷◌, leb, length, take, is_nil,
  if◌then◌else◌, Outcome, ok, err, ◌>>=◌, ◌>>◌, raise_if,
}
use codex_subscription_route.Text.{Bytes, codes, bytes_eq, ends_with}
use codex_subscription_route.Json.{Json, text, JsonFields, lookup, is_text}
use codex_subscription_route.Release.Context.{after_digits, after_dot}
use codex_subscription_route.Windows.Disk.{
  Python, ContractError, manifest_differs, invalid_field, versions_disagree, text_length,
}

abbrev pub is_value : Bytes → Option Json → Bool
is_value wanted none = false
is_value wanted (some v) = is_text wanted v

-- The dictionary's entries, in order.
unfoldable pub check_exact : JsonFields → List (Bytes × Bytes) → Outcome ContractError (Unit {0})
check_exact manifest [] = ok tt
check_exact manifest ((key, wanted) ∷ entries) = do
  raise_if (not (is_value wanted (lookup key manifest))) (manifest_differs key)
  check_exact manifest entries

-- `\d+\.\d+\.\d+` and `(?:-cua\.1)?` up to the end. A digit outside ASCII is not read.
abbrev after_version : Bytes → Option Bytes
after_version s = after_dot (after_dot (after_digits false s))

abbrev is_rest : Bytes → Option Bytes → Bool
is_rest wanted none = false
is_rest wanted (some s) = bytes_eq s wanted

abbrev pub is_binary_version : Bytes → Bool
is_binary_version s = is_rest [] (after_version s)

abbrev pub is_manifest_version : Bytes → Bool
is_manifest_version s = is_rest [] (after_version s) || is_rest (codes "-cua.1") (after_version s)

-- `s.removesuffix(p)`
abbrev pub remove_suffix : Bytes → Bytes → Bytes
remove_suffix p s = if ends_with s p then take (length s - length p) s else s

-- A value that must be a text that passes a test.
unfoldable pub require_text : (Bytes → Bool) → Bytes → Option Json → Outcome ContractError Bytes
require_text test key (some (text s)) = do raise_if (not (test s)) (invalid_field key); ok s
require_text test key _ = err (invalid_field key)

abbrev pub is_short : Bytes → Bool
is_short s = not (is_nil s) && leb (text_length s) 192

-- `manifest.get(key, default)`
abbrev pub or_text : Bytes → Option Json → Option Json
or_text default none = some (text default)
or_text default (some v) = some v

-- The versions of the manifest: of the package of Node, of its binary, and of the runtime.
unfoldable pub check_versions : Python → JsonFields → Outcome ContractError (Bytes × Bytes × Bytes)
check_versions py manifest = do
  found ←
      require_text is_manifest_version (codes "node_version")
        (lookup (codes "node_version") manifest)
  binary ←
      require_text is_binary_version (codes "node_binary_version")
        (or_text found (lookup (codes "node_binary_version") manifest))
  raise_if (not (bytes_eq (remove_suffix (codes "-cua.1") found) binary)) versions_disagree
  runtime ←
      require_text is_short (codes "runtime_archive_version")
        (lookup (codes "runtime_archive_version") manifest)
  _ ←
      require_text
        (λ s.
          leb (text_length s) 255
          && bytes_eq (py.path_name s) s
          && ends_with s (codes "-windows-x64.zip"))
        (codes "runtime_archive_name") (lookup (codes "runtime_archive_name") manifest)
  ok (found, binary, runtime)
