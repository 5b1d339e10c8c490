-- ===== src/Release/Npm.antt =====
-- `_npm_components` of scripts/release/release_artifacts.py, and the components of both kinds.
pub mod References
use codex_subscription_route.Prelude.{
  not, Option, none, some, List, [], ◌∷◌, ◌++◌, ◌==◌, length, drop, if◌then◌else◌, Outcome, ok, err,
  ◌>>=◌, ◌>>◌, raise_if,
}
use codex_subscription_route.Text.{
  Bytes, codes, is_utf8, sort_by, includes, after_last, quote, hex, starts_with,
}
use codex_subscription_route.Json.{
  Json, null, text, object, object_of, optional_entry, array_of, entries_of, is_truthy,
}
use codex_subscription_route.Release.Errors.{
  ReleaseError, no_npm_version, invalid_integrity, value_error, os_error, attribute_error,
}
use codex_subscription_route.Release.Library.{Library, Repository, get, empty_object}

-- A component of the bill of materials; its optional keys.
pub record Component : Type 0 where
  pub bom_ref : Bytes
  pub name : Bytes
  pub purl : Bytes
  pub scope : Bytes
  pub version : Bytes
  pub license : Option Bytes
  pub sha512 : Option Bytes
  pub checksum : Option Bytes

abbrev pub license_entry : Bytes → Json
license_entry s =
    array_of (object_of ((codes "license", object_of ((codes "id", text s) ∷ [])) ∷ []) ∷ [])

abbrev pub hash_entry : Bytes → Json
hash_entry s =
    array_of
      (object_of ((codes "alg", text (codes "SHA-512")) ∷ (codes "content", text s) ∷ []) ∷ [])

abbrev pub checksum_entry : Bytes → Json
checksum_entry s = array_of (
    object_of ((codes "name", text (codes "go:moduleChecksum")) ∷ (codes "value", text s) ∷ [])
    ∷ [])

abbrev pub map_option : {A B : Type 0} → (A → B) → Option A → Option B
map_option f none = none
map_option f (some a) = some (f a)

-- The dictionary of a component.
unfoldable pub component_json : Component → Json
component_json c = object_of (
    (codes "bom-ref", text c.bom_ref)
    ∷ (optional_entry (codes "hashes") (map_option hash_entry c.sha512)
        ++ (optional_entry (codes "licenses") (map_option license_entry c.license)
            ++ ((codes "name", text c.name)
                ∷ (optional_entry (codes "properties") (map_option checksum_entry c.checksum)
                    ++ ((codes "purl", text c.purl)
                        ∷ (codes "scope", text c.scope)
                        ∷ (codes "type", text (codes "library"))
                        ∷ (codes "version", text c.version)
                        ∷ []))))))

abbrev pub text_or_error : ReleaseError → Json → Outcome ReleaseError Bytes
text_or_error e (text s) = ok s
text_or_error e _ = err e

-- `isinstance(v, str) and v`
abbrev pub text_value : Json → Option Bytes
text_value (text []) = none
text_value (text (c ∷ s)) = some (c ∷ s)
text_value _ = none

abbrev pub sha512_of : Option Bytes → Outcome ReleaseError (Option Bytes)
sha512_of none = err invalid_integrity
sha512_of (some raw) = raise_if (not (length raw == 64)) invalid_integrity >> ok (some (hex raw))

-- The key "integrity"
abbrev pub read_integrity : Library → Json → Outcome ReleaseError (Option Bytes)
read_integrity py (text s) =
    if starts_with s (codes "sha512-") then sha512_of (py.b64decode (drop 7 s)) else ok none
read_integrity py _ = ok none

abbrev pub node_modules : Bytes
node_modules = codes "node_modules/"

abbrev pub npm_purl : Bytes → Bytes → Bytes
npm_purl name version =
    codes "pkg:npm/" ++ (quote (codes "/") name ++ (codes "@" ++ quote [] version))

-- The body of the loop for an installed package.
unfoldable pub npm_component : Library → Bytes → Json → Outcome ReleaseError Component
npm_component py lock_path entry = do
  found ← get (codes "version") null entry
  version ← text_or_error no_npm_version found
  let name = after_last node_modules lock_path
  let purl = npm_purl name version
  is_optional ← get (codes "optional") null entry
  license_value ← get (codes "license") null entry
  integrity ← get (codes "integrity") null entry
  sha512 ← read_integrity py integrity
  ok (record {
    bom_ref = purl ++ (codes "?path=" ++ quote [] lock_path);
    name = name;
    purl = purl;
    scope = if is_truthy is_optional then codes "optional" else codes "required";
    version = version;
    license = text_value license_value;
    sha512 = sha512;
    checksum = none;
  })

-- `for lock_path, entry in sorted(…)`
unfoldable pub npm_loop : Library → List (Bytes × Json) → Outcome ReleaseError (List Component)
npm_loop py [] = ok []
npm_loop py ((lock_path, entry) ∷ packages) =
    if not (includes node_modules lock_path)
    then npm_loop py packages
    else npm_component py lock_path entry >>= λ c. npm_loop py packages >>= λ cs. ok (c ∷ cs)

-- `value.items()`
abbrev pub items_or_error : Json → Outcome ReleaseError (List (Bytes × Json))
items_or_error (object entries) = ok (entries_of entries)
items_or_error _ = err attribute_error

abbrev pub or_value_error : Option Json → Outcome ReleaseError Json
or_value_error none = err value_error
or_value_error (some v) = ok v

-- `json.loads`
abbrev pub loads_or_error : Library → Bytes → Outcome ReleaseError Json
loads_or_error py contents = or_value_error (py.loads contents)

-- `path.read_text(encoding="utf-8")`
abbrev pub read_file : Option Bytes → Outcome ReleaseError Bytes
read_file none = err os_error
read_file (some contents) = raise_if (not (is_utf8 contents)) value_error >> ok contents

unfoldable pub npm_components : Library → Repository → Outcome ReleaseError (List Component)
npm_components py r = do
  contents ← read_file r.package_lock
  lock ← loads_or_error py contents
  packages ← get (codes "packages") empty_object lock
  entries ← items_or_error packages
  npm_loop py (sort_by (λ e. e.0) entries)
