-- ===== src/Release/Spdx.antt =====
-- `_spdx_id` and `_spdx` of scripts/release/release_artifacts.py.
use codex_subscription_route.Prelude.{
  ℕ, ◌+◌, Bool, true, false, ◌||◌, Option, none, some, List, [], ◌∷◌, ◌++◌, map, ◌==◌,
  if◌then◌else◌, Outcome, ok, err, ◌>>=◌, ◌>>◌, raise_if, collect,
}
use codex_subscription_route.Text.{
  Bytes, codes, contains, decimal, replace, strip_byte, is_alphanumeric,
}
use codex_subscription_route.Json.{
  Json, boolean, text, array, object_of, optional_entry, array_of, list_of, is_truthy,
}
use codex_subscription_route.Release.Errors.{ReleaseError, duplicate_spdx_id, type_error}
use codex_subscription_route.Release.Library.{
  Library, get, index, as_text, empty_object, empty_array, first_item,
}
use codex_subscription_route.Release.Context.{BuildContext, project_name}
use codex_subscription_route.Release.Cyclonedx.{project_repository, rfc3339}

abbrev pub is_id_byte : ℕ → Bool
is_id_byte c = is_alphanumeric c || c == b'.' || c == b'-'

-- `re.sub(r"[^A-Za-z0-9.-]+", "-", value)`: the first argument tells whether a run is being replaced.
unfoldable pub clean : Bool → Bytes → Bytes
clean inside [] = []
clean inside (c ∷ s) =
    let run = clean true s in
    if is_id_byte c then c ∷ clean false s else (if inside then run else b'-' ∷ run)

unfoldable pub spdx_id : Bytes → Bytes
spdx_id value = codes "SPDXRef-" ++ strip_byte b'-' (clean false value)

abbrev pub document_id : Bytes
document_id = codes "SPDXRef-DOCUMENT"

abbrev pub root_id : Bytes
root_id = codes "SPDXRef-Package-Root"

-- `f"Dependency-{index}-{component['name']}-{component['version']}"`
abbrev pub dependency_name : ℕ → Bytes → Bytes → Bytes
dependency_name index name version =
    codes "Dependency-" ++ (decimal index ++ (codes "-" ++ (name ++ (codes "-" ++ version))))

abbrev pub license_of : Json → Outcome ReleaseError Json
license_of licenses =
    if is_truthy licenses
    then (first_item licenses >>= λ entry. get (codes "license") empty_object entry >>= λ license.
        get (codes "id") (text (codes "NOASSERTION")) license)
    else ok (text (codes "NOASSERTION"))

unfoldable pub checksum : Json → Outcome ReleaseError Json
checksum entry = do
  algorithm ← index (codes "alg") entry
  name ← as_text algorithm
  value ← index (codes "content") entry
  ok (
      object_of (
        (codes "algorithm", text (replace (codes "-") [] name))
        ∷ (codes "checksumValue", value)
        ∷ []))

abbrev pub as_list : Json → Outcome ReleaseError (List Json)
as_list (array vs) = ok (list_of vs)
as_list _ = err type_error

abbrev pub checksums_of : Json → Outcome ReleaseError (Option Json)
checksums_of hashes =
    if is_truthy hashes
    then (as_list hashes >>= λ items. collect checksum items >>= λ sums. ok (some (array_of sums)))
    else ok none

unfoldable pub package_json : Bytes → Json → Json → Json → Json → Option Json → Json
package_json id name version purl license checksums = object_of (
    (codes "SPDXID", text id)
    ∷ (optional_entry (codes "checksums") checksums
        ++ ((codes "copyrightText", text (codes "NOASSERTION"))
            ∷ (codes "downloadLocation", text (codes "NOASSERTION"))
            ∷ (
              codes "externalRefs",
              array_of (
                  object_of (
                    (codes "referenceCategory", text (codes "PACKAGE-MANAGER"))
                    ∷ (codes "referenceLocator", purl)
                    ∷ (codes "referenceType", text (codes "purl"))
                    ∷ [])
                  ∷ []),
            )
            ∷ (codes "filesAnalyzed", boolean false)
            ∷ (codes "licenseConcluded", text (codes "NOASSERTION"))
            ∷ (codes "licenseDeclared", license)
            ∷ (codes "name", name)
            ∷ (codes "versionInfo", version)
            ∷ [])))

-- The body of the loop: the identifier and the package.
unfoldable pub spdx_package : List Bytes → ℕ → Json → Outcome ReleaseError (Bytes × Json)
spdx_package used position component = do
  name ← index (codes "name") component
  name_text ← as_text name
  version ← index (codes "version") component
  version_text ← as_text version
  let id = spdx_id (dependency_name position name_text version_text)
  raise_if (contains used id) duplicate_spdx_id
  licenses ← get (codes "licenses") empty_array component
  license ← license_of licenses
  purl ← index (codes "purl") component
  hashes ← get (codes "hashes") empty_array component
  checksums ← checksums_of hashes
  ok (id, package_json id name version purl license checksums)

-- `for index, component in enumerate(…, start=1)`
unfoldable pub spdx_loop : List Bytes → ℕ → List Json → Outcome ReleaseError (List (Bytes × Json))
spdx_loop used position [] = ok []
spdx_loop used position (component ∷ components) = do
  (id, entry) ← spdx_package used position component
  entries ← spdx_loop (id ∷ used) (position + 1) components
  ok ((id, entry) ∷ entries)

abbrev pub relationship : Bytes → Bytes → Bytes → Json
relationship related kind element = object_of (
    (codes "relatedSpdxElement", text related)
    ∷ (codes "relationshipType", text kind)
    ∷ (codes "spdxElementId", text element)
    ∷ [])

unfoldable pub root_package : BuildContext → Json
root_package c = object_of (
    (codes "SPDXID", text root_id)
    ∷ (codes "copyrightText", text (codes "NOASSERTION"))
    ∷ (
      codes "downloadLocation",
      text (codes "git+" ++ (project_repository ++ (codes ".git@" ++ c.commit))),
    )
    ∷ (codes "filesAnalyzed", boolean false)
    ∷ (codes "licenseConcluded", text (codes "MIT"))
    ∷ (codes "licenseDeclared", text (codes "MIT"))
    ∷ (codes "name", text project_name)
    ∷ (codes "supplier", text (codes "Organization: TheDaniXSX"))
    ∷ (codes "versionInfo", text c.version)
    ∷ [])

-- The document of the identifiers and packages of the dependencies.
unfoldable pub spdx_document : Library → BuildContext → List (Bytes × Json) → Json
spdx_document py c entries = object_of (
    (codes "SPDXID", text document_id)
    ∷ (
      codes "creationInfo",
      object_of (
          (codes "created", text (rfc3339 py c.source_epoch))
          ∷ (codes "creators", array_of (text (codes "Tool: release_artifacts.py-1") ∷ []))
          ∷ []),
    )
    ∷ (codes "dataLicense", text (codes "CC0-1.0"))
    ∷ (codes "documentDescribes", array_of (text root_id ∷ []))
    ∷ (
      codes "documentNamespace",
      text (
          project_repository
          ++ (codes "/releases/spdx/" ++ (c.version ++ (codes "/" ++ c.commit)))),
    )
    ∷ (codes "name", text (project_name ++ (codes "-" ++ c.version)))
    ∷ (codes "packages", array_of (root_package c ∷ map (λ e. e.1) entries))
    ∷ (
      codes "relationships",
      array_of (
          relationship root_id (codes "DESCRIBES") document_id
          ∷ map (λ e. relationship root_id (codes "BUILD_DEPENDENCY_OF") e.0) entries),
    )
    ∷ (codes "spdxVersion", text (codes "SPDX-2.3"))
    ∷ [])

unfoldable pub spdx : Library → BuildContext → Json → Outcome ReleaseError Json
spdx py c cyclonedx = do
  components ← index (codes "components") cyclonedx
  items ← as_list components
  entries ← spdx_loop (document_id ∷ root_id ∷ []) 1 items
  ok (spdx_document py c entries)
