-- ===== src/Release/Sboms.antt =====
-- `_verify_sboms` of scripts/release/release_artifacts.py.
pub mod Built
use codex_subscription_route.Prelude.{
  is_nil, not, ◌||◌, Option, none, some, List, [], ◌∷◌, any, all, if◌then◌else◌, Outcome, err,
  ◌>>=◌, ◌>>◌, raise_if, collect,
}
use codex_subscription_route.Text.{Bytes, codes, starts_with, is_distinct, is_sorted}
use codex_subscription_route.Json.{Json, null, text, is_truthy, is_text}
use codex_subscription_route.Release.Errors.{
  ReleaseError, not_cyclonedx, other_root_component, bad_references, unsorted_components, not_spdx,
  other_root_package, bad_identifiers, duplicate_identifiers,
}
use codex_subscription_route.Release.Library.{get, empty_object, empty_array, iterate, first_item}
use codex_subscription_route.Release.Context.{BuildContext, project_name}

-- `isinstance(value, str)` for every value: the texts.
unfoldable pub all_texts : List Json → Option (List Bytes)
all_texts [] = some []
all_texts (text s ∷ vs) = elim (all_texts vs) [ none ↦ none | some ss ↦ some (s ∷ ss) ]
all_texts (v ∷ vs) = none

-- The references must be texts that are not empty, all different, and sorted.
abbrev pub check_references : Option (List Bytes) → Outcome ReleaseError (Unit {0})
check_references none = err bad_references
check_references (some refs) = do
  raise_if (any is_nil refs || not (is_distinct refs)) bad_references
  raise_if (not (is_sorted refs)) unsorted_components

-- The identifiers must be texts with the prefix, all different.
abbrev pub check_identifiers : Option (List Bytes) → Outcome ReleaseError (Unit {0})
check_identifiers none = err bad_identifiers
check_identifiers (some ids) = do
  raise_if (not (all (λ s. starts_with s (codes "SPDXRef-")) ids)) bad_identifiers
  raise_if (not (is_distinct ids)) duplicate_identifiers

unfoldable pub check_cyclonedx : BuildContext → Json → Outcome ReleaseError (Unit {0})
check_cyclonedx c cyclonedx = do
  format ← get (codes "bomFormat") null cyclonedx
  version ← get (codes "specVersion") null cyclonedx
  raise_if (not (is_text (codes "CycloneDX") format) || not (is_text (codes "1.5") version))
      not_cyclonedx
  metadata ← get (codes "metadata") empty_object cyclonedx
  component ← get (codes "component") empty_object metadata
  name ← get (codes "name") null component
  release ← get (codes "version") null component
  raise_if (not (is_text project_name name) || not (is_text c.version release)) other_root_component
  components ← get (codes "components") empty_array cyclonedx
  items ← iterate components
  refs ← collect (get (codes "bom-ref") null) items
  check_references (all_texts refs)

-- `not packages or packages[0].get("name") != PROJECT_NAME`
abbrev pub check_root_package : Json → Outcome ReleaseError (Unit {0})
check_root_package packages =
    if is_truthy packages
    then (first_item packages >>= λ root. get (codes "name") null root >>= λ name.
        raise_if (not (is_text project_name name)) other_root_package)
    else err other_root_package

unfoldable pub check_spdx : Json → Outcome ReleaseError (Unit {0})
check_spdx spdx = do
  version ← get (codes "spdxVersion") null spdx
  license ← get (codes "dataLicense") null spdx
  raise_if (not (is_text (codes "SPDX-2.3") version) || not (is_text (codes "CC0-1.0") license))
      not_spdx
  packages ← get (codes "packages") empty_array spdx
  check_root_package packages
  items ← iterate packages
  ids ← collect (get (codes "SPDXID") null) items
  check_identifiers (all_texts ids)

unfoldable pub verify_sboms : BuildContext → Json → Json → Outcome ReleaseError (Unit {0})
verify_sboms c cyclonedx spdx = do check_cyclonedx c cyclonedx; check_spdx spdx
