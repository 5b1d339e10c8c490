-- ===== src/Release/Cyclonedx.antt =====
-- `_cyclonedx`, `_rfc3339` and `_tool_version` of scripts/release/release_artifacts.py.
pub mod References
use codex_subscription_route.Prelude.{ℕ, List, [], ◌∷◌, ◌++◌, map, Outcome, ok, err, ◌>>=◌, ◌>>◌}
use codex_subscription_route.Text.{Bytes, codes, sort_by, split_lines, replace}
use codex_subscription_route.Json.{Json, number, text, object_of, array_of}
use codex_subscription_route.Release.Errors.{ReleaseError, key_error}
use codex_subscription_route.Release.Library.{Library, Repository}
use codex_subscription_route.Release.Context.{BuildContext, project_name}
use codex_subscription_route.Release.Npm.{Component, component_json, license_entry, npm_components}
use codex_subscription_route.Release.Go.{go_components}

abbrev pub project_repository : Bytes
project_repository = codes "https://github.com/TheDaniXSX/codex-subscription-router-windows"

unfoldable pub rfc3339 : Library → ℕ → Bytes
rfc3339 py epoch = replace (codes "+00:00") (codes "Z") (py.isoformat epoch)

abbrev pub first_line : List Bytes → Outcome ReleaseError Bytes
first_line [] = err key_error
first_line (line ∷ lines) = ok line

-- `value.strip().splitlines()[0]`; only a failure of the command is caught.
unfoldable pub tool_version : Library → Outcome ReleaseError Bytes → Outcome ReleaseError Bytes
tool_version py (err e) = ok (codes "unavailable")
tool_version py (ok value) = first_line (split_lines (py.strip value))

abbrev pub named_value : Bytes → Bytes → Json
named_value name value = object_of ((codes "name", text name) ∷ (codes "value", text value) ∷ [])

abbrev pub tool : Bytes → Bytes → Json
tool name version = object_of (
    (codes "name", text name)
    ∷ (codes "type", text (codes "application"))
    ∷ (codes "version", text version)
    ∷ [])

abbrev pub root_ref : BuildContext → Bytes
root_ref c = codes "pkg:github/TheDaniXSX/" ++ (project_name ++ (codes "@" ++ c.version))

unfoldable pub root_component : BuildContext → Json
root_component c = object_of (
    (codes "bom-ref", text (root_ref c))
    ∷ (codes "licenses", license_entry (codes "MIT"))
    ∷ (codes "name", text project_name)
    ∷ (codes "purl", text (root_ref c))
    ∷ (codes "type", text (codes "application"))
    ∷ (codes "version", text c.version)
    ∷ [])

unfoldable pub bom_metadata : Library → BuildContext → Bytes → Bytes → Json
bom_metadata py c go node = object_of (
    (codes "component", root_component c)
    ∷ (
      codes "properties",
      array_of (
          named_value (codes "source:commit") c.commit
          ∷ named_value (codes "source:repository") project_repository
          ∷ []),
    )
    ∷ (codes "timestamp", text (rfc3339 py c.source_epoch))
    ∷ (
      codes "tools",
      object_of (
          (
            codes "components",
            array_of (
                tool (codes "release_artifacts.py") (codes "1")
                ∷ tool (codes "Python") py.python_version
                ∷ tool (codes "Go") go
                ∷ tool (codes "Node.js") node
                ∷ []),
          )
          ∷ []),
    )
    ∷ [])

-- The document of some components.
unfoldable pub bom : Library → BuildContext → Bytes → Bytes → List Component → Json
bom py c go node components = object_of (
    (codes "$schema", text (codes "https://cyclonedx.org/schema/bom-1.5.schema.json"))
    ∷ (codes "bomFormat", text (codes "CycloneDX"))
    ∷ (codes "components", array_of (map component_json components))
    ∷ (codes "metadata", bom_metadata py c go node)
    ∷ (
      codes "serialNumber",
      text (
          codes "urn:uuid:"
          ++ py.uuid5 (project_repository ++ (codes "@" ++ (c.commit ++ codes ":cyclonedx")))),
    )
    ∷ (codes "specVersion", text (codes "1.5"))
    ∷ (codes "version", number (codes "1"))
    ∷ [])

-- The components of both kinds, in the order of their references.
unfoldable pub sorted_components : Library → Repository → Outcome ReleaseError (List Component)
sorted_components py r = do
  npm ← npm_components py r
  go ← go_components py r
  ok (sort_by (λ c. c.bom_ref) (npm ++ go))

unfoldable pub cyclonedx : Library → Repository → BuildContext → Outcome ReleaseError Json
cyclonedx py r c = do
  components ← sorted_components py r
  go ← tool_version py r.go_version
  node ← tool_version py r.node_version
  ok (bom py c go node components)
