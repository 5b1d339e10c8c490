-- ===== src/Release/Provenance.antt =====
-- `_provenance` of scripts/release/release_artifacts.py.
use codex_subscription_route.Prelude.{List, [], ◌∷◌, ◌++◌, map, Outcome, ok, ◌>>=◌}
use codex_subscription_route.Text.{Bytes, codes, decimal, sort_by}
use codex_subscription_route.Json.{Json, number, text, object_of, array_of}
use codex_subscription_route.Release.Errors.{ReleaseError}
use codex_subscription_route.Release.Library.{Library, Repository}
use codex_subscription_route.Release.Context.{BuildContext}
use codex_subscription_route.Release.Manifest.{Artifact}
use codex_subscription_route.Release.Cyclonedx.{project_repository, rfc3339, tool_version}

abbrev pub build_type : Bytes
build_type = project_repository ++ codes "/source-release/v1"

abbrev pub subject : Library → Artifact → Json
subject py a = object_of (
    (codes "digest", object_of ((codes "sha256", text (py.sha256 a.content)) ∷ []))
    ∷ (codes "name", text a.name)
    ∷ [])

-- `sorted(subjects)`: by the name, and equal names by the content.
abbrev pub sorted_subjects : List Artifact → List Artifact
sorted_subjects subjects = sort_by (λ a. a.name) (sort_by (λ a. a.content) subjects)

unfoldable pub build_definition : Library → BuildContext → Bytes → Bytes → Json
build_definition py c go node = object_of (
    (codes "buildType", text build_type)
    ∷ (
      codes "externalParameters",
      object_of (
          (codes "automatedGateStatus", text (codes "AUTOMATED_GATES_PASSED"))
          ∷ (codes "evidenceScope", text (codes "source-gates"))
          ∷ (codes "sourceArchiveRoot", text c.archive_root)
          ∷ (codes "sourceDateEpoch", number (decimal c.source_epoch))
          ∷ (codes "version", text c.version)
          ∷ []),
    )
    ∷ (
      codes "internalParameters",
      object_of (
          (codes "go", text go)
          ∷ (codes "node", text node)
          ∷ (codes "python", text py.python_version)
          ∷ []),
    )
    ∷ (
      codes "resolvedDependencies",
      array_of (
          object_of (
            (codes "digest", object_of ((codes "gitCommit", text c.commit) ∷ []))
            ∷ (codes "uri", text (codes "git+" ++ (project_repository ++ codes ".git")))
            ∷ [])
          ∷ []),
    )
    ∷ [])

unfoldable pub run_details : Library → BuildContext → Json
run_details py c = object_of (
    (
      codes "builder",
      object_of (
          (
            codes "id",
            text (
                project_repository
                ++ (codes "/blob/"
                    ++ (c.commit ++ codes "/scripts/release/build_source_release.py"))),
          )
          ∷ (codes "version", object_of ((codes "script", text (codes "1")) ∷ []))
          ∷ []),
    )
    ∷ (
      codes "metadata",
      object_of (
          (codes "finishedOn", text (rfc3339 py c.source_epoch))
          ∷ (codes "startedOn", text (rfc3339 py c.source_epoch))
          ∷ []),
    )
    ∷ [])

unfoldable pub statement : Library → BuildContext → Bytes → Bytes → List Artifact → Json
statement py c go node subjects = object_of (
    (codes "_type", text (codes "https://in-toto.io/Statement/v1"))
    ∷ (
      codes "predicate",
      object_of (
          (codes "buildDefinition", build_definition py c go node)
          ∷ (codes "runDetails", run_details py c)
          ∷ []),
    )
    ∷ (codes "predicateType", text (codes "https://slsa.dev/provenance/v1"))
    ∷ (codes "subject", array_of (map (subject py) (sorted_subjects subjects)))
    ∷ [])

unfoldable pub provenance :
    Library → Repository → BuildContext → List Artifact → Outcome ReleaseError Json
provenance py r c subjects = do
  go ← tool_version py r.go_version
  node ← tool_version py r.node_version
  ok (statement py c go node subjects)
