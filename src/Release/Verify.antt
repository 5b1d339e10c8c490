-- ===== src/Release/Verify.antt =====
-- `verify_release` of scripts/release/release_artifacts.py.
pub mod Lookups
pub mod Accepts
pub mod Subjects
pub mod Named
pub mod Stored
pub mod Built
pub mod Sound
pub mod Documents
use codex_subscription_route.Prelude.{
  Bool, true, false, not, ◌&&◌, ◌||◌, Option, none, some, List, [], ◌∷◌, map, ◌==◌, any, all,
  length, if◌then◌else◌, Outcome, ok, err, ◌>>=◌, ◌>>◌, raise_if, collect,
}
use codex_subscription_route.Text.{Bytes, codes, bytes_eq, contains, sort_by}
use codex_subscription_route.Json.{Json, null, array, object, is_truthy, is_text}
use codex_subscription_route.Release.Errors.{
  ReleaseError, no_manifest, unexpected_artifacts, not_a_file, unmanifested, hash_mismatch,
  not_canonical, invalid_json, gates_artifact_differs, not_in_toto, not_slsa, other_commit,
  gate_status, evidence_scope, other_subjects, type_error, os_error,
}
use codex_subscription_route.Release.Library.{
  Library, Repository, json_bytes, get, empty_object, empty_array, iterate, first_item,
}
use codex_subscription_route.Release.Context.{BuildContext, context}
use codex_subscription_route.Release.Archive.{Member, verify_archive}
use codex_subscription_route.Release.Manifest.{
  Artifact, Entry, names, manifest_bytes, parse_manifest,
}
use codex_subscription_route.Release.Gates.{source_gate_document}
use codex_subscription_route.Release.Sboms.{verify_sboms}
use codex_subscription_route.Release.Build.{
  Child, Directory, artifact, artifact_names, archive_name, cdx_name, spdx_name, provenance_name,
  gates_name, sums_name, archive_context,
}

-- The content of a file of a directory: `none` where there is no such file.
unfoldable pub find_file : Bytes → Directory → Option Bytes
find_file name [] = none
find_file name (child ∷ children) =
    let rest = find_file name children in if bytes_eq name child.name then child.content else rest

-- Equality of two lists as sets.
abbrev pub same_set : List Bytes → List Bytes → Bool
same_set xs ys = all (contains ys) xs && all (contains xs) ys

abbrev pub is_file_child : Child → Bool
is_file_child child = elim child.content [ none ↦ false | some s ↦ true ]

abbrev pub or_error : ReleaseError → Option Bytes → Outcome ReleaseError Bytes
or_error e none = err e
or_error e (some s) = ok s

-- The body of the loop over the entries of the manifest.
unfoldable pub check_artifact : Library → Directory → Entry → Outcome ReleaseError Artifact
check_artifact py input entry = do
  contents ← or_error os_error (find_file entry.name input)
  raise_if (not (length contents == entry.size) || not (bytes_eq (py.sha256 contents) entry.digest))
      hash_mismatch
  ok (artifact entry.name contents)

-- `data_by_name[name]`
unfoldable pub artifact_content : Bytes → List Artifact → Outcome ReleaseError Bytes
artifact_content name [] = err os_error
artifact_content name (a ∷ artifacts) =
    let rest = artifact_content name artifacts in
    if bytes_eq name a.name then ok a.content else rest

abbrev pub or_invalid_json : Option Json → Outcome ReleaseError Json
or_invalid_json none = err invalid_json
or_invalid_json (some v) = ok v

abbrev pub load : Library → Bytes → List Artifact → Outcome ReleaseError Json
load py name artifacts =
    artifact_content name artifacts >>= λ contents. or_invalid_json (py.loads contents)

-- The manifest, the set of files, and every digest and size.
unfoldable pub check_files :
    Library → BuildContext → Directory → Outcome ReleaseError (List Artifact)
check_files py c input = do
  sums ← or_error no_manifest (find_file sums_name input)
  entries ← parse_manifest sums
  raise_if (not (same_set (names entries) (artifact_names c))) unexpected_artifacts
  raise_if (any (λ child. not (is_file_child child)) input) not_a_file
  raise_if (not (same_set (map (λ child. child.name) input) (sums_name ∷ artifact_names c)))
      unmanifested
  artifacts ← collect (check_artifact py input) entries
  canonical ← manifest_bytes py.sha256 artifacts
  raise_if (not (bytes_eq sums canonical)) not_canonical
  ok artifacts

-- `not dependencies or dependencies[0].get("digest", {}).get("gitCommit") != context.commit`
abbrev pub check_dependencies : BuildContext → Json → Outcome ReleaseError (Unit {0})
check_dependencies c dependencies =
    if is_truthy dependencies
    then (first_item dependencies >>= λ dependency.
        get (codes "digest") empty_object dependency >>= λ digest.
        get (codes "gitCommit") null digest >>= λ commit.
        raise_if (not (is_text c.commit commit)) other_commit)
    else err other_commit

-- A key of a dictionary must be hashable.
abbrev pub check_hashable : Json → Outcome ReleaseError (Unit {0})
check_hashable (array vs) = err type_error
check_hashable (object entries) = err type_error
check_hashable _ = ok tt

-- An entry of `actual_subjects`.
unfoldable pub actual_subject : Json → Outcome ReleaseError (Json × Json)
actual_subject entry = do
  name ← get (codes "name") null entry
  digest ← get (codes "digest") empty_object entry
  sha256 ← get (codes "sha256") null digest
  check_hashable name
  ok (name, sha256)

-- The value of a key: the last of two equal keys counts.
unfoldable pub find_subject : Bytes → List (Json × Json) → Option Json
find_subject name [] = none
find_subject name ((k, v) ∷ subjects) = elim (find_subject name subjects) [
  | some found ↦ some found
  | none ↦ if is_text name k then some v else none
]

abbrev pub has_digest : Bytes → Option Json → Bool
has_digest digest none = false
has_digest digest (some v) = is_text digest v

-- `actual_subjects == expected_subjects`: every key is expected, and every expected key has its value.
unfoldable pub same_subjects : List (Json × Json) → List (Bytes × Bytes) → Bool
same_subjects actual expected =
    all (λ a. any (λ e. is_text e.0 a.0) expected) actual
    && all (λ e. has_digest e.1 (find_subject e.0 actual)) expected

abbrev pub subject_names : BuildContext → List Bytes
subject_names c = archive_name c ∷ cdx_name c ∷ spdx_name c ∷ gates_name c ∷ []

unfoldable pub expected_subjects :
    Library → BuildContext → List Artifact → Outcome ReleaseError (List (Bytes × Bytes))
expected_subjects py c artifacts =
    collect (λ name. artifact_content name artifacts >>= λ contents. ok (name, py.sha256 contents))
      (subject_names c)

unfoldable pub check_statement : BuildContext → Json → Outcome ReleaseError (Unit {0})
check_statement c provenance = do
  kind ← get (codes "_type") null provenance
  raise_if (not (is_text (codes "https://in-toto.io/Statement/v1") kind)) not_in_toto
  predicate_type ← get (codes "predicateType") null provenance
  raise_if (not (is_text (codes "https://slsa.dev/provenance/v1") predicate_type)) not_slsa
  predicate ← get (codes "predicate") empty_object provenance
  definition ← get (codes "buildDefinition") empty_object predicate
  dependencies ← get (codes "resolvedDependencies") empty_array definition
  check_dependencies c dependencies
  parameters ← get (codes "externalParameters") empty_object definition
  status ← get (codes "automatedGateStatus") null parameters
  raise_if (not (is_text (codes "AUTOMATED_GATES_PASSED") status)) gate_status
  scope ← get (codes "evidenceScope") null parameters
  raise_if (not (is_text (codes "source-gates") scope)) evidence_scope

unfoldable pub check_subjects :
    Library → BuildContext → List Artifact → Json → Outcome ReleaseError (Unit {0})
check_subjects py c artifacts provenance = do
  subjects ← get (codes "subject") empty_array provenance
  items ← iterate subjects
  actual ← collect actual_subject items
  expected ← expected_subjects py c artifacts
  raise_if (not (same_subjects actual expected)) other_subjects

unfoldable pub check_provenance :
    Library → BuildContext → List Artifact → Json → Outcome ReleaseError (Unit {0})
check_provenance py c artifacts provenance = do
  check_statement c provenance
  check_subjects py c artifacts provenance

unfoldable pub check_documents :
    Library → Repository → BuildContext → List Artifact → Outcome ReleaseError (Unit {0})
check_documents py r c artifacts = do
  cyclonedx ← load py (cdx_name c) artifacts
  spdx ← load py (spdx_name c) artifacts
  provenance ← load py (provenance_name c) artifacts
  gates ← load py (gates_name c) artifacts
  verify_sboms c cyclonedx spdx
  document ← source_gate_document py r c
  raise_if (not (bytes_eq (json_bytes py gates) (json_bytes py document))) gates_artifact_differs
  check_provenance py c artifacts provenance

unfoldable pub verify_release :
    (Bytes → Option (List Member))
    → Library
    → Repository
    → Directory
    → Outcome ReleaseError (List Bytes)
verify_release unpack py r input = do
  c ← context py r true
  artifacts ← check_files py c input
  archive ← artifact_content (archive_name c) artifacts
  verify_archive py.lower py.casefold (r.tree c.commit) unpack (archive_context c) archive
  check_documents py r c artifacts
  ok (sort_by (λ s. s) (map (λ child. child.name) input))
