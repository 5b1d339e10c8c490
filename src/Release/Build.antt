-- ===== src/Release/Build.antt =====
-- `build_release` of scripts/release/release_artifacts.py.
pub mod Names
pub mod Made
use codex_subscription_route.Prelude.{
  ℕ, Bool, Option, some, List, [], ◌∷◌, ◌++◌, Outcome, ok, err, ◌>>=◌,
}
use codex_subscription_route.Text.{Bytes, codes, sort_by}
use codex_subscription_route.Release.Errors.{ReleaseError, output_not_empty}
use codex_subscription_route.Release.Library.{Library, Repository, json_bytes}
use codex_subscription_route.Release.Context.{BuildContext, project_name, context}
use codex_subscription_route.Release.Sources.{SourceFile, git_source_files}
use codex_subscription_route.Release.Archive.{Context, Member, write_tar_gz}
use codex_subscription_route.Release.Manifest.{Artifact, manifest_bytes}
use codex_subscription_route.Release.Gates.{validate_source_gates}
use codex_subscription_route.Release.Npm.{loads_or_error}
use codex_subscription_route.Release.Cyclonedx.{cyclonedx}
use codex_subscription_route.Release.Spdx.{spdx}
use codex_subscription_route.Release.Provenance.{provenance}

-- An entry of a directory: a file with its content, or `none` for what is no file.
pub record Child : Type 0 where
  pub name : Bytes
  pub content : Option Bytes

abbrev pub Directory : Type 0
Directory = List Child

abbrev pub file : Bytes → Bytes → Child
file name content = record { name = name; content = some content }

abbrev pub artifact : Bytes → Bytes → Artifact
artifact name content = record { name = name; content = content }

-- `f"{PROJECT_NAME}-v{context.version}"`, and the names of the artifacts
abbrev pub base : BuildContext → Bytes
base c = project_name ++ (codes "-v" ++ c.version)

abbrev pub archive_name : BuildContext → Bytes
archive_name c = base c ++ codes ".tar.gz"

abbrev pub cdx_name : BuildContext → Bytes
cdx_name c = base c ++ codes ".cdx.json"

abbrev pub spdx_name : BuildContext → Bytes
spdx_name c = base c ++ codes ".spdx.json"

abbrev pub provenance_name : BuildContext → Bytes
provenance_name c = base c ++ codes ".provenance.json"

abbrev pub gates_name : BuildContext → Bytes
gates_name c = base c ++ codes ".source-gates.json"

abbrev pub sums_name : Bytes
sums_name = codes "SHA256SUMS"

abbrev pub artifact_names : BuildContext → List Bytes
artifact_names c = archive_name c ∷ cdx_name c ∷ spdx_name c ∷ provenance_name c ∷ gates_name c ∷ []

abbrev pub archive_context : BuildContext → Context
archive_context c = record { source_epoch = c.source_epoch; archive_root = c.archive_root }

-- The files that are written behind the archive.
pub record Documents : Type 0 where
  pub cyclonedx_data : Bytes
  pub spdx_data : Bytes
  pub gates_data : Bytes
  pub provenance_data : Bytes
  pub manifest_data : Bytes

abbrev pub initial_artifacts : BuildContext → Bytes → Bytes → Bytes → Bytes → List Artifact
initial_artifacts c archive_data cdx_data spdx_data gates_data =
    artifact (archive_name c) archive_data
    ∷ artifact (cdx_name c) cdx_data
    ∷ artifact (spdx_name c) spdx_data
    ∷ artifact (gates_name c) gates_data
    ∷ []

unfoldable pub documents :
    Library → Repository → BuildContext → Bytes → Bytes → Outcome ReleaseError Documents
documents py r c gates_data archive_data = do
  cdx ← cyclonedx py r c
  let cdx_data = json_bytes py cdx
  loaded ← loads_or_error py cdx_data
  bill ← spdx py c loaded
  let spdx_data = json_bytes py bill
  let initial = initial_artifacts c archive_data cdx_data spdx_data gates_data
  statement ← provenance py r c initial
  let statement_data = json_bytes py statement
  sums ← manifest_bytes py.sha256 (initial ++ (artifact (provenance_name c) statement_data ∷ []))
  ok (record {
    cyclonedx_data = cdx_data;
    spdx_data = spdx_data;
    gates_data = gates_data;
    provenance_data = statement_data;
    manifest_data = sums;
  })

-- What is read before the output directory is touched.
pub record Inputs : Type 0 where
  pub build_context : BuildContext
  pub files : List SourceFile
  pub gates : Bytes

unfoldable pub read_inputs :
    Library → Repository → Option Bytes → Bool → Outcome ReleaseError Inputs
read_inputs py r gates_file allow_dirty = do
  c ← context py r allow_dirty
  found ← git_source_files py.lower py.casefold (r.tree c.commit)
  gates ← validate_source_gates py r gates_file c
  ok (record { build_context = c; files = found; gates = gates })

abbrev pub written_files : BuildContext → Bytes → Documents → Directory
written_files c archive_data d =
    file (archive_name c) archive_data
    ∷ file (cdx_name c) d.cyclonedx_data
    ∷ file (spdx_name c) d.spdx_data
    ∷ file (gates_name c) d.gates_data
    ∷ file (provenance_name c) d.provenance_data
    ∷ file sums_name d.manifest_data
    ∷ []

abbrev pub output_names : BuildContext → List Bytes
output_names c = sort_by (λ s. s) (artifact_names c ++ (sums_name ∷ []))

-- A failure behind the writing of the archive leaves the archive in the directory.
abbrev pub write_documents :
    BuildContext
    → Bytes
    → Outcome ReleaseError Documents
    → Outcome ReleaseError (List Bytes) × Directory
write_documents c archive_data (err e) = (err e, file (archive_name c) archive_data ∷ [])
write_documents c archive_data (ok d) = (ok (output_names c), written_files c archive_data d)

module _ (pack : ℕ → List Member → Bytes) (py : Library) (r : Repository) where
  abbrev pub write_archive : Inputs → Bytes
  write_archive i = write_tar_gz pack i.files (archive_context i.build_context)

  abbrev pub fill : Directory → Inputs → Outcome ReleaseError (List Bytes) × Directory
  fill (child ∷ children) i = (err output_not_empty, child ∷ children)
  fill [] i =
      write_documents i.build_context (write_archive i)
        (documents py r i.build_context i.gates (write_archive i))

  abbrev pub build_from :
      Directory → Outcome ReleaseError Inputs → Outcome ReleaseError (List Bytes) × Directory
  build_from output (err e) = (err e, output)
  build_from output (ok i) = fill output i

  -- The names of the files that are written, and the output directory before and after.
  unfoldable pub build_release :
      Option Bytes → Bool → Directory → Outcome ReleaseError (List Bytes) × Directory
  build_release gates_file allow_dirty output =
      build_from output (read_inputs py r gates_file allow_dirty)
