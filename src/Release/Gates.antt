-- ===== src/Release/Gates.antt =====
-- The source gates of scripts/release/release_artifacts.py: `_git_blob`, `source_gate_document`,
-- `validate_source_gates` and `create_source_gate_evidence`.
pub mod RoundTrip
use codex_subscription_route.Prelude.{
  Bool, not, Option, none, some, [], ◌∷◌, Outcome, ok, err, ◌>>=◌, ◌>>◌, raise_if,
}
use codex_subscription_route.Text.{Bytes, codes, bytes_eq, is_utf8}
use codex_subscription_route.Json.{Json, number, text, object_of}
use codex_subscription_route.Release.Errors.{
  ReleaseError, report_not_utf8, unreadable_gates, gates_differ, output_exists,
}
use codex_subscription_route.Release.Path.{normalized_path}
use codex_subscription_route.Release.Library.{Library, Repository, json_bytes}
use codex_subscription_route.Release.Context.{BuildContext, project_name, context}

abbrev pub supporting_report : Bytes
supporting_report = codes "docs/E2E-REPORT-WINDOWS.md"

unfoldable pub git_blob : Repository → Bytes → Bytes → Outcome ReleaseError Bytes
git_blob r revision path = do _ ← normalized_path path; r.blob revision path

-- The document for a report with a digest.
unfoldable pub gate_entries : BuildContext → Bytes → Json
gate_entries context digest = object_of (
    (
      codes "evidence",
      object_of ((codes "path", text supporting_report) ∷ (codes "sha256", text digest) ∷ []),
    )
    ∷ (codes "project", text project_name)
    ∷ (codes "schemaVersion", number (codes "1"))
    ∷ (codes "scope", text (codes "source-gates"))
    ∷ (codes "sourceCommit", text context.commit)
    ∷ (codes "status", text (codes "AUTOMATED_GATES_PASSED"))
    ∷ (codes "version", text context.version)
    ∷ [])

unfoldable pub source_gate_document :
    Library → Repository → BuildContext → Outcome ReleaseError Json
source_gate_document py r context = do
  report ← git_blob r context.commit supporting_report
  raise_if (not (is_utf8 report)) report_not_utf8
  ok (gate_entries context (py.sha256 report))

abbrev pub or_unreadable : Option Json → Outcome ReleaseError Json
or_unreadable none = err unreadable_gates
or_unreadable (some v) = ok v

abbrev pub read_gates : Library → Option Bytes → Outcome ReleaseError Json
read_gates py none = err unreadable_gates
read_gates py (some contents) = or_unreadable (py.loads contents)

-- The file is `none` if it cannot be read.
unfoldable pub validate_source_gates :
    Library → Repository → Option Bytes → BuildContext → Outcome ReleaseError Bytes
validate_source_gates py r file context = do
  value ← read_gates py file
  expected ← source_gate_document py r context
  raise_if (not (bytes_eq (json_bytes py value) (json_bytes py expected))) gates_differ
  ok (json_bytes py expected)

-- The file is opened before the document is made, so a failure of the document leaves it empty.
abbrev pub write_evidence :
    Library → Outcome ReleaseError Json → Outcome ReleaseError (Unit {0}) × Option Bytes
write_evidence py (err e) = (err e, some [])
write_evidence py (ok document) = (ok tt, some (json_bytes py document))

abbrev pub open_evidence :
    Library
    → Option Bytes
    → Outcome ReleaseError Json
    → Outcome ReleaseError (Unit {0}) × Option Bytes
open_evidence py none document = write_evidence py document
open_evidence py (some contents) document = (err output_exists, some contents)

abbrev pub evidence_of :
    Library
    → Repository
    → Option Bytes
    → Outcome ReleaseError BuildContext
    → Outcome ReleaseError (Unit {0}) × Option Bytes
evidence_of py r file (err e) = (err e, file)
evidence_of py r file (ok c) = open_evidence py file (source_gate_document py r c)

-- The result, and the content of the output file, before and after.
unfoldable pub create_source_gate_evidence :
    Library → Repository → Option Bytes → Bool → Outcome ReleaseError (Unit {0}) × Option Bytes
create_source_gate_evidence py r file allow_dirty = evidence_of py r file (context py r allow_dirty)
