-- ===== src/Release/Gates/RoundTrip.antt =====
-- How `create_source_gate_evidence` of scripts/release/release_artifacts.py ends, with what it writes read
-- back by `validate_source_gates`.
use codex_subscription_route.Prelude.{
  ok-injective, ◌≡◌, ◌∙◌, refl, sym, Bool, true, false, not, Option, none, some, [], arith, inl,
  inr, Bool-cases, Outcome, ok, err, Outcome-cases, >>=-eq-ok, raise_if->>-eq-ok,
}
use codex_subscription_route.Text.{
  Bytes, codes, bytes_eq, bytes_eq_self, bytes_eq_iff, is_utf8, contains, has_byte,
}
use codex_subscription_route.PurePath.{parse_path, parts, is_absolute, as_posix}
use codex_subscription_route.Release.Path.{normalized_path}
use codex_subscription_route.Json.{Json, text, number, object, field, no_fields, fields_of}
use codex_subscription_route.Release.Errors.{
  ReleaseError, gates_differ, output_exists, report_not_utf8,
}
use codex_subscription_route.Release.Library.{Library, Repository, json_bytes}
use codex_subscription_route.Release.Context.{BuildContext, context}
use codex_subscription_route.Release.Gates.{
  git_blob, gate_entries, write_evidence, open_evidence, read_gates, source_gate_document,
  validate_source_gates, create_source_gate_evidence,
}

-- What is validated is the canonical form of the document, and so is what the file holds.
pub validate_source_gates_sound :
    (py : Library) (r : Repository) (file : Option Bytes) (c : BuildContext) (s : Bytes)
    → validate_source_gates py r file c ≡ ok s
    → (document value : Json) × (source_gate_document py r c ≡ ok document)
      × (s ≡ json_bytes py document)
      × (read_gates py file ≡ ok value)
      × (json_bytes py value ≡ s)
unfolding validate_source_gates
validate_source_gates_sound py r file c s h =
    let (value, read, h1) = >>=-eq-ok (read_gates py file) _ h in
    let (expected, made, h2) = >>=-eq-ok (source_gate_document py r c) _ h1 in
    let (equal, h3) =
      raise_if->>-eq-ok (not (bytes_eq (json_bytes py value) (json_bytes py expected))) gates_differ
        _ h2 in
    let same =
      (bytes_eq_iff (json_bytes py value) (json_bytes py expected)).0 (ground (arith, equal)) in
    (expected, value, made, sym (ok-injective h3), read, same ∙ ok-injective h3)

-- A document that can be made and that `json.loads` returns from its text is validated.
pub validate-document :
    (py : Library) (r : Repository) (c : BuildContext) (document : Json)
    → py.loads (json_bytes py document) ≡ some document
    → source_gate_document py r c ≡ ok document
    → validate_source_gates py r (some (json_bytes py document)) c ≡ ok (json_bytes py document)
unfolding validate_source_gates
validate-document py r c document read h = rw (read, h, bytes_eq_self (json_bytes py document))

-- The report that a commit holds.
abbrev pub report_of : Repository → BuildContext → Outcome ReleaseError Bytes
report_of r c = r.blob c.commit (codes "docs/E2E-REPORT-WINDOWS.md")

-- The evidence of a passed run, written out.
abbrev pub evidence : Library → BuildContext → Bytes → Json
evidence py c report = object (
    field (codes "evidence")
      (object (
        field (codes "path") (text (codes "docs/E2E-REPORT-WINDOWS.md"))
          (field (codes "sha256") (text (py.sha256 report)) no_fields)))
      (field (codes "project") (text (codes "codex-subscription-router-windows")) (
        field (codes "schemaVersion") (number (codes "1")) (
          field (codes "scope") (text (codes "source-gates")) (
            field (codes "sourceCommit") (text c.commit) (
              field (codes "status") (text (codes "AUTOMATED_GATES_PASSED"))
                (field (codes "version") (text c.version) no_fields)))))))

-- Every end of `create_source_gate_evidence`: its conditions, its result, and the file after it.
pub data Ends (py : Library) (r : Repository) (allow_dirty : Bool)
    : Option Bytes → Outcome ReleaseError (Unit {0}) × Option Bytes → Type 0 where
  no_context :
      (e : ReleaseError)
      → (file : Option Bytes) → context py r allow_dirty ≡ err e
      → Ends py r allow_dirty file (err e, file)
  kept :
      (c : BuildContext)
      → (old : Bytes) → context py r allow_dirty ≡ ok c
      → Ends py r allow_dirty (some old) (err output_exists, some old)
  no_report :
      (c : BuildContext)
      → (e : ReleaseError) → context py r allow_dirty ≡ ok c
      → report_of r c ≡ err e
      → Ends py r allow_dirty none (err e, some [])
  not_text :
      (c : BuildContext)
      → (report : Bytes) → context py r allow_dirty ≡ ok c
      → report_of r c ≡ ok report
      → is_utf8 report ≡ false
      → Ends py r allow_dirty none (err report_not_utf8, some [])
  written :
      (c : BuildContext)
      → (report : Bytes) → context py r allow_dirty ≡ ok c
      → report_of r c ≡ ok report
      → is_utf8 report ≡ true
      → (validate_source_gates py r (some (json_bytes py (evidence py c report))) c
          ≡ ok (json_bytes py (evidence py c report)))
      → Ends py r allow_dirty none (ok tt, some (json_bytes py (evidence py c report)))

module _ (py : Library) (r : Repository) where
  git_blob-report_of :
      (c : BuildContext) → git_blob r c.commit (codes "docs/E2E-REPORT-WINDOWS.md") ≡ report_of r c
  unfolding git_blob normalized_path has_byte parse_path parts is_absolute contains as_posix
      bytes_eq is_utf8
  git_blob-report_of c = refl

  document-err :
      (c : BuildContext) {e : ReleaseError}
      → report_of r c ≡ err e
      → source_gate_document py r c ≡ err e
  unfolding source_gate_document
  document-err c h = rw (git_blob-report_of c, h) refl

  document-not_utf8 :
      (c : BuildContext) {report : Bytes}
      → report_of r c ≡ ok report
      → is_utf8 report ≡ false
      → source_gate_document py r c ≡ err report_not_utf8
  unfolding source_gate_document
  document-not_utf8 c h u = rw (git_blob-report_of c, h, u) refl

  document-ok :
      (c : BuildContext) {report : Bytes}
      → report_of r c ≡ ok report
      → is_utf8 report ≡ true
      → source_gate_document py r c ≡ ok (evidence py c report)
  unfolding source_gate_document gate_entries fields_of
  document-ok c h u = rw (git_blob-report_of c, h, u) refl

  -- However `create_source_gate_evidence` ends, it is in one of five ways. Without a context its error is
  -- raised and the file is as it was. A file that exists is refused and left as it was. Without a report in
  -- the commit, or with one that is not UTF-8, an error is raised and an empty file is left. Otherwise the
  -- file holds the evidence with the commit, the version and the report's digest and with the status of
  -- passed gates, and `validate_source_gates` accepts it and returns what the file holds. The hypothesis is
  -- that `json.loads` returns the evidence for this repository from what `json.dumps` wrote of it.
  pub create_source_gate_evidence-ends :
      (allow_dirty : Bool) (file : Option Bytes)
      → ((c : BuildContext) (report : Bytes)
          → context py r allow_dirty ≡ ok c
          → report_of r c ≡ ok report
          → py.loads (json_bytes py (evidence py c report)) ≡ some (evidence py c report))
      → Ends py r allow_dirty file (create_source_gate_evidence py r file allow_dirty)
  unfolding create_source_gate_evidence
  create_source_gate_evidence-ends allow_dirty file read =
      elim (Outcome-cases (context py r allow_dirty)) [
        | inr (e, h) ↦ rw (h) (no_context e file h)
        | inl (c, h) ↦ rw (h) (opened c h file)
      ]
    where
      made :
          (c : BuildContext)
          → context py r allow_dirty ≡ ok c
          → (report : Bytes) → report_of r c ≡ ok report
          → Ends py r allow_dirty none (write_evidence py (source_gate_document py r c))
      made c h report b = elim (Bool-cases (is_utf8 report)) [
        | inl u ↦
            let document = document-ok c b u in
            rw (document) (
              written c report h b u
                (validate-document py r c (evidence py c report) (read c report h b) document))
        | inr u ↦ rw (document-not_utf8 c b u) (not_text c report h b u)
      ]

      opened :
          (c : BuildContext)
          → context py r allow_dirty ≡ ok c
          → (before : Option Bytes)
          → Ends py r allow_dirty before (open_evidence py before (source_gate_document py r c))
      opened c h (some old) = kept c old h
      opened c h none = elim (Outcome-cases (report_of r c)) [
        | inr (e, b) ↦ rw (document-err c b) (no_report c e h b)
        | inl (report, b) ↦ made c h report b
      ]
