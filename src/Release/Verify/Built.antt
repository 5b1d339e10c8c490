-- ===== src/Release/Verify/Built.antt =====
-- `verify_release` accepts what `build_release` of scripts/release/release_artifacts.py writes.
use codex_subscription_route.Prelude.{
  ok-injective, ℕ, ◌^◌, ◌≤◌, ◌<◌, ◌≡◌, ◌≢◌, ◌∙◌, refl, sym, ap, subst, Bool, true, Option, some,
  List, [], map, arith, All, ok, >>=-eq-ok,
}
use codex_subscription_route.Text.{Bytes, codes, bytes_eq_self, sort_by}
use codex_subscription_route.Json.{Json, well_formed}
use mathlib.Core.Option.{some-injective}
use codex_subscription_route.Release.Library.{Library, Repository, json_bytes}
use codex_subscription_route.Release.Context.{BuildContext, context}
use codex_subscription_route.Release.Context.Bounds.{
  IsContextOf, context-IsContextOf, context-allowed,
}
use codex_subscription_route.Release.Sources.{SourceFile, git_source_files}
use codex_subscription_route.Release.Path.Canonical.{IsPiece}
use codex_subscription_route.Release.Archive.{Member, member_of, write_tar_gz, verify_archive}
use codex_subscription_route.Release.Archive.RoundTrip.{IsTarGz, verify_archive-write_tar_gz}
use codex_subscription_route.Release.Manifest.{Artifact}
use codex_subscription_route.Release.Manifest.Line.{IsDigest}
use codex_subscription_route.Release.Gates.{source_gate_document}
use codex_subscription_route.Release.Gates.RoundTrip.{validate_source_gates_sound}
use codex_subscription_route.Release.Cyclonedx.{cyclonedx, tool_version}
use codex_subscription_route.Release.Spdx.{spdx}
use codex_subscription_route.Release.Sboms.Built.{cyclonedx-verify_sboms}
use codex_subscription_route.Release.Provenance.{provenance, statement}
use codex_subscription_route.Release.Build.{
  Directory, Documents, Inputs, archive_context, initial_artifacts, write_archive, output_names,
  build_release, documents,
}
use codex_subscription_route.Release.Build.Names.{archive_root-IsPiece}
use codex_subscription_route.Release.Build.Made.{
  IsMadeOf, IsInput, artifacts_of, initial_of, documents-IsMadeOf, build_release-made,
}
use codex_subscription_route.Release.Verify.{check_documents, check_provenance, verify_release}
use codex_subscription_route.Release.Verify.Subjects.{check_provenance-ok}
use codex_subscription_route.Release.Verify.Stored.{
  IsSized, output_of, check_files-artifacts, artifacts-found, initial-Distinct, output_names-sorted,
}

-- `json.loads` returns from each of the four documents of a context the value that was written in it.
pub record IsReadBack (py : Library) (r : Repository) (c : BuildContext) (archive : Bytes)
    : Type 0 where
  pub bills_back : (v : Json) → cyclonedx py r c ≡ ok v → py.loads (json_bytes py v) ≡ some v
  pub bill_back :
      (u v : Json)
      → cyclonedx py r c ≡ ok u
      → spdx py c u ≡ ok v
      → py.loads (json_bytes py v) ≡ some v
  pub gates_back :
      (v : Json) → source_gate_document py r c ≡ ok v → py.loads (json_bytes py v) ≡ some v
  pub statement_back :
      (u v w x : Json)
      → cyclonedx py r c ≡ ok u
      → spdx py c u ≡ ok v
      → source_gate_document py r c ≡ ok w
      → provenance py r c
          (initial_artifacts c archive (json_bytes py u) (json_bytes py v) (json_bytes py w))
        ≡ ok x
      → py.loads (json_bytes py x) ≡ some x

provenance_lem :
    (py : Library) (r : Repository) (c : BuildContext) (subjects : List Artifact) {v : Json}
    → provenance py r c subjects ≡ ok v
    → (go node : Bytes) × (statement py c go node subjects ≡ v)
unfolding provenance
provenance_lem py r c subjects h =
    let (go, _, h1) = >>=-eq-ok (tool_version py r.go_version) _ h in
    let (node, _, h2) = >>=-eq-ok (tool_version py r.node_version) _ h1 in
    (go, node, ok-injective h2)

-- The documents that were made pass their check.
documents-checked :
    (py : Library) (r : Repository) (c : BuildContext) (gates archive : Bytes) (d : Documents)
    (document : Json)
    → ((s : Bytes) (v : Json) → py.loads s ≡ some v → well_formed v ≡ true)
    → IsReadBack py r c archive
    → source_gate_document py r c ≡ ok document
    → gates ≡ json_bytes py document
    → IsMadeOf py r c gates archive d
    → check_documents py r c (sort_by (λ a. a.name) (artifacts_of c archive d)) ≡ ok tt
unfolding check_documents
documents-checked py r c gates archive d document dictionaries back gated same_gates made =
    let (held_archive, (held_bills, (held_bill, (held_gates, (held_statement, _))))) =
      artifacts-found c archive d in
    let bills_read : py.loads d.cyclonedx_data ≡ some made.bills =
      ap (λ s. py.loads s) made.bills_data ∙ back.bills_back made.bills made.bills_made in
    let same_bills : made.loaded ≡ made.bills =
      some-injective _ _ (sym made.bills_loaded ∙ bills_read) in
    let bill_made : spdx py c made.bills ≡ ok made.bill =
      subst (λ b. spdx py c b ≡ ok made.bill) same_bills made.bill_made in
    let bill_read : py.loads d.spdx_data ≡ some made.bill =
      ap (λ s. py.loads s) made.bill_data
      ∙ back.bill_back made.bills made.bill made.bills_made bill_made in
    let gates_data = made.gates_kept ∙ same_gates in
    let gates_read : py.loads d.gates_data ≡ some document =
      ap (λ s. py.loads s) gates_data ∙ back.gates_back document gated in
    let same_initial : initial_of c archive d
        ≡ initial_artifacts c archive (json_bytes py made.bills) (json_bytes py made.bill)
            (json_bytes py document) =
      rw (made.bills_data, made.bill_data, gates_data) refl in
    let statement_read : py.loads d.provenance_data ≡ some made.statement_made =
      ap (λ s. py.loads s) made.statement_data
      ∙ back.statement_back made.bills made.bill document made.statement_made made.bills_made
          bill_made gated (ap (provenance py r c) (sym same_initial) ∙ made.provenance_made) in
    let verified =
      cyclonedx-verify_sboms py r c made.bills made.bill dictionaries made.bills_made bill_made in
    let (go, node, same_statement) =
      provenance_lem py r c (initial_of c archive d) made.provenance_made in
    let sorted = sort_by (λ (a : Artifact). a.name) (artifacts_of c archive d) in
    let accepted : check_provenance py c sorted made.statement_made ≡ ok tt =
      subst (λ v. check_provenance py c sorted v ≡ ok tt) same_statement
        (check_provenance-ok py c go node sorted (initial_of c archive d) refl
          (initial-Distinct c archive d)
          (held_archive, (held_bills, (held_bill, (held_gates, tt))))) in
    rw (
      held_bills,
      bills_read,
      held_bill,
      bill_read,
      held_statement,
      statement_read,
      held_gates,
      gates_read,
      verified,
      gated,
      bytes_eq_self (json_bytes py document),
      accepted,
    )

module _ (pack : ℕ → List Member → Bytes) (unpack : Bytes → Option (List Member)) where
  archive_accepted :
      (py : Library) (r : Repository) (c : BuildContext) (files : List SourceFile)
      → IsContextOf py r c
      → git_source_files py.lower py.casefold (r.tree c.commit) ≡ ok files
      → All (λ f. f.path ≢ codes ".") files
      → IsTarGz pack unpack c.source_epoch (map (member_of (archive_context c)) files)
      → verify_archive py.lower py.casefold
          (r.tree c.commit)
          unpack
          (archive_context c)
          (write_tar_gz pack files (archive_context c))
        ≡ ok tt
  archive_accepted py r c files is_context listed paths formats =
      verify_archive-write_tar_gz py.lower py.casefold (r.tree c.commit) (archive_context c) pack
        unpack files listed
        (subst IsPiece (sym is_context.archive_root) (archive_root-IsPiece c is_context.version))
        (bounded c.source_epoch is_context.source_epoch) paths formats
    where
      bounded : (n : ℕ) → n ≤ 0xffffffff → n < 2 ^ 32
      bounded n h = omega arith

  -- What is written of some inputs is accepted.
  inputs_accepted :
      (py : Library) (r : Repository) (gates_file : Option Bytes) (allow_dirty : Bool) (i : Inputs)
      (d : Documents)
      → ((s : Bytes) → IsDigest (py.sha256 s))
      → ((s : Bytes) (v : Json) → py.loads s ≡ some v → well_formed v ≡ true)
      → IsInput py r gates_file allow_dirty i
      → All (λ f. f.path ≢ codes ".") i.files
      → IsTarGz pack unpack i.build_context.source_epoch
          (map (member_of (archive_context i.build_context)) i.files)
      → IsReadBack py r i.build_context (write_archive pack py r i)
      → documents py r i.build_context i.gates (write_archive pack py r i) ≡ ok d
      → IsSized (output_of i.build_context (write_archive pack py r i) d)
      → verify_release unpack py r (output_of i.build_context (write_archive pack py r i) d)
        ≡ ok (output_names i.build_context)
  unfolding verify_release
  inputs_accepted py r gates_file allow_dirty i d sha dictionaries input paths formats back h
        sized =
      let c = i.build_context in
      let archive = write_archive pack py r i in
      let is_context = context-IsContextOf py r allow_dirty c input.context_made in
      let made = documents-IsMadeOf py r c i.gates archive d h in
      let (document, value, gated, same_gates, _, _) =
        validate_source_gates_sound py r gates_file c i.gates input.validated in
      let (held_archive, _) = artifacts-found c archive d in
      rw (
        context-allowed py r allow_dirty c input.context_made,
        check_files-artifacts c archive d py sha is_context.version sized made.sums_made,
        held_archive,
        archive_accepted py r c i.files is_context input.listed paths formats,
        documents-checked py r c i.gates archive d document dictionaries back gated same_gates made,
        output_names-sorted c archive d,
      )

  -- `verify_release` accepts the directory that `build_release` has written into an empty one, and returns
  -- the same names. The hypotheses: the digest has the form of SHA-256; dictionaries that are read have
  -- different keys; no path of the commit is the single dot; gzip and tar read back the archive that they
  -- write, and `json.loads` the four documents; the length of every file has at most as many digits as
  -- `int` reads.
  pub build_release-verify_release :
      (py : Library) (r : Repository) (gates_file : Option Bytes) (allow_dirty : Bool)
      (c : BuildContext) (files : List SourceFile) (listed : List Bytes) (output : Directory)
      → ((s : Bytes) → IsDigest (py.sha256 s))
      → ((s : Bytes) (v : Json) → py.loads s ≡ some v → well_formed v ≡ true)
      → context py r allow_dirty ≡ ok c
      → git_source_files py.lower py.casefold (r.tree c.commit) ≡ ok files
      → All (λ f. f.path ≢ codes ".") files
      → IsTarGz pack unpack c.source_epoch (map (member_of (archive_context c)) files)
      → IsReadBack py r c (write_tar_gz pack files (archive_context c))
      → IsSized output
      → build_release pack py r gates_file allow_dirty [] ≡ (ok listed, output)
      → verify_release unpack py r output ≡ ok listed
  build_release-verify_release py r gates_file allow_dirty c files listed output sha dictionaries
        contextual committed paths formats back sized built =
      let (i, d, input, made, names, written) =
        build_release-made pack py r gates_file allow_dirty listed output built in
      let same_context : c ≡ i.build_context = ok-injective (sym contextual ∙ input.context_made) in
      let committed_there : git_source_files py.lower py.casefold (r.tree i.build_context.commit)
          ≡ ok files =
        subst (λ b. git_source_files py.lower py.casefold (r.tree b.commit) ≡ ok files) same_context
          committed in
      let same_files : files ≡ i.files = ok-injective (sym committed_there ∙ input.listed) in
      let Formats = λ (b : BuildContext) (fs : List SourceFile).
        All (λ f. f.path ≢ codes ".") fs
        × IsTarGz pack unpack b.source_epoch (map (member_of (archive_context b)) fs)
        × IsReadBack py r b (write_tar_gz pack fs (archive_context b)) in
      let there : Formats i.build_context i.files =
        subst (Formats i.build_context) same_files
          (subst (λ b. Formats b files) same_context (paths, formats, back)) in
      let accepted =
        inputs_accepted py r gates_file allow_dirty i d sha dictionaries input there.0 there.1
          there.2 made (subst IsSized written sized) in
      subst (λ o. verify_release unpack py r o ≡ ok listed) (sym written)
        (accepted ∙ ap ok (sym names))
