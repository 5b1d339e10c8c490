-- ===== src/Tests/Verified.antt =====
-- The release of the small repository, and its check.
use codex_subscription_route.Prelude.{
  ◌≡◌, refl, true, false, some, List, [], ◌∷◌, ◌++◌, map, arith, ok,
}
use codex_subscription_route.Text.{
  Bytes, codes, bytes_eq, contains, has_byte, split, join, sort_by, is_distinct, is_utf8,
  starts_with, decimal, number, lists_eq, is_sorted, split_lines, bytes_le, insert_by,
}
use codex_subscription_route.Release.Path.{normalized_path}
use codex_subscription_route.Release.Path.Canonical.{IsPiece}
use codex_subscription_route.PurePath.{parse_path, parts, is_absolute, as_posix, name, suffix}
use codex_subscription_route.Json.{lookup, is_text, is_truthy, fields_of, items_of, list_of}
use codex_subscription_route.Release.Library.{iterate, get, first_item, json_bytes}
use codex_subscription_route.Release.Sources.{
  partition, parse_metadata, parse_entry, read_entry, read_entries, git_source_files,
}
use codex_subscription_route.Release.Archive.{write_tar_gz}
use codex_subscription_route.Release.Secrets.{
  has_secret, secret_patterns, private_key, github_token, github_pat, api_key, password_line,
}
use codex_subscription_route.Release.Scan.{
  scan_source_file, scan_normalized, is_local_state, is_installed,
}
use codex_subscription_route.Regex.{search_in}
use codex_subscription_route.Release.Context.{context}
use codex_subscription_route.Release.Context.Bounds.{context-IsClean}
use codex_subscription_route.Release.Build.{
  Directory, Documents, documents, artifact, provenance_name, written_files, output_names,
  build_release, Inputs, read_inputs, archive_context,
}
use codex_subscription_route.Release.Manifest.{
  Artifact, parse_manifest, parse_lines, accept, hash_line, after_digest, size_and_name,
  after_spaces, span_digits, manifest_bytes, manifest_line, render,
}
use codex_subscription_route.Release.Provenance.{
  provenance, statement, build_definition, run_details,
}
use codex_subscription_route.Release.Cyclonedx.{rfc3339, tool_version, bom}
use codex_subscription_route.Release.Spdx.{spdx_document}
use codex_subscription_route.Release.Sboms.{verify_sboms}
use codex_subscription_route.Release.Sboms.Built.{cyclonedx-verify_sboms}
use codex_subscription_route.Release.Gates.{gate_entries, validate_source_gates}
use codex_subscription_route.Release.Gates.RoundTrip.{validate-document}
use codex_subscription_route.Tests.Documents.{
  ascii_lower, digest_of, build, readme, git, repository, gates, bills, bill, members, pack, packed,
  unpack, initial, statement_json, py, bills_made, bill_made, gates_made, dictionaries,
  context_found,
}
use codex_subscription_route.Release.Verify.{
  verify_release, check_files, check_documents, check_artifact, check_provenance, check_statement,
  check_subjects, find_file, artifact_content, expected_subjects, actual_subject, same_subjects,
  find_subject,
}
use codex_subscription_route.Release.Verify.Sound.{
  IsManifested, check_files-IsManifested, IsVerified, verify_release_sound,
}
use codex_subscription_route.Release.Verify.Documents.{IsDocumented, check_documents-IsDocumented}
use codex_subscription_route.Release.Archive.{verify_archive}
use codex_subscription_route.Release.Archive.RoundTrip.{IsTarGz, verify_archive-write_tar_gz}

gates_valid :
    validate_source_gates py repository (some (codes "gates\n")) build ≡ ok (codes "gates\n")
unfolding json_bytes gate_entries bytes_eq lookup fields_of
gates_valid = validate-document py repository build gates refl gates_made

abbrev inputs : Inputs
inputs = record { build_context = build; files = readme ∷ []; gates = codes "gates\n" }

pub inputs_read : read_inputs py repository (some (codes "gates\n")) false ≡ ok inputs
unfolding read_inputs git_source_files read_entries read_entry parse_entry parse_metadata partition
    split bytes_eq contains scan_source_file scan_normalized normalized_path has_byte parse_path
    parts is_absolute as_posix name suffix is_local_state is_installed has_secret secret_patterns
    private_key github_token github_pat api_key password_line search_in starts_with sort_by
    is_distinct is_utf8
inputs_read = rw (context_found, gates_valid)

abbrev statement_text : Bytes
statement_text = codes "statement\n"

pub statement_made : provenance py repository build initial ≡ ok statement_json
unfolding provenance tool_version split_lines bytes_eq statement build_definition run_details
    rfc3339
statement_made = refl

abbrev pub sums : Bytes
sums =
    codes
      "000000000000000000000000000000000000000000000000000000000000004f  4  codex-subscription-router-windows-v1.2.3.cdx.json\n"
    ++ (codes
          "000000000000000000000000000000000000000000000000000000000000000f  10  codex-subscription-router-windows-v1.2.3.provenance.json\n"
        ++ (codes
              "000000000000000000000000000000000000000000000000000000000000006f  6  codex-subscription-router-windows-v1.2.3.source-gates.json\n"
            ++ (codes
                  "000000000000000000000000000000000000000000000000000000000000005f  5  codex-subscription-router-windows-v1.2.3.spdx.json\n"
                ++ (codes
                    "000000000000000000000000000000000000000000000000000000000000001f  11  codex-subscription-router-windows-v1.2.3.tar.gz\n"))))

abbrev all_artifacts : List Artifact
all_artifacts = initial ++ (artifact (provenance_name build) statement_text ∷ [])

sums_made : manifest_bytes digest_of all_artifacts ≡ ok sums
unfolding manifest_bytes manifest_line render join normalized_path has_byte parse_path parts
    is_absolute contains as_posix bytes_eq decimal sort_by bytes_le insert_by
sums_made = refl

abbrev written : Documents
written = record {
  cyclonedx_data = codes "bom\n";
  spdx_data = codes "spdx\n";
  gates_data = codes "gates\n";
  provenance_data = statement_text;
  manifest_data = sums;
}

documents_made : documents py repository build (codes "gates\n") packed ≡ ok written
unfolding documents json_bytes bom statement spdx_document lookup bytes_eq fields_of
documents_made = rw (bills_made, bill_made, statement_made, sums_made)

abbrev pub release : Directory
release = written_files build packed written

-- The run of `build_release`.
pub built :
    build_release pack py repository (some (codes "gates\n")) false []
    ≡ (ok (output_names build), release)
unfolding build_release write_tar_gz
built = rw (inputs_read, documents_made)

sboms_accepted : verify_sboms build bills bill ≡ ok tt
sboms_accepted =
    cyclonedx-verify_sboms py repository build bills bill dictionaries bills_made bill_made

abbrev sorted_artifacts : List Artifact
sorted_artifacts = sort_by (λ a. a.name) all_artifacts

files_checked : check_files py build release ≡ ok sorted_artifacts
unfolding check_files find_file parse_manifest parse_lines accept hash_line after_digest
    size_and_name after_spaces span_digits normalized_path has_byte parse_path parts is_absolute
    contains as_posix bytes_eq is_utf8 split_lines is_sorted lists_eq sort_by number check_artifact
    bytes_le insert_by manifest_bytes manifest_line render join decimal
files_checked = refl

pub archive_IsTarGz : IsTarGz pack unpack build.source_epoch members
unfolding bytes_eq
archive_IsTarGz = record { header = refl; read_back = refl }

root_IsPiece : IsPiece build.archive_root
unfolding has_byte
root_IsPiece = record {
  nonempty = ground arith;
  not_dot = ground arith;
  not_up = ground arith;
  no_slash = refl;
  no_backslash = refl;
}

pub sources_listed : git_source_files ascii_lower ascii_lower git ≡ ok (readme ∷ [])
unfolding git_source_files read_entries read_entry parse_entry parse_metadata partition split
    bytes_eq contains scan_source_file scan_normalized normalized_path has_byte parse_path parts
    is_absolute as_posix name suffix is_local_state is_installed has_secret secret_patterns
    private_key github_token github_pat api_key password_line search_in starts_with sort_by
    is_distinct is_utf8
sources_listed = refl

archive_verified :
    verify_archive ascii_lower ascii_lower git unpack (archive_context build) packed ≡ ok tt
unfolding write_tar_gz
archive_verified =
    verify_archive-write_tar_gz ascii_lower ascii_lower git (archive_context build) pack unpack
      (readme ∷ []) sources_listed root_IsPiece (omega arith) (ground arith, tt) archive_IsTarGz

documents_checked : check_documents py repository build sorted_artifacts ≡ ok tt
unfolding check_documents artifact_content sort_by insert_by bytes_le bytes_eq check_provenance
    check_statement check_subjects statement build_definition get lookup fields_of is_text is_truthy
    first_item items_of list_of iterate actual_subject same_subjects find_subject expected_subjects
    json_bytes gate_entries
documents_checked = rw (sboms_accepted, gates_made)

context_dirty : context py repository true ≡ ok build
context_dirty = ((context-IsClean py repository build).0 context_found).1

verified : verify_release unpack py repository release ≡ ok (output_names build)
unfolding verify_release artifact_content sort_by insert_by bytes_le bytes_eq
verified = rw (context_dirty, files_checked, archive_verified, documents_checked)

verify_release_sound_example :
    IsVerified unpack py repository release
    × (output_names build ≡ sort_by (λ s. s) (map (λ child. child.name) release))
verify_release_sound_example =
    verify_release_sound unpack py repository release (output_names build) verified

check_files-IsManifested_example : IsManifested py build release sorted_artifacts
check_files-IsManifested_example =
    check_files-IsManifested py build release sorted_artifacts files_checked

check_documents-IsDocumented_example : IsDocumented py repository build sorted_artifacts
check_documents-IsDocumented_example =
    check_documents-IsDocumented py repository build sorted_artifacts documents_checked
