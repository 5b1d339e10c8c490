-- ===== src/Release/Errors.antt =====
-- The exceptions of scripts/release/release_artifacts.py, one constructor for each `raise`.
pub data ReleaseError : Type 0 where
  -- `_normalized_path`
  backslash unsafe non_canonical : ReleaseError
  -- `scan_source_file`
  local_state forbidden_suffix installed_path too_large secret executable_magic zip_magic :
      ReleaseError
  -- `_git_source_files`
  malformed_entry unsupported_entry git_failed not_utf8 no_files case_collision : ReleaseError
  -- `_parse_manifest`
  invalid_line duplicate_entry int_limit unsorted_manifest empty_manifest : ReleaseError
  -- `_verify_archive`
  not_gzip gzip_flags gzip_time gzip_platform unreadable_tar unsorted_members empty_archive :
      ReleaseError
  outside_root not_regular owner_metadata timestamp unexpected_mode : ReleaseError
  outside_commit content_differs mode_differs omits_source : ReleaseError
  -- `_run`
  command_failed : ReleaseError
  -- `_context`
  invalid_commit dirty_tree no_version not_semantic version_differs epoch_differs epoch_range :
      ReleaseError
  -- the source gates
  report_not_utf8 unreadable_gates gates_differ output_exists : ReleaseError
  -- `_npm_components`, `_spdx`
  no_npm_version invalid_integrity duplicate_spdx_id : ReleaseError
  -- `build_release`
  output_not_empty : ReleaseError
  -- `_verify_sboms`
  not_cyclonedx other_root_component bad_references unsorted_components not_spdx : ReleaseError
  other_root_package bad_identifiers duplicate_identifiers : ReleaseError
  -- `verify_release`
  no_manifest unexpected_artifacts not_a_file unmanifested hash_mismatch : ReleaseError
  not_canonical invalid_json gates_artifact_differs not_in_toto not_slsa : ReleaseError
  other_commit gate_status evidence_scope other_subjects : ReleaseError
  -- exceptions of Python that are not caught: `AttributeError`, `KeyError`, `TypeError`, `ValueError`,
  -- `OSError`
  attribute_error key_error type_error value_error os_error : ReleaseError
