-- ===== src/Lib.antt =====
-- The release scripts and the Windows patcher of codex-subscription-router-windows.
--
-- scripts/release/release_artifacts.py builds and verifies source-only release artifacts from a Git
-- commit. Its functions call one another so: `build_release` and `verify_release` read the commit
-- (`_git_source_files`, which applies `scan_source_file` to every file), write or check the source
-- archive (`_write_tar_gz`, `_verify_archive`) and the list of digests (`_manifest_bytes`,
-- `_parse_manifest`); every path goes through `_normalized_path`.
--
-- Files:
--   Prelude, Text       numbers, lists, results; bytes and texts with the operations of Python used
--   PurePath            `PurePosixPath` of Python 3.13
--   Regex               the regular expressions of Python that the scripts use
--   Repair              `patched_config`, `repair` of scripts/repair_provider_compatibility.py
--   Release/Errors      one constructor for each exception of scripts/release/release_artifacts.py
--   Release/Path        `_normalized_path`
--   Release/Secrets     `SECRET_PATTERNS`
--   Release/Scan        `scan_source_file`
--   Release/Sources     `_git_source_files`
--   Release/Manifest    `_manifest_bytes`, `_parse_manifest`
--   Release/Archive     `_write_tar_gz`, `_verify_archive`
--   Release/Library     what the scripts use of Python's library, of Git and of the working tree
--   Release/Context     `_context`
--   Release/Gates       `_git_blob`, `source_gate_document`, `validate_source_gates`,
--                       `create_source_gate_evidence`
--   Release/Npm         `_npm_components`
--   Release/Go          `_go_components`
--   Release/Cyclonedx   `_cyclonedx`, `_rfc3339`, `_tool_version`
--   Release/Spdx        `_spdx`, `_spdx_id`
--   Release/Provenance  `_provenance`
--   Release/Build       `build_release`
--   Release/Sboms       `_verify_sboms`
--   Release/Verify      `verify_release`
--   Windows/Files       the file system as `atomic_install` of scripts/patch_windows_app.py sees it
--   Windows/Install     `plan_backup_path`, `atomic_install`
--   Windows/Approval    `validate_approved_source`
--   Windows/Builds      `TESTED_SOURCE_BUILDS`
--   Windows/Anchors     `replace_unique`
--   Windows/Limits      `resolve_control_port`, `validate_windows_path_budget`
--   Windows/Trees       `validate_source_destination`, `tree_digest`
--   Windows/Disk        `_is_linklike`, `_require_regular_file`, `_read_bounded_text`,
--                       `_read_bounded_json`, `_safe_relative_file`, `is_pe_executable`
--   Windows/Disk/Hashes `tree_file_hashes`, `tree_difference`
--   Windows/ComputerUse `inspect_computer_use_contract`, with its constants in Markers
--   Windows/Appshots    `verify_windows_appshots_contract`
--   Windows/Preserved   `verify_preserved_windows_resources`
--   Qualification       `ensure_asar_tool`, and scripts/qualify_windows_capabilities.py
--   Windows/Publication the end of `patch_app`: the token, the installation and its failure
--   Windows/Token       `prepare_control_token`, `persist_control_token`
--   Asar/Binary         slices and little-endian numbers of scripts/windows_asar_integrity.py
--   Asar/Slices         lemmas on slices
--   Json                JSON values as `json.loads` returns them
--   Asar/Resources      PE sections and resource directories
--   Asar/Slot           `integrity_hash_slot`, with Asar/Slot/Field for its regular expression
--   Asar/Fuses          `verify_integrity_fuses`
--   Asar/Desktop        `asar_header_sha256`, `verify_desktop_integrity`, `patch_desktop_integrity`
--   Tests               runs on small inputs, and the theorems at concrete data
--
-- A `str` is represented by its UTF-8 encoding, so a text and its encoded key for sorting are the
-- same list of bytes, and decoding is the test that bytes are well-formed UTF-8. An exception is the
-- `err` of an `Outcome`. Loops over collections are recursions on the list; printing a number in
-- decimal has one more round of fuel than the number, and each round divides by ten.
--
-- scripts/patch_windows_app.py prepares a patched build beside the destination and installs it with
-- `atomic_install`, which moves an old installation to a backup of its own (`plan_backup_path`). Its
-- state is `World`: the installation at each path, the directories, and the outcome of each call to
-- come, so that a theorem for every list of outcomes covers every place at which a call can fail.
--
-- scripts/windows_asar_integrity.py rebinds the hash of the application archive that Electron keeps in
-- a resource of its executable. Its state is `Installation`, the contents of the files involved; a
-- file that is missing, a link or no regular file is `none`. Numbers read from a file are below 2^32
-- and every sum of them is a natural number, as in Python; the one subtraction, in `file_offset`, is
-- of a smaller number.
--
-- scripts/repair_provider_compatibility.py adds a provider to a config of another program. Its state is
-- the `World` of Repair: the config, the backup and the temporary file, and the calls to come, each with
-- what another process writes to the config before it and whether it works. The name of the backup is
-- new. A write that fails leaves the file as it was.
--
-- scripts/qualify_windows_capabilities.py reports on a staged application by the inspections of the
-- patcher. They see a `Disk`, the system's answers on paths, which does not change meanwhile: nothing
-- is said of a file that changes between two of its answers.
--
-- The documents of a release are values of `Json`, a dictionary in the order of its keys, which is the
-- order in which `_json_bytes` writes it. A release directory is the list of its entries. `build_release`
-- returns the directory as it leaves it beside its result, since a failure behind the writing of the
-- archive leaves the archive there.
--
-- Parameters: the output of Git and of the working tree, `str.lower`, `str.upper` and `str.casefold`
-- (their tables outside ASCII), `str.strip`, `str.split`, `int`, the hexadecimal SHA-256, base64,
-- `uuid.uuid5`, the format of a time, the versions of the tools, the gzip and tar formats as a writer
-- and a reader, `json.loads`, `json.dumps`, `tomllib.loads` with `==` of its values, the decoder of
-- UTF-16, `Path.resolve`, `Path.glob`, the join and the name of Windows paths, `==` of JSON values, the
-- extraction of an ASAR archive, `secrets.randbelow`, a random token, and the time and the random part
-- in a new path.
--
-- Bounds of the model: `\d` in the version is read as an ASCII digit, so a version with digits of
-- other scripts counts as not semantic; a file that exists can be read and a directory written to; the
-- loops are recursions on lists, and a number is printed with fuel as described above.
--
-- Not modelled: the command lines of the release scripts, the other steps of the patchers, the checks of
-- the release metadata, and the Go, JavaScript and PowerShell parts.
pub mod Prelude
pub mod Text
pub mod PurePath
pub mod Regex
pub mod Json
pub mod Repair
pub mod Release
pub mod Windows
pub mod Qualification
pub mod Asar
mod Tests
