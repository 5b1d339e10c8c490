-- ===== src/Tests/Qualified.antt =====
-- The qualification of a small application, and the theorem on it.
use codex_subscription_route.Prelude.{
  ◌≡◌, refl, false, none, some, List, [], ◌∷◌, ◌++◌, if◌then◌else◌, ok,
}
use codex_subscription_route.Text.{
  Bytes, codes, bytes_eq, contains, has_byte, is_utf8, join, split, starts_with, ends_with,
  includes, count_from, replace_from, sort_by, decimal,
}
use codex_subscription_route.Json.{Json, text, number, object_of, fields_of, lookup, is_text}
use codex_subscription_route.PurePath.{parse_path, parts, is_absolute}
use codex_subscription_route.Release.Context.{after_digits}
use codex_subscription_route.Windows.Approval.{Dictionary, get}
use codex_subscription_route.Windows.Disk.{
  file, Disk, content_of, leads_to_directory, text_length, newlines, is_linklike, is_file, is_dir,
  read_bytes, require_regular_file, read_bounded_text, is_pe_executable, safe_relative_file,
  read_bounded_json, read_json, sha256_file,
}
use codex_subscription_route.Windows.Trees.{tree_text, tree_digest}
use codex_subscription_route.Windows.ComputerUse.{
  total, require_executable, check_named, check_package, check_executables, check_markers,
  check_fallbacks, check_transports, files_of, check_tree, inspect_computer_use_contract,
  contract_entries,
}
use codex_subscription_route.Windows.Appshots.{
  strict_gate, appshots_entries, build_version, is_split_renderer, required_markers, check_bundle,
  verify_windows_appshots_contract,
}
use codex_subscription_route.Qualification.{
  approved_build, compare_values, compare_build, validate_approved_computer_use, ensure_asar_tool,
  Surroundings, qualify_appshots, qualify,
}
use codex_subscription_route.Qualification.Approves.{IsQualified, qualify-IsQualified}
use codex_subscription_route.Windows.ComputerUse.Manifest.{
  check_exact, require_text, check_versions,
}
use codex_subscription_route.Windows.Disk.Hashes.{keep_hashed, tree_file_hashes, hash_of}
use codex_subscription_route.Tests.Application.{disk, py, contract}

abbrev tested : Dictionary (Dictionary Bytes)
tested =
    (
      codes "26.930",
      (codes "cua_tree_sha256", codes "406")
          ∷ (codes "cua_node_version", codes "24.1.0")
          ∷ (codes "cua_runtime_version", codes "7")
          ∷ (codes "cua_package_version", codes "1.2")
          ∷ [],
    )
    ∷ []

abbrev bundle : Bytes
bundle =
    codes "a.a.isInternal(i)||"
    ++ (strict_gate
        ++ (codes ";"
            ++ (strict_gate ++ codes ";s.appshotsEnabled=H.windowsCaptureNativeBridge!=null")))

abbrev extracted : Disk
extracted = record {
  node = λ path. if bytes_eq (join b'/' path) (codes "main-1.js") then some (file bundle) else none;
  below = λ path. [];
  glob = λ path pattern.
      if starts_with pattern (codes "main-") then (codes "main-1.js" ∷ []) ∷ [] else [];
}

abbrev outside : Surroundings
outside = record {
  project_root = codes "project" ∷ [];
  executable = codes "asar";
  extract = λ asar archive. ok extracted;
}

abbrev report : List (Bytes × Json)
report =
    (codes "schemaVersion", number (codes "1"))
    ∷ (codes "execution", text (codes "static-read-only"))
    ∷ (codes "sourceVersion", text (codes "26.930"))
    ∷ (codes "buildManifestSha256", text (codes "1"))
    ∷ (codes "computerUse", object_of (contract_entries contract))
    ∷ (codes "appshots", object_of appshots_entries)
    ∷ []

qualified : qualify py disk outside tested (codes "app" ∷ []) false ≡ ok report
unfolding is_linklike is_file is_dir read_bytes require_regular_file read_bounded_text
    is_pe_executable safe_relative_file read_bounded_json sha256_file keep_hashed tree_file_hashes
    content_of leads_to_directory text_length newlines total check_exact require_text check_versions
    require_executable check_named check_package check_executables check_markers check_fallbacks
    check_transports files_of check_tree inspect_computer_use_contract tree_text tree_digest
    bytes_eq contains has_byte is_utf8 join split starts_with ends_with includes replace_from
    sort_by decimal lookup is_text fields_of parse_path parts is_absolute after_digits hash_of
    read_json get approved_build compare_values compare_build validate_approved_computer_use
    ensure_asar_tool qualify_appshots qualify build_version is_split_renderer required_markers
    check_bundle verify_windows_appshots_contract count_from contract_entries
qualified = refl

qualify-IsQualified_example : IsQualified py disk outside tested (codes "app" ∷ []) false
qualify-IsQualified_example =
    qualify-IsQualified py disk outside tested (codes "app" ∷ []) false report qualified
