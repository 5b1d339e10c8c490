-- ===== src/Tests/ComputerUse.antt =====
-- The inspections of scripts/patch_windows_app.py at a small application, and the theorems on them.
use codex_subscription_route.Prelude.{
  ◌≡◌, refl, true, false, some, List, [], ◌∷◌, ◌++◌, ok, err, All,
}
use codex_subscription_route.Text.{
  Bytes, codes, bytes_eq, contains, has_byte, is_utf8, join, split, starts_with, ends_with,
  includes, replace_from, sort_by, decimal,
}
use codex_subscription_route.Json.{text, fields_of, lookup, is_text}
use codex_subscription_route.PurePath.{parse_path, parts, is_absolute}
use codex_subscription_route.Release.Context.{after_digits}
use codex_subscription_route.Windows.Disk.{
  content_of, leads_to_directory, text_length, newlines, is_linklike, is_file, is_dir, read_bytes,
  require_regular_file, read_bounded_text, is_pe_executable, safe_relative_file, read_bounded_json,
  sha256_file, unsafe_path,
}
use codex_subscription_route.Windows.Disk.Inside.{IsPiece, safe_relative_file-IsInside}
use codex_subscription_route.Windows.Trees.{tree_text, tree_digest}
use codex_subscription_route.Windows.ComputerUse.{
  total, require_executable, check_named, check_package, check_executables, check_markers,
  check_fallbacks, check_transports, files_of, check_tree, inspect_computer_use_contract,
}
use codex_subscription_route.Windows.ComputerUse.Inspected.{
  IsInspected, inspect_computer_use_contract-IsInspected,
}
use codex_subscription_route.Windows.Preserved.{
  Preservation, resources_of, check_helpers, check_tree_preserved, verify_resources,
  verify_preserved_windows_resources,
}
use codex_subscription_route.Windows.Preserved.Unchanged.{
  IsKept, verify_preserved_windows_resources-IsKept,
}
use codex_subscription_route.Windows.ComputerUse.Markers.{cua_package_relative}
use codex_subscription_route.Windows.ComputerUse.Manifest.{
  check_exact, require_text, check_versions,
}
use codex_subscription_route.Windows.Disk.Hashes.{keep_hashed, tree_file_hashes, hash_of, trees_eq}
use codex_subscription_route.Tests.Application.{disk, py, contract, resources}

inspected : inspect_computer_use_contract py disk resources ≡ ok contract
unfolding is_linklike is_file is_dir read_bytes require_regular_file read_bounded_text
    is_pe_executable safe_relative_file read_bounded_json sha256_file keep_hashed tree_file_hashes
    content_of leads_to_directory text_length newlines total check_exact require_text check_versions
    require_executable check_named check_package check_executables check_markers check_fallbacks
    check_transports files_of check_tree inspect_computer_use_contract tree_text tree_digest
    bytes_eq contains has_byte is_utf8 join split starts_with ends_with includes replace_from
    sort_by decimal lookup is_text fields_of parse_path parts is_absolute after_digits hash_of
inspected = refl

inspect_computer_use_contract-IsInspected_example :
    IsInspected py disk (codes "app" ∷ codes "resources" ∷ codes "cua_node" ∷ []) contract
inspect_computer_use_contract-IsInspected_example =
    inspect_computer_use_contract-IsInspected py disk resources contract inspected

-- The main module of the package, named the way of Windows.
found_main :
    safe_relative_file disk
      (resources ++ (codes "cua_node" ∷ cua_package_relative))
      (some (text (codes ".\\dist\\index.js")))
      (codes "main")
    ≡ ok (
        resources
        ++ (codes "cua_node" ∷ (cua_package_relative ++ (codes "dist" ∷ codes "index.js" ∷ []))))
unfolding is_linklike is_file is_dir read_bytes require_regular_file read_bounded_text
    is_pe_executable safe_relative_file read_bounded_json sha256_file keep_hashed tree_file_hashes
    content_of leads_to_directory text_length newlines bytes_eq contains has_byte is_utf8 join split
    starts_with ends_with includes replace_from sort_by decimal lookup is_text fields_of parse_path
    parts is_absolute after_digits hash_of
found_main = refl

-- A value that leaves its root is refused.
refused_main :
    safe_relative_file disk resources (some (text (codes "a\\..\\b"))) (codes "main")
    ≡ err (unsafe_path (codes "main"))
unfolding is_linklike is_file is_dir read_bytes require_regular_file read_bounded_text
    is_pe_executable safe_relative_file read_bounded_json sha256_file keep_hashed tree_file_hashes
    content_of leads_to_directory text_length newlines bytes_eq contains has_byte is_utf8 join split
    starts_with ends_with includes replace_from sort_by decimal lookup is_text fields_of parse_path
    parts is_absolute after_digits hash_of
refused_main = refl

safe_relative_file-IsInside_example :
    (ps : List Bytes) × (resources ++ (codes "cua_node" ∷ cua_package_relative) ++ ps
      ≡ resources
        ++ (codes "cua_node" ∷ (cua_package_relative ++ (codes "dist" ∷ codes "index.js" ∷ []))))
    × All IsPiece ps
    × (is_linklike disk (
          resources
          ++ (codes "cua_node" ∷ (cua_package_relative ++ (codes "dist" ∷ codes "index.js" ∷ []))))
        ≡ false)
    × (is_file disk (
          resources
          ++ (codes "cua_node" ∷ (cua_package_relative ++ (codes "dist" ∷ codes "index.js" ∷ []))))
        ≡ true)
safe_relative_file-IsInside_example =
    safe_relative_file-IsInside disk (resources ++ (codes "cua_node" ∷ cua_package_relative))
      (some (text (codes ".\\dist\\index.js"))) (codes "main") found_main

abbrev preservation : Preservation
preservation = record {
  cli_helpers =
      (codes "codex.real.exe", codes "7")
      ∷ (codes "codex-code-mode-host.exe", codes "6")
      ∷ (codes "codex-command-runner.exe", codes "8")
      ∷ (codes "codex-windows-sandbox-setup.exe", codes "7")
      ∷ [];
  preserved_resource_trees =
      (codes "cua_node", codes "406")
      ∷ (codes "native", codes "23")
      ∷ (codes "app.asar.unpacked", codes "11")
      ∷ [];
  computer_use = contract;
}

preserved :
    verify_preserved_windows_resources py disk (codes "source" ∷ []) (codes "app" ∷ [])
    ≡ ok preservation
unfolding is_linklike is_file is_dir read_bytes require_regular_file read_bounded_text
    is_pe_executable safe_relative_file read_bounded_json sha256_file keep_hashed tree_file_hashes
    content_of leads_to_directory text_length newlines total check_exact require_text check_versions
    require_executable check_named check_package check_executables check_markers check_fallbacks
    check_transports files_of check_tree inspect_computer_use_contract tree_text tree_digest
    bytes_eq contains has_byte is_utf8 join split starts_with ends_with includes replace_from
    sort_by decimal lookup is_text fields_of parse_path parts is_absolute after_digits hash_of
    check_helpers check_tree_preserved verify_resources verify_preserved_windows_resources trees_eq
preserved = refl

verify_preserved_windows_resources-IsKept_example :
    IsKept py disk
      (resources_of (codes "source" ∷ []))
      (resources_of (codes "app" ∷ []))
      preservation
verify_preserved_windows_resources-IsKept_example =
    verify_preserved_windows_resources-IsKept py disk (codes "source" ∷ []) (codes "app" ∷ [])
      preservation preserved
