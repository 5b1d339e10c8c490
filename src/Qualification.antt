-- ===== src/Qualification.antt =====
-- scripts/qualify_windows_capabilities.py: `normalize_app_root`, `validate_approved_computer_use` and
-- `qualify`, and `ensure_asar_tool` of scripts/patch_windows_app.py.
pub mod Approves
use codex_subscription_route.Prelude.{
  ◌*◌, Bool, true, false, not, ◌&&◌, ◌||◌, Option, none, some, List, [], ◌∷◌, ◌++◌, if◌then◌else◌,
  Outcome, ok, err, ◌>>=◌, ◌>>◌, raise_if,
}
use codex_subscription_route.Text.{Bytes, codes, bytes_eq}
use codex_subscription_route.Json.{Json, null, text, number, object, object_of, lookup}
use codex_subscription_route.PurePath.{last}
use codex_subscription_route.Windows.Approval.{Dictionary, get}
use codex_subscription_route.Windows.Files.{FilePath}
use codex_subscription_route.Windows.Install.{parent}
use codex_subscription_route.Windows.Disk.{
  Disk, Python, ContractError, key_error, attribute_error, not_approved, value_differs,
  not_app_root, run_npm, tool_differs, is_linklike, is_file, is_dir, read_json, read_bounded_json,
  sha256_file,
}
use codex_subscription_route.Windows.ComputerUse.{
  Contract, inspect_computer_use_contract, contract_entries,
}
use codex_subscription_route.Windows.Appshots.{verify_windows_appshots_contract}
use codex_subscription_route.Windows.Preserved.{resources_of, child}

abbrev not_chatgpt : Python → Disk → FilePath → Bool
not_chatgpt py disk candidate =
    is_file disk candidate && not (bytes_eq (py.lower (last candidate)) (codes "chatgpt.exe"))

-- The argument is the resolved path.
unfoldable pub normalize_app_root : Python → Disk → FilePath → Outcome ContractError FilePath
normalize_app_root py disk value = do
  raise_if (not_chatgpt py disk value) not_app_root
  let candidate = if is_file disk value then parent value else value
  raise_if (is_linklike disk candidate || not (is_dir disk candidate)) not_app_root
  raise_if
      (not (is_dir disk (resources_of candidate))
        || not (is_file disk (child (resources_of candidate) (codes "app.asar"))))
      not_app_root
  ok candidate

abbrev pub or_not_approved :
    Option Json → Option (Dictionary Bytes) → Outcome ContractError (Dictionary Bytes)
or_not_approved version none = err (not_approved version)
or_not_approved version (some expected) = ok expected

-- The approved build of a version that is a text.
unfoldable pub approved_build :
    Dictionary (Dictionary Bytes) → Option Json → Outcome ContractError (Dictionary Bytes)
approved_build tested (some (text version)) =
    or_not_approved (some (text version)) (get tested version)
approved_build tested version = err (not_approved version)

abbrev pub or_key_error : Option Bytes → Outcome ContractError Bytes
or_key_error none = err key_error
or_key_error (some s) = ok s

-- A comparison that is made when the build has the key.
abbrev pub when_there : Bytes → Bytes → Option Bytes → List (Bytes × Bytes × Bytes)
when_there label actual none = []
when_there label actual (some wanted) = (label, actual, wanted) ∷ []

-- Labels with the actual and the approved value.
unfoldable pub compare_values : List (Bytes × Bytes × Bytes) → Outcome ContractError (Unit {0})
compare_values [] = ok tt
compare_values ((label, actual, wanted) ∷ comparisons) = do
  raise_if (not (bytes_eq actual wanted)) (value_differs label)
  compare_values comparisons

unfoldable pub compare_build : Dictionary Bytes → Contract → Outcome ContractError (Unit {0})
compare_build expected c = do
  tree ← or_key_error (get expected (codes "cua_tree_sha256"))
  node ← or_key_error (get expected (codes "cua_node_version"))
  runtime ← or_key_error (get expected (codes "cua_runtime_version"))
  version ← or_key_error (get expected (codes "cua_package_version"))
  compare_values (
      (codes "tree digest", c.tree_sha256, tree)
      ∷ (codes "Node version", c.node_version, node)
      ∷ (codes "runtime version", c.runtime_version, runtime)
      ∷ (codes "package version", c.package_version, version)
      ∷ when_there (codes "Node manifest version") c.node_manifest_version
          (get expected (codes "cua_node_manifest_version")))

unfoldable pub validate_approved_computer_use :
    Dictionary (Dictionary Bytes) → Option Json → Contract → Outcome ContractError (Unit {0})
validate_approved_computer_use tested source_version c = do
  expected ← approved_build tested source_version
  compare_build expected c

-- `value[key]`, and `value.get(key)`
abbrev index : Bytes → Json → Outcome ContractError Json
index key (object entries) = elim (lookup key entries) [ some v ↦ ok v | none ↦ err key_error ]
index key v = err attribute_error

abbrev or_null : Option Json → Json
or_null none = null
or_null (some v) = v

abbrev get_field : Bytes → Json → Outcome ContractError Json
get_field key (object entries) = ok (or_null (lookup key entries))
get_field key v = err attribute_error

-- `executable` is `asar.cmd` on Windows.
unfoldable pub ensure_asar_tool : Python → Disk → FilePath → Bytes → Outcome ContractError FilePath
ensure_asar_tool py disk project_root executable = do
  let asar = project_root ++ (codes "node_modules" ∷ codes ".bin" ∷ executable ∷ [])
  let manifest_path =
      project_root
      ++ (codes "node_modules" ∷ codes "@electron" ∷ codes "asar" ∷ codes "package.json" ∷ [])
  project ← read_json py disk (child project_root (codes "package.json")) (codes "package.json")
  tools ← index (codes "devDependencies") project
  expected ← index (codes "@electron/asar") tools
  raise_if (not (is_file disk asar) || not (is_file disk manifest_path)) run_npm
  manifest ← read_json py disk manifest_path (codes "asar")
  actual ← get_field (codes "version") manifest
  raise_if (not (py.equal actual expected)) tool_differs
  ok asar

-- What surrounds the command: the root of the project, the name of the tool, and the tree that
-- `asar extract` leaves of an archive.
pub record Surroundings : Type 0 where
  pub project_root : FilePath
  pub executable : Bytes
  pub extract : FilePath → FilePath → Outcome ContractError Disk

module _ (py : Python) (disk : Disk) (outside : Surroundings)
    (tested : Dictionary (Dictionary Bytes)) where
  -- What is reported of Appshots.
  unfoldable pub qualify_appshots : FilePath → Bool → Outcome ContractError (List (Bytes × Json))
  qualify_appshots resources true = ok ((codes "qualification", text (codes "not-evaluated")) ∷ [])
  qualify_appshots resources false = do
    asar ← ensure_asar_tool py disk outside.project_root outside.executable
    extracted ← outside.extract asar (child resources (codes "app.asar"))
    verify_windows_appshots_contract py extracted []

  unfoldable pub qualify : FilePath → Bool → Outcome ContractError (List (Bytes × Json))
  qualify app_root cua_only = do
    let path = child app_root (codes "codex-mux-build.json")
    build_manifest ← read_bounded_json py disk path (1024 * 1024) (codes "router build manifest")
    let source_version = lookup (codes "sourceVersion") build_manifest
    computer_use ← inspect_computer_use_contract py disk (resources_of app_root)
    validate_approved_computer_use tested source_version computer_use
    manifest_hash ← sha256_file py disk path
    appshots ← qualify_appshots (resources_of app_root) cua_only
    ok (
        (codes "schemaVersion", number (codes "1"))
        ∷ (codes "execution", text (codes "static-read-only"))
        ∷ (codes "sourceVersion", or_null source_version)
        ∷ (codes "buildManifestSha256", text manifest_hash)
        ∷ (codes "computerUse", object_of (contract_entries computer_use))
        ∷ (codes "appshots", object_of appshots)
        ∷ [])
