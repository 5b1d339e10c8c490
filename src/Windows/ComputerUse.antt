-- ===== src/Windows/ComputerUse.antt =====
-- `inspect_computer_use_contract` of scripts/patch_windows_app.py. Its sections are functions of their
-- own, and the result has the values of the dictionary that are not constants.
pub mod Bounded
pub mod Inspected
pub mod Manifest
pub mod Markers
pub mod Versions
use codex_subscription_route.Prelude.{
  ℕ, ◌+◌, ◌*◌, Bool, not, ◌&&◌, ◌||◌, List, [], ◌∷◌, ◌++◌, ltb, any, length, is_nil, if◌then◌else◌,
  Outcome, ok, ◌>>=◌, ◌>>◌, raise_if, collect,
}
use codex_subscription_route.Text.{Bytes, codes, includes, decimal}
use codex_subscription_route.Json.{Json, text, number, JsonFields, lookup}
use codex_subscription_route.Windows.Files.{FilePath}
use codex_subscription_route.Windows.Disk.{
  Disk, Python, ContractError, missing_directory, has_link, file_count, size_limit, not_executable,
  package_differs, missing_marker, forbidden_fallback, is_linklike, is_file, is_dir, read_bytes,
  require_regular_file, read_bounded_text, read_bounded_json, is_pe_executable, safe_relative_file,
}
use codex_subscription_route.Windows.Trees.{tree_digest}
use codex_subscription_route.Windows.ComputerUse.Markers.{
  max_cua_manifest_bytes, max_cua_package_bytes, max_cua_contract_source_bytes, max_cua_tree_bytes,
  max_cua_file_bytes, max_cua_file_count, cua_package_relative, cua_helper_transport_relative,
  cua_native_pipe_client_relative, exact_manifest_values, transport_markers, native_pipe_markers,
  fallbacks,
}
use codex_subscription_route.Windows.ComputerUse.Manifest.{
  is_value, check_exact, require_text, is_short, check_versions,
}
use codex_subscription_route.Windows.Disk.Hashes.{tree_file_hashes}

pub record Contract : Type 0 where
  pub tree_sha256 : Bytes
  pub files : ℕ
  pub total_bytes : ℕ
  pub node_version : Bytes
  pub node_manifest_version : Bytes
  pub runtime_version : Bytes
  pub package_version : Bytes

unfoldable pub total : List ℕ → ℕ
total [] = 0
total (n ∷ ns) = n + total ns

abbrev pub over : ℕ → List ℕ → Bool
over maximum sizes = any (λ n. ltb maximum n) sizes

unfoldable pub require_executable : Disk → FilePath → Bytes → Outcome ContractError (Unit {0})
require_executable disk path label =
    raise_if (not (is_pe_executable disk path)) (not_executable label)

-- The executables that the manifest names.
unfoldable pub check_named :
    Disk → FilePath → JsonFields → List Bytes → Outcome ContractError (Unit {0})
check_named disk root manifest [] = ok tt
check_named disk root manifest (key ∷ keys) = do
  path ← safe_relative_file disk root (lookup key manifest) key
  require_executable disk path key
  check_named disk root manifest keys

abbrev pub package_type : JsonFields → Bool
package_type found =
    is_value (codes "@oai/cua") (lookup (codes "name") found)
    && is_value (codes "module") (lookup (codes "type") found)

-- The version of the package, whose main module is a file of it.
unfoldable pub check_package : Python → Disk → FilePath → Outcome ContractError Bytes
check_package py disk package_root = do
  found ←
      read_bounded_json py disk (package_root ++ (codes "package.json" ∷ [])) max_cua_package_bytes
        (codes "package.json")
  raise_if (not (package_type found)) package_differs
  version ← require_text is_short (codes "version") (lookup (codes "version") found)
  _ ← safe_relative_file disk package_root (lookup (codes "main") found) (codes "main")
  ok version

unfoldable pub check_executables : Disk → List (FilePath × Bytes) → Outcome ContractError (Unit {0})
check_executables disk [] = ok tt
check_executables disk ((path, label) ∷ executables) = do
  _ ← require_regular_file disk path label
  require_executable disk path label
  check_executables disk executables

unfoldable pub check_markers : Bytes → List Bytes → Outcome ContractError (Unit {0})
check_markers source [] = ok tt
check_markers source (marker ∷ markers) = do
  raise_if (not (includes marker source)) (missing_marker marker)
  check_markers source markers

unfoldable pub check_fallbacks : Python → Bytes → List Bytes → Outcome ContractError (Unit {0})
check_fallbacks py source [] = ok tt
check_fallbacks py source (fallback ∷ more) = do
  raise_if (includes (py.lower fallback) (py.lower source)) (forbidden_fallback fallback)
  check_fallbacks py source more

-- The two sources that talk to the helper.
unfoldable pub check_transports : Python → Disk → FilePath → Outcome ContractError (Unit {0})
check_transports py disk package_root = do
  transport ←
      read_bounded_text disk (package_root ++ cua_helper_transport_relative)
        max_cua_contract_source_bytes (codes "stdio transport")
  check_markers transport transport_markers
  pipe ←
      read_bounded_text disk (package_root ++ cua_native_pipe_client_relative)
        max_cua_contract_source_bytes (codes "native-pipe client")
  check_markers pipe native_pipe_markers
  check_fallbacks py (transport ++ (codes "\n" ++ pipe)) fallbacks

unfoldable pub files_of : Disk → List FilePath → List FilePath
files_of disk [] = []
files_of disk (path ∷ paths) =
    let rest = files_of disk paths in if is_file disk path then path ∷ rest else rest

abbrev size_of : Disk → FilePath → Outcome ContractError ℕ
size_of disk path = read_bytes disk path >>= λ contents. ok (length contents)

-- The sizes of the files below a directory without links.
unfoldable pub check_tree : Disk → FilePath → Outcome ContractError (List ℕ)
check_tree disk root = do
  raise_if (is_linklike disk root || not (is_dir disk root)) missing_directory
  raise_if (any (is_linklike disk) (disk.below root)) has_link
  let files = files_of disk (disk.below root)
  raise_if (is_nil files || ltb max_cua_file_count (length files)) file_count
  sizes ← collect (size_of disk) files
  raise_if (over max_cua_file_bytes sizes || ltb max_cua_tree_bytes (total sizes)) size_limit
  ok sizes

unfoldable pub inspect_computer_use_contract :
    Python → Disk → FilePath → Outcome ContractError Contract
inspect_computer_use_contract py disk resources = do
  let root = resources ++ (codes "cua_node" ∷ [])
  let package_root = root ++ cua_package_relative
  sizes ← check_tree disk root
  manifest ←
      read_bounded_json py disk (root ++ (codes "manifest.json" ∷ [])) max_cua_manifest_bytes
        (codes "manifest.json")
  check_exact manifest exact_manifest_values
  versions ← check_versions py manifest
  check_named disk root manifest (codes "node_path" ∷ codes "node_repl_path" ∷ [])
  package_version ← check_package py disk package_root
  check_executables disk (
      (
        package_root ++ (codes "bin" ∷ codes "windows" ∷ codes "codex-computer-use.exe" ∷ []),
        codes "native helper",
      )
      ∷ (resources ++ (codes "codex-code-mode-host.exe" ∷ []), codes "code-mode host")
      ∷ [])
  check_transports py disk package_root
  hashes ← tree_file_hashes py disk root
  ok (record {
    tree_sha256 = tree_digest py.sha256 hashes;
    files = length sizes;
    total_bytes = total sizes;
    node_version = versions.1;
    node_manifest_version = versions.0;
    runtime_version = versions.2;
    package_version = package_version;
  })

-- The dictionary that is returned.
unfoldable pub contract_entries : Contract → List (Bytes × Json)
contract_entries c =
    (codes "qualification", text (codes "static-contract-only"))
    ∷ (codes "treeSha256", text c.tree_sha256)
    ∷ (codes "fileCount", number (decimal c.files))
    ∷ (codes "totalBytes", number (decimal c.total_bytes))
    ∷ (codes "nodeVersion", text c.node_version)
    ∷ (codes "nodeManifestVersion", text c.node_manifest_version)
    ∷ (codes "runtimeVersion", text c.runtime_version)
    ∷ (codes "packageVersion", text c.package_version)
    ∷ (codes "stdio", text (codes "three-pipe-json-lines"))
    ∷ (codes "nativePipe", text (codes "length-prefixed-json-rpc"))
    ∷ (codes "outboundFrameLimitBytes", number (decimal (8 * 1024 * 1024)))
    ∷ (codes "inboundFrameLimitBytes", number (decimal (64 * 1024 * 1024)))
    ∷ []
