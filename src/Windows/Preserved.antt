-- ===== src/Windows/Preserved.antt =====
-- `verify_preserved_windows_resources` of scripts/patch_windows_app.py.
pub mod Unchanged
use codex_subscription_route.Prelude.{
  not, ◌||◌, List, [], ◌∷◌, ◌++◌, Outcome, ok, ◌>>=◌, ◌>>◌, raise_if,
}
use codex_subscription_route.Text.{Bytes, codes, bytes_eq}
use codex_subscription_route.Windows.Files.{FilePath}
use codex_subscription_route.Windows.Disk.{
  Disk, Python, ContractError, codex_changed, helper_missing, helper_changed, tree_changed,
  digest_differs, is_file, sha256_file,
}
use codex_subscription_route.Windows.Trees.{tree_digest}
use codex_subscription_route.Windows.ComputerUse.{Contract, inspect_computer_use_contract}
use codex_subscription_route.Windows.Disk.Hashes.{tree_file_hashes, trees_eq, tree_difference}

pub record Preservation : Type 0 where
  pub cli_helpers : List (Bytes × Bytes)
  pub preserved_resource_trees : List (Bytes × Bytes)
  pub computer_use : Contract

abbrev pub helper_names : List Bytes
helper_names =
    codes "codex-code-mode-host.exe"
    ∷ codes "codex-command-runner.exe"
    ∷ codes "codex-windows-sandbox-setup.exe"
    ∷ []

abbrev pub resources_of : FilePath → FilePath
resources_of app = app ++ (codes "resources" ∷ [])

abbrev pub child : FilePath → Bytes → FilePath
child path name = path ++ (name ∷ [])

module _ (py : Python) (disk : Disk) where
  -- The hashes of the helpers, which are the same in the staged resources.
  unfoldable pub check_helpers :
      FilePath → FilePath → List Bytes → Outcome ContractError (List (Bytes × Bytes))
  check_helpers source staged [] = ok []
  check_helpers source staged (name ∷ names) = do
    raise_if (not (is_file disk (child source name)) || not (is_file disk (child staged name)))
        (helper_missing name)
    source_hash ← sha256_file py disk (child source name)
    staged_hash ← sha256_file py disk (child staged name)
    raise_if (not (bytes_eq staged_hash source_hash)) (helper_changed name)
    rest ← check_helpers source staged names
    ok ((name, source_hash) ∷ rest)

  -- The digest of a tree that is the same in the staged resources.
  unfoldable pub check_tree_preserved : FilePath → FilePath → Bytes → Outcome ContractError Bytes
  check_tree_preserved source staged relative = do
    source_tree ← tree_file_hashes py disk (child source relative)
    staged_tree ← tree_file_hashes py disk (child staged relative)
    raise_if (not (trees_eq source_tree staged_tree))
        (tree_changed relative (tree_difference source_tree staged_tree))
    ok (tree_digest py.sha256 source_tree)

  -- The resources of the source and of the staged application.
  unfoldable pub verify_resources : FilePath → FilePath → Outcome ContractError Preservation
  verify_resources source staged = do
    staged_codex ← sha256_file py disk (child staged (codes "codex.real.exe"))
    official_codex ← sha256_file py disk (child source (codes "codex.exe"))
    raise_if (not (bytes_eq staged_codex official_codex)) codex_changed
    helpers ← check_helpers source staged helper_names
    cua ← check_tree_preserved source staged (codes "cua_node")
    native ← check_tree_preserved source staged (codes "native")
    unpacked ← check_tree_preserved source staged (codes "app.asar.unpacked")
    computer_use ← inspect_computer_use_contract py disk staged
    raise_if (not (bytes_eq computer_use.tree_sha256 cua)) digest_differs
    ok (record {
      cli_helpers = (codes "codex.real.exe", official_codex) ∷ helpers;
      preserved_resource_trees =
          (codes "cua_node", cua)
          ∷ (codes "native", native)
          ∷ (codes "app.asar.unpacked", unpacked)
          ∷ [];
      computer_use = computer_use;
    })

  unfoldable pub verify_preserved_windows_resources :
      FilePath → FilePath → Outcome ContractError Preservation
  verify_preserved_windows_resources source_app staged_app =
      verify_resources (resources_of source_app) (resources_of staged_app)
