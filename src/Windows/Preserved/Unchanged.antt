-- ===== src/Windows/Preserved/Unchanged.antt =====
-- What `verify_preserved_windows_resources` of scripts/patch_windows_app.py finds unchanged.
use codex_subscription_route.Prelude.{
  ◌≡◌, ◌∙◌, sym, ap, subst, true, not, ◌||◌, Option, none, some, List, [], ◌∷◌, ◌==◌, all, length,
  All, and-eq-true, ==_iff, arith, ok, >>=-eq-ok, raise_if->>-eq-ok, ok-injective,
}
use codex_subscription_route.Text.{Bytes, codes, bytes_eq, bytes_eq_iff}
use codex_subscription_route.Windows.Files.{FilePath}
use codex_subscription_route.Windows.Disk.{
  Disk, Python, codex_changed, helper_missing, helper_changed, tree_changed, digest_differs,
  is_file, sha256_file,
}
use codex_subscription_route.Windows.Trees.{tree_digest}
use codex_subscription_route.Windows.ComputerUse.{inspect_computer_use_contract}
use codex_subscription_route.Windows.ComputerUse.Inspected.{
  IsInspected, inspect_computer_use_contract-IsInspected,
}
use codex_subscription_route.Windows.Preserved.{
  Preservation, helper_names, resources_of, child, check_helpers, check_tree_preserved,
  verify_resources, verify_preserved_windows_resources,
}
use codex_subscription_route.Windows.Disk.Hashes.{
  tree_file_hashes, hash_of, hash_is, has_entry, trees_eq, tree_difference,
}

-- Every entry of the first tree is one of the second, which has as many.
pub record IsSameTree (source_tree : List (Bytes × Bytes)) (staged_tree : List (Bytes × Bytes))
    : Type 0 where
  pub entries : All (λ e. hash_of e.0 staged_tree ≡ some e.1) source_tree
  pub as_many : length source_tree ≡ length staged_tree

hash_is_lem : (h : Bytes) (found : Option Bytes) → hash_is h found ≡ true → found ≡ some h
hash_is_lem h none e = cc
hash_is_lem h (some k) e = ap some (sym ((bytes_eq_iff h k).0 e))

has_entries :
    (staged_tree : List (Bytes × Bytes)) (source_tree : List (Bytes × Bytes))
    → all (has_entry staged_tree) source_tree ≡ true
    → All (λ e. hash_of e.0 staged_tree ≡ some e.1) source_tree
has_entries staged_tree [] h = tt
has_entries staged_tree (e ∷ entries) h =
    let (here, rest) =
      and-eq-true (has_entry staged_tree e) (all (has_entry staged_tree) entries) h in
    (hash_is_lem e.1 (hash_of e.0 staged_tree) here, has_entries staged_tree entries rest)

trees_eq-IsSameTree :
    (source_tree : List (Bytes × Bytes)) (staged_tree : List (Bytes × Bytes))
    → trees_eq source_tree staged_tree ≡ true
    → IsSameTree source_tree staged_tree
unfolding trees_eq
trees_eq-IsSameTree source_tree staged_tree h =
    let (counts, entries) = and-eq-true (length source_tree == length staged_tree) _ h in
    record {
      entries = has_entries staged_tree source_tree entries;
      as_many = (==_iff (length source_tree) (length staged_tree)).0 counts;
    }

module _ (py : Python) (disk : Disk) where
  -- Two files with the same hash.
  abbrev pub SameHash : FilePath → FilePath → Type 0
  SameHash source staged =
      (h : Bytes) × (sha256_file py disk source ≡ ok h) × (sha256_file py disk staged ≡ ok h)

  -- A tree that is the same in both resources, with its digest.
  abbrev pub TreeKept : FilePath → FilePath → Bytes → Bytes → Type 0
  TreeKept source staged relative digest =
      (source_tree : List (Bytes × Bytes)) × (staged_tree : List (Bytes × Bytes))
      × (tree_file_hashes py disk (child source relative) ≡ ok source_tree)
      × (tree_file_hashes py disk (child staged relative) ≡ ok staged_tree)
      × IsSameTree source_tree staged_tree
      × (tree_digest py.sha256 source_tree ≡ digest)

  check_helpers-SameHash :
      (source staged : FilePath) (names : List Bytes) {hashes : List (Bytes × Bytes)}
      → check_helpers py disk source staged names ≡ ok hashes
      → All (λ name. SameHash (child source name) (child staged name)) names
  unfolding check_helpers
  check_helpers-SameHash source staged [] h = tt
  check_helpers-SameHash source staged (name ∷ names) h =
      let (there, h1) =
        raise_if->>-eq-ok
          (not (is_file disk (child source name)) || not (is_file disk (child staged name)))
          (helper_missing name) _ h in
      let (source_hash, official, h2) = >>=-eq-ok (sha256_file py disk (child source name)) _ h1 in
      let (staged_hash, kept, h3) = >>=-eq-ok (sha256_file py disk (child staged name)) _ h2 in
      let (same, h4) =
        raise_if->>-eq-ok (not (bytes_eq staged_hash source_hash)) (helper_changed name) _ h3 in
      let (rest, more, h5) = >>=-eq-ok (check_helpers py disk source staged names) _ h4 in
      let equal : staged_hash ≡ source_hash = (bytes_eq_iff _ _).0 (ground arith) in
      ((source_hash, official, kept ∙ ap ok equal), check_helpers-SameHash source staged names more)

  check_tree_preserved-TreeKept :
      (source staged : FilePath) (relative : Bytes) {digest : Bytes}
      → check_tree_preserved py disk source staged relative ≡ ok digest
      → TreeKept source staged relative digest
  unfolding check_tree_preserved
  check_tree_preserved-TreeKept source staged relative h =
      let (source_tree, official, h1) =
        >>=-eq-ok (tree_file_hashes py disk (child source relative)) _ h in
      let (staged_tree, kept, h2) =
        >>=-eq-ok (tree_file_hashes py disk (child staged relative)) _ h1 in
      let (same, h3) =
        raise_if->>-eq-ok (not (trees_eq source_tree staged_tree))
          (tree_changed relative (tree_difference source_tree staged_tree)) _ h2 in
      (
        source_tree,
        staged_tree,
        official,
        kept,
        trees_eq-IsSameTree source_tree staged_tree (ground arith),
        ok-injective h3,
      )

  pub record IsKept (source : FilePath) (staged : FilePath) (p : Preservation) : Type 0 where
    pub codex : SameHash (child source (codes "codex.exe")) (child staged (codes "codex.real.exe"))
    pub helpers : All (λ name. SameHash (child source name) (child staged name)) helper_names
    pub computer_use : TreeKept source staged (codes "cua_node") p.computer_use.tree_sha256
    pub native : (digest : Bytes) × TreeKept source staged (codes "native") digest
    pub unpacked : (digest : Bytes) × TreeKept source staged (codes "app.asar.unpacked") digest
    pub inspected : IsInspected py disk (child staged (codes "cua_node")) p.computer_use

  -- Where `verify_preserved_windows_resources` accepts a staged application, the files that it renames or
  -- keeps have the hashes of the official ones, each of the three trees has the entries of the official
  -- one, and the staged runtime fulfils the contract, with the digest of the official tree.
  pub verify_preserved_windows_resources-IsKept :
      (source_app staged_app : FilePath) (p : Preservation)
      → verify_preserved_windows_resources py disk source_app staged_app ≡ ok p
      → IsKept (resources_of source_app) (resources_of staged_app) p
  unfolding verify_preserved_windows_resources verify_resources
  verify_preserved_windows_resources-IsKept source_app staged_app p h =
      let source = resources_of source_app in
      let staged = resources_of staged_app in
      let (staged_codex, kept, h1) =
        >>=-eq-ok (sha256_file py disk (child staged (codes "codex.real.exe"))) _ h in
      let (official_codex, official, h2) =
        >>=-eq-ok (sha256_file py disk (child source (codes "codex.exe"))) _ h1 in
      let (same, h3) =
        raise_if->>-eq-ok (not (bytes_eq staged_codex official_codex)) codex_changed _ h2 in
      let (hashes, helpers, h4) =
        >>=-eq-ok (check_helpers py disk source staged helper_names) _ h3 in
      let (cua, cua_kept, h5) =
        >>=-eq-ok (check_tree_preserved py disk source staged (codes "cua_node")) _ h4 in
      let (native, native_kept, h6) =
        >>=-eq-ok (check_tree_preserved py disk source staged (codes "native")) _ h5 in
      let (unpacked, unpacked_kept, h7) =
        >>=-eq-ok (check_tree_preserved py disk source staged (codes "app.asar.unpacked")) _ h6 in
      let (c, inspected, h8) = >>=-eq-ok (inspect_computer_use_contract py disk staged) _ h7 in
      let (digests, h9) =
        raise_if->>-eq-ok (not (bytes_eq c.tree_sha256 cua)) digest_differs _ h8 in
      let equal : staged_codex ≡ official_codex = (bytes_eq_iff _ _).0 (ground arith) in
      let digest : c.tree_sha256 ≡ cua = (bytes_eq_iff _ _).0 (ground arith) in
      subst (IsKept source staged) (ok-injective h9) (record {
        codex = (official_codex, official, kept ∙ ap ok equal);
        helpers = check_helpers-SameHash source staged helper_names helpers;
        computer_use =
            subst (TreeKept source staged (codes "cua_node")) (sym digest)
              (check_tree_preserved-TreeKept source staged (codes "cua_node") cua_kept);
        native = (native, check_tree_preserved-TreeKept source staged (codes "native") native_kept);
        unpacked = (
          unpacked,
          check_tree_preserved-TreeKept source staged (codes "app.asar.unpacked") unpacked_kept,
        );
        inspected = inspect_computer_use_contract-IsInspected py disk staged c inspected;
      })
