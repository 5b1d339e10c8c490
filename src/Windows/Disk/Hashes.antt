-- ===== src/Windows/Disk/Hashes.antt =====
-- `tree_file_hashes` and `tree_difference` of scripts/patch_windows_app.py.
use codex_subscription_route.Prelude.{
  Bool, false, not, ◌&&◌, Option, none, some, List, [], ◌∷◌, ◌==◌, all, length, take, drop,
  if◌then◌else◌, Outcome, ok, ◌>>=◌, ◌>>◌, raise_if, collect,
}
use codex_subscription_route.Text.{Bytes, bytes_eq, join, sort_by}
use codex_subscription_route.Windows.Files.{FilePath}
use codex_subscription_route.Windows.Disk.{
  Disk, Python, ContractError, Difference, difference, missing_directory, is_file, is_dir,
  symlink_at, is_there, sha256_file,
}

module _ (py : Python) (disk : Disk) where
  abbrev pub is_hashed : FilePath → Bool
  is_hashed path = is_file disk path && not (symlink_at (disk.node path))

  abbrev pub hashed_entry : FilePath → FilePath → Outcome ContractError (Bytes × Bytes)
  hashed_entry root path = do
    file_hash ← sha256_file py disk path
    ok (join b'/' (drop (length root) path), file_hash)

  -- The paths of a tree that are hashed, in the order of their names in lower case.
  unfoldable pub keep_hashed : List FilePath → List FilePath
  keep_hashed [] = []
  keep_hashed (path ∷ paths) =
      let rest = keep_hashed paths in if is_hashed path then path ∷ rest else rest

  unfoldable pub tree_file_hashes : FilePath → Outcome ContractError (List (Bytes × Bytes))
  tree_file_hashes root = do
    raise_if (not (is_dir disk root)) missing_directory
    collect (hashed_entry root)
        (keep_hashed (sort_by (λ path. py.lower (join b'/' path)) (disk.below root)))

-- `d.get(name)` and `d == e` of dictionaries of names and hashes.
unfoldable pub hash_of : Bytes → List (Bytes × Bytes) → Option Bytes
hash_of name [] = none
hash_of name ((n, h) ∷ entries) = if bytes_eq name n then some h else hash_of name entries

abbrev pub hash_is : Bytes → Option Bytes → Bool
hash_is h none = false
hash_is h (some k) = bytes_eq h k

abbrev pub has_entry : List (Bytes × Bytes) → Bytes × Bytes → Bool
has_entry entries e = hash_is e.1 (hash_of e.0 entries)

unfoldable pub trees_eq : List (Bytes × Bytes) → List (Bytes × Bytes) → Bool
trees_eq expected actual = length expected == length actual && all (has_entry actual) expected

-- The names of the first dictionary that are missing in the second, and those with another hash.
unfoldable pub missing_names : List (Bytes × Bytes) → List (Bytes × Bytes) → List Bytes
missing_names [] actual = []
missing_names ((name, h) ∷ expected) actual =
    let rest = missing_names expected actual in
    if is_there (hash_of name actual) then rest else name ∷ rest

unfoldable pub changed_names : List (Bytes × Bytes) → List (Bytes × Bytes) → List Bytes
changed_names [] actual = []
changed_names ((name, h) ∷ expected) actual =
    let rest = changed_names expected actual in
    if is_there (hash_of name actual) && not (hash_is h (hash_of name actual))
    then name ∷ rest
    else rest

abbrev first_five : List Bytes → List Bytes
first_five names = take 5 (sort_by (λ name. name) names)

unfoldable pub tree_difference : List (Bytes × Bytes) → List (Bytes × Bytes) → Difference
tree_difference expected actual =
    difference (first_five (missing_names expected actual))
      (first_five (missing_names actual expected)) (first_five (changed_names expected actual))
