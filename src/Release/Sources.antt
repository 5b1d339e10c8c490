-- ===== src/Release/Sources.antt =====
-- `_git_source_files` of scripts/release/release_artifacts.py: the files of the selected commit.
-- Git is a parameter: the output of `git ls-tree -r -z` and of `git cat-file blob`.
pub mod Listed
use codex_subscription_route.Prelude.{
  is_nil, ℕ, Bool, not, ◌||◌, Option, none, some, List, [], ◌∷◌, map, ◌==◌, ltb, all, if◌then◌else◌,
  Outcome, ok, err, ◌>>=◌, ◌>>◌, raise_if,
}
use codex_subscription_route.Text.{
  Bytes, codes, bytes_eq, contains, split, sort_by, is_distinct, is_utf8,
}
use codex_subscription_route.Release.Errors.{
  ReleaseError, malformed_entry, unsupported_entry, not_utf8, no_files, case_collision,
}
use codex_subscription_route.Release.Scan.{scan_source_file}

pub record SourceFile : Type 0 where
  pub path : Bytes
  pub content : Bytes
  pub executable : Bool

-- Both commands raise `ReleaseError` through `_run`.
pub record Git : Type 0 where
  pub ls_tree : Outcome ReleaseError Bytes
  pub cat_file : Bytes → Outcome ReleaseError Bytes

-- One more byte in front of the first piece.
abbrev onto_before : ℕ → Option (Bytes × Bytes) → Option (Bytes × Bytes)
onto_before x none = none
onto_before x (some (a, b)) = some (x ∷ a, b)

-- What stands before and behind the first byte `c`: `s.split(c, 1)` with two pieces.
unfoldable pub partition : ℕ → Bytes → Option (Bytes × Bytes)
partition c [] = none
partition c (x ∷ s) = if x == c then some ([], s) else onto_before x (partition c s)

pub record TreeEntry : Type 0 where
  pub mode : Bytes
  pub object_type : Bytes
  pub object_id : Bytes
  pub entry_path : Bytes

-- `mode, object_type, object_id = metadata.decode("ascii").split(" ")`
unfoldable pub parse_metadata : Bytes → Bytes → Outcome ReleaseError TreeEntry
parse_metadata raw_path metadata = elim (split b' ' metadata) [
  | m ∷ t ∷ i ∷ [] ↦
      if all (λ c. ltb c 128) metadata
      then (if is_utf8 raw_path
          then ok (record { mode = m; object_type = t; object_id = i; entry_path = raw_path })
          else err not_utf8)
      else err malformed_entry
  | _ ↦ err malformed_entry
]

unfoldable pub parse_entry : Bytes → Outcome ReleaseError TreeEntry
parse_entry entry = elim (partition b'\t' entry) [
  | none ↦ err malformed_entry
  | some (metadata, raw_path) ↦ parse_metadata raw_path metadata
]

module _ (lower casefold : Bytes → Bytes) (git : Git) where
  -- The body of the loop, for a nonempty entry.
  unfoldable pub read_entry : Bytes → Outcome ReleaseError SourceFile
  read_entry entry = do
    e ← parse_entry entry
    raise_if
        (not (bytes_eq e.object_type (codes "blob"))
          || not (contains (codes "100644" ∷ codes "100755" ∷ []) e.mode))
        unsupported_entry
    content ← git.cat_file e.object_id
    scan_source_file lower e.entry_path content
    ok (record {
      path = e.entry_path;
      content = content;
      executable = bytes_eq e.mode (codes "100755");
    })

  unfoldable pub read_entries : List Bytes → Outcome ReleaseError (List SourceFile)
  read_entries [] = ok []
  read_entries ([] ∷ entries) = read_entries entries
  read_entries ((c ∷ entry) ∷ entries) =
      let later = read_entries entries in
      do file ← read_entry (c ∷ entry); files ← later; ok (file ∷ files)

  unfoldable pub git_source_files : Outcome ReleaseError (List SourceFile)
  git_source_files = do
    raw ← git.ls_tree
    found ← read_entries (split 0 raw)
    let files = sort_by (λ f. f.path) found
    raise_if (is_nil files) no_files
    raise_if (not (is_distinct (map (λ f. casefold f.path) files))) case_collision
    ok files
