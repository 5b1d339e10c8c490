-- ===== src/Windows/Trees.antt =====
-- Directory trees in scripts/patch_windows_app.py: `validate_source_destination` and `tree_digest`. A path
-- that `_canonical` returns is the list of its parts, the drive or root first.
pub mod Disjoint
use codex_subscription_route.Prelude.{
  Bool, true, false, ◌&&◌, ◌||◌, List, [], ◌∷◌, ◌++◌, Outcome, ◌>>=◌, ◌>>◌, raise_if,
}
use codex_subscription_route.Text.{Bytes, bytes_eq}

pub data DestinationError : Type 0 where
  inside_source above_source inside_windows_apps : DestinationError

abbrev pub Parts : Type 0
Parts = List Bytes

-- `_is_relative_to(path, parent)`
unfoldable pub is_relative_to : Parts → Parts → Bool
is_relative_to path [] = true
is_relative_to [] (part ∷ parent) = false
is_relative_to (p ∷ path) (part ∷ parent) = bytes_eq p part && is_relative_to path parent

abbrev pub same_path : Parts → Parts → Bool
same_path path other = is_relative_to path other && is_relative_to other path

-- The canonical paths of the source, the destination and `WindowsApps`.
unfoldable pub validate_source_destination :
    Parts → Parts → Parts → Outcome DestinationError (Unit {0})
validate_source_destination source target windows_apps = do
  raise_if (same_path source target || is_relative_to target source) inside_source
  raise_if (is_relative_to source target) above_source
  raise_if (is_relative_to target windows_apps) inside_windows_apps

-- What `tree_digest` feeds to the hash: the names and their hashes, in order.
unfoldable pub tree_text : List (Bytes × Bytes) → Bytes
tree_text [] = []
tree_text ((name, file_hash) ∷ file_hashes) =
    name ++ (0 ∷ (file_hash ++ (b'\n' ∷ tree_text file_hashes)))

unfoldable pub tree_digest : (Bytes → Bytes) → List (Bytes × Bytes) → Bytes
tree_digest sha256 file_hashes = sha256 (tree_text file_hashes)
