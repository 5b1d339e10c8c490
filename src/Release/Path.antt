-- ===== src/Release/Path.antt =====
-- `_normalized_path` of scripts/release/release_artifacts.py.
pub mod Canonical
use codex_subscription_route.Prelude.{not, ◌||◌, [], Outcome, ok, ◌>>=◌, ◌>>◌, raise_if}
use codex_subscription_route.Text.{Bytes, codes, bytes_eq, contains, has_byte}
use codex_subscription_route.Release.Errors.{ReleaseError, backslash, unsafe, non_canonical}
use codex_subscription_route.PurePath.{parse_path, parts, is_absolute, as_posix}

unfoldable pub normalized_path : Bytes → Outcome ReleaseError Bytes
normalized_path value = do
  raise_if (has_byte b'\\' value) backslash
  let path = parse_path value
  raise_if
      (bytes_eq value []
        || is_absolute path
        || contains (parts path) (codes "..")
        || contains (parts path) (codes "."))
      unsafe
  let normalized = as_posix path
  raise_if (not (bytes_eq normalized value)) non_canonical
  ok normalized
