-- ===== src/Release/Context.antt =====
-- `_context` of scripts/release/release_artifacts.py.
pub mod Bounds
use codex_subscription_route.Prelude.{
  is_nil, ℕ, Bool, true, false, not, ◌&&◌, ◌||◌, Option, none, some, [], ◌∷◌, ◌++◌, ◌==◌, leb, all,
  length, if◌then◌else◌, Outcome, ok, err, ◌>>=◌, ◌>>◌, raise_if,
}
use codex_subscription_route.Text.{Bytes, codes, bytes_eq, is_utf8, is_digit, is_alphanumeric}
use codex_subscription_route.Release.Errors.{
  ReleaseError, invalid_commit, dirty_tree, no_version, not_semantic, version_differs,
  epoch_differs, epoch_range, value_error,
}
use codex_subscription_route.Release.Library.{Library, Repository, ℤ, pos, negsuc}

pub record BuildContext : Type 0 where
  pub version : Bytes
  pub commit : Bytes
  pub source_epoch : ℕ
  pub archive_root : Bytes

abbrev pub project_name : Bytes
project_name = codes "codex-subscription-router-windows"

abbrev pub is_lower_hex : ℕ → Bool
is_lower_hex c = is_digit c || leb b'a' c && leb c b'f'

-- `[0-9a-f]{40}`
unfoldable pub is_commit : Bytes → Bool
is_commit s = (length s == 40) && all is_lower_hex s

-- What follows a run of digits that is not empty. A digit of `\d` outside ASCII is not read.
unfoldable pub after_digits : Bool → Bytes → Option Bytes
after_digits seen [] = if seen then some [] else none
after_digits seen (c ∷ s) =
    let rest = after_digits true s in
    if is_digit c then rest else (if seen then some (c ∷ s) else none)

abbrev pub after_dot : Option Bytes → Option Bytes
after_dot (some (c ∷ s)) = if c == b'.' then after_digits false s else none
after_dot _ = none

abbrev pub is_pre_release : ℕ → Bool
is_pre_release c = is_alphanumeric c || c == b'.' || c == b'-'

-- `(?:-[0-9A-Za-z.-]+)?` up to the end
abbrev pub is_suffix : Option Bytes → Bool
is_suffix none = false
is_suffix (some []) = true
is_suffix (some (c ∷ s)) = c == b'-' && not (is_nil s) && all is_pre_release s

-- `\d+\.\d+\.\d+(?:-[0-9A-Za-z.-]+)?`
unfoldable pub is_semantic : Bytes → Bool
is_semantic s = is_suffix (after_dot (after_dot (after_digits false s)))

-- `(source_root / "VERSION").read_text(encoding="utf-8")`
abbrev pub read_version : Option Bytes → Outcome ReleaseError Bytes
read_version none = err no_version
read_version (some s) = raise_if (not (is_utf8 s)) value_error >> ok s

abbrev pub int_or_error : Option ℤ → Outcome ReleaseError ℤ
int_or_error none = err value_error
int_or_error (some n) = ok n

abbrev pub same_int : ℤ → ℤ → Bool
same_int (pos m) (pos n) = m == n
same_int (negsuc m) (negsuc n) = m == n
same_int _ _ = false

-- `SOURCE_DATE_EPOCH`, if it is set
abbrev pub check_epoch_variable : Library → ℤ → Option Bytes → Outcome ReleaseError (Unit {0})
check_epoch_variable py epoch none = ok tt
check_epoch_variable py epoch (some s) = do
  n ← int_or_error (py.int s)
  raise_if (not (same_int n epoch)) epoch_differs

-- `0 <= source_epoch <= 0xFFFFFFFF`
abbrev pub gzip_epoch : ℤ → Outcome ReleaseError ℕ
gzip_epoch (pos n) = raise_if (not (leb n 0xffffffff)) epoch_range >> ok n
gzip_epoch (negsuc n) = err epoch_range

unfoldable pub read_commit : Library → Repository → Outcome ReleaseError Bytes
read_commit py r = do
  output ← r.head
  raise_if (not (is_commit (py.strip output))) invalid_commit
  ok (py.strip output)

unfoldable pub check_clean : Library → Repository → Bool → Outcome ReleaseError (Unit {0})
check_clean py r allow_dirty = do
  output ← r.status
  raise_if (not (is_nil (py.strip output)) && not allow_dirty) dirty_tree

unfoldable pub read_release_version : Library → Repository → Bytes → Outcome ReleaseError Bytes
read_release_version py r commit = do
  contents ← read_version r.version_file
  raise_if (not (is_semantic (py.strip contents))) not_semantic
  committed ← r.committed_version commit
  raise_if (not (bytes_eq (py.strip committed) (py.strip contents))) version_differs
  ok (py.strip contents)

unfoldable pub read_epoch : Library → Repository → Bytes → Outcome ReleaseError ℕ
read_epoch py r commit = do
  output ← r.timestamp commit
  epoch ← int_or_error (py.int (py.strip output))
  check_epoch_variable py epoch r.epoch_variable
  gzip_epoch epoch

unfoldable pub context : Library → Repository → Bool → Outcome ReleaseError BuildContext
context py r allow_dirty = do
  commit ← read_commit py r
  check_clean py r allow_dirty
  version ← read_release_version py r commit
  epoch ← read_epoch py r commit
  ok (record {
    version = version;
    commit = commit;
    source_epoch = epoch;
    archive_root = project_name ++ (codes "-v" ++ version);
  })
