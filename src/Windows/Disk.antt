-- ===== src/Windows/Disk.antt =====
-- How scripts/patch_windows_app.py inspects a tree of files: `_is_linklike`, `_require_regular_file`,
-- `_read_bounded_text`, `_read_bounded_json`, `_safe_relative_file`, `is_pe_executable`,
-- `tree_file_hashes` and `tree_difference`. The disk is a parameter, and does not change meanwhile.
pub mod Hashes
pub mod Inside
use codex_subscription_route.Prelude.{
  ℕ, ◌+◌, Bool, true, false, not, ◌&&◌, ◌||◌, Option, none, some, List, [], ◌∷◌, ◌++◌, ◌==◌, ltb,
  leb, any, length, take, is_nil, if◌then◌else◌, Outcome, ok, err, ◌>>=◌, ◌>>◌, raise_if,
}
use codex_subscription_route.Text.{Bytes, codes, bytes_eq, contains, has_byte, is_utf8, replace}
use codex_subscription_route.Json.{Json, text, object, JsonFields}
use codex_subscription_route.PurePath.{parse_path, parts, is_absolute}
use codex_subscription_route.Windows.Files.{FilePath}

-- What is found at a path: a file or a directory, a symbolic link to such, a junction or another
-- reparse point to such, or a symbolic link to nothing.
pub data Node : Type 0 where
  file : Bytes → Node
  directory dangling : Node
  symlink reparse : Node → Node

-- The system's answers: what is at a path, the paths of `root.rglob("*")`, each once, and those of
-- `root.glob(pattern)`.
pub record Disk : Type 0 where
  pub node : FilePath → Option Node
  pub below : FilePath → List FilePath
  pub glob : FilePath → Bytes → List FilePath

-- `str.lower`, the name of a Windows path, `json.loads` and `==` of its values, and SHA-256 in
-- hexadecimal.
pub record Python : Type 0 where
  pub lower : Bytes → Bytes
  pub path_name : Bytes → Bytes
  pub loads : Bytes → Option Json
  pub equal : Json → Json → Bool
  pub sha256 : Bytes → Bytes

pub data Difference : Type 0 where
  difference : List Bytes → List Bytes → List Bytes → Difference

-- The `RuntimeError`s, each with its label, `OSError`, `KeyError`, and `AttributeError` or `TypeError`.
pub data ContractError : Type 0 where
  not_regular invalid_size not_utf8 not_json not_object unsafe_path not_executable :
      Bytes → ContractError
  missing_directory has_link file_count size_limit : ContractError
  manifest_differs invalid_field missing_marker forbidden_fallback : Bytes → ContractError
  main_bundle gate_differs enabled_always run_npm tool_differs : ContractError
  versions_disagree package_differs : ContractError
  helper_missing helper_changed : Bytes → ContractError
  tree_changed : Bytes → Difference → ContractError
  codex_changed digest_differs : ContractError
  not_approved : Option Json → ContractError
  value_differs : Bytes → ContractError
  not_app_root : ContractError
  os_error key_error attribute_error : ContractError

-- What is read through links.
unfoldable pub content_of : Node → Option Bytes
content_of (file s) = some s
content_of directory = none
content_of dangling = none
content_of (symlink n) = content_of n
content_of (reparse n) = content_of n

unfoldable pub leads_to_directory : Node → Bool
leads_to_directory (file s) = false
leads_to_directory directory = true
leads_to_directory dangling = false
leads_to_directory (symlink n) = leads_to_directory n
leads_to_directory (reparse n) = leads_to_directory n

abbrev link_at : Option Node → Bool
link_at none = false
link_at (some (file s)) = false
link_at (some directory) = false
link_at (some dangling) = true
link_at (some (symlink n)) = true
link_at (some (reparse n)) = true

abbrev pub symlink_at : Option Node → Bool
symlink_at none = false
symlink_at (some (file s)) = false
symlink_at (some directory) = false
symlink_at (some dangling) = true
symlink_at (some (symlink n)) = true
symlink_at (some (reparse n)) = false

abbrev content_at : Option Node → Option Bytes
content_at none = none
content_at (some n) = content_of n

abbrev directory_at : Option Node → Bool
directory_at none = false
directory_at (some n) = leads_to_directory n

abbrev pub is_there : Option Bytes → Bool
is_there none = false
is_there (some s) = true

abbrev or_os_error : Option Bytes → Outcome ContractError Bytes
or_os_error none = err os_error
or_os_error (some s) = ok s

abbrev starts_with_mz : Option Bytes → Bool
starts_with_mz none = false
starts_with_mz (some s) = bytes_eq (take 2 s) (codes "MZ")

-- The characters of a text.
unfoldable pub text_length : Bytes → ℕ
text_length [] = 0
text_length (c ∷ s) =
    let rest = text_length s in if leb 0x80 c && ltb c 0xc0 then rest else 1 + rest

-- The line ends that reading as text leaves: `\r\n` and `\r` become `\n`.
unfoldable pub newlines : Bool → Bytes → Bytes
newlines after_return [] = []
newlines after_return (c ∷ s) =
    let rest = newlines (c == b'\r') s in
    if after_return && c == b'\n' then rest else (if c == b'\r' then b'\n' ∷ rest else c ∷ rest)

abbrev pub is_bounded : Bytes → Bool
is_bounded value = not (is_nil value) && leb (text_length value) 512

abbrev pub is_special : Bytes → Bool
is_special = contains ([] ∷ codes "." ∷ codes ".." ∷ [])

abbrev pub normalized : Bytes → Bytes
normalized = replace (codes "\\") (codes "/")

abbrev pub escapes : Bytes → Bool
escapes value =
    is_absolute (parse_path (normalized value))
    || (has_byte b':' (normalized value) || any is_special (parts (parse_path (normalized value))))

module _ (disk : Disk) where
  unfoldable pub is_linklike : FilePath → Bool
  is_linklike path = link_at (disk.node path)

  -- `path.is_file()`, `path.is_dir()`, `path.read_bytes()`
  unfoldable pub is_file : FilePath → Bool
  is_file path = is_there (content_at (disk.node path))

  unfoldable pub is_dir : FilePath → Bool
  is_dir path = directory_at (disk.node path)

  unfoldable pub read_bytes : FilePath → Outcome ContractError Bytes
  read_bytes path = or_os_error (content_at (disk.node path))

  unfoldable pub require_regular_file : FilePath → Bytes → Outcome ContractError FilePath
  require_regular_file path label = do
    raise_if (is_linklike path || not (is_file path)) (not_regular label)
    ok path

  unfoldable pub read_bounded_text : FilePath → ℕ → Bytes → Outcome ContractError Bytes
  read_bounded_text path maximum label = do
    _ ← require_regular_file path label
    contents ← read_bytes path
    raise_if (is_nil contents || ltb maximum (length contents)) (invalid_size label)
    raise_if (not (is_utf8 contents)) (not_utf8 label)
    ok (newlines false contents)

  unfoldable pub is_pe_executable : FilePath → Bool
  is_pe_executable path = starts_with_mz (content_at (disk.node path))

  -- `value` is the value of a key, `none` if the key is missing.
  unfoldable pub safe_relative_file :
      FilePath → Option Json → Bytes → Outcome ContractError FilePath
  safe_relative_file root (some (text value)) label = do
    raise_if (not (is_bounded value)) (unsafe_path label)
    raise_if (escapes value) (unsafe_path label)
    require_regular_file (root ++ parts (parse_path (normalized value))) label
  safe_relative_file root value label = err (unsafe_path label)

module _ (py : Python) (disk : Disk) where
  abbrev or_not_json : Bytes → Option Json → Outcome ContractError Json
  or_not_json label none = err (not_json label)
  or_not_json label (some v) = ok v

  abbrev or_not_object : Bytes → Json → Outcome ContractError JsonFields
  or_not_object label (object entries) = ok entries
  or_not_object label v = err (not_object label)

  unfoldable pub read_bounded_json : FilePath → ℕ → Bytes → Outcome ContractError JsonFields
  read_bounded_json path maximum label = do
    contents ← read_bounded_text disk path maximum label
    value ← or_not_json label (py.loads contents)
    or_not_object label value

  -- `json.loads(path.read_text(encoding="utf-8"))`
  unfoldable pub read_json : FilePath → Bytes → Outcome ContractError Json
  read_json path label = do
    contents ← read_bytes disk path
    raise_if (not (is_utf8 contents)) (not_utf8 label)
    or_not_json label (py.loads (newlines false contents))

  unfoldable pub sha256_file : FilePath → Outcome ContractError Bytes
  sha256_file path = do contents ← read_bytes disk path; ok (py.sha256 contents)
