-- ===== src/Release/Manifest.antt =====
-- `SHA256SUMS` of scripts/release/release_artifacts.py: `_manifest_bytes` and `_parse_manifest`.
-- The digest `sha256` is a parameter: the hexadecimal SHA-256 of the standard library.
pub mod Line
pub mod RoundTrip
pub mod Sound
use codex_subscription_route.Prelude.{
  is_nil, ℕ, Bool, not, ◌&&◌, ◌||◌, Option, none, some, List, [], ◌∷◌, ◌++◌, map, ◌==◌, ltb, leb,
  all, length, take, drop, if◌then◌else◌, Outcome, ok, err, ◌>>=◌, ◌>>◌, raise_if, collect,
}
use codex_subscription_route.Text.{
  Bytes, codes, bytes_eq, contains, has_byte, join, sort_by, is_sorted, decimal, number, is_digit,
  is_utf8, split_lines,
}
use codex_subscription_route.Release.Errors.{
  ReleaseError, not_utf8, invalid_line, duplicate_entry, int_limit, unsorted_manifest,
  empty_manifest,
}
use codex_subscription_route.Release.Path.{normalized_path}

-- A file of the release: its name and its content.
pub record Artifact : Type 0 where
  pub name : Bytes
  pub content : Bytes

-- A line of the manifest, as `entries[name] = (digest, size)`.
pub record Entry : Type 0 where
  pub name : Bytes
  pub digest : Bytes
  pub size : ℕ

-- `f"{_sha256(data)}  {len(data)}  {name}"`
unfoldable pub render : Bytes → ℕ → Bytes → Bytes
render digest size name = digest ++ (codes "  " ++ (decimal size ++ (codes "  " ++ name)))

unfoldable pub manifest_line : (Bytes → Bytes) → Artifact → Outcome ReleaseError Bytes
manifest_line sha256 a = do
  name ← normalized_path a.name
  ok (render (sha256 a.content) (length a.content) name)

unfoldable pub manifest_bytes : (Bytes → Bytes) → List Artifact → Outcome ReleaseError Bytes
manifest_bytes sha256 artifacts = do
  lines ← collect (manifest_line sha256) (sort_by (λ a. a.name) artifacts)
  ok (join b'\n' lines ++ codes "\n")

abbrev pub is_hex : ℕ → Bool
is_hex c = is_digit c || leb b'a' c && leb c b'f'

-- Two spaces, and what follows them.
unfoldable pub after_spaces : Bytes → Option Bytes
after_spaces (a ∷ b ∷ s) = if a == b' ' && b == b' ' then some s else none
after_spaces _ = none

-- The longest run of digits at the front, and what follows it.
unfoldable pub span_digits : Bytes → Bytes × Bytes
span_digits [] = ([], [])
span_digits (c ∷ s) =
    let (run, rest) = span_digits s in if is_digit c then (c ∷ run, rest) else ([], c ∷ s)

-- The size and the name, after the digest and two spaces.
unfoldable pub size_and_name : Bytes → Bytes → Option (Bytes × Bytes × Bytes)
size_and_name digest sized =
    let (size_text, named) = span_digits sized in
    elim (after_spaces named) [
      | none ↦ none
      | some name ↦
          if bytes_eq size_text [] || bytes_eq name [] || has_byte b'\\' name
          then none
          else some (digest, size_text, name)
    ]

unfoldable pub after_digest : Bytes → Option Bytes → Option (Bytes × Bytes × Bytes)
after_digest digest none = none
after_digest digest (some sized) = size_and_name digest sized

-- `HASH_LINE.fullmatch(line)` and its groups.
unfoldable pub hash_line : Bytes → Option (Bytes × Bytes × Bytes)
hash_line line =
    let digest = take 64 line in
    if length digest == 64 && all is_hex digest
    then after_digest digest (after_spaces (drop 64 line))
    else none

abbrev pub names : List Entry → List Bytes
names entries = map (λ e. e.name) entries

-- `sys.get_int_max_str_digits()`: `int` raises on longer texts.
abbrev pub int_max_str_digits : ℕ
int_max_str_digits = 4300

-- The body of the loop over the lines.
unfoldable pub accept : List Entry → Option (Bytes × Bytes × Bytes) → Outcome ReleaseError Entry
accept entries none = err invalid_line
accept entries (some (digest, size_text, name)) = do
  _ ← normalized_path name
  raise_if (contains (names entries) name) duplicate_entry
  raise_if (ltb int_max_str_digits (length size_text)) int_limit
  ok (record { name = name; digest = digest; size = number size_text })

unfoldable pub parse_lines : List Entry → List Bytes → Outcome ReleaseError (List Entry)
parse_lines entries [] = ok entries
parse_lines entries (line ∷ lines) = do
  entry ← accept entries (hash_line line)
  parse_lines (entries ++ (entry ∷ [])) lines

unfoldable pub parse_manifest : Bytes → Outcome ReleaseError (List Entry)
parse_manifest data' = do
  raise_if (not (is_utf8 data')) not_utf8
  entries ← parse_lines [] (split_lines data')
  raise_if (not (is_sorted (names entries))) unsorted_manifest
  raise_if (is_nil entries) empty_manifest
  ok entries
