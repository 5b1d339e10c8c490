-- ===== src/Release/Archive.antt =====
-- The source archive of scripts/release/release_artifacts.py: `_write_tar_gz` and `_verify_archive`.
-- The gzip and tar formats are parameters: `pack` writes an archive with a timestamp, and `unpack`
-- reads its members, `none` where `tarfile` raises.
pub mod Sound
pub mod RoundTrip
pub mod Lookup
use codex_subscription_route.Prelude.{
  is_nil, ℕ, ◌+◌, ◌*◌, Bool, true, not, ◌||◌, Option, none, some, List, [], ◌∷◌, ◌++◌, map, ◌==◌,
  all, length, take, drop, get_elem?, if◌then◌else◌, Outcome, ok, err, ◌>>=◌, ◌>>◌, raise_if,
  get_elem?,
}
use codex_subscription_route.Text.{Bytes, codes, bytes_eq, contains, starts_with, is_sorted}
use codex_subscription_route.Release.Errors.{
  ReleaseError, not_gzip, gzip_flags, gzip_time, gzip_platform, unreadable_tar, unsorted_members,
  empty_archive, outside_root, not_regular, owner_metadata, timestamp, unexpected_mode,
  outside_commit, content_differs, mode_differs, omits_source,
}
use codex_subscription_route.Release.Path.{normalized_path}
use codex_subscription_route.Release.Scan.{scan_source_file}
use codex_subscription_route.Release.Sources.{SourceFile, Git, git_source_files}

-- The fields of `BuildContext` that the archive depends on.
pub record Context : Type 0 where
  pub source_epoch : ℕ
  pub archive_root : Bytes

-- A member of a tar archive.
pub record Member : Type 0 where
  pub name : Bytes
  pub is_file : Bool
  pub uid : ℕ
  pub gid : ℕ
  pub uname : Bytes
  pub gname : Bytes
  pub mtime : ℕ
  pub mode : ℕ
  pub content : Bytes

abbrev pub mode_of : Bool → ℕ
mode_of executable = if executable then 0o755 else 0o644

-- `f"{context.archive_root}/"`
abbrev pub prefix : Context → Bytes
prefix context = context.archive_root ++ codes "/"

-- The `TarInfo` that `_write_tar_gz` fills in for a file, with its data.
unfoldable pub member_of : Context → SourceFile → Member
member_of context source = record {
  name = prefix context ++ source.path;
  is_file = true;
  uid = 0;
  gid = 0;
  uname = codes "root";
  gname = codes "root";
  mtime = context.source_epoch;
  mode = mode_of source.executable;
  content = source.content;
}

-- `_write_tar_gz`
unfoldable pub write_tar_gz : (ℕ → List Member → Bytes) → List SourceFile → Context → Bytes
write_tar_gz pack files context = pack context.source_epoch (map (member_of context) files)

-- `int.from_bytes(s, "little")`
unfoldable pub little_endian : Bytes → ℕ
little_endian [] = 0
little_endian (c ∷ s) = c + 256 * little_endian s

abbrev byte_at : ℕ → Bytes → ℕ
byte_at i s = elim (get_elem? s i) [ none ↦ 0 | some c ↦ c ]

unfoldable pub check_header : Context → Bytes → Outcome ReleaseError (Unit {0})
check_header context archive = do
  let header = take 10 archive
  raise_if
      (not (length header == 10)
        || not (bytes_eq (take 2 header) (0x1f ∷ 0x8b ∷ []))
        || not (byte_at 2 header == 8))
      not_gzip
  raise_if (not (byte_at 3 header == 0)) gzip_flags
  raise_if (not (little_endian (take 4 (drop 4 header)) == context.source_epoch)) gzip_time
  raise_if (not (byte_at 8 header == 2) || not (byte_at 9 header == 255)) gzip_platform
  ok tt

-- `expected_sources.get(path)`: the last of two equal keys counts.
unfoldable pub find_source : Bytes → List SourceFile → Option SourceFile
find_source path [] = none
find_source path (f ∷ files) = elim (find_source path files) [
  | some g ↦ some g
  | none ↦ if bytes_eq path f.path then some f else none
]

-- The comparison of a member with the committed file of its path.
unfoldable pub check_expected : Member → Option SourceFile → Outcome ReleaseError (Unit {0})
check_expected member none = err outside_commit
check_expected member (some expected) = do
  raise_if (not (bytes_eq member.content expected.content)) content_differs
  raise_if (not (member.mode == mode_of expected.executable)) mode_differs
  ok tt

abbrev pub relative_name : Context → Member → Bytes
relative_name context member = drop (length (prefix context)) member.name

module _ (lower : Bytes → Bytes) (context : Context) where
  -- The tests on a member's own fields.
  unfoldable pub check_metadata : Member → Outcome ReleaseError (Unit {0})
  check_metadata member = do
    _ ← normalized_path member.name
    raise_if (not (starts_with member.name (prefix context))) outside_root
    raise_if (not member.is_file) not_regular
    raise_if
        (not (member.uid == 0)
          || not (member.gid == 0)
          || not (bytes_eq member.uname (codes "root"))
          || not (bytes_eq member.gname (codes "root")))
        owner_metadata
    raise_if (not (member.mtime == context.source_epoch)) timestamp
    raise_if (not (member.mode == 0o644 || member.mode == 0o755)) unexpected_mode
    ok tt

  -- The body of the loop over the members. It returns the path to add to `seen_sources`.
  unfoldable pub check_member : List SourceFile → Member → Outcome ReleaseError Bytes
  check_member sources member = do
    check_metadata member
    let relative = relative_name context member
    scan_source_file lower relative member.content
    check_expected member (find_source relative sources)
    ok relative

  unfoldable pub check_members : List SourceFile → List Member → Outcome ReleaseError (List Bytes)
  check_members sources [] = ok []
  check_members sources (m ∷ ms) =
      let later = check_members sources ms in
      do relative ← check_member sources m; seen ← later; ok (relative ∷ seen)

  unfoldable pub check_contents :
      List SourceFile → Option (List Member) → Outcome ReleaseError (Unit {0})
  check_contents sources none = err unreadable_tar
  check_contents sources (some members) = do
    raise_if (not (is_sorted (map (λ m. m.name) members))) unsorted_members
    raise_if (is_nil members) empty_archive
    seen ← check_members sources members
    raise_if (not (all (λ f. contains seen f.path) sources)) omits_source
    ok tt

-- `_verify_archive` on the bytes of the archive.
unfoldable pub verify_archive :
    (Bytes → Bytes)
    → (Bytes → Bytes)
    → Git
    → (Bytes → Option (List Member))
    → Context
    → Bytes
    → Outcome ReleaseError (Unit {0})
verify_archive lower casefold git unpack context archive = do
  check_header context archive
  sources ← git_source_files lower casefold git
  check_contents lower context sources (unpack archive)
