-- ===== src/Tests/Release.antt =====
-- A small commit, its archive and its manifest.
use codex_subscription_route.Prelude.{
  inl, inr, ◌⊎◌, ℕ, ◌+◌, ◌%◌, ◌≡◌, ◌≢◌, ◌↔◌, refl, true, false, ◌&&◌, Option, none, some, List, [],
  ◌∷◌, ◌++◌, map, arith, leb, length, All, if◌then◌else◌, ok, err, ◌>>=◌,
}
use codex_subscription_route.Text.{
  Bytes, codes, bytes_eq, contains, has_byte, split, sort_by, is_distinct, is_utf8, starts_with,
  decimal, number, lists_eq, is_sorted, split_lines, Distinct, IsSortedBy,
}
use codex_subscription_route.PurePath.{parse_path, parts, is_absolute, as_posix, name, suffix}
use codex_subscription_route.Regex.{search_in}
use codex_subscription_route.Release.Errors.{git_failed}
use codex_subscription_route.Release.Path.{normalized_path}
use codex_subscription_route.Release.Path.Canonical.{IsPiece, IsPortable, normalized_path_iff}
use codex_subscription_route.Release.Secrets.{
  has_secret, secret_patterns, private_key, github_token, github_pat, api_key, password_line,
}
use codex_subscription_route.Release.Scan.{
  scan_source_file, scan_normalized, is_local_state, is_installed,
}
use codex_subscription_route.Release.Scan.Refuses.{pem_header, scan-refuses_private_key}
use codex_subscription_route.Release.Manifest.{
  Artifact, Entry, manifest_bytes, parse_manifest, parse_lines, accept, hash_line, after_digest,
  size_and_name, after_spaces, span_digits, names,
}
use codex_subscription_route.Release.Manifest.Line.{IsDigest}
use codex_subscription_route.Release.Manifest.RoundTrip.{IsArtifact, entry_of, parse-manifest_bytes}
use codex_subscription_route.Release.Manifest.Sound.{IsEntry, parse_manifest_sound}
use codex_subscription_route.Release.Sources.{
  SourceFile, Git, partition, parse_metadata, parse_entry, read_entry, read_entries,
  git_source_files,
}
use codex_subscription_route.Release.Sources.Listed.{IsListed, git_source_files-IsListed}
use codex_subscription_route.Release.Archive.{
  Context, Member, member_of, write_tar_gz, verify_archive,
}
use codex_subscription_route.Release.Archive.Sound.{IsComplete, verify_archive_sound}
use codex_subscription_route.Release.Archive.RoundTrip.{
  gzip_header, IsTarGz, verify_archive-write_tar_gz,
}

abbrev ascii_lower : Bytes → Bytes
ascii_lower s = map (λ c. if leb b'A' c && leb c b'Z' then c + 32 else c) s

abbrev readme : SourceFile
readme = record { path = codes "README.md"; content = codes "hello"; executable = false }

abbrev tool : SourceFile
tool = record { path = codes "bin/run.sh"; content = codes "exit 0"; executable = true }

-- Two blobs, in the order of Git's tree.
abbrev git : Git
git = record {
  ls_tree =
      ok (
        codes "100644 blob a1\tREADME.md"
        ++ (0 ∷ (codes "100755 blob b2\tbin/run.sh" ++ (0 ∷ []))));
  cat_file = λ i.
      if bytes_eq i (codes "a1")
      then ok readme.content
      else if bytes_eq i (codes "b2")
      then ok tool.content
      else err git_failed;
}

abbrev files : List SourceFile
files = readme ∷ tool ∷ []

files_listed : git_source_files ascii_lower ascii_lower git ≡ ok files
unfolding git_source_files read_entries read_entry parse_entry parse_metadata partition split
    bytes_eq contains scan_source_file scan_normalized normalized_path has_byte parse_path parts
    is_absolute as_posix name suffix is_local_state is_installed has_secret secret_patterns
    private_key github_token github_pat api_key password_line search_in starts_with sort_by
    is_distinct is_utf8
files_listed = refl

abbrev context : Context
context = record { source_epoch = 1767323045; archive_root = codes "router-v1.2.3" }

-- Formats that know this one archive.
abbrev pack : ℕ → List Member → Bytes
pack epoch ms = gzip_header epoch ++ (length ms ∷ [])

abbrev unpack : Bytes → Option (List Member)
unpack archive =
    if bytes_eq archive (pack 1767323045 (map (member_of context) files))
    then some (map (member_of context) files)
    else none

root_IsPiece : IsPiece context.archive_root
unfolding has_byte
root_IsPiece = record {
  nonempty = ground arith;
  not_dot = ground arith;
  not_up = ground arith;
  no_slash = refl;
  no_backslash = refl;
}

formats : IsTarGz pack unpack context.source_epoch (map (member_of context) files)
unfolding bytes_eq
formats = record { header = refl; read_back = refl }

verify_archive-write_tar_gz_example :
    verify_archive ascii_lower ascii_lower git unpack context (write_tar_gz pack files context)
    ≡ ok tt
verify_archive-write_tar_gz_example =
    verify_archive-write_tar_gz ascii_lower ascii_lower git context pack unpack files files_listed
      root_IsPiece (omega arith) (ground arith, (ground arith, tt)) formats

verify_archive_sound_example :
    (sources : List SourceFile) × (ms : List Member) × (git_source_files ascii_lower ascii_lower git
      ≡ ok sources)
    × (unpack (write_tar_gz pack files context) ≡ some ms)
    × IsComplete context sources ms
verify_archive_sound_example =
    verify_archive_sound ascii_lower ascii_lower git unpack context
      (write_tar_gz pack files context) verify_archive-write_tar_gz_example

git_source_files-IsListed_example : IsListed ascii_lower ascii_lower git files
git_source_files-IsListed_example =
    git_source_files-IsListed ascii_lower ascii_lower git files files_listed

-- A digest function with the form of SHA-256.
abbrev digest_of : Bytes → Bytes
digest_of s =
    codes "00000000000000000000000000000000000000000000000000000000000000"
    ++ ((b'0' + length s % 10) ∷ b'f' ∷ [])

digest_of-IsDigest : (s : Bytes) → IsDigest (digest_of s)
digest_of-IsDigest s = record { sixty_four = refl; hexadecimal = ground arith }

abbrev artifacts : List Artifact
artifacts =
    record { name = codes "b.tar.gz"; content = codes "0123456789ab" }
    ∷ record { name = codes "a.json"; content = codes "{}" }
    ∷ []

artifacts-IsArtifact : All IsArtifact artifacts
unfolding normalized_path has_byte parse_path parts is_absolute contains as_posix bytes_eq decimal
artifacts-IsArtifact = (
  record { portable = refl; printable = refl; sized = omega arith },
  (record { portable = refl; printable = refl; sized = omega arith }, tt),
)

artifacts-Distinct : Distinct (map (λ a. a.name) artifacts)
unfolding contains
artifacts-Distinct = (refl, (refl, tt))

abbrev entries : List Entry
entries =
    record { name = codes "a.json"; digest = digest_of (codes "{}"); size = 2 }
    ∷ record { name = codes "b.tar.gz"; digest = digest_of (codes "0123456789ab"); size = 12 }
    ∷ []

parse-manifest_bytes_example :
    (manifest_bytes digest_of artifacts >>= parse_manifest)
    ≡ ok (map (entry_of digest_of digest_of-IsDigest) (sort_by (λ a. a.name) artifacts))
parse-manifest_bytes_example =
    parse-manifest_bytes digest_of digest_of-IsDigest artifacts (ground arith) artifacts-IsArtifact
      artifacts-Distinct

abbrev manifest : Bytes
manifest =
    codes "0000000000000000000000000000000000000000000000000000000000000000  2  a.json\n"
    ++ codes "0000000000000000000000000000000000000000000000000000000000000000  12  b.tar.gz\n"

abbrev parsed : List Entry
parsed =
    record {
      name = codes "a.json";
      digest = codes "0000000000000000000000000000000000000000000000000000000000000000";
      size = 2;
    }
    ∷ record {
      name = codes "b.tar.gz";
      digest = codes "0000000000000000000000000000000000000000000000000000000000000000";
      size = 12;
    }
    ∷ []

manifest-parsed : parse_manifest manifest ≡ ok parsed
unfolding parse_manifest parse_lines accept hash_line after_digest size_and_name after_spaces
    span_digits normalized_path has_byte parse_path parts is_absolute contains as_posix bytes_eq
    is_utf8 split_lines is_sorted lists_eq sort_by number
manifest-parsed = refl

parse_manifest_sound_example :
    (parsed ≢ [])
    × All IsEntry parsed
    × Distinct (names parsed)
    × IsSortedBy (λ n. n) (names parsed)
parse_manifest_sound_example = parse_manifest_sound manifest parsed manifest-parsed

normalized_path_iff_example : (normalized_path (codes "docs/a.md") ≡ ok (codes "docs/a.md")) ↔ (
    (codes "docs/a.md" ≡ codes "docs/a.md")
    × ((codes "docs/a.md" ≡ codes ".") ⊎ IsPortable (codes "docs/a.md")))
normalized_path_iff_example = normalized_path_iff (codes "docs/a.md") (codes "docs/a.md")

scan-refuses_private_key_example :
    scan_source_file ascii_lower
      (codes "a.txt")
      (codes "key:" ++ (pem_header (codes "EC ") ++ codes "\n"))
    ≢ ok tt
scan-refuses_private_key_example =
    scan-refuses_private_key ascii_lower (codes "a.txt") (codes "key:") (codes "EC ") (codes "\n")
      (inr (inr (inl refl)))
