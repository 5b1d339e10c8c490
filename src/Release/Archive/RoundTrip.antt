-- ===== src/Release/Archive/RoundTrip.antt =====
-- `_verify_archive` accepts what `_write_tar_gz` of scripts/release/release_artifacts.py writes.
use mathlib.Core.List.{append_assoc}
use codex_subscription_route.Prelude.{
  is_nil, ℕ, ◌/◌, ◌%◌, ◌^◌, ◌<◌, ◌≡◌, ◌≢◌, ◌∙◌, refl, ap, Bool, true, false, ◌||◌, Option, some,
  List, [], ◌∷◌, ◌++◌, map, arith, all, take, inl, inr, All, ok, drop-append_length,
}
use codex_subscription_route.Text.{
  Bytes, codes, bytes_eq, bytes_eq_self, contains, starts_with-append, is_sorted, is_sorted_iff,
  IsSortedBy, bytes_le-append, join,
}
use codex_subscription_route.Release.Path.{normalized_path}
use codex_subscription_route.Release.Path.Canonical.{IsPiece, normalized_path_iff}
use codex_subscription_route.Release.Scan.{scan_source_file}
use codex_subscription_route.Release.Scan.Refuses.{scan-Scanned}
use codex_subscription_route.Release.Sources.{SourceFile, Git, git_source_files}
use codex_subscription_route.Release.Sources.Listed.{
  PassedScan, IsListed, git_source_files-IsListed,
}
use codex_subscription_route.Release.Archive.{
  Context, Member, prefix, member_of, write_tar_gz, relative_name, little_endian, check_header,
  find_source, check_expected, check_metadata, check_member, check_members, check_contents,
  verify_archive,
}
use codex_subscription_route.Release.Archive.Lookup.{find_source_self}

-- The ten bytes that `gzip.GzipFile` writes first, without a file name, at compression level 9.
abbrev pub gzip_header : ℕ → Bytes
gzip_header epoch =
    0x1f
    ∷ 0x8b
    ∷ 8
    ∷ 0
    ∷ (epoch % 256)
    ∷ (epoch / 256 % 256)
    ∷ (epoch / 65536 % 256)
    ∷ (epoch / 16777216 % 256)
    ∷ 2
    ∷ 255
    ∷ []

little_endian_bytes :
    (e : ℕ)
    → e < 2 ^ 32
    → little_endian ((e % 256) ∷ (e / 256 % 256) ∷ (e / 65536 % 256) ∷ (e / 16777216 % 256) ∷ [])
      ≡ e
unfolding little_endian
little_endian_bytes e h = omega arith

-- What the writer's formats promise for this archive: the header of gzip, and that tar members are
-- read back.
pub record IsTarGz (pack : ℕ → List Member → Bytes) (unpack : Bytes → Option (List Member))
    (epoch : ℕ) (members : List Member) : Type 0 where
  pub header : take 10 (pack epoch members) ≡ gzip_header epoch
  pub read_back : unpack (pack epoch members) ≡ some members

check_header-packed :
    (context : Context) (archive : Bytes)
    → context.source_epoch < 2 ^ 32
    → take 10 archive ≡ gzip_header context.source_epoch
    → check_header context archive ≡ ok tt
unfolding check_header bytes_eq
check_header-packed context archive h e =
    rw e (rw (little_endian_bytes context.source_epoch h) (ground arith))

-- A file that passed the scan, put below the archive root.
portable_member :
    (lower : Bytes → Bytes) (context : Context) (f : SourceFile)
    → IsPiece context.archive_root
    → scan_source_file lower f.path f.content ≡ ok tt
    → f.path ≢ codes "."
    → normalized_path (prefix context ++ f.path) ≡ ok (prefix context ++ f.path)
portable_member lower context f r s d =
    elim ((normalized_path_iff f.path f.path).0
      (scan-Scanned lower f.path f.content s).accepted).1 [
        | inl e ↦ absurd (d e)
        | inr k ↦ (normalized_path_iff _ _).1 (
          refl,
          inr (record {
            first = context.archive_root;
            more = k.first ∷ k.more;
            pieces = (r, k.pieces);
            joined =
                rw append_assoc
                  (unfold join in ap (λ t. context.archive_root ++ (b'/' ∷ t)) k.joined);
          }),
        )
      ]

module _ (lower : Bytes → Bytes) (context : Context) where
  check_metadata-member_of :
      (f : SourceFile)
      → normalized_path (prefix context ++ f.path) ≡ ok (prefix context ++ f.path)
      → check_metadata lower context (member_of context f) ≡ ok tt
  unfolding check_metadata member_of
  check_metadata-member_of f n =
      rw (n, starts_with-append (prefix context) f.path) (unfold bytes_eq in ground arith)

  check_expected-member_of :
      (f : SourceFile) → check_expected (member_of context f) (some f) ≡ ok tt
  unfolding check_expected member_of
  check_expected-member_of f = rw (bytes_eq_self f.content) (ground arith)

  -- A committed file, once archived, passes the body of the loop.
  check_member-member_of :
      (sources : List SourceFile) (f : SourceFile)
      → normalized_path (prefix context ++ f.path) ≡ ok (prefix context ++ f.path)
      → scan_source_file lower f.path f.content ≡ ok tt
      → find_source f.path sources ≡ some f
      → check_member lower context sources (member_of context f) ≡ ok f.path
  unfolding check_member
  check_member-member_of sources f n s e =
      rw (check_metadata-member_of f n)
        (rw relative (rw scanned (rw e (rw (check_expected-member_of f)))))
    where
      scanned : scan_source_file lower f.path (member_of context f).content ≡ ok tt
      scanned = unfold member_of in s

      relative : relative_name context (member_of context f) ≡ f.path
      relative = unfold member_of in drop-append_length (prefix context) f.path

  -- What a file needs to be archived and read back.
  record Archivable (sources : List SourceFile) (f : SourceFile) : Type 0 where
    named : normalized_path (prefix context ++ f.path) ≡ ok (prefix context ++ f.path)
    scanned : scan_source_file lower f.path f.content ≡ ok tt
    found : find_source f.path sources ≡ some f

  check_members-map :
      (sources fs : List SourceFile)
      → All (Archivable sources) fs
      → check_members lower context sources (map (member_of context) fs) ≡ ok (map (λ f. f.path) fs)
  unfolding check_members
  check_members-map sources [] h = refl
  check_members-map sources (f ∷ fs) h =
      rw (check_member-member_of sources f h.0.named h.0.scanned h.0.found)
        (rw (check_members-map sources fs h.1))

  names-IsSortedBy :
      (fs : List SourceFile)
      → IsSortedBy (λ f. f.path) fs
      → IsSortedBy (λ s. s) (map (λ m. m.name) (map (member_of context) fs))
  unfolding member_of
  names-IsSortedBy [] h = tt
  names-IsSortedBy (f ∷ []) h = tt
  names-IsSortedBy (f ∷ g ∷ fs) h =
      (bytes_le-append (prefix context) f.path g.path ∙ h.0, names-IsSortedBy (g ∷ fs) h.1)

all-contains_self :
    (seen : List Bytes) (fs : List SourceFile)
    → ((p : Bytes) → contains (map (λ f. f.path) fs) p ≡ true → contains seen p ≡ true)
    → all (λ f. contains seen f.path) fs ≡ true
unfolding contains
all-contains_self seen [] h = refl
all-contains_self seen (f ∷ fs) h =
    rw (h f.path (rw (bytes_eq_self f.path)))
      (all-contains_self seen fs (λ p c. h p (rw c (or_true (bytes_eq p f.path)))))
  where
    or_true : (b : Bool) → (b || true) ≡ true
    or_true b = ground arith

is_nil-map {ℓ κ} :
    {A : Type ℓ} {B : Type κ} (f : A → B) (xs : List A) → xs ≢ [] → is_nil (map f xs) ≡ false
is_nil-map f [] h = absurd (h refl)
is_nil-map f (x ∷ xs) h = refl

module _ (lower casefold : Bytes → Bytes) (git : Git) (context : Context) where
  all_Archivable :
      (sources fs : List SourceFile)
      → IsPiece context.archive_root
      → All (λ f. f.path ≢ codes ".") fs
      → All (PassedScan lower casefold git) fs
      → All (λ f. find_source f.path sources ≡ some f) fs
      → All (Archivable lower context sources) fs
  all_Archivable sources [] r d s e = tt
  all_Archivable sources (f ∷ fs) r d s e = (
    record { named = portable_member lower context f r s.0 d.0; scanned = s.0; found = e.0 },
    all_Archivable sources fs r d.1 s.1 e.1,
  )

  -- The archive that is written of the commit's files is accepted, if the archive root is a portable
  -- name, the time fits in 32 bits, no path is the single dot, and gzip and tar read back what they
  -- write.
  pub verify_archive-write_tar_gz :
      (pack : ℕ → List Member → Bytes) (unpack : Bytes → Option (List Member))
      (files : List SourceFile)
      → git_source_files lower casefold git ≡ ok files
      → IsPiece context.archive_root
      → context.source_epoch < 2 ^ 32
      → All (λ f. f.path ≢ codes ".") files
      → IsTarGz pack unpack context.source_epoch (map (member_of context) files)
      → verify_archive lower casefold git unpack context (write_tar_gz pack files context) ≡ ok tt
  unfolding verify_archive check_contents write_tar_gz
  verify_archive-write_tar_gz pack unpack files g r e d t =
      rw (check_header-packed context _ e t.header) (
        rw (g, t.read_back)
          (rw (sorted, is_nil-map (member_of context) files listed.nonempty)
            (rw (check_members-map lower context files files archivable)
              (rw (all-contains_self (map (λ f. f.path) files) files (λ p c. c))))))
    where
      listed : IsListed lower casefold git files
      listed = git_source_files-IsListed lower casefold git files g

      archivable : All (Archivable lower context files) files
      archivable =
          all_Archivable files files r d listed.scanned (find_source_self files listed.distinct)

      sorted : is_sorted (map (λ m. m.name) (map (member_of context) files)) ≡ true
      sorted = (is_sorted_iff _).1 (names-IsSortedBy lower context files listed.sorted)
