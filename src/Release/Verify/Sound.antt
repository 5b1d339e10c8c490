-- ===== src/Release/Verify/Sound.antt =====
-- What `verify_release` of scripts/release/release_artifacts.py has found when it returns.
use codex_subscription_route.Prelude.{
  ok-injective, ◌≡◌, ◌∙◌, refl, sym, ap, subst, true, false, not, ◌||◌, Option, none, some, List,
  [], ◌∷◌, map, arith, ◌==◌, any, all, length, ==_iff, Bool-cases, inl, inr, All, and-eq-true,
  or-eq-false, ok, collect, >>=-eq-ok, raise_if->>-eq-ok, collect-All, collect-map,
}
use codex_subscription_route.Text.{Bytes, bytes_eq, bytes_eq_iff, contains, sort_by, Distinct}
use codex_subscription_route.Release.Errors.{
  ReleaseError, no_manifest, unexpected_artifacts, not_a_file, unmanifested, hash_mismatch,
  not_canonical, os_error,
}
use codex_subscription_route.Release.Library.{Library, Repository}
use codex_subscription_route.Release.Context.{BuildContext, context}
use codex_subscription_route.Release.Archive.{Member, verify_archive}
use codex_subscription_route.Release.Archive.Sound.{IsComplete, verify_archive_sound}
use codex_subscription_route.Release.Sources.{SourceFile, git_source_files}
use codex_subscription_route.Release.Manifest.{
  Artifact, Entry, names, manifest_bytes, parse_manifest,
}
use codex_subscription_route.Release.Manifest.Sound.{parse_manifest_sound}
use codex_subscription_route.Release.Build.{
  Directory, artifact_names, archive_name, sums_name, archive_context,
}
use codex_subscription_route.Release.Verify.Documents.{IsDocumented, check_documents-IsDocumented}
use codex_subscription_route.Release.Verify.{
  find_file, same_set, is_file_child, or_error, check_artifact, check_files, artifact_content,
  check_documents, verify_release,
}

-- The artifacts are files of the directory, the expected ones and no others, and the manifest is
-- exactly the one of them.
pub record IsManifested (py : Library) (c : BuildContext) (input : Directory)
    (artifacts : List Artifact) : Type 0 where
  pub manifest :
      (sums : Bytes) × (find_file sums_name input ≡ some sums)
      × (manifest_bytes py.sha256 artifacts ≡ ok sums)
  pub stored : All (λ a. find_file a.name input ≡ some a.content) artifacts
  pub distinct : Distinct (map (λ a. a.name) artifacts)
  pub complete : all (contains (map (λ a. a.name) artifacts)) (artifact_names c) ≡ true
  pub expected : all (contains (artifact_names c)) (map (λ a. a.name) artifacts) ≡ true
  pub files : any (λ child. not (is_file_child child)) input ≡ false
  pub exact : all (contains (sums_name ∷ artifact_names c)) (map (λ child. child.name) input) ≡ true

or_error-some : (e : ReleaseError) (o : Option Bytes) {s : Bytes} → or_error e o ≡ ok s → o ≡ some s
or_error-some e none h = cc
or_error-some e (some t) h = ap some (ok-injective h)

check_artifact_lem :
    (py : Library) (input : Directory) (entry : Entry) (a : Artifact)
    → check_artifact py input entry ≡ ok a
    → (a.name ≡ entry.name)
      × (find_file a.name input ≡ some a.content)
      × (py.sha256 a.content ≡ entry.digest)
      × (length a.content ≡ entry.size)
unfolding check_artifact
check_artifact_lem py input entry a h =
    let (contents, found, h1) = >>=-eq-ok (or_error os_error (find_file entry.name input)) _ h in
    let (sound, h2) =
      raise_if->>-eq-ok
        (not (length contents == entry.size) || not (bytes_eq (py.sha256 contents) entry.digest))
        hash_mismatch _ h1 in
    let (size, digest) = or-eq-false (not (length contents == entry.size)) _ sound in
    subst
      (λ b.
        (b.name ≡ entry.name)
        × (find_file b.name input ≡ some b.content)
        × (py.sha256 b.content ≡ entry.digest)
        × (length b.content ≡ entry.size))
      (ok-injective h2)
      (
        refl,
        or_error-some os_error (find_file entry.name input) found,
        (bytes_eq_iff (py.sha256 contents) entry.digest).0 (ground (arith, digest)),
        (==_iff (length contents) entry.size).0 (ground (arith, size)),
      )

-- Whenever the first part of the check returns: the artifacts are files of the directory, exactly the
-- expected ones, each once; every entry of the directory is a file, an artifact or the manifest; and the
-- manifest is the one that is generated of the artifacts.
pub check_files-IsManifested :
    (py : Library) (c : BuildContext) (input : Directory) (artifacts : List Artifact)
    → check_files py c input ≡ ok artifacts
    → IsManifested py c input artifacts
unfolding check_files
check_files-IsManifested py c input artifacts h =
    let (sums, found, h1) = >>=-eq-ok (or_error no_manifest (find_file sums_name input)) _ h in
    let (entries, parsed, h2) = >>=-eq-ok (parse_manifest sums) _ h1 in
    let (named, h3) =
      raise_if->>-eq-ok (not (same_set (names entries) (artifact_names c))) unexpected_artifacts _
        h2 in
    let (files, h4) =
      raise_if->>-eq-ok (any (λ child. not (is_file_child child)) input) not_a_file _ h3 in
    let (listed, h5) =
      raise_if->>-eq-ok
        (not (same_set (map (λ child. child.name) input) (sums_name ∷ artifact_names c)))
        unmanifested _ h4 in
    let (checked, collected, h6) = >>=-eq-ok (collect (check_artifact py input) entries) _ h5 in
    let (canonical, generated, h7) = >>=-eq-ok (manifest_bytes py.sha256 checked) _ h6 in
    let (equal, h8) = raise_if->>-eq-ok (not (bytes_eq sums canonical)) not_canonical _ h7 in
    let same_manifest = (bytes_eq_iff sums canonical).0 (ground (arith, equal)) in
    let (_, _, distinct, _) = parse_manifest_sound sums entries parsed in
    let same_names : map (λ a. a.name) checked ≡ names entries =
      collect-map (check_artifact py input) (λ e. e.name) (λ a. a.name) entries
        (λ e a made. (check_artifact_lem py input e a made).0) collected in
    let (expected, complete) =
      and-eq-true (all (contains (artifact_names c)) (names entries))
        (all (contains (names entries)) (artifact_names c)) (ground (arith, named)) in
    let (exact, _) =
      and-eq-true (all (contains (sums_name ∷ artifact_names c)) (map (λ child. child.name) input))
        (all (contains (map (λ child. child.name) input)) (sums_name ∷ artifact_names c))
        (ground (arith, listed)) in
    subst (IsManifested py c input) (ok-injective h8) (record {
      manifest = (
        sums,
        or_error-some no_manifest (find_file sums_name input) found,
        generated ∙ ap ok (sym same_manifest),
      );
      stored =
          collect-All (check_artifact py input) (λ a. find_file a.name input ≡ some a.content)
            entries (λ e a made. (check_artifact_lem py input e a made).1) collected;
      distinct = subst Distinct (sym same_names) distinct;
      complete =
          subst (λ ns. all (contains ns) (artifact_names c) ≡ true) (sym same_names) complete;
      expected =
          subst (λ ns. all (contains (artifact_names c)) ns ≡ true) (sym same_names) expected;
      files = files;
      exact = exact;
    })

artifact_content-stored :
    (name : Bytes) (input : Directory) (artifacts : List Artifact) {s : Bytes}
    → All (λ a. find_file a.name input ≡ some a.content) artifacts
    → artifact_content name artifacts ≡ ok s
    → find_file name input ≡ some s
unfolding artifact_content
artifact_content-stored name input [] h e = cc
artifact_content-stored name input (a ∷ artifacts) h e = elim (Bool-cases (bytes_eq name a.name)) [
  | inr other ↦ let e' = rw (other) at e in artifact_content-stored name input artifacts h.1 e'
  | inl here ↦
      let e' = rw (here) at e in
      let same = (bytes_eq_iff name a.name).0 here in
      ap (λ n. find_file n input) same ∙ h.0 ∙ ap some (ok-injective e')
]

-- What the check has found: the context, the artifacts, the archive with the files of the commit, and
-- the documents.
pub record IsVerified (unpack : Bytes → Option (List Member)) (py : Library) (r : Repository)
    (input : Directory) : Type 0 where
  pub build : BuildContext
  pub artifacts : List Artifact
  pub archive : Bytes
  pub sources : List SourceFile
  pub members : List Member
  pub context_made : context py r true ≡ ok build
  pub manifested : IsManifested py build input artifacts
  pub archived : find_file (archive_name build) input ≡ some archive
  pub committed : git_source_files py.lower py.casefold (r.tree build.commit) ≡ ok sources
  pub unpacked : unpack archive ≡ some members
  pub complete : IsComplete (archive_context build) sources members
  pub documented : IsDocumented py r build artifacts

-- Whenever `verify_release` returns: for the context that `_context` makes with uncommitted changes
-- allowed, the directory holds exactly the manifested artifacts and their manifest, its archive has
-- exactly the files of the context's commit, with their contents and modes, the documents are those that
-- `check_documents-IsDocumented` describes, and what is returned are the sorted names of the directory.
pub verify_release_sound :
    (unpack : Bytes → Option (List Member)) (py : Library) (r : Repository) (input : Directory)
    (listed : List Bytes)
    → verify_release unpack py r input ≡ ok listed
    → IsVerified unpack py r input × (listed ≡ sort_by (λ s. s) (map (λ child. child.name) input))
unfolding verify_release
verify_release_sound unpack py r input listed h =
    let (c, made, h1) = >>=-eq-ok (context py r true) _ h in
    let (artifacts, checked, h2) = >>=-eq-ok (check_files py c input) _ h1 in
    let (archive, content, h3) = >>=-eq-ok (artifact_content (archive_name c) artifacts) _ h2 in
    let (_, verified, h4) =
      >>=-eq-ok
        (verify_archive py.lower py.casefold (r.tree c.commit) unpack (archive_context c) archive) _
        h3 in
    let (_, documented, h5) = >>=-eq-ok (check_documents py r c artifacts) _ h4 in
    let manifested = check_files-IsManifested py c input artifacts checked in
    let (sources, members, committed, unpacked, complete) =
      verify_archive_sound py.lower py.casefold (r.tree c.commit) unpack (archive_context c) archive
        verified in
    let found : IsVerified unpack py r input = record {
      build = c;
      artifacts = artifacts;
      archive = archive;
      sources = sources;
      members = members;
      context_made = made;
      manifested = manifested;
      archived = artifact_content-stored (archive_name c) input artifacts manifested.stored content;
      committed = committed;
      unpacked = unpacked;
      complete = complete;
      documented = check_documents-IsDocumented py r c artifacts documented;
    } in
    (found, sym (ok-injective h5))
