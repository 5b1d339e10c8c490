-- ===== src/Release/Verify/Accepts.antt =====
-- The files that `verify_release` of scripts/release/release_artifacts.py accepts.
use codex_subscription_route.Prelude.{
  ◌≡◌, ◌≢◌, ◌∙◌, refl, true, false, not, some, List, [], ◌∷◌, map, any, length, ==_iff, All, ok,
  collect,
}
use codex_subscription_route.Text.{
  Bytes, contains, bytes_eq_self, sort_by, sort_by-All, sort_by-IsSortedBy, sort_by_of_IsSortedBy,
  all-sort_by, all-contains-sort_by, Distinct,
}
use codex_subscription_route.Release.Library.{Library}
use codex_subscription_route.Release.Context.{BuildContext}
use codex_subscription_route.Release.Manifest.{Artifact, manifest_bytes, parse_manifest}
use codex_subscription_route.Release.Manifest.Line.{IsDigest}
use codex_subscription_route.Release.Manifest.RoundTrip.{
  IsArtifact, entry_of, names-entries, parse-manifest_bytes,
}
use codex_subscription_route.Release.Build.{Directory, artifact_names, sums_name}
use codex_subscription_route.Release.Verify.{
  find_file, same_set, is_file_child, check_artifact, check_files,
}

module _ (py : Library) (sha256-IsDigest : (s : Bytes) → IsDigest (py.sha256 s))
    (input : Directory) where
  abbrev pub IsStored : Artifact → Type 0
  IsStored a = find_file a.name input ≡ some a.content

  artifacts_found :
      (artifacts : List Artifact)
      → All IsStored artifacts
      → collect (check_artifact py input) (map (entry_of py.sha256 sha256-IsDigest) artifacts)
        ≡ ok artifacts
  unfolding check_artifact entry_of
  artifacts_found [] h = refl
  artifacts_found (a ∷ artifacts) h = rw (
    h.0,
    (==_iff (length a.content) (length a.content)).1 refl,
    bytes_eq_self (py.sha256 a.content),
    artifacts_found artifacts h.1,
  )

  manifest-sorted :
      (artifacts : List Artifact)
      → manifest_bytes py.sha256 (sort_by (λ a. a.name) artifacts)
        ≡ manifest_bytes py.sha256 artifacts
  unfolding manifest_bytes
  manifest-sorted artifacts = rw (
      sort_by_of_IsSortedBy (λ (a : Artifact). a.name) (sort_by (λ a. a.name) artifacts)
        (sort_by-IsSortedBy (λ a. a.name) artifacts))

  -- Stored artifacts with the expected names, whose manifest is stored with them and nothing else, are
  -- what the check finds, in the order of their names.
  pub check_files-ok :
      (c : BuildContext) (artifacts : List Artifact) (sums : Bytes)
      → artifacts ≢ []
      → All IsArtifact artifacts
      → Distinct (map (λ a. a.name) artifacts)
      → manifest_bytes py.sha256 artifacts ≡ ok sums
      → find_file sums_name input ≡ some sums
      → All IsStored artifacts
      → same_set (map (λ a. a.name) artifacts) (artifact_names c) ≡ true
      → any (λ child. not (is_file_child child)) input ≡ false
      → same_set (map (λ child. child.name) input) (sums_name ∷ artifact_names c) ≡ true
      → check_files py c input ≡ ok (sort_by (λ a. a.name) artifacts)
  unfolding check_files
  check_files-ok c artifacts sums some_artifact fit d made stored found expected files exact =
      let sorted = sort_by (λ a. a.name) artifacts in
      let round = parse-manifest_bytes py.sha256 sha256-IsDigest artifacts some_artifact fit d in
      let parsed : parse_manifest sums ≡ ok (map (entry_of py.sha256 sha256-IsDigest) sorted) =
        rw (made) at round in
      let named : same_set (map (λ a. a.name) sorted) (artifact_names c) ≡ true =
        rw
          (
            all-sort_by (λ (a : Artifact). a.name) (contains (artifact_names c)) artifacts,
            all-contains-sort_by (λ (a : Artifact). a.name) artifacts (artifact_names c),
          )
          expected in
      let collected = artifacts_found sorted (sort_by-All (λ a. a.name) IsStored artifacts found) in
      let canonical = manifest-sorted artifacts ∙ made in
      rw (
        stored,
        parsed,
        names-entries py.sha256 sha256-IsDigest sorted,
        named,
        files,
        exact,
        collected,
        canonical,
        bytes_eq_self sums,
      )
