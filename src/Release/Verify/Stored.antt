-- ===== src/Release/Verify/Stored.antt =====
-- The files that `build_release` of scripts/release/release_artifacts.py writes, as `verify_release`
-- finds them.
use codex_subscription_route.Prelude.{
  ◌≤◌, ◌≡◌, refl, ap, true, false, some, List, [], ◌∷◌, ◌++◌, map, arith, all, length, All, ok,
}
use codex_subscription_route.Text.{
  Bytes, codes, bytes_eq, contains, decimal, insert_by, insert_by-swap, sort_by, sort_by_inverse,
  sort_by-Distinct, Distinct, Distinct-prefixed,
}
use codex_subscription_route.Release.Library.{Library}
use codex_subscription_route.Release.Context.{BuildContext, is_semantic, is_pre_release}
use codex_subscription_route.Release.Manifest.{manifest_bytes, Artifact, int_max_str_digits}
use codex_subscription_route.Release.Manifest.Line.{IsDigest}
use codex_subscription_route.Release.Manifest.RoundTrip.{IsArtifact}
use codex_subscription_route.Release.Build.{
  Directory, Documents, base, output_names, sums_name, written_files, archive_name, cdx_name,
  spdx_name, gates_name, provenance_name,
}
use codex_subscription_route.Release.Build.Names.{artifact_name_lem}
use codex_subscription_route.Release.Build.Made.{initial_of, artifacts_of}
use codex_subscription_route.Release.Verify.{find_file, same_set, check_files, artifact_content}
use codex_subscription_route.Release.Verify.Lookups.{find_file_self, artifact_content_self}
use codex_subscription_route.Release.Verify.Named.{
  same_set-prefixed, same_set-names, names-Distinct,
}
use codex_subscription_route.Release.Verify.Accepts.{check_files-ok}

abbrev written_extensions : List Bytes
written_extensions =
    codes ".tar.gz"
    ∷ codes ".cdx.json"
    ∷ codes ".spdx.json"
    ∷ codes ".source-gates.json"
    ∷ codes ".provenance.json"
    ∷ []

abbrev initial_extensions : List Bytes
initial_extensions =
    codes ".tar.gz" ∷ codes ".cdx.json" ∷ codes ".spdx.json" ∷ codes ".source-gates.json" ∷ []

initial_extensions-Distinct : Distinct initial_extensions
unfolding contains bytes_eq
initial_extensions-Distinct = (refl, (refl, (refl, (refl, tt))))

abbrev expected_extensions : List Bytes
expected_extensions =
    codes ".tar.gz"
    ∷ codes ".cdx.json"
    ∷ codes ".spdx.json"
    ∷ codes ".provenance.json"
    ∷ codes ".source-gates.json"
    ∷ []

extensions-Distinct : Distinct written_extensions
unfolding contains bytes_eq
extensions-Distinct = (refl, (refl, (refl, (refl, (refl, tt)))))

same_extensions : same_set written_extensions expected_extensions ≡ true
unfolding contains bytes_eq
same_extensions = refl

not_sums : (c : BuildContext) (e : Bytes) → bytes_eq (base c ++ e) sums_name ≡ false
unfolding bytes_eq
not_sums c e = refl

-- The length of every file of the directory has at most as many digits as `int` reads.
abbrev pub IsSized : Directory → Type 0
IsSized output =
    (name contents : Bytes)
    → find_file name output ≡ some contents
    → length (decimal (length contents)) ≤ int_max_str_digits

module _ (c : BuildContext) (archive : Bytes) (d : Documents) where
  abbrev pub output_of : Directory
  output_of = written_files c archive d

  stored_lem : All (λ child. find_file child.name output_of ≡ child.content) output_of
  stored_lem =
      find_file_self output_of
        (names-Distinct (base c) sums_name (not_sums c) written_extensions extensions-Distinct)

  pub artifacts-IsStored :
      All (λ a. find_file a.name output_of ≡ some a.content) (artifacts_of c archive d)
  artifacts-IsStored =
      let (one, (two, (three, (four, (five, (six, _)))))) = stored_lem in
      (one, (two, (three, (four, (five, tt)))))

  pub sums-stored : find_file sums_name output_of ≡ some d.manifest_data
  sums-stored = let (one, (two, (three, (four, (five, (six, _)))))) = stored_lem in six

  artifact_lem :
      (ext contents : Bytes)
      → is_semantic c.version ≡ true
      → all is_pre_release ext ≡ true
      → IsSized output_of
      → find_file (base c ++ ext) output_of ≡ some contents
      → IsArtifact (record { name = base c ++ ext; content = contents })
  artifact_lem ext contents semantic plain sized found =
      let (portable, printable) = artifact_name_lem c ext semantic plain in
      record {
        portable = portable;
        printable = printable;
        sized = sized (base c ++ ext) contents found;
      }

  artifacts-IsArtifact :
      is_semantic c.version ≡ true → IsSized output_of → All IsArtifact (artifacts_of c archive d)
  artifacts-IsArtifact semantic sized =
      let (one, (two, (three, (four, (five, _))))) = artifacts-IsStored in
      (
        artifact_lem (codes ".tar.gz") archive semantic refl sized one,
        (
          artifact_lem (codes ".cdx.json") d.cyclonedx_data semantic refl sized two,
          (
            artifact_lem (codes ".spdx.json") d.spdx_data semantic refl sized three,
            (
              artifact_lem (codes ".source-gates.json") d.gates_data semantic refl sized four,
              (
                artifact_lem (codes ".provenance.json") d.provenance_data semantic refl sized five,
                tt,
              ),
            ),
          ),
        ),
      )

  pub artifacts-Distinct : Distinct (map (λ a. a.name) (artifacts_of c archive d))
  artifacts-Distinct = Distinct-prefixed (base c) written_extensions extensions-Distinct

  pub initial-Distinct : Distinct (map (λ a. a.name) (initial_of c archive d))
  initial-Distinct = Distinct-prefixed (base c) initial_extensions initial_extensions-Distinct

  -- The check of the files accepts them.
  pub check_files-artifacts :
      (py : Library)
      → ((s : Bytes) → IsDigest (py.sha256 s))
      → is_semantic c.version ≡ true
      → IsSized output_of
      → manifest_bytes py.sha256 (artifacts_of c archive d) ≡ ok d.manifest_data
      → check_files py c output_of ≡ ok (sort_by (λ a. a.name) (artifacts_of c archive d))
  check_files-artifacts py sha semantic sized made =
      check_files-ok py sha output_of c (artifacts_of c archive d) d.manifest_data (ground arith)
        (artifacts-IsArtifact semantic sized) artifacts-Distinct made sums-stored artifacts-IsStored
        (same_set-names (base c) sums_name (not_sums c) written_extensions expected_extensions
          same_extensions)
        refl
        (same_set-prefixed (base c) sums_name (not_sums c) written_extensions expected_extensions
          same_extensions)

  -- Every artifact is found under its name in the sorted list.
  pub artifacts-found :
      All
        (λ a.
          artifact_content a.name (sort_by (λ b. b.name) (artifacts_of c archive d)) ≡ ok a.content)
        (artifacts_of c archive d)
  artifacts-found =
      let artifacts = artifacts_of c archive d in
      let sorted = sort_by (λ (b : Artifact). b.name) artifacts in
      sort_by_inverse (λ b. b.name) (λ a. artifact_content a.name sorted ≡ ok a.content) artifacts
        (artifact_content_self sorted (sort_by-Distinct (λ b. b.name) artifacts artifacts-Distinct))

  -- The names that are returned are those of the directory.
  pub output_names-sorted : sort_by (λ s. s) (map (λ child. child.name) output_of) ≡ output_names c
  unfolding sort_by
  output_names-sorted =
      ap
        (λ ss.
          insert_by (λ s. s) (archive_name c)
            (insert_by (λ s. s) (cdx_name c) (insert_by (λ s. s) (spdx_name c) ss)))
        (insert_by-swap (gates_name c) (provenance_name c) (insert_by (λ s. s) sums_name []))
