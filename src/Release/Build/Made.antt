-- ===== src/Release/Build/Made.antt =====
-- What `build_release` of scripts/release/release_artifacts.py has written when it returns.
use codex_subscription_route.Prelude.{
  ok-injective, ◌⊎◌, ℕ, ◌≡◌, refl, sym, ap, subst, Bool, Option, none, some, List, [], ◌∷◌, ◌++◌,
  inl, inr, ok, err, >>=-eq-ok, Outcome-cases,
}
use codex_subscription_route.Text.{Bytes}
use codex_subscription_route.Json.{Json}
use codex_subscription_route.Release.Errors.{ReleaseError}
use codex_subscription_route.Release.Library.{Library, Repository, json_bytes}
use codex_subscription_route.Release.Context.{BuildContext, context}
use codex_subscription_route.Release.Sources.{git_source_files}
use codex_subscription_route.Release.Archive.{Member}
use codex_subscription_route.Release.Manifest.{Artifact, manifest_bytes}
use codex_subscription_route.Release.Gates.{validate_source_gates}
use codex_subscription_route.Release.Npm.{loads_or_error, or_value_error}
use codex_subscription_route.Release.Cyclonedx.{cyclonedx}
use codex_subscription_route.Release.Spdx.{spdx}
use codex_subscription_route.Release.Provenance.{provenance}
use codex_subscription_route.Release.Build.{
  file, archive_name, Directory, Documents, Inputs, documents, read_inputs, initial_artifacts,
  artifact, provenance_name, written_files, output_names, fill, write_archive, build_release,
}

or_value_error-some : (o : Option Json) {v : Json} → or_value_error o ≡ ok v → o ≡ some v
or_value_error-some none h = cc
or_value_error-some (some w) h = ap some (ok-injective h)

abbrev pub initial_of : BuildContext → Bytes → Documents → List Artifact
initial_of c archive d = initial_artifacts c archive d.cyclonedx_data d.spdx_data d.gates_data

abbrev pub artifacts_of : BuildContext → Bytes → Documents → List Artifact
artifacts_of c archive d =
    initial_of c archive d ++ (artifact (provenance_name c) d.provenance_data ∷ [])

-- The documents, and the values that are written in them.
pub record IsMadeOf (py : Library) (r : Repository) (c : BuildContext) (gates archive : Bytes)
    (d : Documents) : Type 0 where
  pub bills : Json
  pub loaded : Json
  pub bill : Json
  pub statement_made : Json
  pub bills_made : cyclonedx py r c ≡ ok bills
  pub bills_data : d.cyclonedx_data ≡ json_bytes py bills
  pub bills_loaded : py.loads d.cyclonedx_data ≡ some loaded
  pub bill_made : spdx py c loaded ≡ ok bill
  pub bill_data : d.spdx_data ≡ json_bytes py bill
  pub gates_kept : d.gates_data ≡ gates
  pub provenance_made : provenance py r c (initial_of c archive d) ≡ ok statement_made
  pub statement_data : d.provenance_data ≡ json_bytes py statement_made
  pub sums_made : manifest_bytes py.sha256 (artifacts_of c archive d) ≡ ok d.manifest_data

pub documents-IsMadeOf :
    (py : Library) (r : Repository) (c : BuildContext) (gates archive : Bytes) (d : Documents)
    → documents py r c gates archive ≡ ok d
    → IsMadeOf py r c gates archive d
unfolding documents
documents-IsMadeOf py r c gates archive d h =
    let (bills, made, h1) = >>=-eq-ok (cyclonedx py r c) _ h in
    let (loaded, read, h2) = >>=-eq-ok (loads_or_error py (json_bytes py bills)) _ h1 in
    let (bill, made_spdx, h3) = >>=-eq-ok (spdx py c loaded) _ h2 in
    let initial = initial_artifacts c archive (json_bytes py bills) (json_bytes py bill) gates in
    let (statement, made_statement, h4) = >>=-eq-ok (provenance py r c initial) _ h3 in
    let (sums, made_sums, h5) =
      >>=-eq-ok
        (manifest_bytes py.sha256
          (initial ++ (artifact (provenance_name c) (json_bytes py statement) ∷ [])))
        _ h4 in
    subst (IsMadeOf py r c gates archive) (ok-injective h5) (record {
      bills = bills;
      loaded = loaded;
      bill = bill;
      statement_made = statement;
      bills_made = made;
      bills_data = refl;
      bills_loaded = or_value_error-some (py.loads (json_bytes py bills)) read;
      bill_made = made_spdx;
      bill_data = refl;
      gates_kept = refl;
      provenance_made = made_statement;
      statement_data = refl;
      sums_made = made_sums;
    })

pub record IsInput (py : Library) (r : Repository) (gates_file : Option Bytes) (allow_dirty : Bool)
    (i : Inputs) : Type 0 where
  pub context_made : context py r allow_dirty ≡ ok i.build_context
  pub listed : git_source_files py.lower py.casefold (r.tree i.build_context.commit) ≡ ok i.files
  pub validated : validate_source_gates py r gates_file i.build_context ≡ ok i.gates

read_inputs-IsInput :
    (py : Library) (r : Repository) (gates_file : Option Bytes) (allow_dirty : Bool) (i : Inputs)
    → read_inputs py r gates_file allow_dirty ≡ ok i
    → IsInput py r gates_file allow_dirty i
unfolding read_inputs
read_inputs-IsInput py r gates_file allow_dirty i h =
    let (c, made, h1) = >>=-eq-ok (context py r allow_dirty) _ h in
    let (files, listed, h2) =
      >>=-eq-ok (git_source_files py.lower py.casefold (r.tree c.commit)) _ h1 in
    let (gates, validated, h3) = >>=-eq-ok (validate_source_gates py r gates_file c) _ h2 in
    subst (IsInput py r gates_file allow_dirty) (ok-injective h3)
      (record { context_made = made; listed = listed; validated = validated })

module _ (pack : ℕ → List Member → Bytes) (py : Library) (r : Repository) where
  -- Whenever `build_release` returns, starting with an empty directory, it has written the archive of the
  -- commit's files and the documents of the context, and returns their names.
  pub build_release-made :
      (gates_file : Option Bytes) (allow_dirty : Bool) (listed : List Bytes) (output : Directory)
      → build_release pack py r gates_file allow_dirty [] ≡ (ok listed, output)
      → (i : Inputs) × (d : Documents) × IsInput py r gates_file allow_dirty i
        × (documents py r i.build_context i.gates (write_archive pack py r i) ≡ ok d)
        × (listed ≡ output_names i.build_context)
        × (output ≡ written_files i.build_context (write_archive pack py r i) d)
  unfolding build_release
  build_release-made gates_file allow_dirty listed output h =
      elim (Outcome-cases (read_inputs py r gates_file allow_dirty)) [
        | inr (e, failed) ↦ let h' = rw (failed) at h in cc
        | inl (i, read) ↦
            let h' = rw (read) at h in
            elim (Outcome-cases
              (documents py r i.build_context i.gates (write_archive pack py r i))) [
                | inr (e, failed) ↦ let h'' = rw (failed) at h' in cc
                | inl (d, made) ↦
                    let h'' = rw (made) at h' in
                    (
                      i,
                      d,
                      read_inputs-IsInput py r gates_file allow_dirty i read,
                      made,
                      ok-injective (sym (ap (λ p. p.0) h'')),
                      sym (ap (λ p. p.1) h''),
                    )
              ]
      ]

  -- The documents of the inputs fail, and an empty directory is left with the archive alone.
  abbrev pub HoldsArchive : Option Bytes → Bool → ReleaseError → Directory → Directory → Type 0
  HoldsArchive gates_file allow_dirty e before after =
      (i : Inputs) × (before ≡ [])
      × IsInput py r gates_file allow_dirty i
      × (documents py r i.build_context i.gates (write_archive pack py r i) ≡ err e)
      × (after ≡ file (archive_name i.build_context) (write_archive pack py r i) ∷ [])

  -- A failure of `build_release` leaves the output directory as it was, unless the documents fail: then the
  -- directory was empty and holds the archive of the commit's files alone.
  pub build_release-fails :
      (gates_file : Option Bytes) (allow_dirty : Bool) (before after : Directory) (e : ReleaseError)
      → build_release pack py r gates_file allow_dirty before ≡ (err e, after)
      → (after ≡ before) ⊎ HoldsArchive gates_file allow_dirty e before after
  unfolding build_release
  build_release-fails gates_file allow_dirty before after e h =
      elim (Outcome-cases (read_inputs py r gates_file allow_dirty)) [
        | inr (f, failed) ↦ let h' = rw (failed) at h in inl (sym (ap (λ p. p.1) h'))
        | inl (i, read) ↦
            let h' = rw (read) at h in
            filled before i (read_inputs-IsInput py r gates_file allow_dirty i read) h'
      ]
    where
      filled :
          (start : Directory) (i : Inputs)
          → IsInput py r gates_file allow_dirty i
          → fill pack py r start i ≡ (err e, after)
          → (after ≡ start) ⊎ HoldsArchive gates_file allow_dirty e start after
      filled (child ∷ children) i input k = inl (sym (ap (λ p. p.1) k))
      filled [] i input k =
          elim (Outcome-cases
            (documents py r i.build_context i.gates (write_archive pack py r i))) [
              | inl (d, made) ↦ let k' = rw (made) at k in cc (ap (λ p. p.0) k')
              | inr (f, failed) ↦
                  let k' = rw (failed) at k in
                  inr (i, refl, input, cc (failed, ap (λ p. p.0) k'), sym (ap (λ p. p.1) k'))
            ]
