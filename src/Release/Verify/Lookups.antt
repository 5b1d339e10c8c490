-- ===== src/Release/Verify/Lookups.antt =====
-- What `verify_release` of scripts/release/release_artifacts.py finds under the names of a list whose
-- names are all different.
use codex_subscription_route.Prelude.{
  All-map, ◌≡◌, ◌∙◌, refl, false, none, some, List, [], ◌∷◌, map, All, or-eq-false, ok, collect,
}
use codex_subscription_route.Text.{
  Bytes, contains, bytes_eq, bytes_eq_self, bytes_eq_comm, Distinct,
}
use codex_subscription_route.Json.{Json, text, is_text, lookup, fields_of}
use codex_subscription_route.Release.Library.{Library, get}
use codex_subscription_route.Release.Manifest.{Artifact}
use codex_subscription_route.Release.Build.{Child, Directory}
use codex_subscription_route.Release.Provenance.{subject}
use codex_subscription_route.Release.Verify.{
  find_file, artifact_content, find_subject, actual_subject,
}

module _ {A : Type 0} (key : A → Bytes) where
  apart :
      (xs : List A) (s : Bytes)
      → contains (map key xs) s ≡ false
      → All (λ x. bytes_eq (key x) s ≡ false) xs
  unfolding contains
  apart [] s h = tt
  apart (x ∷ xs) s h =
      let (here, rest) = or-eq-false (bytes_eq s (key x)) (contains (map key xs) s) h in
      (bytes_eq_comm (key x) s ∙ here, apart xs s rest)

  -- What holds in the rest of a list holds behind an element with another key.
  later_all {κ μ} :
      (P : A → Type κ) (Q : A → Type μ) (s : Bytes) (xs : List A)
      → ((x : A) → bytes_eq (key x) s ≡ false → P x → Q x)
      → contains (map key xs) s ≡ false
      → All P xs
      → All Q xs
  later_all P Q s xs f h p = go xs (apart xs s h) p
    where
      go : (ys : List A) → All (λ x. bytes_eq (key x) s ≡ false) ys → All P ys → All Q ys
      go [] h p = tt
      go (y ∷ ys) h p = (f y h.0 p.0, go ys h.1 p.1)

pub find_file_self :
    (children : Directory)
    → Distinct (map (λ child. child.name) children)
    → All (λ child. find_file child.name children ≡ child.content) children
unfolding find_file
find_file_self [] d = tt
find_file_self (child ∷ children) d = (
  rw (bytes_eq_self child.name),
  later_all (λ (x : Child). x.name) (λ x. find_file x.name children ≡ x.content) _ child.name
      children (λ x other here. rw (other, here)) d.0 (find_file_self children d.1),
)

pub artifact_content_self :
    (artifacts : List Artifact)
    → Distinct (map (λ a. a.name) artifacts)
    → All (λ a. artifact_content a.name artifacts ≡ ok a.content) artifacts
unfolding artifact_content
artifact_content_self [] d = tt
artifact_content_self (a ∷ artifacts) d = (
  rw (bytes_eq_self a.name),
  later_all (λ (x : Artifact). x.name) (λ x. artifact_content x.name artifacts ≡ ok x.content) _
      a.name artifacts (λ x other here. rw (other, here)) d.0 (artifact_content_self artifacts d.1),
)

module _ (py : Library) where
  abbrev pub pair_of : Artifact → Json × Json
  pair_of a = (text a.name, text (py.sha256 a.content))

  -- The subjects of the statement are read as pairs of a name and a digest.
  pub actual_subjects_lem :
      (artifacts : List Artifact)
      → collect actual_subject (map (subject py) artifacts) ≡ ok (map pair_of artifacts)
  unfolding actual_subject get lookup fields_of bytes_eq
  actual_subjects_lem [] = refl
  actual_subjects_lem (a ∷ artifacts) = rw (actual_subjects_lem artifacts)

  find_subject-none :
      (artifacts : List Artifact) (name : Bytes)
      → contains (map (λ a. a.name) artifacts) name ≡ false
      → find_subject name (map pair_of artifacts) ≡ none
  unfolding find_subject contains is_text
  find_subject-none [] name h = refl
  find_subject-none (a ∷ artifacts) name h =
      let (here, rest) = or-eq-false (bytes_eq name a.name) _ h in
      rw (find_subject-none artifacts name rest, bytes_eq_comm a.name name, here)

  pub find_subject_self :
      (artifacts : List Artifact)
      → Distinct (map (λ a. a.name) artifacts)
      → All
          (λ a. find_subject a.name (map pair_of artifacts) ≡ some (text (py.sha256 a.content)))
          artifacts
  unfolding find_subject is_text
  find_subject_self [] d = tt
  find_subject_self (a ∷ artifacts) d = (
    rw (find_subject-none artifacts a.name d.0, bytes_eq_self a.name),
    All-map
        (λ (x : Artifact).
          find_subject x.name (map pair_of artifacts) ≡ some (text (py.sha256 x.content)))
        _ (λ x here. rw (here)) artifacts (find_subject_self artifacts d.1),
  )
