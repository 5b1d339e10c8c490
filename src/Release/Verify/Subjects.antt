-- ===== src/Release/Verify/Subjects.antt =====
-- The provenance that `verify_release` of scripts/release/release_artifacts.py accepts.
use codex_subscription_route.Prelude.{
  All-map, ◌≡◌, ◌∙◌, refl, ap, subst, true, ◌||◌, some, List, [], ◌∷◌, map, arith, any, all, All,
  ok, ◌>>=◌, collect,
}
use codex_subscription_route.Text.{
  Bytes, contains, bytes_eq, bytes_eq_self, sort_by, sort_by-All, sort_by_inverse, sort_by-Distinct,
  sort_by-Distinct_other, Distinct,
}
use codex_subscription_route.Json.{
  Json, text, is_text, is_truthy, lookup, fields_of, items_of, list_of-items_of,
}
use codex_subscription_route.Release.Library.{Library, get, iterate, first_item}
use codex_subscription_route.Release.Context.{BuildContext}
use codex_subscription_route.Release.Manifest.{Artifact}
use codex_subscription_route.Release.Provenance.{
  subject, statement, sorted_subjects, build_definition,
}
use codex_subscription_route.Release.Verify.{
  artifact_content, find_subject, has_digest, same_subjects, expected_subjects, subject_names,
  check_statement, check_subjects, check_provenance,
}
use codex_subscription_route.Release.Verify.Lookups.{
  pair_of, actual_subjects_lem, find_subject_self,
}

module _ (py : Library) where
  abbrev expectation : Artifact → Bytes × Bytes
  expectation a = (a.name, py.sha256 a.content)

  expected_lem :
      (artifacts subjects : List Artifact)
      → All (λ a. artifact_content a.name artifacts ≡ ok a.content) subjects
      → collect
          (λ name. artifact_content name artifacts >>= λ contents. ok (name, py.sha256 contents))
          (map (λ a. a.name) subjects)
        ≡ ok (map expectation subjects)
  expected_lem artifacts [] h = refl
  expected_lem artifacts (a ∷ subjects) h = rw (h.0, expected_lem artifacts subjects h.1)

  any-contains :
      (subjects : List Artifact) (name : Bytes)
      → any (λ e. is_text e.0 (text name)) (map expectation subjects)
        ≡ contains (map (λ a. a.name) subjects) name
  unfolding is_text contains
  any-contains [] name = refl
  any-contains (a ∷ subjects) name =
      ap (λ b. bytes_eq name a.name || b) (any-contains subjects name)

  all_known :
      (expected : List (Bytes × Bytes)) (actual : List Artifact)
      → All (λ a. any (λ e. is_text e.0 (text a.name)) expected ≡ true) actual
      → all (λ p. any (λ e. is_text e.0 p.0) expected) (map (pair_of py) actual) ≡ true
  all_known expected [] h = refl
  all_known expected (a ∷ actual) h = rw (h.0, all_known expected actual h.1)

  all_present :
      (actual : List (Json × Json)) (subjects : List Artifact)
      → All (λ a. find_subject a.name actual ≡ some (text (py.sha256 a.content))) subjects
      → all (λ e. has_digest e.1 (find_subject e.0 actual)) (map expectation subjects) ≡ true
  unfolding is_text
  all_present actual [] h = refl
  all_present actual (a ∷ subjects) h =
      rw (h.0, bytes_eq_self (py.sha256 a.content), all_present actual subjects h.1)

names_contained :
    (all_names : List Bytes) (subjects : List Artifact)
    → ((s : Bytes) → contains (map (λ a. a.name) subjects) s ≡ true → contains all_names s ≡ true)
    → All (λ a. contains all_names a.name ≡ true) subjects
unfolding contains
names_contained all_names [] f = tt
names_contained all_names (a ∷ subjects) f = (
  f a.name (rw (bytes_eq_self a.name)),
  names_contained all_names subjects (λ s h. f s (ground (arith, h))),
)

-- The order of the subjects does not matter to the check.
pub same_subjects-sorted :
    (py : Library) (subjects : List Artifact)
    → Distinct (map (λ a. a.name) subjects)
    → same_subjects (map (pair_of py) (sorted_subjects subjects)) (map (expectation py) subjects)
      ≡ true
unfolding same_subjects
same_subjects-sorted py subjects d =
    let inner = sort_by (λ (a : Artifact). a.content) subjects in
    let Known = λ (a : Artifact).
      any (λ e. is_text e.0 (text a.name)) (map (expectation py) subjects) ≡ true in
    let known : All Known subjects =
      All-map (λ (a : Artifact). contains (map (λ b. b.name) subjects) a.name ≡ true) Known
        (λ a h. any-contains py subjects a.name ∙ h) subjects
        (names_contained (map (λ b. b.name) subjects) subjects (λ s h. h)) in
    let sorted_known =
      sort_by-All (λ a. a.name) Known inner (sort_by-All (λ a. a.content) Known subjects known) in
    let Found = λ (a : Artifact).
      find_subject a.name (map (pair_of py) (sorted_subjects subjects))
      ≡ some (text (py.sha256 a.content)) in
    let distinct =
      sort_by-Distinct (λ (a : Artifact). a.name) inner
        (sort_by-Distinct_other (λ (a : Artifact). a.content) (λ a. a.name) subjects d) in
    let sorted_found : All Found (sorted_subjects subjects) =
      find_subject_self py (sorted_subjects subjects) distinct in
    let found =
      sort_by_inverse (λ a. a.content) Found subjects
        (sort_by_inverse (λ a. a.name) Found inner sorted_found) in
    rw (
      all_known py (map (expectation py) subjects) (sorted_subjects subjects) sorted_known,
      all_present py (map (pair_of py) (sorted_subjects subjects)) subjects found,
    )

check_statement-ok :
    (py : Library) (c : BuildContext) (go node : Bytes) (subjects : List Artifact)
    → check_statement c (statement py c go node subjects) ≡ ok tt
unfolding check_statement statement build_definition get lookup fields_of items_of is_text is_truthy
    first_item
check_statement-ok py c go node subjects = rw (bytes_eq_self c.commit)

-- The statement of some subjects is accepted for artifacts that hold them.
pub check_provenance-ok :
    (py : Library) (c : BuildContext) (go node : Bytes) (artifacts subjects : List Artifact)
    → map (λ a. a.name) subjects ≡ subject_names c
    → Distinct (map (λ a. a.name) subjects)
    → All (λ a. artifact_content a.name artifacts ≡ ok a.content) subjects
    → check_provenance py c artifacts (statement py c go node subjects) ≡ ok tt
unfolding check_provenance check_subjects expected_subjects statement get lookup fields_of iterate
check_provenance-ok py c go node artifacts subjects named d held =
    let expected : expected_subjects py c artifacts ≡ ok (map (expectation py) subjects) =
      subst
        (λ ns.
          collect
            (λ name. artifact_content name artifacts >>= λ contents. ok (name, py.sha256 contents))
            ns
          ≡ ok (map (expectation py) subjects))
        named (expected_lem py artifacts subjects held) in
    rw (check_statement-ok py c go node subjects) (
      rw (
        list_of-items_of (map (subject py) (sorted_subjects subjects)),
        actual_subjects_lem py (sorted_subjects subjects),
        expected,
        same_subjects-sorted py subjects d,
      ))
