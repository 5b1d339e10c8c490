-- ===== src/Release/Verify/Documents.antt =====
-- What the documents of a release say that `verify_release` of scripts/release/release_artifacts.py
-- accepts.
use codex_subscription_route.Prelude.{
  ok-injective, ◌≡◌, ◌∙◌, refl, sym, ap, subst, true, not, ◌||◌, Option, none, some, List, [], ◌∷◌,
  map, arith, any, all, All, and-eq-true, Outcome, ok, ◌>>=◌, collect, >>=-eq-ok, raise_if-eq-ok,
  raise_if->>-eq-ok, collect-map,
}
use codex_subscription_route.Text.{Bytes, codes, bytes_eq, bytes_eq_iff}
use codex_subscription_route.Json.{Json, text, is_text}
use codex_subscription_route.Release.Errors.{ReleaseError, gates_artifact_differs, other_subjects}
use codex_subscription_route.Release.Library.{
  Library, Repository, json_bytes, get, iterate, empty_array,
}
use codex_subscription_route.Release.Context.{BuildContext}
use codex_subscription_route.Release.Manifest.{Artifact}
use codex_subscription_route.Release.Gates.{source_gate_document}
use codex_subscription_route.Release.Sboms.{verify_sboms}
use codex_subscription_route.Release.Build.{cdx_name, spdx_name, provenance_name, gates_name}
use codex_subscription_route.Release.Verify.{
  artifact_content, load, actual_subject, find_subject, has_digest, same_subjects, subject_names,
  expected_subjects, check_statement, check_subjects, check_provenance, check_documents,
}

is_text-eq : (s : Bytes) (v : Json) → is_text s v ≡ true → v ≡ text s
unfolding is_text
is_text-eq s (text t) h = ap text ((bytes_eq_iff t s).0 h)
is_text-eq s _ h = cc

has_digest-eq :
    (digest : Bytes) (o : Option Json) → has_digest digest o ≡ true → o ≡ some (text digest)
has_digest-eq digest none h = cc
has_digest-eq digest (some v) h = ap some (is_text-eq digest v h)

-- The last subject with a name carries the digest of the artifact with that name.
abbrev pub IsSubject : Library → List Artifact → List (Json × Json) → Bytes → Type 0
IsSubject py artifacts actual name =
    (contents : Bytes) × (artifact_content name artifacts ≡ ok contents)
    × (find_subject name actual ≡ some (text (py.sha256 contents)))

abbrev expect : Library → List Artifact → Bytes → Outcome ReleaseError (Bytes × Bytes)
expect py artifacts name =
    artifact_content name artifacts >>= λ contents. ok (name, py.sha256 contents)

expect_lem :
    (py : Library) (artifacts : List Artifact) (name : Bytes) (e : Bytes × Bytes)
    → expect py artifacts name ≡ ok e
    → (contents : Bytes) × (artifact_content name artifacts ≡ ok contents)
      × (name ≡ e.0)
      × (py.sha256 contents ≡ e.1)
expect_lem py artifacts name e h =
    let (contents, found, h1) = >>=-eq-ok (artifact_content name artifacts) _ h in
    let same = ok-injective h1 in (contents, found, ap (λ p. p.0) same, ap (λ p. p.1) same)

subjects_of :
    (py : Library) (artifacts : List Artifact) (actual : List (Json × Json)) (ns : List Bytes)
    {expected : List (Bytes × Bytes)}
    → collect (expect py artifacts) ns ≡ ok expected
    → all (λ e. has_digest e.1 (find_subject e.0 actual)) expected ≡ true
    → All (IsSubject py artifacts actual) ns
subjects_of py artifacts actual [] h k = tt
subjects_of py artifacts actual (n ∷ ns) h k =
    let (e, one, h1) = >>=-eq-ok (expect py artifacts n) _ h in
    let (rest, others, h2) = >>=-eq-ok (collect (expect py artifacts) ns) _ h1 in
    let (contents, found, named, digest) = expect_lem py artifacts n e one in
    let k' : all (λ e. has_digest e.1 (find_subject e.0 actual)) (e ∷ rest) ≡ true =
      ap (all (λ e. has_digest e.1 (find_subject e.0 actual))) (ok-injective h2) ∙ k in
    let (here, there) =
      and-eq-true (has_digest e.1 (find_subject e.0 actual))
        (all (λ e. has_digest e.1 (find_subject e.0 actual)) rest) k' in
    let subject : find_subject n actual ≡ some (text (py.sha256 contents)) =
      ap (λ m. find_subject m actual) named
      ∙ has_digest-eq e.1 (find_subject e.0 actual) here
      ∙ ap (λ d. some (text d)) (sym digest) in
    ((contents, found, subject), subjects_of py artifacts actual ns others there)

-- The subjects of the provenance are the four artifacts with their digests, and no others.
pub record IsProvenanceOf (py : Library) (c : BuildContext) (artifacts : List Artifact)
    (statement : Json) : Type 0 where
  pub subjects : Json
  pub items : List Json
  pub actual : List (Json × Json)
  pub found : get (codes "subject") empty_array statement ≡ ok subjects
  pub iterated : iterate subjects ≡ ok items
  pub read : collect actual_subject items ≡ ok actual
  pub expected : All (IsSubject py artifacts actual) (subject_names c)
  pub only : all (λ a. any (λ n. is_text n a.0) (subject_names c)) actual ≡ true

only_lem :
    (py : Library) (artifacts : List Artifact) (ns : List Bytes) {expected : List (Bytes × Bytes)}
    → collect (expect py artifacts) ns ≡ ok expected
    → map (λ e. e.0) expected ≡ ns
only_lem py artifacts ns h =
    collect-map (expect py artifacts) (λ n. n) (λ e. e.0) ns
      (λ n e made. let (_, _, named, _) = expect_lem py artifacts n e made in sym named) h
    ∙ map_id ns
  where
    map_id : (xs : List Bytes) → map (λ n. n) xs ≡ xs
    map_id [] = refl
    map_id (x ∷ xs) = ap (λ ys. x ∷ ys) (map_id xs)

any-named :
    (v : Json) (expected : List (Bytes × Bytes))
    → any (λ e. is_text e.0 v) expected ≡ any (λ n. is_text n v) (map (λ e. e.0) expected)
any-named v [] = refl
any-named v (e ∷ expected) = ap (λ b. is_text e.0 v || b) (any-named v expected)

only_named :
    (actual : List (Json × Json)) (expected : List (Bytes × Bytes)) (ns : List Bytes)
    → map (λ e. e.0) expected ≡ ns
    → all (λ a. any (λ e. is_text e.0 a.0) expected) actual ≡ true
    → all (λ a. any (λ n. is_text n a.0) ns) actual ≡ true
only_named [] expected ns same h = refl
only_named (a ∷ actual) expected ns same h =
    let (here, there) = and-eq-true (any (λ e. is_text e.0 a.0) expected) _ h in
    let named : any (λ n. is_text n a.0) ns ≡ true =
      subst (λ ms. any (λ n. is_text n a.0) ms ≡ true) same (sym (any-named a.0 expected) ∙ here) in
    rw (named, only_named actual expected ns same there)

check_subjects-IsProvenanceOf :
    (py : Library) (c : BuildContext) (artifacts : List Artifact) (statement : Json)
    → check_subjects py c artifacts statement ≡ ok tt
    → IsProvenanceOf py c artifacts statement
unfolding check_subjects expected_subjects same_subjects
check_subjects-IsProvenanceOf py c artifacts statement h =
    let (subjects, found, h1) = >>=-eq-ok (get (codes "subject") empty_array statement) _ h in
    let (items, iterated, h2) = >>=-eq-ok (iterate subjects) _ h1 in
    let (actual, read, h3) = >>=-eq-ok (collect actual_subject items) _ h2 in
    let (expected, made, h4) = >>=-eq-ok (collect (expect py artifacts) (subject_names c)) _ h3 in
    let equal = raise_if-eq-ok (not (same_subjects actual expected)) other_subjects h4 in
    let (only, every) =
      and-eq-true (all (λ a. any (λ e. is_text e.0 a.0) expected) actual)
        (all (λ e. has_digest e.1 (find_subject e.0 actual)) expected) (ground (arith, equal)) in
    record {
      subjects = subjects;
      items = items;
      actual = actual;
      found = found;
      iterated = iterated;
      read = read;
      expected = subjects_of py artifacts actual (subject_names c) made every;
      only =
          only_named actual expected (subject_names c)
            (only_lem py artifacts (subject_names c) made) only;
    }

pub record IsDocumented (py : Library) (r : Repository) (c : BuildContext)
    (artifacts : List Artifact) : Type 0 where
  pub sboms :
      (bills bill : Json) × (load py (cdx_name c) artifacts ≡ ok bills)
      × (load py (spdx_name c) artifacts ≡ ok bill)
      × (verify_sboms c bills bill ≡ ok tt)
  pub gates :
      (value document : Json) × (load py (gates_name c) artifacts ≡ ok value)
      × (source_gate_document py r c ≡ ok document)
      × (json_bytes py value ≡ json_bytes py document)
  pub provenance :
      (statement : Json) × (load py (provenance_name c) artifacts ≡ ok statement)
      × IsProvenanceOf py c artifacts statement

-- Whenever the check of the documents returns: both bills of materials can be read and pass their check;
-- the source gates have the canonical form of the document that is made of the commit's report; and the
-- subjects of the provenance are the archive, the bills and the source gates, each with the digest of its
-- content, and nothing else.
pub check_documents-IsDocumented :
    (py : Library) (r : Repository) (c : BuildContext) (artifacts : List Artifact)
    → check_documents py r c artifacts ≡ ok tt
    → IsDocumented py r c artifacts
unfolding check_documents check_provenance
check_documents-IsDocumented py r c artifacts h =
    let (bills, read, h1) = >>=-eq-ok (load py (cdx_name c) artifacts) _ h in
    let (bill, read_spdx, h2) = >>=-eq-ok (load py (spdx_name c) artifacts) _ h1 in
    let (statement, read_statement, h3) = >>=-eq-ok (load py (provenance_name c) artifacts) _ h2 in
    let (value, read_gates, h4) = >>=-eq-ok (load py (gates_name c) artifacts) _ h3 in
    let (_, verified, h5) = >>=-eq-ok (verify_sboms c bills bill) _ h4 in
    let (document, made, h6) = >>=-eq-ok (source_gate_document py r c) _ h5 in
    let (equal, h7) =
      raise_if->>-eq-ok (not (bytes_eq (json_bytes py value) (json_bytes py document)))
        gates_artifact_differs _ h6 in
    let (_, _, h8) = >>=-eq-ok (check_statement c statement) _ h7 in
    record {
      sboms = (bills, bill, read, read_spdx, verified);
      gates = (
        value,
        document,
        read_gates,
        made,
        (bytes_eq_iff (json_bytes py value) (json_bytes py document)).0 (ground (arith, equal)),
      );
      provenance =
          (statement, read_statement, check_subjects-IsProvenanceOf py c artifacts statement h8);
    }
