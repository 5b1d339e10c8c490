-- ===== src/Tests/Documents.antt =====
-- A small repository, its release and its check.
use codex_subscription_route.Prelude.{
  ok-injective, sym, ◌∙◌, ℕ, ◌+◌, ◌%◌, ◌≡◌, refl, true, false, ◌&&◌, Option, none, some, List, [],
  ◌∷◌, ◌++◌, map, leb, length, inl, inr, if◌then◌else◌, ok, err, Bool-cases, subst,
}
use codex_subscription_route.Text.{
  Bytes, codes, bytes_eq, contains, has_byte, split, sort_by, is_distinct, is_utf8, starts_with,
  decimal, number, split_lines, strip_byte, bytes_le, insert_by, replace_from, quote, includes,
  after_last?, before_first,
}
use codex_subscription_route.Release.Path.{normalized_path}
use codex_subscription_route.PurePath.{parse_path, parts, is_absolute, as_posix}
use codex_subscription_route.Json.{
  Json, text, object, lookup, is_truthy, entries_of, keys, object_of, well_formed, fields_of,
  items_of, list_of,
}
use codex_subscription_route.Release.Errors.{git_failed}
use codex_subscription_route.Release.Library.{
  Library, Repository, pos, get, index, as_text, first_item, json_bytes,
}
use codex_subscription_route.Release.Sources.{SourceFile, Git}
use codex_subscription_route.Release.Archive.{Member, member_of}
use codex_subscription_route.Release.Archive.RoundTrip.{gzip_header}
use codex_subscription_route.Release.Context.{
  BuildContext, context, is_commit, is_semantic, after_digits, read_commit, check_clean,
  read_release_version, read_epoch,
}
use codex_subscription_route.Release.Context.Bounds.{IsContextOf, context-IsContextOf}
use codex_subscription_route.Release.Build.{archive_context, initial_artifacts}
use codex_subscription_route.Release.Manifest.{Artifact}
use codex_subscription_route.Release.Provenance.{statement, build_definition, run_details}
use codex_subscription_route.Release.Npm.{
  component_json, Component, npm_components, npm_loop, npm_component,
}
use codex_subscription_route.Release.Go.{
  go_components, go_component, read_requirements, sorted_set, insert_pair, find_checksum,
  read_checksums,
}
use codex_subscription_route.Release.Cyclonedx.{
  bom_metadata, root_component, rfc3339, cyclonedx, tool_version, bom, sorted_components,
}
use codex_subscription_route.Release.Spdx.{
  root_package, spdx, spdx_loop, spdx_package, spdx_id, clean, package_json, spdx_document,
}
use codex_subscription_route.Release.Cyclonedx.References.{
  HasReferences, sorted_components-HasReferences,
}
use codex_subscription_route.Release.Sboms.{verify_sboms}
use codex_subscription_route.Release.Sboms.Built.{cyclonedx-verify_sboms}
use mathlib.Core.Option.{some-injective}
use codex_subscription_route.Release.Gates.{
  git_blob, gate_entries, source_gate_document, create_source_gate_evidence,
}
use codex_subscription_route.Release.Gates.RoundTrip.{
  Ends, report_of, evidence, create_source_gate_evidence-ends,
}

abbrev pub ascii_lower : Bytes → Bytes
ascii_lower s = map (λ c. if leb b'A' c && leb c b'Z' then c + 32 else c) s

-- A digest function with the form of SHA-256.
abbrev pub digest_of : Bytes → Bytes
digest_of s =
    codes "00000000000000000000000000000000000000000000000000000000000000"
    ++ ((b'0' + length s % 10) ∷ b'f' ∷ [])

abbrev commit_id : Bytes
commit_id = codes "0123456789abcdef0123456789abcdef01234567"

abbrev pub build : BuildContext
build = record {
  version = codes "1.2.3";
  commit = commit_id;
  source_epoch = 1767323045;
  archive_root = codes "codex-subscription-router-windows-v1.2.3";
}

abbrev pub readme : SourceFile
readme = record { path = codes "README.md"; content = codes "hello"; executable = false }

abbrev pub git : Git
git = record {
  ls_tree = ok (codes "100644 blob a1\tREADME.md" ++ (0 ∷ []));
  cat_file = λ i. if bytes_eq i (codes "a1") then ok readme.content else err git_failed;
}

abbrev pub repository : Repository
repository = record {
  head = ok commit_id;
  status = ok [];
  committed_version = λ commit. ok (codes "1.2.3");
  timestamp = λ commit. ok (codes "1767323045");
  blob = λ commit path. ok (codes "gates passed");
  tree = λ commit. git;
  version_file = some (codes "1.2.3");
  package_lock = some (codes "lock");
  go_mod = some (codes "require m v1");
  go_sum = none;
  epoch_variable = none;
  go_version = ok (codes "go1");
  node_version = err git_failed;
}

-- What the file package-lock.json of the test holds.
abbrev lock : Json
lock = object_of (
    (
      codes "packages",
      object_of (
          (codes "", object_of [])
          ∷ (codes "node_modules/a", object_of ((codes "version", text (codes "2")) ∷ []))
          ∷ []),
    )
    ∷ [])

-- A library that reads and writes the documents of the test.
abbrev pub library : (Bytes → Option Json) → (Json → Bytes) → Library
library loads dumps = record {
  strip = λ s. s;
  words = λ s. split b' ' s;
  lower = ascii_lower;
  casefold = ascii_lower;
  int = λ s. some (pos (number s));
  isoformat = λ n. codes "T";
  uuid5 = λ s. codes "U";
  b64decode = λ s. none;
  sha256 = digest_of;
  loads = loads;
  dumps = dumps;
  python_version = codes "3";
}

-- A short text for each document of the test.
abbrev tag_of : Option Json → Bytes → Bytes → Bytes
tag_of none tag rest = rest
tag_of (some v) tag rest = tag

abbrev dumps : Json → Bytes
dumps (object entries) = tag_of (lookup (codes "bomFormat") entries) (codes "bom") (
    tag_of (lookup (codes "SPDXID") entries) (codes "spdx") (
      tag_of (lookup (codes "_type") entries) (codes "statement")
        (tag_of (lookup (codes "sourceCommit") entries) (codes "gates") [])))
dumps v = []

abbrev no_loads : Library
no_loads = library (λ s. none) (dumps)

context_made : context no_loads repository false ≡ ok build
unfolding context read_commit check_clean read_release_version read_epoch is_commit is_semantic
    after_digits is_utf8 bytes_eq number
context_made = refl

context-IsContextOf_example : IsContextOf no_loads repository build
context-IsContextOf_example = context-IsContextOf no_loads repository false build context_made

abbrev pub gates : Json
gates = gate_entries build (digest_of (codes "gates passed"))

abbrev components : List Component
components =
    record {
      bom_ref = codes "pkg:golang/m@v1";
      name = codes "m";
      purl = codes "pkg:golang/m@v1";
      scope = codes "required";
      version = codes "v1";
      license = none;
      sha512 = none;
      checksum = none;
    }
    ∷ record {
      bom_ref = codes "pkg:npm/a@2?path=node_modules%2Fa";
      name = codes "a";
      purl = codes "pkg:npm/a@2";
      scope = codes "required";
      version = codes "2";
      license = none;
      sha512 = none;
      checksum = none;
    }
    ∷ []

abbrev pub bills : Json
bills = bom no_loads build (codes "go1") (codes "unavailable") components

abbrev packages : List (Bytes × Json)
packages =
    (
      codes "SPDXRef-Dependency-1-m-v1",
      package_json (codes "SPDXRef-Dependency-1-m-v1") (text (codes "m")) (text (codes "v1"))
          (text (codes "pkg:golang/m@v1")) (text (codes "NOASSERTION")) none,
    )
    ∷ (
      codes "SPDXRef-Dependency-2-a-2",
      package_json (codes "SPDXRef-Dependency-2-a-2") (text (codes "a")) (text (codes "2"))
          (text (codes "pkg:npm/a@2")) (text (codes "NOASSERTION")) none,
    )
    ∷ []

abbrev pub bill : Json
bill = spdx_document no_loads build packages

abbrev pub members : List Member
members = map (member_of (archive_context build)) (readme ∷ [])

-- Formats that know this one archive.
abbrev pub pack : ℕ → List Member → Bytes
pack epoch ms = gzip_header epoch ++ (length ms ∷ [])

abbrev pub packed : Bytes
packed = pack 1767323045 members

abbrev pub unpack : Bytes → Option (List Member)
unpack archive = if bytes_eq archive packed then some members else none

abbrev pub initial : List Artifact
initial = initial_artifacts build packed (codes "bom\n") (codes "spdx\n") (codes "gates\n")

abbrev pub statement_json : Json
statement_json = statement no_loads build (codes "go1") (codes "unavailable") initial

abbrev loads_of : Bytes → Option Json
loads_of s =
    if bytes_eq s (codes "lock")
    then some lock
    else if bytes_eq s (codes "bom\n")
    then some bills
    else if bytes_eq s (codes "spdx\n")
    then some bill
    else if bytes_eq s (codes "gates\n")
    then some gates
    else if bytes_eq s (codes "statement\n")
    then some statement_json
    else none

abbrev pub py : Library
py = library loads_of dumps

components_sorted : sorted_components py repository ≡ ok components
unfolding sorted_components npm_components npm_loop npm_component go_components go_component
    read_requirements sorted_set insert_pair find_checksum get lookup fields_of bytes_eq includes
    after_last? has_byte quote starts_with bytes_le sort_by split_lines split before_first is_utf8
    is_truthy entries_of read_checksums
components_sorted = refl

pub bills_made : cyclonedx py repository build ≡ ok bills
unfolding cyclonedx tool_version bom split_lines fields_of items_of bom_metadata component_json
    root_component rfc3339
bills_made = rw (components_sorted)

pub bill_made : spdx py build bills ≡ ok bill
unfolding spdx spdx_loop spdx_package spdx_id clean strip_byte bom lookup fields_of items_of list_of
    index get as_text component_json first_item is_truthy contains bytes_eq decimal spdx_document
    rfc3339
bill_made = refl

pub gates_made : source_gate_document py repository build ≡ ok gates
unfolding source_gate_document git_blob is_utf8 normalized_path has_byte parse_path parts
    is_absolute contains as_posix bytes_eq
gates_made = refl

all_formed :
    (well_formed lock ≡ true)
    × (well_formed bills ≡ true)
    × (well_formed bill ≡ true)
    × (well_formed gates ≡ true)
    × (well_formed statement_json ≡ true)
unfolding well_formed is_distinct keys fields_of contains bom items_of component_json bom_metadata
    root_component spdx_document root_package package_json gate_entries statement build_definition
    run_details rfc3339 decimal bytes_le insert_by sort_by replace_from bytes_eq starts_with
all_formed = (refl, refl, refl, refl, refl)

-- The keys of every dictionary that the library returns are different.
pub dictionaries : (s : Bytes) (v : Json) → loads_of s ≡ some v → well_formed v ≡ true
dictionaries s v h = elim (Bool-cases (bytes_eq s (codes "lock"))) [
  | inl e ↦ let h' = rw (e) at h in of_some lock all_formed.0 v h'
  | inr e1 ↦ elim (Bool-cases (bytes_eq s (codes "bom\n"))) [
    | inl e ↦ let h' = rw (e1, e) at h in of_some bills all_formed.1 v h'
    | inr e2 ↦ elim (Bool-cases (bytes_eq s (codes "spdx\n"))) [
      | inl e ↦ let h' = rw (e1, e2, e) at h in of_some bill all_formed.2 v h'
      | inr e3 ↦ elim (Bool-cases (bytes_eq s (codes "gates\n"))) [
        | inl e ↦ let h' = rw (e1, e2, e3, e) at h in of_some gates all_formed.3 v h'
        | inr e4 ↦ elim (Bool-cases (bytes_eq s (codes "statement\n"))) [
          | inl e ↦ let h' = rw (e1, e2, e3, e4, e) at h in of_some statement_json all_formed.4 v h'
          | inr e5 ↦ let h' = rw (e1, e2, e3, e4, e5) at h in cc
        ]
      ]
    ]
  ]
]
  where
    of_some :
        (u : Json) → well_formed u ≡ true → (w : Json) → some u ≡ some w → well_formed w ≡ true
    of_some u formed w same = subst (λ x. well_formed x ≡ true) (some-injective _ _ same) formed

sorted_components-HasReferences_example : HasReferences components
sorted_components-HasReferences_example =
    sorted_components-HasReferences py repository components dictionaries components_sorted

cyclonedx-verify_sboms_example : verify_sboms build bills bill ≡ ok tt
cyclonedx-verify_sboms_example =
    cyclonedx-verify_sboms py repository build bills bill dictionaries bills_made bill_made

pub context_found : context py repository false ≡ ok build
unfolding context read_commit check_clean read_release_version read_epoch is_commit is_semantic
    after_digits is_utf8 bytes_eq number
context_found = refl

-- The context of the repository and its report are the only ones.
evidence_read :
    (c : BuildContext) (report : Bytes)
    → context py repository false ≡ ok c
    → report_of repository c ≡ ok report
    → py.loads (json_bytes py (evidence py c report)) ≡ some (evidence py c report)
unfolding json_bytes gate_entries bytes_eq lookup fields_of
evidence_read c report h b =
    let same : build ≡ c = ok-injective (sym context_found ∙ h) in
    let text_same : codes "gates passed" ≡ report = ok-injective b in
    subst (λ d. py.loads (json_bytes py (evidence py d report)) ≡ some (evidence py d report)) same
      (subst (λ t. py.loads (json_bytes py (evidence py build t)) ≡ some (evidence py build t))
        text_same refl)

create_source_gate_evidence-ends_example :
    Ends py repository false none (ok tt, some (codes "gates\n"))
unfolding create_source_gate_evidence context read_commit check_clean read_release_version
    read_epoch is_commit is_semantic after_digits is_utf8 bytes_eq number source_gate_document
    git_blob normalized_path has_byte parse_path parts is_absolute contains as_posix json_bytes
    gate_entries lookup fields_of
create_source_gate_evidence-ends_example =
    create_source_gate_evidence-ends py repository false none evidence_read
