-- ===== src/Release/Sboms/Built.antt =====
-- What `_verify_sboms` of scripts/release/release_artifacts.py finds in the documents of `_cyclonedx`
-- and `_spdx`.
use codex_subscription_route.Prelude.{
  ok-injective, is_nil, ℕ, ◌+◌, ◌≡◌, refl, sym, subst, true, false, some, List, [], ◌∷◌, map, any,
  all, All, or-eq-false, ok, collect, >>=-eq-ok, raise_if->>-eq-ok,
}
use codex_subscription_route.Text.{
  Bytes, codes, bytes_eq, bytes_eq_self, bytes_eq_comm, contains, starts_with, is_distinct_iff,
  is_sorted_iff, Distinct, IsSortedBy,
}
use codex_subscription_route.Json.{
  Json, well_formed, text, null, lookup, list_of, list_of-items_of, items_of, fields_of, is_text,
  is_truthy,
}
use codex_subscription_route.Release.Errors.{duplicate_spdx_id}
use codex_subscription_route.Release.Library.{
  Library, Repository, get, index, iterate, first_item, as_text, empty_array,
}
use codex_subscription_route.Release.Context.{BuildContext}
use codex_subscription_route.Release.Npm.{Component, component_json}
use codex_subscription_route.Release.Npm.References.{refs_of}
use codex_subscription_route.Release.Cyclonedx.{
  tool_version, cyclonedx, sorted_components, bom, bom_metadata, root_component,
}
use codex_subscription_route.Release.Cyclonedx.References.{
  HasReferences, sorted_components-HasReferences,
}
use codex_subscription_route.Release.Spdx.{
  spdx, spdx_id, spdx_package, spdx_loop, spdx_document, root_package, package_json,
  dependency_name, license_of, checksums_of, as_list, document_id, root_id,
}
use codex_subscription_route.Release.Sboms.{
  verify_sboms, check_cyclonedx, check_spdx, all_texts, check_references,
}

-- The texts of a list of texts.
all_texts-map : (ss : List Bytes) → all_texts (map text ss) ≡ some ss
unfolding all_texts
all_texts-map [] = refl
all_texts-map (s ∷ ss) = rw (all_texts-map ss)

references_lem :
    (cs : List Component)
    → collect (get (codes "bom-ref") null) (map component_json cs) ≡ ok (map text (refs_of cs))
unfolding get lookup fields_of component_json
references_lem [] = refl
references_lem (c ∷ cs) = rw (references_lem cs)

none_nil :
    (cs : List Component) → All (λ c. is_nil c.bom_ref ≡ false) cs → any is_nil (refs_of cs) ≡ false
none_nil [] h = refl
none_nil (c ∷ cs) h = rw (h.0, none_nil cs h.1)

refs-IsSortedBy :
    (cs : List Component) → IsSortedBy (λ c. c.bom_ref) cs → IsSortedBy (λ s. s) (refs_of cs)
refs-IsSortedBy [] h = tt
refs-IsSortedBy (c ∷ []) h = h
refs-IsSortedBy (c ∷ d ∷ cs) h = (h.0, refs-IsSortedBy (d ∷ cs) h.1)

check_references-ok :
    (cs : List Component) → HasReferences cs → check_references (some (refs_of cs)) ≡ ok tt
check_references-ok cs h = rw (
  none_nil cs h.nonempty,
  (is_distinct_iff (refs_of cs)).1 h.distinct,
  (is_sorted_iff (refs_of cs)).1 (refs-IsSortedBy cs h.sorted),
)

check_cyclonedx-bom :
    (py : Library) (c : BuildContext) (go node : Bytes) (cs : List Component)
    → HasReferences cs
    → check_cyclonedx c (bom py c go node cs) ≡ ok tt
unfolding check_cyclonedx bom bom_metadata root_component get lookup fields_of is_text iterate
check_cyclonedx-bom py c go node cs h = rw (
  bytes_eq_self c.version,
  list_of-items_of (map component_json cs),
  references_lem cs,
  all_texts-map (refs_of cs),
  check_references-ok cs h,
)

-- A package of the loop and its identifier.
abbrev IsIdentified : Bytes × Json → Type 0
IsIdentified e =
    (starts_with e.0 (codes "SPDXRef-") ≡ true) × (get (codes "SPDXID") null e.1 ≡ ok (text e.0))

spdx_package-IsIdentified :
    (used : List Bytes) (position : ℕ) (component : Json) {e : Bytes × Json}
    → spdx_package used position component ≡ ok e
    → IsIdentified e × (contains used e.0 ≡ false)
unfolding spdx_package spdx_id starts_with package_json get lookup fields_of
spdx_package-IsIdentified used position component {e} h =
    let (name, _, h1) = >>=-eq-ok (index (codes "name") component) _ h in
    let (name_text, _, h2) = >>=-eq-ok (as_text name) _ h1 in
    let (version, _, h3) = >>=-eq-ok (index (codes "version") component) _ h2 in
    let (version_text, _, h4) = >>=-eq-ok (as_text version) _ h3 in
    let id = spdx_id (dependency_name position name_text version_text) in
    let (new, h5) = raise_if->>-eq-ok (contains used id) duplicate_spdx_id _ h4 in
    let (licenses, _, h6) = >>=-eq-ok (get (codes "licenses") empty_array component) _ h5 in
    let (license, _, h7) = >>=-eq-ok (license_of licenses) _ h6 in
    let (purl, _, h8) = >>=-eq-ok (index (codes "purl") component) _ h7 in
    let (hashes, _, h9) = >>=-eq-ok (get (codes "hashes") empty_array component) _ h8 in
    let (checksums, _, h10) = >>=-eq-ok (checksums_of hashes) _ h9 in
    subst (λ e. IsIdentified e × (contains used e.0 ≡ false)) (ok-injective h10) ((refl, refl), new)

abbrev ids_of : List (Bytes × Json) → List Bytes
ids_of entries = map (λ e. e.0) entries

abbrev NotIn : List Bytes → Bytes × Json → Type 0
NotIn used e = contains used e.0 ≡ false

later_new :
    (used : List Bytes) (id : Bytes) (entries : List (Bytes × Json))
    → All (NotIn (id ∷ used)) entries
    → (contains (ids_of entries) id ≡ false) × All (NotIn used) entries
unfolding contains
later_new used id [] h = (refl, tt)
later_new used id (e ∷ entries) h =
    let (other, old) = or-eq-false (bytes_eq e.0 id) (contains used e.0) h.0 in
    let (apart, rest) = later_new used id entries h.1 in
    (rw (bytes_eq_comm id e.0, other, apart), (old, rest))

spdx_loop-Distinct :
    (used : List Bytes) (position : ℕ) (components : List Json) {entries : List (Bytes × Json)}
    → spdx_loop used position components ≡ ok entries
    → All IsIdentified entries × All (NotIn used) entries × Distinct (ids_of entries)
unfolding spdx_loop
spdx_loop-Distinct used position [] h =
    subst
      (λ entries. All IsIdentified entries × All (NotIn used) entries × Distinct (ids_of entries))
      (ok-injective h) (tt, tt, tt)
spdx_loop-Distinct used position (component ∷ components) h =
    let (e, made, h1) = >>=-eq-ok (spdx_package used position component) _ h in
    let (entries, looped, h2) = >>=-eq-ok (spdx_loop (e.0 ∷ used) (position + 1) components) _ h1 in
    let (identified, new) = spdx_package-IsIdentified used position component made in
    let (others, all_new, distinct) =
      spdx_loop-Distinct (e.0 ∷ used) (position + 1) components looped in
    let (apart, rest_new) = later_new used e.0 entries all_new in
    subst
      (λ entries. All IsIdentified entries × All (NotIn used) entries × Distinct (ids_of entries))
      (ok-injective h2) ((identified, others), (new, rest_new), (apart, distinct))

identifiers_lem :
    (entries : List (Bytes × Json))
    → All IsIdentified entries
    → (collect (get (codes "SPDXID") null) (map (λ e. e.1) entries)
        ≡ ok (map text (ids_of entries)))
      × (all (λ s. starts_with s (codes "SPDXRef-")) (ids_of entries) ≡ true)
identifiers_lem [] h = (refl, refl)
identifiers_lem (e ∷ entries) h =
    let (collected, prefixed) = identifiers_lem entries h.1 in
    (rw (h.0.1, collected), rw (h.0.0, prefixed))

root_new :
    (entries : List (Bytes × Json))
    → All (NotIn (document_id ∷ root_id ∷ [])) entries
    → contains (ids_of entries) root_id ≡ false
unfolding contains
root_new [] h = refl
root_new (e ∷ entries) h =
    let (_, other) = or-eq-false (bytes_eq e.0 document_id) _ h.0 in
    let (root, _) = or-eq-false (bytes_eq e.0 root_id) _ other in
    rw (bytes_eq_comm root_id e.0, root, root_new entries h.1)

check_spdx-document :
    (py : Library) (c : BuildContext) (entries : List (Bytes × Json))
    → All IsIdentified entries
    → contains (ids_of entries) root_id ≡ false
    → Distinct (ids_of entries)
    → check_spdx (spdx_document py c entries) ≡ ok tt
unfolding check_spdx spdx_document root_package get lookup fields_of is_text iterate first_item
    is_truthy starts_with items_of list_of
check_spdx-document py c entries h root d =
    let (collected, prefixed) = identifiers_lem entries h in
    rw (
      list_of-items_of (map (λ e. e.1) entries),
      collected,
      all_texts-map (root_id ∷ ids_of entries),
      prefixed,
      (is_distinct_iff (root_id ∷ ids_of entries)).1 (root, d),
    )

-- Components whose references are sorted, different and not empty: the check of the documents accepts
-- the bill of materials of `_cyclonedx` with what `_spdx` makes of it, whenever `_spdx` returns.
pub verify_sboms-spdx :
    (py : Library) (c : BuildContext) (go node : Bytes) (cs : List Component) (bill : Json)
    → HasReferences cs
    → spdx py c (bom py c go node cs) ≡ ok bill
    → verify_sboms c (bom py c go node cs) bill ≡ ok tt
unfolding verify_sboms spdx
verify_sboms-spdx py c go node cs bill h made =
    let (components, _, h1) = >>=-eq-ok (index (codes "components") (bom py c go node cs)) _ made in
    let (items, _, h2) = >>=-eq-ok (as_list components) _ h1 in
    let used = document_id ∷ root_id ∷ [] in
    let (entries, looped, h3) = >>=-eq-ok (spdx_loop used 1 items) _ h2 in
    let (identified, new, distinct) = spdx_loop-Distinct used 1 items looped in
    let accepted = check_spdx-document py c entries identified (root_new entries new) distinct in
    let accepted_bill : check_spdx bill ≡ ok tt =
      subst (λ b. check_spdx b ≡ ok tt) (ok-injective h3) accepted in
    rw (check_cyclonedx-bom py c go node cs h, accepted_bill)

-- The check of the documents accepts what `_cyclonedx` and `_spdx` make of a repository, whenever they
-- return, if the keys of every dictionary that `json.loads` returns are different.
pub cyclonedx-verify_sboms :
    (py : Library) (r : Repository) (c : BuildContext) (bills bill : Json)
    → ((s : Bytes) (v : Json) → py.loads s ≡ some v → well_formed v ≡ true)
    → cyclonedx py r c ≡ ok bills
    → spdx py c bills ≡ ok bill
    → verify_sboms c bills bill ≡ ok tt
unfolding cyclonedx
cyclonedx-verify_sboms py r c bills bill dictionaries h made =
    let (cs, sorted, h1) = >>=-eq-ok (sorted_components py r) _ h in
    let (go, _, h2) = >>=-eq-ok (tool_version py r.go_version) _ h1 in
    let (node, _, h3) = >>=-eq-ok (tool_version py r.node_version) _ h2 in
    let same : bom py c go node cs ≡ bills = ok-injective h3 in
    subst (λ b. verify_sboms c b bill ≡ ok tt) same
      (verify_sboms-spdx py c go node cs bill
        (sorted_components-HasReferences py r cs dictionaries sorted)
        (subst (λ b. spdx py c b ≡ ok bill) (sym same) made))
