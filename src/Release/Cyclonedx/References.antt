-- ===== src/Release/Cyclonedx/References.antt =====
-- The components of `_cyclonedx` of scripts/release/release_artifacts.py are in the order of their
-- references, which are all different.
use codex_subscription_route.Prelude.{
  ok-injective, is_nil, All-append, All-map, ◌≡◌, ◌∙◌, refl, sym, ap, subst, true, false, some,
  List, [], ◌∷◌, ◌++◌, map, All, ok, >>=-eq-ok,
}
use codex_subscription_route.Text.{
  Bytes, contains, has_byte, split_lines, sort_by, sort_by-Distinct, sort_by-IsSortedBy,
  sort_by-All, IsSortedBy, Distinct, Distinct-append,
}
use codex_subscription_route.Json.{Json, well_formed}
use codex_subscription_route.Release.Library.{Library, Repository}
use codex_subscription_route.Release.Npm.{Component, npm_components, read_file}
use codex_subscription_route.Release.Npm.References.{refs_of, npm_components-Distinct}
use codex_subscription_route.Release.Go.{
  go_component, go_components, read_requirements, read_checksums, optional_lines, sorted_set,
}
use codex_subscription_route.Release.Go.References.{
  sorted_set-Distinct, go_refs-Distinct, go_refs-Lacks,
}
use codex_subscription_route.Release.Cyclonedx.{sorted_components}

refs-append : (xs ys : List Component) → refs_of (xs ++ ys) ≡ refs_of xs ++ refs_of ys
refs-append [] ys = refl
refs-append (x ∷ xs) ys = ap (λ rs. x.bom_ref ∷ rs) (refs-append xs ys)

-- Every reference is a text that is not empty.
marked-ne-nil :
    (cs : List Component)
    → All (λ ref. has_byte b'?' ref ≡ true) (refs_of cs)
    → All (λ c. is_nil c.bom_ref ≡ false) cs
unfolding has_byte
marked-ne-nil [] h = tt
marked-ne-nil (c ∷ cs) h = (not_nil c.bom_ref h.0, marked-ne-nil cs h.1)
  where
    not_nil : (ref : Bytes) → has_byte b'?' ref ≡ true → is_nil ref ≡ false
    not_nil [] k = cc
    not_nil (x ∷ ref) k = refl

go-ne-nil :
    (sums : List (Bytes × Bytes × Bytes)) (ps : List (Bytes × Bytes))
    → All (λ c. is_nil c.bom_ref ≡ false) (map (go_component sums) ps)
unfolding go_component
go-ne-nil sums [] = tt
go-ne-nil sums ((n, v) ∷ ps) = (refl, go-ne-nil sums ps)

pub record HasReferences (cs : List Component) : Type 0 where
  pub distinct : Distinct (refs_of cs)
  pub sorted : IsSortedBy (λ c. c.bom_ref) cs
  pub nonempty : All (λ c. is_nil c.bom_ref ≡ false) cs

marked_apart :
    (sums : List (Bytes × Bytes × Bytes)) (ps : List (Bytes × Bytes)) (refs : List Bytes)
    → All (λ ref. has_byte b'?' ref ≡ true) refs
    → All (λ ref. contains (refs_of (map (go_component sums) ps)) ref ≡ false) refs
marked_apart sums ps refs h = All-map _ _ (λ ref mark. go_refs-Lacks sums ref ps mark) refs h

-- The components of the bill of materials have references that are not empty, all different and in
-- their order, when the keys of the dictionaries that `json.loads` returns are different.
pub sorted_components-HasReferences :
    (py : Library) (r : Repository) (cs : List Component)
    → ((s : Bytes) (v : Json) → py.loads s ≡ some v → well_formed v ≡ true)
    → sorted_components py r ≡ ok cs
    → HasReferences cs
unfolding sorted_components go_components
sorted_components-HasReferences py r cs dictionaries h =
    let (npm, made, h1) = >>=-eq-ok (npm_components py r) _ h in
    let (go, listed, h2) = >>=-eq-ok (go_components py r) _ h1 in
    let (go_mod, _, h3) = >>=-eq-ok (read_file r.go_mod) _ listed in
    let pairs = sorted_set (read_requirements py false (split_lines go_mod)) in
    let (lines, _, h4) = >>=-eq-ok (optional_lines r.go_sum) _ h3 in
    let sums = read_checksums py lines in
    let modules = map (go_component sums) pairs in
    let same : modules ≡ go = ok-injective h4 in
    let (npm_distinct, marks) = npm_components-Distinct py r dictionaries made in
    let apart = marked_apart sums pairs (refs_of npm) marks in
    let both =
      Distinct-append (refs_of npm) (refs_of modules) npm_distinct
        (go_refs-Distinct sums pairs (sorted_set-Distinct _)) apart in
    let all_distinct : Distinct (refs_of (npm ++ modules)) =
      subst Distinct (sym (refs-append npm modules)) both in
    let full =
      All-append (λ (c : Component). is_nil c.bom_ref ≡ false) npm modules (marked-ne-nil npm marks)
        (go-ne-nil sums pairs) in
    let result : sort_by (λ c. c.bom_ref) (npm ++ modules) ≡ cs =
      ap (λ g. sort_by (λ c. c.bom_ref) (npm ++ g)) same ∙ ok-injective h2 in
    subst HasReferences result (record {
      distinct = sort_by-Distinct (λ c. c.bom_ref) (npm ++ modules) all_distinct;
      sorted = sort_by-IsSortedBy (λ c. c.bom_ref) (npm ++ modules);
      nonempty = sort_by-All (λ c. c.bom_ref) (λ c. is_nil c.bom_ref ≡ false) (npm ++ modules) full;
    })
