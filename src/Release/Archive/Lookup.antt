-- ===== src/Release/Archive/Lookup.antt =====
-- `expected_sources` of `_verify_archive` as a map from paths to committed files.
use codex_subscription_route.Prelude.{
  All-map, ◌⊎◌, ◌≡◌, ◌∙◌, refl, sym, ap, true, false, none, some, List, [], ◌∷◌, map, arith,
  Bool-cases, Option-cases, inl, inr, All, if◌then◌else◌, AnyOf,
}
use codex_subscription_route.Text.{Bytes, bytes_eq, bytes_eq_iff, bytes_eq_self, contains, Distinct}
use codex_subscription_route.Release.Sources.{SourceFile}
use codex_subscription_route.Release.Archive.{find_source}

-- What is found has the path, and is one of the files.
pub find_source-some :
    (path : Bytes) (files : List SourceFile) (f : SourceFile)
    → find_source path files ≡ some f
    → (f.path ≡ path) × AnyOf (λ g. g ≡ f) files
unfolding find_source
find_source-some path [] f h = cc
find_source-some path (g ∷ files) f h = elim (Option-cases (find_source path files)) [
  | inl n ↦ at_head (rw (n, find_source) at h) (Bool-cases (bytes_eq path g.path))
  | inr (x, e) ↦
      let same : x ≡ f = in_tail x (rw (e, find_source) at h) in
      let (p, m) = find_source-some path files f (rw (← same) e) in (p, inr m)
]
  where
    at_head :
        (if bytes_eq path g.path then some g else none) ≡ some f
        → (bytes_eq path g.path ≡ true) ⊎ (bytes_eq path g.path ≡ false)
        → (f.path ≡ path) × AnyOf (λ k. k ≡ f) (g ∷ files)
    at_head k (inl t) =
        let same : g ≡ f = cc (k, t) in
        (
          ap (λ (x : SourceFile). x.path) (sym same) ∙ sym ((bytes_eq_iff path g.path).0 t),
          inl same,
        )
    at_head k (inr t) = cc (k, t)

    in_tail : (x : SourceFile) → some x ≡ some f → x ≡ f
    in_tail x k = cc

find_source-none :
    (path : Bytes) (files : List SourceFile)
    → contains (map (λ g. g.path) files) path ≡ false
    → find_source path files ≡ none
unfolding find_source contains
find_source-none path [] h = refl
find_source-none path (g ∷ files) h = ground (arith, find_source-none path files)

-- With different paths, every file is found by its path.
pub find_source_self :
    (files : List SourceFile)
    → Distinct (map (λ g. g.path) files)
    → All (λ f. find_source f.path files ≡ some f) files
unfolding find_source
find_source_self [] d = tt
find_source_self (g ∷ files) d = (
  rw (find_source-none g.path files d.0, find_source) (rw (bytes_eq_self g.path)),
  All-map (λ f. find_source f.path files ≡ some f) (λ f. find_source f.path (g ∷ files) ≡ some f)
      (λ f e. unfold find_source in rw (e, find_source)) files (find_source_self files d.1),
)
