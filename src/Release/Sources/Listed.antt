-- ===== src/Release/Sources/Listed.antt =====
-- What every list of files that `_git_source_files` returns has.
use codex_subscription_route.Prelude.{
  ok-injective, is_nil, ◌⊎◌, ◌≡◌, ◌≢◌, refl, ap, subst, Bool, true, false, not, ◌||◌, List, [], ◌∷◌,
  map, arith, Bool-cases, inl, inr, All, not_of_false, or-eq-false, ok, >>=-eq-ok,
  raise_if->>-eq-ok,
}
use codex_subscription_route.Text.{
  Bytes, bytes_eq, bytes_eq_iff, contains, sort_by, sort_by-All, sort_by-IsSortedBy, IsSortedBy,
  Distinct, is_distinct, is_distinct_iff, split,
}
use codex_subscription_route.Release.Errors.{unsupported_entry, no_files, case_collision}
use codex_subscription_route.Release.Scan.{scan_source_file}
use codex_subscription_route.Release.Sources.{
  SourceFile, Git, parse_entry, read_entry, read_entries, git_source_files,
}

contains_of_map :
    (f : Bytes → Bytes) (files : List SourceFile) (p : Bytes)
    → contains (map (λ x. f x.path) files) (f p) ≡ false
    → contains (map (λ x. x.path) files) p ≡ false
unfolding contains
contains_of_map f [] p h = refl
contains_of_map f (x ∷ files) p h =
    let both = or-eq-false (bytes_eq (f p) (f x.path)) _ h in
    rw (contains_of_map f files p both.1) (differ (Bool-cases (bytes_eq p x.path)) both.0)
  where
    differ :
        (bytes_eq p x.path ≡ true) ⊎ (bytes_eq p x.path ≡ false)
        → bytes_eq (f p) (f x.path) ≡ false
        → (bytes_eq p x.path || false) ≡ false
    differ (inl e) k =
        absurd
          (not_of_false _ (bytes_eq_iff (f p) (f x.path)).1 k (ap f ((bytes_eq_iff p x.path).0 e)))
    differ (inr e) k = rw e

-- Paths that stay different when case is folded are different.
Distinct-paths :
    (f : Bytes → Bytes) (files : List SourceFile)
    → Distinct (map (λ x. f x.path) files)
    → Distinct (map (λ x. x.path) files)
Distinct-paths f [] h = tt
Distinct-paths f (x ∷ files) h = (contains_of_map f files x.path h.0, Distinct-paths f files h.1)

module _ (lower casefold : Bytes → Bytes) (git : Git) where
  -- The file passed `scan_source_file`.
  abbrev pub PassedScan : SourceFile → Type 0
  PassedScan f = scan_source_file lower f.path f.content ≡ ok tt

  pub record IsListed (files : List SourceFile) : Type 0 where
    pub nonempty : files ≢ []
    pub scanned : All PassedScan files
    pub sorted : IsSortedBy (λ f. f.path) files
    pub folded : Distinct (map (λ f. casefold f.path) files)
    pub distinct : Distinct (map (λ f. f.path) files)

  read_entry-PassedScan :
      (entry : Bytes) (f : SourceFile) → read_entry lower casefold git entry ≡ ok f → PassedScan f
  unfolding read_entry
  read_entry-PassedScan entry f h =
      let (e, p, h₁) = >>=-eq-ok (parse_entry entry) _ h in
      let (u, h₂) = raise_if->>-eq-ok _ unsupported_entry _ h₁ in
      let (content, c, h₃) = >>=-eq-ok (git.cat_file e.object_id) _ h₂ in
      let (done, s, h₄) = >>=-eq-ok (scan_source_file lower e.entry_path content) _ h₃ in
      subst PassedScan (ok-injective h₄) s

  read_entries-PassedScan :
      (entries : List Bytes) (files : List SourceFile)
      → read_entries lower casefold git entries ≡ ok files
      → All PassedScan files
  unfolding read_entries
  read_entries-PassedScan [] files h = subst (All PassedScan) (ok-injective h) tt
  read_entries-PassedScan ([] ∷ entries) files h = read_entries-PassedScan entries files h
  read_entries-PassedScan ((c ∷ entry) ∷ entries) files h =
      let (f, e, h₁) = >>=-eq-ok (read_entry lower casefold git (c ∷ entry)) _ h in
      let (fs, k, h₂) = >>=-eq-ok (read_entries lower casefold git entries) _ h₁ in
      subst (All PassedScan) (ok-injective h₂)
        (read_entry-PassedScan (c ∷ entry) f e, read_entries-PassedScan entries fs k)

  -- The files that are listed passed the scan, are in the order of their paths, and no two paths are
  -- equal, not even when case is folded.
  pub git_source_files-IsListed :
      (files : List SourceFile) → git_source_files lower casefold git ≡ ok files → IsListed files
  unfolding git_source_files
  git_source_files-IsListed files h =
      let (raw, r, h₁) = >>=-eq-ok git.ls_tree _ h in
      let (found, p, h₂) = >>=-eq-ok (read_entries lower casefold git (split 0 raw)) _ h₁ in
      let sorted = sort_by (λ (f : SourceFile). f.path) found in
      let (some', h₃) = raise_if->>-eq-ok (is_nil sorted) no_files _ h₂ in
      let (folded, h₄) =
        raise_if->>-eq-ok (not (is_distinct (map (λ f. casefold f.path) sorted))) case_collision _
          h₃ in
      let d : Distinct (map (λ f. casefold f.path) sorted) =
        (is_distinct_iff _).0 (is_true _ folded) in
      subst IsListed (ok-injective h₄) (record {
        nonempty = ne_nil sorted some';
        scanned =
            sort_by-All (λ f. f.path) PassedScan found
              (read_entries-PassedScan (split 0 raw) found p);
        sorted = sort_by-IsSortedBy (λ f. f.path) found;
        folded = d;
        distinct = Distinct-paths casefold sorted d;
      })
    where
      ne_nil : (x : List SourceFile) → is_nil x ≡ false → x ≢ []
      ne_nil [] e = ground arith
      ne_nil (y ∷ ys) e = ground arith

      is_true : (b : Bool) → not b ≡ false → b ≡ true
      is_true b e = ground arith
