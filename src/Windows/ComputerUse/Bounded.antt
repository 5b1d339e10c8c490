-- ===== src/Windows/ComputerUse/Bounded.antt =====
-- The tree of files that `inspect_computer_use_contract` of scripts/patch_windows_app.py lets through.
use codex_subscription_route.Prelude.{
  ℕ, ◌≤◌, ◌≡◌, refl, subst, Bool, false, not, ◌||◌, List, [], ◌∷◌, ltb, any, length, is_nil, All,
  All-map, or-eq-false, arith, ok, collect, collect-length, >>=-eq-ok, raise_if->>-eq-ok,
  ok-injective,
}
use codex_subscription_route.Text.{Bytes}
use codex_subscription_route.Windows.Files.{FilePath}
use codex_subscription_route.Windows.Disk.{
  Disk, missing_directory, has_link, file_count, size_limit, is_linklike, is_dir, read_bytes,
}
use codex_subscription_route.Windows.ComputerUse.{total, over, files_of, size_of, check_tree}
use codex_subscription_route.Windows.ComputerUse.Markers.{
  max_cua_tree_bytes, max_cua_file_bytes, max_cua_file_count,
}

any-eq-false {ℓ} :
    {A : Type ℓ} (test : A → Bool) (xs : List A)
    → any test xs ≡ false
    → All (λ x. test x ≡ false) xs
any-eq-false test [] h = tt
any-eq-false test (x ∷ xs) h =
    let (here, rest) = or-eq-false (test x) (any test xs) h in (here, any-eq-false test xs rest)

-- The sizes are those of the contents that are read from the files, in order.
abbrev pub Sized : Disk → List FilePath → List ℕ → Type 0
Sized disk [] [] = Unit {0}
Sized disk (path ∷ paths) (size ∷ sizes) =
    ((contents : Bytes) × (read_bytes disk path ≡ ok contents) × (length contents ≡ size))
    × Sized disk paths sizes
Sized disk _ _ = ⊥

collect-Sized :
    (disk : Disk) (paths : List FilePath) {sizes : List ℕ}
    → collect (size_of disk) paths ≡ ok sizes
    → Sized disk paths sizes
collect-Sized disk [] {sizes} h = subst (Sized disk []) (ok-injective h) tt
collect-Sized disk (path ∷ paths) {sizes} h =
    let (size, made, h1) = >>=-eq-ok (size_of disk path) _ h in
    let (contents, read, h2) = >>=-eq-ok (read_bytes disk path) _ made in
    let (more, rest, h3) = >>=-eq-ok (collect (size_of disk) paths) _ h1 in
    subst (Sized disk (path ∷ paths)) (ok-injective h3)
      ((contents, read, ok-injective h2), collect-Sized disk paths rest)

-- A tree without links, with at least one file, and within the limits on files, on the bytes of each
-- and on the bytes of all.
pub record IsBounded (disk : Disk) (root : FilePath) (count : ℕ) (bytes : ℕ) : Type 0 where
  pub no_links : All (λ path. is_linklike disk path ≡ false) (disk.below root)
  pub counted : count ≡ length (files_of disk (disk.below root))
  pub some_file : 1 ≤ count
  pub few_files : count ≤ max_cua_file_count
  pub sized :
      (sizes : List ℕ) × Sized disk (files_of disk (disk.below root)) sizes
      × (bytes ≡ total sizes)
      × All (λ size. size ≤ max_cua_file_bytes) sizes
  pub few_bytes : bytes ≤ max_cua_tree_bytes

pub check_tree-IsBounded :
    (disk : Disk) (root : FilePath) {sizes : List ℕ}
    → check_tree disk root ≡ ok sizes
    → IsBounded disk root (length sizes) (total sizes)
unfolding check_tree
check_tree-IsBounded disk root h =
    let files = files_of disk (disk.below root) in
    let (real, h1) =
      raise_if->>-eq-ok (is_linklike disk root || not (is_dir disk root)) missing_directory _ h in
    let (plain, h2) = raise_if->>-eq-ok (any (is_linklike disk) (disk.below root)) has_link _ h1 in
    let (counted, h3) =
      raise_if->>-eq-ok (is_nil files || ltb max_cua_file_count (length files)) file_count _ h2 in
    let (sizes, made, h4) = >>=-eq-ok (collect (size_of disk) files) _ h3 in
    let (small, h5) =
      raise_if->>-eq-ok (over max_cua_file_bytes sizes || ltb max_cua_tree_bytes (total sizes))
        size_limit _ h4 in
    let (each, within) = or-eq-false (over max_cua_file_bytes sizes) _ small in
    let (nonempty, few) =
      or-eq-false (is_nil files) (ltb max_cua_file_count (length files)) counted in
    let same = collect-length (size_of disk) files made in
    let limited =
      All-map (λ size. ltb max_cua_file_bytes size ≡ false) (λ size. size ≤ max_cua_file_bytes)
        (λ size below. ground arith) sizes (any-eq-false (ltb max_cua_file_bytes) sizes each) in
    subst (λ s. IsBounded disk root (length s) (total s)) (ok-injective h5)
      (record {
        no_links = any-eq-false (is_linklike disk) (disk.below root) plain;
        counted = same;
        some_file = ground arith;
        few_files = ground arith;
        sized = (sizes, collect-Sized disk files made, refl, limited);
        few_bytes = ground arith;
      })
