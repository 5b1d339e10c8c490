-- ===== src/Release/Context/Bounds.antt =====
-- What `_context` of scripts/release/release_artifacts.py promises of its result.
use codex_subscription_route.Prelude.{
  ok-injective, is_nil, ℕ, ◌≤◌, ◌≡◌, ◌↔◌, ◌∙◌, refl, sym, ap, subst, Bool, true, false, not, ◌&&◌,
  ◌++◌, arith, leb, ok, >>=-eq-ok, raise_if-eq-ok, raise_if->>-eq-ok,
}
use codex_subscription_route.Text.{Bytes, codes, bytes_eq, bytes_eq_iff}
use codex_subscription_route.Release.Errors.{
  invalid_commit, dirty_tree, not_semantic, version_differs, epoch_range,
}
use codex_subscription_route.Release.Library.{Library, Repository, ℤ, pos, negsuc}
use codex_subscription_route.Release.Context.{
  BuildContext, project_name, is_commit, is_semantic, context, read_commit, check_clean,
  read_release_version, read_version, read_epoch, int_or_error, gzip_epoch, check_epoch_variable,
}

-- The commit is the one checked out, the version is the committed one, and the epoch is one of gzip.
pub record IsContextOf (py : Library) (r : Repository) (c : BuildContext) : Type 0 where
  pub commit : is_commit c.commit ≡ true
  pub head : (output : Bytes) × (r.head ≡ ok output) × (c.commit ≡ py.strip output)
  pub version : is_semantic c.version ≡ true
  pub committed :
      (contents : Bytes) × (r.committed_version c.commit ≡ ok contents)
      × (py.strip contents ≡ c.version)
  pub source_epoch : c.source_epoch ≤ 0xffffffff
  pub archive_root : c.archive_root ≡ project_name ++ (codes "-v" ++ c.version)

read_commit_sound :
    (py : Library) (r : Repository) {commit : Bytes}
    → read_commit py r ≡ ok commit
    → (is_commit commit ≡ true)
      × (output : Bytes) × (r.head ≡ ok output)
      × (commit ≡ py.strip output)
unfolding read_commit
read_commit_sound py r h =
    let (output, head, h1) = >>=-eq-ok r.head _ h in
    let (valid, h2) = raise_if->>-eq-ok (not (is_commit (py.strip output))) invalid_commit _ h1 in
    let same = ok-injective h2 in
    (ap is_commit (sym same) ∙ ground (arith, valid), output, head, sym same)

read_release_version_sound :
    (py : Library) (r : Repository) (commit : Bytes) {version : Bytes}
    → read_release_version py r commit ≡ ok version
    → (is_semantic version ≡ true)
      × (contents : Bytes) × (r.committed_version commit ≡ ok contents)
      × (py.strip contents ≡ version)
unfolding read_release_version
read_release_version_sound py r commit h =
    let (read, _, h1) = >>=-eq-ok (read_version r.version_file) _ h in
    let (valid, h2) = raise_if->>-eq-ok (not (is_semantic (py.strip read))) not_semantic _ h1 in
    let (contents, committed, h3) = >>=-eq-ok (r.committed_version commit) _ h2 in
    let (equal, h4) =
      raise_if->>-eq-ok (not (bytes_eq (py.strip contents) (py.strip read))) version_differs _ h3 in
    let same = ok-injective h4 in
    let text_same = (bytes_eq_iff (py.strip contents) (py.strip read)).0 (ground (arith, equal)) in
    (ap is_semantic (sym same) ∙ ground (arith, valid), contents, committed, text_same ∙ same)

gzip_epoch-bound : (n : ℤ) {epoch : ℕ} → gzip_epoch n ≡ ok epoch → epoch ≤ 0xffffffff
gzip_epoch-bound (negsuc n) h = cc
gzip_epoch-bound (pos n) h =
    let (small, h1) = raise_if->>-eq-ok (not (leb n 0xffffffff)) epoch_range _ h in
    let bound : n ≤ 0xffffffff = ground (arith, small) in
    subst (λ m. m ≤ 0xffffffff) (ok-injective h1) bound

read_epoch-bound :
    (py : Library) (r : Repository) (commit : Bytes) {epoch : ℕ}
    → read_epoch py r commit ≡ ok epoch
    → epoch ≤ 0xffffffff
unfolding read_epoch
read_epoch-bound py r commit h =
    let (output, _, h1) = >>=-eq-ok (r.timestamp commit) _ h in
    let (n, _, h2) = >>=-eq-ok (int_or_error (py.int (py.strip output))) _ h1 in
    let (_, _, h3) = >>=-eq-ok (check_epoch_variable py n r.epoch_variable) _ h2 in
    gzip_epoch-bound n h3

-- Whenever `_context` returns, with uncommitted changes allowed or not: the commit is the one checked
-- out, forty hexadecimal digits; the version is a semantic one, and the one of the commit; the epoch fits
-- in the four bytes of a gzip header; the archive root is the project's name with the version.
pub context-IsContextOf :
    (py : Library) (r : Repository) (allow_dirty : Bool) (c : BuildContext)
    → context py r allow_dirty ≡ ok c
    → IsContextOf py r c
unfolding context
context-IsContextOf py r allow_dirty c h =
    let (commit, read, h1) = >>=-eq-ok (read_commit py r) _ h in
    let (_, _, h2) = >>=-eq-ok (check_clean py r allow_dirty) _ h1 in
    let (version, versioned, h3) = >>=-eq-ok (read_release_version py r commit) _ h2 in
    let (epoch, timed, h4) = >>=-eq-ok (read_epoch py r commit) _ h3 in
    let (valid, output, head, checked_out) = read_commit_sound py r read in
    let (semantic, contents, committed, same) = read_release_version_sound py r commit versioned in
    subst (IsContextOf py r) (ok-injective h4) (record {
      commit = valid;
      head = (output, head, checked_out);
      version = semantic;
      committed = (contents, committed, same);
      source_epoch = read_epoch-bound py r commit timed;
      archive_root = refl;
    })

-- `git status --porcelain` prints nothing.
pub IsClean : Library → Repository → Type 0
IsClean py r = (output : Bytes) × (r.status ≡ ok output) × (is_nil (py.strip output) ≡ true)

check_clean_lem :
    (py : Library) (r : Repository) {u : Unit {0}} → check_clean py r false ≡ ok u → IsClean py r
unfolding check_clean IsClean
check_clean_lem py r h =
    let (output, status, h1) = >>=-eq-ok r.status _ h in
    let clean = raise_if-eq-ok (not (is_nil (py.strip output)) && not false) dirty_tree h1 in
    (output, status, ground (arith, clean))

check_clean-allowed :
    (py : Library) (r : Repository) (allow_dirty : Bool) {u : Unit {0}}
    → check_clean py r allow_dirty ≡ ok u
    → check_clean py r true ≡ ok tt
unfolding check_clean
check_clean-allowed py r allow_dirty h =
    let (output, status, _) = >>=-eq-ok r.status _ h in rw (status) (ground (arith))

-- What is made of a clean working tree is made of it with uncommitted changes allowed.
pub context-allowed :
    (py : Library) (r : Repository) (allow_dirty : Bool) (c : BuildContext)
    → context py r allow_dirty ≡ ok c
    → context py r true ≡ ok c
unfolding context
context-allowed py r allow_dirty c h =
    let (commit, read, h1) = >>=-eq-ok (read_commit py r) _ h in
    let (_, clean, h2) = >>=-eq-ok (check_clean py r allow_dirty) _ h1 in
    rw (read, check_clean-allowed py r allow_dirty clean) h2

check_clean-clean : (py : Library) (r : Repository) → IsClean py r → check_clean py r false ≡ ok tt
unfolding check_clean IsClean
check_clean-clean py r (output, status, empty) = rw (status, empty)

-- Without `--allow-dirty`, `_context` returns exactly what it returns with it, and only where the
-- working tree is clean.
pub context-IsClean :
    (py : Library) (r : Repository) (c : BuildContext)
    → (context py r false ≡ ok c) ↔ (IsClean py r × (context py r true ≡ ok c))
unfolding context
context-IsClean py r c = (
  λ h.
      let (commit, read, h1) = >>=-eq-ok (read_commit py r) _ h in
      let (_, clean, _) = >>=-eq-ok (check_clean py r false) _ h1 in
      (check_clean_lem py r clean, context-allowed py r false c h),
  λ (clean, h).
      let (commit, read, h1) = >>=-eq-ok (read_commit py r) _ h in
      let (_, _, h2) = >>=-eq-ok (check_clean py r true) _ h1 in
      rw (read, check_clean-clean py r clean) h2,
)
