-- ===== src/Release/Path/Canonical.antt =====
-- Which paths `_normalized_path` of scripts/release/release_artifacts.py lets through.
use codex_subscription_route.Prelude.{
  All-map, ◌⊎◌, ℕ, ◌≡◌, ◌≢◌, ◌↔◌, ◌∙◌, refl, sym, false, List, [], ◌∷◌, arith, ◌==◌, inl, inr, All,
  or-eq-false, ok,
}
use codex_subscription_route.Text.{
  Bytes, codes, bytes_eq, bytes_eq_iff, split, split-join, split-Lacks, join, has_byte, Lacks,
  contains,
}
use codex_subscription_route.PurePath.{
  PurePath, split_root, keep, parse_path, parts, is_absolute, as_posix,
}
use codex_subscription_route.PurePath.Pieces.{
  split_root-cons, Kept, keep-Kept, keep-All, keep_of_Kept, Kept-iff, join-Lacks, Lacks-join,
  root_of_relative, parts_relative, parse_path_relative, not-contains-All, All-not-contains,
}
use codex_subscription_route.Release.Path.{normalized_path}

-- A directory or file name that may stand in a release path.
pub record IsPiece (p : Bytes) : Type 0 where
  pub nonempty : p ≢ []
  pub not_dot : p ≢ codes "."
  pub not_up : p ≢ codes ".."
  pub no_slash : Lacks b'/' p
  pub no_backslash : Lacks b'\\' p

-- A relative path of such names, joined by single slashes.
pub record IsPortable (v : Bytes) : Type 0 where
  pub first : Bytes
  pub more : List Bytes
  pub pieces : All IsPiece (first ∷ more)
  pub joined : v ≡ join b'/' (first ∷ more)

pieces_of :
    (ps : List Bytes)
    → All (Lacks b'/') ps
    → All Kept ps
    → All (λ p. p ≢ codes "..") ps
    → All (Lacks b'\\') ps
    → All IsPiece ps
pieces_of [] s k u b = tt
pieces_of (p ∷ ps) s k u b = (
  record {
    nonempty = ((Kept-iff p).0 k.0).0;
    not_dot = ((Kept-iff p).0 k.0).1;
    not_up = u.0;
    no_slash = s.0;
    no_backslash = b.0;
  },
  pieces_of ps s.1 k.1 u.1 b.1,
)

-- A relative path prints as its pieces.
posix_text : Bytes → Bytes
posix_text [] = codes "."
posix_text (x ∷ s) = x ∷ s

as_posix_relative : (p : PurePath) → p.root ≡ [] → as_posix p ≡ posix_text (join b'/' p.tail)
unfolding as_posix posix_text
as_posix_relative p h = ground arith

join-ne-nil : (c : ℕ) (p : Bytes) (ps : List Bytes) → p ≢ [] → join c (p ∷ ps) ≢ []
unfolding join
join-ne-nil c [] ps h = absurd (h refl)
join-ne-nil c (x ∷ p) [] h = ground arith
join-ne-nil c (x ∷ p) (q ∷ ps) h = ground arith

posix_text_of_ne_nil : (t : Bytes) → t ≢ [] → posix_text t ≡ t
unfolding posix_text
posix_text_of_ne_nil [] h = absurd (h refl)
posix_text_of_ne_nil (x ∷ t) h = refl

posix_text-join :
    (p : Bytes) (ps : List Bytes) → p ≢ [] → posix_text (join b'/' (p ∷ ps)) ≡ join b'/' (p ∷ ps)
posix_text-join p ps h = posix_text_of_ne_nil _ (join-ne-nil b'/' p ps h)

-- The pieces of a path that passed every test of the function.
IsPortable-of :
    (v : Bytes) (ps : List Bytes)
    → All (Lacks b'/') ps
    → All Kept ps
    → All (λ p. p ≢ codes "..") ps
    → Lacks b'\\' v
    → posix_text (join b'/' ps) ≡ v
    → (v ≡ codes ".") ⊎ IsPortable v
unfolding posix_text join
IsPortable-of v [] s k u b e = inl (sym e)
IsPortable-of v (p ∷ ps) s k u b e =
    let e' : join b'/' (p ∷ ps) ≡ v = sym (posix_text-join p ps ((Kept-iff p).0 k.0).0) ∙ e in
    inr (record {
      first = p;
      more = ps;
      pieces = pieces_of (p ∷ ps) s k u (join-Lacks b'\\' b'/' p ps (rw e' b));
      joined = sym e';
    })

-- What the tests say of a value that none of them refuses.
pub record Passed (v : Bytes) : Type 0 where
  pub no_backslash : Lacks b'\\' v
  pub nonempty : bytes_eq v [] ≡ false
  pub relative : is_absolute (parse_path v) ≡ false
  pub no_up : contains (parts (parse_path v)) (codes "..") ≡ false
  pub no_dot : contains (parts (parse_path v)) (codes ".") ≡ false
  pub same : as_posix (parse_path v) ≡ v

pub normalized_path-Passed : (v : Bytes) {w : Bytes} → normalized_path v ≡ ok w → (w ≡ v) × Passed v
unfolding normalized_path
normalized_path-Passed v h = ground (arith, bytes_eq_iff (as_posix (parse_path v)) v)

normalized_path_of_Passed : (v : Bytes) → Passed v → normalized_path v ≡ ok v
unfolding normalized_path
normalized_path_of_Passed v q = ground (arith, bytes_eq_iff (as_posix (parse_path v)) v)

Passed-IsPortable : (v : Bytes) → Passed v → (v ≡ codes ".") ⊎ IsPortable v
Passed-IsPortable v q =
    IsPortable-of v (parse_path v).tail (rw tails (keep-All (Lacks b'/') _ (split-Lacks b'/' v)))
      (rw tails (keep-Kept (split b'/' v)))
      (not-contains-All _ _ (rw (parts_relative (parse_path v) root) at q.no_up)) q.no_backslash
      (sym (as_posix_relative (parse_path v) root) ∙ q.same)
  where
    root : (parse_path v).root ≡ []
    root = root_of_relative (parse_path v) q.relative

    tails : (parse_path v).tail ≡ keep (split b'/' v)
    tails = parse_path_relative v root

Kept-of_IsPiece : (p : Bytes) → IsPiece p → Kept p
Kept-of_IsPiece p h = (Kept-iff p).1 (h.nonempty, h.not_dot)

-- The root of a path that begins with a piece.
split_root-join :
    (p : Bytes) (ps : List Bytes)
    → IsPiece p
    → split_root (join b'/' (p ∷ ps)) ≡ ([], join b'/' (p ∷ ps))
unfolding join has_byte
split_root-join [] ps h = absurd (h.nonempty refl)
split_root-join (x ∷ p) [] h = split_root-cons x p (or-eq-false (x == b'/') _ h.no_slash).0
split_root-join (x ∷ p) (q ∷ ps) h = split_root-cons x _ (or-eq-false (x == b'/') _ h.no_slash).0

pub parse_path-join :
    (p : Bytes) (ps : List Bytes)
    → All IsPiece (p ∷ ps)
    → parse_path (join b'/' (p ∷ ps)) ≡ record { root = []; tail = p ∷ ps }
unfolding parse_path
parse_path-join p ps h = rw (split_root-join p ps h.0) (
    rw (split-join b'/' p ps (All-map IsPiece (Lacks b'/') (λ _ x. x.no_slash) (p ∷ ps) h))
      (rw (keep_of_Kept (p ∷ ps) (All-map IsPiece Kept Kept-of_IsPiece (p ∷ ps) h))))

portable-Passed : (p : Bytes) (ps : List Bytes) → All IsPiece (p ∷ ps) → Passed (join b'/' (p ∷ ps))
unfolding is_absolute parts
portable-Passed p ps h = record {
  no_backslash =
      Lacks-join b'\\' b'/' p ps refl
        (All-map IsPiece (Lacks b'\\') (λ _ x. x.no_backslash) (p ∷ ps) h);
  nonempty =
      ground (arith, bytes_eq_iff (join b'/' (p ∷ ps)) [], join-ne-nil b'/' p ps h.0.nonempty);
  relative = rw parsed;
  no_up = rw parsed (
      All-not-contains (p ∷ ps) _
        (All-map IsPiece (λ r. r ≢ codes "..") (λ _ x. x.not_up) (p ∷ ps) h));
  no_dot = rw parsed (
      All-not-contains (p ∷ ps) _
        (All-map IsPiece (λ r. r ≢ codes ".") (λ _ x. x.not_dot) (p ∷ ps) h));
  same = rw parsed (as_posix_relative _ refl ∙ posix_text-join p ps h.0.nonempty);
}
  where
    parsed : parse_path (join b'/' (p ∷ ps)) ≡ record { root = []; tail = p ∷ ps }
    parsed = parse_path-join p ps h

single_dot : normalized_path (codes ".") ≡ ok (codes ".")
unfolding normalized_path has_byte parse_path parts is_absolute contains as_posix bytes_eq
single_dot = refl

-- The function returns a path exactly if it is `.` or is made of portable names joined by single
-- slashes, and then returns it unchanged.
pub normalized_path_iff :
    (v w : Bytes) → (normalized_path v ≡ ok w) ↔ ((w ≡ v) × ((v ≡ codes ".") ⊎ IsPortable v))
normalized_path_iff v w = (
  λ h. let (e, q) = normalized_path-Passed v h in (e, Passed-IsPortable v q),
  λ (e, h). elim h [
    | inl d ↦ rw (e, d) single_dot
    | inr k ↦
        rw (e, k.joined) (normalized_path_of_Passed _ (portable-Passed k.first k.more k.pieces))
  ],
)
