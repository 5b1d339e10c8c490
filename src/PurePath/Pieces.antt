-- ===== src/PurePath/Pieces.antt =====
-- What parsing a relative path keeps, and that joining its pieces loses nothing.
use codex_subscription_route.Prelude.{
  ℕ, ◌≡◌, ◌≢◌, ◌↔◌, ◌∙◌, refl, sym, ap, true, false, List, [], ◌∷◌, arith, ◌==◌, Bool-cases, inl,
  inr, All, not_of_false, or-eq-false,
}
use codex_subscription_route.Text.{
  Bytes, codes, bytes_eq, bytes_eq_iff, split, join, has_byte, has_byte-append, Lacks, contains,
}
use codex_subscription_route.PurePath.{
  PurePath, split_root, keep, is_kept, parse_path, parts, is_absolute,
}

pub split_root_relative : (s : Bytes) → (split_root s).0 ≡ [] → (split_root s).1 ≡ s
unfolding split_root
split_root_relative [] h = refl
split_root_relative (x ∷ []) h = ground arith
split_root_relative (x ∷ y ∷ []) h = ground arith
split_root_relative (x ∷ y ∷ z ∷ s) h = ground arith

pub split_root-cons : (x : ℕ) (s : Bytes) → (x == b'/') ≡ false → split_root (x ∷ s) ≡ ([], x ∷ s)
unfolding split_root
split_root-cons x [] h = rw h
split_root-cons x (y ∷ []) h = rw h
split_root-cons x (y ∷ z ∷ s) h = rw h

-- Kept pieces are nonempty and not `.`.
abbrev pub Kept : Bytes → Type 0
Kept p = is_kept p ≡ true

pub keep-Kept : (ps : List Bytes) → All Kept (keep ps)
unfolding keep
keep-Kept [] = tt
keep-Kept (p ∷ ps) = elim (Bool-cases (is_kept p)) [
  | inl e ↦ rw e (e, keep-Kept ps)
  | inr e ↦ rw e (keep-Kept ps)
]

pub keep-All : (Q : Bytes → Type 0) (ps : List Bytes) → All Q ps → All Q (keep ps)
unfolding keep
keep-All Q [] h = tt
keep-All Q (p ∷ ps) h = elim (Bool-cases (is_kept p)) [
  | inl e ↦ rw e (h.0, keep-All Q ps h.1)
  | inr e ↦ rw e (keep-All Q ps h.1)
]

pub keep_of_Kept : (ps : List Bytes) → All Kept ps → keep ps ≡ ps
unfolding keep
keep_of_Kept [] h = refl
keep_of_Kept (p ∷ ps) h = rw h.0 (ap (λ r. p ∷ r) (keep_of_Kept ps h.1))

pub Kept-iff : (p : Bytes) → Kept p ↔ ((p ≢ []) × (p ≢ codes "."))
unfolding is_kept
Kept-iff p = ground (arith, bytes_eq_iff p [], bytes_eq_iff p (codes "."))

pub join-Lacks :
    (c d : ℕ) (p : Bytes) (ps : List Bytes) → Lacks c (join d (p ∷ ps)) → All (Lacks c) (p ∷ ps)
unfolding join
join-Lacks c d p [] h = (h, tt)
join-Lacks c d p (q ∷ ps) h =
    let both = or-eq-false (has_byte c p) _ (sym (has_byte-append c p _) ∙ h) in
    (both.0, join-Lacks c d q ps (unfold has_byte in (or-eq-false (d == c) _ both.1).1))

pub Lacks-join :
    (c d : ℕ) (p : Bytes) (ps : List Bytes)
    → (d == c) ≡ false
    → All (Lacks c) (p ∷ ps)
    → Lacks c (join d (p ∷ ps))
unfolding join
Lacks-join c d p [] e h = h.0
Lacks-join c d p (q ∷ ps) e h = has_byte-append c p _ ∙ rw h.0 (rest (Lacks-join c d q ps e h.1))
  where
    rest : Lacks c (join d (q ∷ ps)) → has_byte c (d ∷ join d (q ∷ ps)) ≡ false
    rest r = unfold has_byte in rw e r

pub not-contains-All : (ps : List Bytes) (s : Bytes) → contains ps s ≡ false → All (λ p. p ≢ s) ps
unfolding contains
not-contains-All [] s h = tt
not-contains-All (p ∷ ps) s h =
    let both = or-eq-false (bytes_eq s p) (contains ps s) h in
    (
      (λ e. not_of_false (bytes_eq s p) (bytes_eq_iff s p).1 both.0 (sym e)),
      not-contains-All ps s both.1,
    )

pub All-not-contains : (ps : List Bytes) (s : Bytes) → All (λ p. p ≢ s) ps → contains ps s ≡ false
unfolding contains
All-not-contains [] s h = refl
All-not-contains (p ∷ ps) s h = elim (Bool-cases (bytes_eq s p)) [
  | inl e ↦ absurd (h.0 (sym ((bytes_eq_iff s p).0 e)))
  | inr e ↦ rw e (All-not-contains ps s h.1)
]

pub root_of_relative : (p : PurePath) → is_absolute p ≡ false → p.root ≡ []
unfolding is_absolute
root_of_relative p h = ground arith

pub parts_relative : (p : PurePath) → p.root ≡ [] → parts p ≡ p.tail
unfolding parts
parts_relative p h = ground arith

pub parse_path_relative :
    (v : Bytes) → (parse_path v).root ≡ [] → (parse_path v).tail ≡ keep (split b'/' v)
unfolding parse_path
parse_path_relative v h = ap (λ s. keep (split b'/' s)) (split_root_relative v h)
