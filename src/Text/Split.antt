-- ===== src/Text/Split.antt =====
-- `s.split(c)` and `c.join(parts)` for a one-byte separator.
use codex_subscription_route.Prelude.{
  ℕ, ◌≡◌, ◌≢◌, ◌∙◌, refl, ap, false, ◌||◌, List, [], ◌∷◌, ◌++◌, arith, ◌==◌, ==_iff, Bool-cases,
  inl, inr, All, if◌then◌else◌,
}
use codex_subscription_route.Text.Strings.{Bytes, has_byte}

-- One more byte in front of the first piece.
abbrev pub onto_first : ℕ → List Bytes → List Bytes
onto_first x [] = (x ∷ []) ∷ []
onto_first x (p ∷ ps) = (x ∷ p) ∷ ps

-- `s.split(c)`: never empty.
unfoldable pub split : ℕ → Bytes → List Bytes
split c [] = [] ∷ []
split c (x ∷ xs) = let rest = split c xs in if x == c then [] ∷ rest else onto_first x rest

-- `c.join(parts)`
unfoldable pub join : ℕ → List Bytes → Bytes
join c [] = []
join c (p ∷ []) = p
join c (p ∷ q ∷ ps) = p ++ (c ∷ join c (q ∷ ps))

abbrev pub Lacks : ℕ → Bytes → Type 0
Lacks c s = has_byte c s ≡ false

pub split-ne-nil : (c : ℕ) (s : Bytes) → split c s ≢ []
unfolding split
split-ne-nil c [] = ground arith
split-ne-nil c (x ∷ xs) = ground (arith, split-ne-nil c xs)

onto_first-Lacks :
    (c x : ℕ) (ps : List Bytes)
    → (x == c) ≡ false
    → All (Lacks c) ps
    → All (Lacks c) (onto_first x ps)
unfolding has_byte
onto_first-Lacks c x [] e h = (ground arith, tt)
onto_first-Lacks c x (p ∷ ps) e h = (rw e h.0, h.1)

-- No piece has the separator.
pub split-Lacks : (c : ℕ) (s : Bytes) → All (Lacks c) (split c s)
unfolding split has_byte
split-Lacks c [] = (refl, tt)
split-Lacks c (x ∷ xs) = elim (Bool-cases (x == c)) [
  | inl e ↦ rw e (refl, split-Lacks c xs)
  | inr e ↦ rw e (onto_first-Lacks c x (split c xs) e (split-Lacks c xs))
]

join-onto_first : (c x : ℕ) (ps : List Bytes) → ps ≢ [] → join c (onto_first x ps) ≡ x ∷ join c ps
unfolding join
join-onto_first c x [] h = absurd (h refl)
join-onto_first c x (p ∷ []) h = refl
join-onto_first c x (p ∷ q ∷ ps) h = refl

join-cons_nil : (c : ℕ) (ps : List Bytes) → ps ≢ [] → join c ([] ∷ ps) ≡ c ∷ join c ps
unfolding join
join-cons_nil c [] h = absurd (h refl)
join-cons_nil c (p ∷ ps) h = refl

pub join-split : (c : ℕ) (s : Bytes) → join c (split c s) ≡ s
unfolding split join
join-split c [] = refl
join-split c (x ∷ xs) = elim (Bool-cases (x == c)) [
  | inl e ↦ rw e (
      join-cons_nil c (split c xs) (split-ne-nil c xs)
      ∙ ground (arith, join-split c xs, ==_iff x c))
  | inr e ↦
      rw e
        (join-onto_first c x (split c xs) (split-ne-nil c xs) ∙ ap (λ t. x ∷ t) (join-split c xs))
]

split-Lacks_eq : (c : ℕ) (s : Bytes) → Lacks c s → split c s ≡ s ∷ []
unfolding split has_byte
split-Lacks_eq c [] h = refl
split-Lacks_eq c (x ∷ xs) h = ground (arith, split-Lacks_eq c xs)

split-append : (c : ℕ) (s t : Bytes) → Lacks c s → split c (s ++ (c ∷ t)) ≡ s ∷ split c t
unfolding split has_byte
split-append c [] t h = ground arith
split-append c (x ∷ xs) t h = ground (arith, split-append c xs t)

-- Pieces without the separator come back.
pub split-join :
    (c : ℕ) (p : Bytes) (ps : List Bytes)
    → All (Lacks c) (p ∷ ps)
    → split c (join c (p ∷ ps)) ≡ p ∷ ps
unfolding join
split-join c p [] h = split-Lacks_eq c p h.0
split-join c p (q ∷ ps) h =
    split-append c p (join c (q ∷ ps)) h.0 ∙ ap (λ r. p ∷ r) (split-join c q ps h.1)

pub has_byte-append : (c : ℕ) (s t : Bytes) → has_byte c (s ++ t) ≡ (has_byte c s || has_byte c t)
unfolding has_byte
has_byte-append c [] t = refl
has_byte-append c (x ∷ xs) t = ground (arith, has_byte-append c xs t)
