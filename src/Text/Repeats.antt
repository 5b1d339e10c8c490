-- ===== src/Text/Repeats.antt =====
-- Lists of texts with no repetition, as a set has them.
use codex_subscription_route.Prelude.{
  all, ap, ◌∙◌, ◌≡◌, ◌↔◌, ◌∙◌, refl, ap, Bool, true, false, not, ◌&&◌, ◌||◌, List, [], ◌∷◌, ◌++◌,
  map, arith, All, Bool-cases, inl, inr, or-eq-false,
}
use codex_subscription_route.Text.Strings.{Bytes, bytes_eq, bytes_eq_iff, contains}
use codex_subscription_route.Text.Order.{bytes_le, insert_by, sort_by}

abbrev pub Distinct : List Bytes → Type 0
Distinct [] = Unit
Distinct (s ∷ ss) = (contains ss s ≡ false) × Distinct ss

-- `len(xs) == len(set(xs))`
unfoldable pub is_distinct : List Bytes → Bool
is_distinct [] = true
is_distinct (s ∷ ss) = not (contains ss s) && is_distinct ss

pub is_distinct_iff : (ss : List Bytes) → (is_distinct ss ≡ true) ↔ Distinct ss
unfolding is_distinct
is_distinct_iff [] = (λ h. tt, λ h. refl)
is_distinct_iff (s ∷ ss) = ground (arith, is_distinct_iff ss)

pub bytes_eq_comm : (s t : Bytes) → bytes_eq s t ≡ bytes_eq t s
bytes_eq_comm s t = ground (arith, bytes_eq_iff s t, bytes_eq_iff t s)

pub contains-append :
    (ss ts : List Bytes) (u : Bytes) → contains (ss ++ ts) u ≡ (contains ss u || contains ts u)
unfolding contains
contains-append [] ts u = refl
contains-append (s ∷ ss) ts u = ground (arith, contains-append ss ts u)

-- An element between two parts of a list without repetition is not in the first part.
pub Distinct-middle :
    (ss : List Bytes) (t : Bytes) (us : List Bytes)
    → Distinct (ss ++ (t ∷ us))
    → contains ss t ≡ false
unfolding contains
Distinct-middle [] t us h = refl
Distinct-middle (s ∷ ss) t us h =
    ground (arith, contains-append ss (t ∷ us) s, bytes_eq_comm s t, Distinct-middle ss t us h.1)

-- Sorting by one key keeps which texts another key gives.
module _ {ℓ} {A : Type ℓ} (key other : A → Bytes) where
  contains-insert_by :
      (x : A) (ys : List A) (s : Bytes)
      → contains (map other (insert_by key x ys)) s
        ≡ (bytes_eq s (other x) || contains (map other ys) s)
  unfolding insert_by contains
  contains-insert_by x [] s = refl
  contains-insert_by x (y ∷ ys) s = elim (Bool-cases (bytes_le (key x) (key y))) [
    | inl e ↦ rw e
    | inr e ↦ rw e (ground (arith, contains-insert_by x ys s))
  ]

  contains-sort_by_other :
      (xs : List A) (s : Bytes)
      → contains (map other (sort_by key xs)) s ≡ contains (map other xs) s
  unfolding sort_by contains
  contains-sort_by_other [] s = refl
  contains-sort_by_other (x ∷ xs) s =
      contains-insert_by x (sort_by key xs) s
      ∙ ap (λ b. bytes_eq s (other x) || b) (contains-sort_by_other xs s)

  insert_by-Distinct :
      (x : A) (ys : List A)
      → contains (map other ys) (other x) ≡ false
      → Distinct (map other ys)
      → Distinct (map other (insert_by key x ys))
  unfolding insert_by contains
  insert_by-Distinct x [] h k = (refl, tt)
  insert_by-Distinct x (y ∷ ys) h k = elim (Bool-cases (bytes_le (key x) (key y))) [
    | inl e ↦ rw e (h, k)
    | inr e ↦ rw e (
      ground (arith, contains-insert_by x ys (other y), bytes_eq_comm (other x) (other y)),
      insert_by-Distinct x ys (or-eq-false (bytes_eq (other x) (other y)) _ h).1 k.1,
    )
  ]

  pub sort_by-Distinct_other :
      (xs : List A) → Distinct (map other xs) → Distinct (map other (sort_by key xs))
  unfolding sort_by
  sort_by-Distinct_other [] h = tt
  sort_by-Distinct_other (x ∷ xs) h =
      insert_by-Distinct x (sort_by key xs) (contains-sort_by_other xs (other x) ∙ h.0)
        (sort_by-Distinct_other xs h.1)

module _ {ℓ} {A : Type ℓ} (key : A → Bytes) where
  pub contains-sort_by :
      (xs : List A) (s : Bytes) → contains (map key (sort_by key xs)) s ≡ contains (map key xs) s
  contains-sort_by xs s = contains-sort_by_other key key xs s

  all-insert_by :
      (test : Bytes → Bool) (x : A) (ys : List A)
      → all test (map key (insert_by key x ys)) ≡ (test (key x) && all test (map key ys))
  unfolding insert_by
  all-insert_by test x [] = refl
  all-insert_by test x (y ∷ ys) = elim (Bool-cases (bytes_le (key x) (key y))) [
    | inl e ↦ rw e refl
    | inr e ↦ rw e (ground (arith, all-insert_by test x ys))
  ]

  pub all-sort_by :
      (test : Bytes → Bool) (xs : List A)
      → all test (map key (sort_by key xs)) ≡ all test (map key xs)
  unfolding sort_by
  all-sort_by test [] = refl
  all-sort_by test (x ∷ xs) =
      all-insert_by test x (sort_by key xs) ∙ ap (λ b. test (key x) && b) (all-sort_by test xs)

  pub all-contains-sort_by :
      (xs : List A) (ss : List Bytes)
      → all (contains (map key (sort_by key xs))) ss ≡ all (contains (map key xs)) ss
  all-contains-sort_by xs [] = refl
  all-contains-sort_by xs (s ∷ ss) = rw (contains-sort_by xs s, all-contains-sort_by xs ss)

  -- Sorting repeats nothing.
  pub sort_by-Distinct : (xs : List A) → Distinct (map key xs) → Distinct (map key (sort_by key xs))
  sort_by-Distinct xs h = sort_by-Distinct_other key key xs h

-- A new element at the end repeats nothing.
pub Distinct-snoc :
    (ss : List Bytes) (t : Bytes) → Distinct ss → contains ss t ≡ false → Distinct (ss ++ (t ∷ []))
unfolding contains
Distinct-snoc [] t h k = (refl, tt)
Distinct-snoc (s ∷ ss) t h k = (
  ground (arith, contains-append ss (t ∷ []) s, bytes_eq_comm s t),
  Distinct-snoc ss t h.1 (or-eq-false (bytes_eq t s) (contains ss t) k).1,
)

pub Distinct-append :
    (ss ts : List Bytes)
    → Distinct ss
    → Distinct ts
    → All (λ s. contains ts s ≡ false) ss
    → Distinct (ss ++ ts)
Distinct-append [] ts h k apart = k
Distinct-append (s ∷ ss) ts h k apart =
    (ground (arith, contains-append ss ts s), Distinct-append ss ts h.1 k apart.1)

pub bytes_eq-append : (p s t : Bytes) → bytes_eq (p ++ s) (p ++ t) ≡ bytes_eq s t
unfolding bytes_eq
bytes_eq-append [] s t = refl
bytes_eq-append (x ∷ p) s t = ground (arith, bytes_eq-append p s t)

pub contains-prefixed :
    (p : Bytes) (ss : List Bytes) (s : Bytes)
    → contains (map (λ t. p ++ t) ss) (p ++ s) ≡ contains ss s
unfolding contains
contains-prefixed p [] s = refl
contains-prefixed p (t ∷ ss) s = rw (bytes_eq-append p s t, contains-prefixed p ss s)

-- Different texts stay different behind a common prefix.
pub Distinct-prefixed :
    (p : Bytes) (ss : List Bytes) → Distinct ss → Distinct (map (λ t. p ++ t) ss)
Distinct-prefixed p [] h = tt
Distinct-prefixed p (s ∷ ss) h = (contains-prefixed p ss s ∙ h.0, Distinct-prefixed p ss h.1)
