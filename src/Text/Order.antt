-- ===== src/Text/Order.antt =====
-- The order of byte strings, and Python's stable `sorted(xs, key=…)` by such keys.
use mathlib.Core.List.{Perm}
use mathlib.Core.List.Perm
use codex_subscription_route.Prelude.{
  ◌↔◌, sym, subst, ◌&&◌, map, All, ◌≢◌, ◌≡◌, ◌∙◌, refl, ap, Bool, true, false, List, [], ◌∷◌, ◌++◌,
  arith, ◌==◌, ltb, Bool-cases, inl, inr, if◌then◌else◌,
}
use codex_subscription_route.Text.Strings.{Bytes, bytes_eq, bytes_eq_iff}

-- `s <= t`
unfoldable pub bytes_le : Bytes → Bytes → Bool
bytes_le [] t = true
bytes_le (x ∷ s) [] = false
bytes_le (x ∷ s) (y ∷ t) =
    let rest = bytes_le s t in if ltb x y then true else if x == y then rest else false

pub bytes_le_refl : (s : Bytes) → bytes_le s s ≡ true
unfolding bytes_le
bytes_le_refl [] = refl
bytes_le_refl (x ∷ s) = ground (arith, bytes_le_refl s)

pub bytes_le_total : (s t : Bytes) → bytes_le s t ≡ false → bytes_le t s ≡ true
unfolding bytes_le
bytes_le_total [] t h = ground arith
bytes_le_total (x ∷ s) [] h = refl
bytes_le_total (x ∷ s) (y ∷ t) h = ground (arith, bytes_le_total s t)

pub bytes_le_antisymm : (s t : Bytes) → bytes_le s t ≡ true → bytes_le t s ≡ true → s ≡ t
unfolding bytes_le
bytes_le_antisymm [] [] h k = refl
bytes_le_antisymm [] (y ∷ t) h k = ground arith
bytes_le_antisymm (x ∷ s) [] h k = ground arith
bytes_le_antisymm (x ∷ s) (y ∷ t) h k = ground (arith, bytes_le_antisymm s t)

pub bytes_le_trans :
    (s t u : Bytes) → bytes_le s t ≡ true → bytes_le t u ≡ true → bytes_le s u ≡ true
unfolding bytes_le
bytes_le_trans [] t u h k = refl
bytes_le_trans (x ∷ s) [] u h k = ground arith
bytes_le_trans (x ∷ s) (y ∷ t) [] h k = ground arith
bytes_le_trans (x ∷ s) (y ∷ t) (z ∷ u) h k = ground (arith, bytes_le_trans s t u)

pub bytes_le-append : (p s t : Bytes) → bytes_le (p ++ s) (p ++ t) ≡ bytes_le s t
unfolding bytes_le
bytes_le-append [] s t = refl
bytes_le-append (x ∷ p) s t = ground (arith, bytes_le-append p s t)

module _ {ℓ} {A : Type ℓ} (key : A → Bytes) where
  unfoldable pub insert_by : A → List A → List A
  insert_by x [] = x ∷ []
  insert_by x (y ∷ ys) =
      let later = y ∷ insert_by x ys in if bytes_le (key x) (key y) then x ∷ y ∷ ys else later

  -- Insertion from the right keeps equal keys in their order.
  unfoldable pub sort_by : List A → List A
  unfolding insert_by bytes_le
  sort_by [] = []
  sort_by (x ∷ xs) = insert_by x (sort_by xs)

  -- Every key is at most the next one.
  abbrev pub IsSortedBy : List A → Type 0
  IsSortedBy [] = Unit
  IsSortedBy (x ∷ []) = Unit
  IsSortedBy (x ∷ y ∷ ys) = (bytes_le (key x) (key y) ≡ true) × IsSortedBy (y ∷ ys)

  insert_by-perm : (x : A) (ys : List A) → Perm (insert_by x ys) (x ∷ ys)
  unfolding insert_by
  insert_by-perm x [] = Perm.refl (x ∷ [])
  insert_by-perm x (y ∷ ys) = elim (Bool-cases (bytes_le (key x) (key y))) [
    | inl e ↦ rw e (Perm.refl (x ∷ y ∷ ys))
    | inr e ↦ rw e (Perm.trans (Perm.cons y (insert_by-perm x ys)) (Perm.swap x y ys))
  ]

  pub sort_by-perm : (xs : List A) → Perm (sort_by xs) xs
  unfolding sort_by
  sort_by-perm [] = Perm.refl []
  sort_by-perm (x ∷ xs) = Perm.trans (insert_by-perm x (sort_by xs)) (Perm.cons x (sort_by-perm xs))

  insert_by-IsSortedBy : (x : A) (ys : List A) → IsSortedBy ys → IsSortedBy (insert_by x ys)
  unfolding insert_by
  insert_by-IsSortedBy x [] h = tt
  insert_by-IsSortedBy x (y ∷ []) h = ground (arith, bytes_le_total (key x) (key y))
  insert_by-IsSortedBy x (y ∷ z ∷ ys) h =
      ground (arith, bytes_le_total (key x) (key y), insert_by-IsSortedBy x (z ∷ ys))

  pub sort_by-IsSortedBy : (xs : List A) → IsSortedBy (sort_by xs)
  unfolding sort_by
  sort_by-IsSortedBy [] = tt
  sort_by-IsSortedBy (x ∷ xs) = insert_by-IsSortedBy x (sort_by xs) (sort_by-IsSortedBy xs)

  -- Sorting leaves a sorted list as it is.
  pub sort_by_of_IsSortedBy : (xs : List A) → IsSortedBy xs → sort_by xs ≡ xs
  unfolding sort_by
  sort_by_of_IsSortedBy [] h = refl
  sort_by_of_IsSortedBy (x ∷ []) h = unfold insert_by in refl
  sort_by_of_IsSortedBy (x ∷ y ∷ ys) h =
      ap (insert_by x) (sort_by_of_IsSortedBy (y ∷ ys) h.1) ∙ (unfold insert_by in rw h.0)

  insert_by-All {κ} :
      (P : A → Type κ) (x : A) (ys : List A) → P x → All P ys → All P (insert_by x ys)
  unfolding insert_by
  insert_by-All P x [] h k = (h, tt)
  insert_by-All P x (y ∷ ys) h k = elim (Bool-cases (bytes_le (key x) (key y))) [
    | inl e ↦ rw e (h, k)
    | inr e ↦ rw e (k.0, insert_by-All P x ys h k.1)
  ]

  pub sort_by-All {κ} : (P : A → Type κ) (xs : List A) → All P xs → All P (sort_by xs)
  unfolding sort_by
  sort_by-All P [] h = tt
  sort_by-All P (x ∷ xs) h = insert_by-All P x (sort_by xs) h.0 (sort_by-All P xs h.1)

  insert_by_inverse {κ} :
      (P : A → Type κ) (x : A) (ys : List A) → All P (insert_by x ys) → P x × All P ys
  unfolding insert_by
  insert_by_inverse P x [] h = h
  insert_by_inverse P x (y ∷ ys) h = elim (Bool-cases (bytes_le (key x) (key y))) [
    | inl e ↦ let h' = rw (e) at h in h'
    | inr e ↦
        let h' = rw (e) at h in
        let (here, rest) = insert_by_inverse P x ys h'.1 in (here, (h'.0, rest))
  ]

  -- What holds of every element of the sorted list holds of every element.
  pub sort_by_inverse {κ} : (P : A → Type κ) (xs : List A) → All P (sort_by xs) → All P xs
  unfolding sort_by
  sort_by_inverse P [] h = tt
  sort_by_inverse P (x ∷ xs) h =
      let (here, rest) = insert_by_inverse P x (sort_by xs) h in (here, sort_by_inverse P xs rest)

  insert_by-ne-nil : (x : A) (ys : List A) → insert_by x ys ≢ []
  unfolding insert_by
  insert_by-ne-nil x [] = ground arith
  insert_by-ne-nil x (y ∷ ys) = ground arith

  pub sort_by-ne-nil : (xs : List A) → xs ≢ [] → sort_by xs ≢ []
  unfolding sort_by
  sort_by-ne-nil [] h = h
  sort_by-ne-nil (x ∷ xs) h = insert_by-ne-nil x (sort_by xs)

-- The keys of a list sorted by them are sorted.
pub keys-IsSortedBy {ℓ} :
    {A : Type ℓ} (key : A → Bytes) (xs : List A)
    → IsSortedBy key xs
    → IsSortedBy (λ s. s) (map key xs)
keys-IsSortedBy key [] h = tt
keys-IsSortedBy key (x ∷ []) h = tt
keys-IsSortedBy key (x ∷ y ∷ ys) h = (h.0, keys-IsSortedBy key (y ∷ ys) h.1)

-- `ss == ts` for lists of texts.
unfoldable pub lists_eq : List Bytes → List Bytes → Bool
lists_eq [] [] = true
lists_eq (s ∷ ss) (t ∷ ts) = bytes_eq s t && lists_eq ss ts
lists_eq _ _ = false

pub lists_eq_iff : (ss ts : List Bytes) → (lists_eq ss ts ≡ true) ↔ (ss ≡ ts)
unfolding lists_eq
lists_eq_iff [] [] = ground arith
lists_eq_iff [] (t ∷ ts) = ground arith
lists_eq_iff (s ∷ ss) [] = ground arith
lists_eq_iff (s ∷ ss) (t ∷ ts) = ground (arith, bytes_eq_iff s t, lists_eq_iff ss ts)

-- `ss == sorted(ss)`
unfoldable pub is_sorted : List Bytes → Bool
is_sorted ss = lists_eq ss (sort_by (λ s. s) ss)

pub is_sorted_iff : (ss : List Bytes) → (is_sorted ss ≡ true) ↔ IsSortedBy (λ s. s) ss
unfolding is_sorted
is_sorted_iff ss = (
  λ h. subst (IsSortedBy (λ s. s)) (sym ((lists_eq_iff ss _).0 h)) (sort_by-IsSortedBy (λ s. s) ss),
  λ h. (lists_eq_iff ss _).1 (sym (sort_by_of_IsSortedBy (λ s. s) ss h)),
)

insert_by-swap_lt :
    (x y : Bytes) (zs : List Bytes)
    → bytes_le x y ≡ true
    → bytes_le y x ≡ false
    → insert_by (λ s. s) x (insert_by (λ s. s) y zs)
      ≡ insert_by (λ s. s) y (insert_by (λ s. s) x zs)
unfolding insert_by
insert_by-swap_lt x y [] h k = rw (h, k) refl
insert_by-swap_lt x y (z ∷ zs) h k = elim (Bool-cases (bytes_le y z)) [
  | inl e ↦ rw (e, bytes_le_trans x y z h e) (rw (h, k) (rw (e) refl))
  | inr e ↦ elim (Bool-cases (bytes_le x z)) [
    | inl f ↦ rw (e, f) (rw (k, e) refl)
    | inr f ↦ rw (e, f) (rw (e) (ap (λ ss. z ∷ ss) (insert_by-swap_lt x y zs h k)))
  ]
]

-- The order in which two texts are inserted does not matter.
pub insert_by-swap :
    (x y : Bytes) (zs : List Bytes)
    → insert_by (λ s. s) x (insert_by (λ s. s) y zs)
      ≡ insert_by (λ s. s) y (insert_by (λ s. s) x zs)
insert_by-swap x y zs = elim (Bool-cases (bytes_le x y)) [
  | inr e ↦ sym (insert_by-swap_lt y x zs (bytes_le_total x y e) e)
  | inl e ↦ elim (Bool-cases (bytes_le y x)) [
    | inr f ↦ insert_by-swap_lt x y zs e f
    | inl f ↦
        subst
          (λ w.
            insert_by (λ s. s) x (insert_by (λ s. s) w zs)
            ≡ insert_by (λ s. s) w (insert_by (λ s. s) x zs))
          (bytes_le_antisymm x y e f) refl
  ]
]
