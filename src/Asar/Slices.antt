-- ===== src/Asar/Slices.antt =====
-- Slices of bytes.
use codex_subscription_route.Prelude.{
  ℕ, zero, suc, ◌+◌, ◌-◌, ◌<◌, ◌≡◌, ◌∙◌, refl, ap, none, [], ◌∷◌, arith, length, take, drop,
  get_elem?,
}
use codex_subscription_route.Text.{Bytes}
use codex_subscription_route.Asar.Binary.{slice}

-- A part of a slice that is not cut off is a part of the whole.
take-take :
    (n m : ℕ) (xs : Bytes) → length (take m (take n xs)) ≡ m → take m (take n xs) ≡ take m xs
take-take n zero xs h = refl
take-take zero (suc m) xs h = absurd (omega arith)
take-take (suc n) (suc m) [] h = refl
take-take (suc n) (suc m) (x ∷ xs) h = ap (λ s. x ∷ s) (take-take n m xs (omega arith))

pub take-drop-take :
    (n m k : ℕ) (xs : Bytes)
    → length (take m (drop k (take n xs))) ≡ m
    → take m (drop k (take n xs)) ≡ take m (drop k xs)
take-drop-take n m zero xs h = take-take n m xs h
take-drop-take zero m (suc k) [] h = refl
take-drop-take (suc n) m (suc k) [] h = refl
take-drop-take zero zero (suc k) (x ∷ xs) h = refl
take-drop-take zero (suc m) (suc k) (x ∷ xs) h = absurd (omega arith)
take-drop-take (suc n) m (suc k) (x ∷ xs) h = take-drop-take n m k xs h

drop-nil : (k : ℕ) → drop {A = ℕ} k [] ≡ []
drop-nil zero = refl
drop-nil (suc k) = refl

pub drop-drop : (j k n : ℕ) (xs : Bytes) → n ≡ j + k → drop k (drop j xs) ≡ drop n xs
drop-drop zero k n xs e = ap (λ i. drop i xs) (omega arith)
drop-drop (suc j) k zero xs e = absurd (omega arith)
drop-drop (suc j) k (suc n) [] e = drop-nil k
drop-drop (suc j) k (suc n) (x ∷ xs) e = drop-drop j k n xs (omega arith)

get-nil : (i : ℕ) → get_elem? {A = ℕ} [] i ≡ none
get-nil zero = refl
get-nil (suc i) = refl

get-take : (n i : ℕ) (xs : Bytes) → i < n → get_elem? (take n xs) i ≡ get_elem? xs i
get-take zero i xs h = absurd (omega arith)
get-take (suc n) i [] h = refl
get-take (suc n) zero (x ∷ xs) h = refl
get-take (suc n) (suc i) (x ∷ xs) h = get-take n i xs (omega arith)

get-drop : (k i n : ℕ) (xs : Bytes) → n ≡ k + i → get_elem? (drop k xs) i ≡ get_elem? xs n
get-drop zero i n xs e = ap (get_elem? xs) (omega arith)
get-drop (suc k) i zero xs e = absurd (omega arith)
get-drop (suc k) i (suc n) [] e = refl
get-drop (suc k) i (suc n) (x ∷ xs) e = get-drop k i n xs (omega arith)

-- An element of a slice is an element of the whole.
pub get-slice :
    (start stop i n : ℕ) (s : Bytes)
    → start + i < stop
    → n ≡ start + i
    → get_elem? (slice start stop s) i ≡ get_elem? s n
get-slice start stop i n s h e =
    get-take (stop - start) i (drop start s) (omega arith) ∙ get-drop start i n s e
