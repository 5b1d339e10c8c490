-- ===== src/Text/Decimal.antt =====
-- `str(n)` and `int(text)` for natural numbers in ASCII digits.
use native.Mathlib.Numerals.{add-one}
use codex_subscription_route.Prelude.{
  all-append, ℕ, zero, suc, ◌+◌, ◌-◌, ◌*◌, ◌/◌, ◌%◌, ◌<◌, ◌≡◌, ◌≢◌, ◌∙◌, refl, Bool, true, ◌&&◌, [],
  ◌∷◌, ◌++◌, arith, ltb, leb, all, Bool-cases, inl, inr, if◌then◌else◌,
}
use codex_subscription_route.Text.Strings.{Bytes}

abbrev pub is_digit : ℕ → Bool
is_digit c = leb b'0' c && leb c b'9'

-- Fuel `n + 1` is enough, since every round divides by ten.
decimal_fuel : ℕ → ℕ → Bytes
decimal_fuel zero n = []
decimal_fuel (suc f) n =
    let higher = decimal_fuel f (n / 10) in
    if ltb n 10 then (b'0' + n) ∷ [] else higher ++ ((b'0' + n % 10) ∷ [])

unfoldable pub decimal : ℕ → Bytes
unfolding decimal_fuel
decimal n = decimal_fuel (n + 1) n

-- The number that digits stand for, after the digits read so far.
unfoldable pub number_from : ℕ → Bytes → ℕ
number_from n [] = n
number_from n (c ∷ s) = number_from (n * 10 + (c - b'0')) s

unfoldable pub number : Bytes → ℕ
unfolding number_from
number s = number_from 0 s

number_from-append :
    (n c : ℕ) (s : Bytes) → number_from n (s ++ (c ∷ [])) ≡ number_from n s * 10 + (c - b'0')
unfolding number_from
number_from-append n c [] = refl
number_from-append n c (d ∷ s) = number_from-append (n * 10 + (d - b'0')) c s

number-decimal_fuel : (f n : ℕ) → n < f → number_from 0 (decimal_fuel f n) ≡ n
unfolding decimal_fuel
number-decimal_fuel zero n h = elim h [ ]
number-decimal_fuel (suc f) n h = elim (Bool-cases (ltb n 10)) [
  | inl e ↦ rw e (unfold number_from in omega arith)
  | inr e ↦
      rw e (number_from-append 0 _ _ ∙ omega (arith, number-decimal_fuel f (n / 10) (ground arith)))
]

pub number-decimal : (n : ℕ) → number (decimal n) ≡ n
unfolding number decimal
number-decimal n = number-decimal_fuel (n + 1) n (omega arith)

decimal_fuel-digits : (f n : ℕ) → all is_digit (decimal_fuel f n) ≡ true
unfolding decimal_fuel
decimal_fuel-digits zero n = refl
decimal_fuel-digits (suc f) n = elim (Bool-cases (ltb n 10)) [
  | inl e ↦ rw e (ground arith)
  | inr e ↦ rw e (
      all-append is_digit (decimal_fuel f (n / 10)) ((b'0' + n % 10) ∷ [])
      ∙ ground (arith, decimal_fuel-digits f (n / 10)))
]

pub decimal-digits : (n : ℕ) → all is_digit (decimal n) ≡ true
unfolding decimal
decimal-digits n = decimal_fuel-digits (n + 1) n

append-ne-nil : (s : Bytes) (c : ℕ) → s ++ (c ∷ []) ≢ []
append-ne-nil [] c = ground arith
append-ne-nil (x ∷ s) c = ground arith

decimal_fuel-ne-nil : (f n : ℕ) → decimal_fuel (suc f) n ≢ []
unfolding decimal_fuel
decimal_fuel-ne-nil f n = elim (Bool-cases (ltb n 10)) [
  | inl e ↦ rw e (ground arith)
  | inr e ↦ rw e (append-ne-nil (decimal_fuel f (n / 10)) (b'0' + n % 10))
]

pub decimal-ne-nil : (n : ℕ) → decimal n ≢ []
unfolding decimal
decimal-ne-nil n = rw add-one (decimal_fuel-ne-nil n n)
