-- ===== src/Text/Strings.antt =====
-- Python's `bytes`, and `str` by its UTF-8 encoding: both are lists of numbers below 256.
use Prim.Native.Char.{code}
use codex_subscription_route.Prelude.{
  ◌++◌, drop, length, ◌⊎◌, ℕ, ◌≡◌, ◌↔◌, refl, Bool, true, false, ◌&&◌, ◌||◌, List, [], ◌∷◌, arith,
  String, ◌==◌, any, Bool-cases, inl, inr, not_of_false,
}

abbrev pub Bytes : Type 0
Bytes = List ℕ

-- The bytes of an ASCII literal.
abbrev pub codes : String → Bytes
codes String.[] = []
codes (String.◌∷◌ c s) = code c ∷ codes s

-- `s == t`
unfoldable pub bytes_eq : Bytes → Bytes → Bool
bytes_eq [] [] = true
bytes_eq [] (y ∷ ys) = false
bytes_eq (x ∷ xs) [] = false
bytes_eq (x ∷ xs) (y ∷ ys) = x == y && bytes_eq xs ys

pub bytes_eq_iff : (s t : Bytes) → (bytes_eq s t ≡ true) ↔ (s ≡ t)
unfolding bytes_eq
bytes_eq_iff [] [] = ground arith
bytes_eq_iff [] (y ∷ ys) = ground arith
bytes_eq_iff (x ∷ xs) [] = ground arith
bytes_eq_iff (x ∷ xs) (y ∷ ys) = ground (arith, bytes_eq_iff xs ys)

pub bytes_eq_self : (s : Bytes) → bytes_eq s s ≡ true
bytes_eq_self s = (bytes_eq_iff s s).1 refl

-- `s in {…}` and `s in […]`
unfoldable pub contains : List Bytes → Bytes → Bool
unfolding bytes_eq
contains [] s = false
contains (t ∷ ts) s = bytes_eq s t || contains ts s

-- Membership as a statement.
abbrev pub In : Bytes → List Bytes → Type 0
In s [] = ⊥
In s (t ∷ ts) = (s ≡ t) ⊎ In s ts

pub contains_iff : (ts : List Bytes) (s : Bytes) → (contains ts s ≡ true) ↔ In s ts
unfolding contains
contains_iff [] s = (λ h. cc, λ h. absurd h)
contains_iff (t ∷ ts) s = elim (Bool-cases (bytes_eq s t)) [
  | inl e ↦ rw e (λ _. inl ((bytes_eq_iff s t).0 e), λ _. refl)
  | inr e ↦ rw e (
    λ h. inr ((contains_iff ts s).0 h),
    λ h. elim h [
      | inl p ↦ absurd (not_of_false (bytes_eq s t) (bytes_eq_iff s t).1 e p)
      | inr m ↦ (contains_iff ts s).1 m
    ],
  )
]

-- `c in s` for one byte
unfoldable pub has_byte : ℕ → Bytes → Bool
has_byte c s = any (λ x. x == c) s

-- `s.startswith(p)`
unfoldable pub starts_with : Bytes → Bytes → Bool
starts_with s [] = true
starts_with [] (y ∷ p) = false
starts_with (x ∷ s) (y ∷ p) = x == y && starts_with s p

pub starts_with-append : (p s : Bytes) → starts_with (p ++ s) p ≡ true
unfolding starts_with
starts_with-append [] s = refl
starts_with-append (x ∷ p) s = ground (arith, starts_with-append p s)

-- A text that starts with `p` is `p` and the rest after its length.
pub starts_with-eq_append : (s p : Bytes) → starts_with s p ≡ true → s ≡ p ++ drop (length p) s
unfolding starts_with
starts_with-eq_append s [] h = refl
starts_with-eq_append [] (y ∷ p) h = cc
starts_with-eq_append (x ∷ s) (y ∷ p) h = ground (arith, starts_with-eq_append s p)
