-- ===== src/Text/Quote.antt =====
-- What `urllib.parse.quote` keeps apart.
use codex_subscription_route.Prelude.{
  ℕ, ◌/◌, ◌%◌, ◌≤◌, ◌≡◌, ◌≢◌, ◌∙◌, refl, sym, Bool, true, false, ◌||◌, List, [], ◌∷◌, ◌++◌, arith,
  ◌==◌, ==_iff, Bool-cases, inl, inr, or-eq-false,
}
use codex_subscription_route.Text.Strings.{Bytes, has_byte}
use codex_subscription_route.Text.Split.{Lacks, has_byte-append}
use codex_subscription_route.Text.Replace.{
  is_alphanumeric, is_unreserved, upper_hex, quote_byte, quote,
}

pub cons-injective {ℓ} :
    {A : Type ℓ} {x y : A} {xs ys : List A} → x ∷ xs ≡ y ∷ ys → (x ≡ y) × (xs ≡ ys)
cons-injective h = (cc, cc)

abbrev kept : Bytes → ℕ → Bool
kept safe c = is_unreserved c || has_byte c safe

upper_hex-injective : (m n : ℕ) → upper_hex m ≡ upper_hex n → m ≡ n
upper_hex-injective m n h = ground arith

-- A separator: neither a letter nor a digit nor `%`, and below the letters.
abbrev pub IsSeparator : Bytes → ℕ → Type 0
IsSeparator safe b =
    (is_unreserved b ≡ false) × (has_byte b safe ≡ false) × ((b == 37) ≡ false) × (b ≤ 64)

upper_hex-apart : (n b : ℕ) → is_alphanumeric b ≡ false → b ≤ 64 → (upper_hex n == b) ≡ false
upper_hex-apart n b h k = ground arith

quote_byte-Lacks : (safe : Bytes) (b c : ℕ) → IsSeparator safe b → Lacks b (quote_byte safe c)
unfolding has_byte
quote_byte-Lacks safe b c h = elim (Bool-cases (kept safe c)) [
  | inl keep ↦ rw (keep) (ground (arith, ==_iff c b))
  | inr code ↦
      rw (code)
        (ground (arith, upper_hex-apart (c / 16) b, upper_hex-apart (c % 16) b, ==_iff 37 b))
]

pub quote-Lacks : (safe : Bytes) (b : ℕ) (s : Bytes) → IsSeparator safe b → Lacks b (quote safe s)
unfolding quote has_byte
quote-Lacks safe b [] h = refl
quote-Lacks safe b (c ∷ s) h =
    has_byte-append b (quote_byte safe c) (quote safe s)
    ∙ rw (quote_byte-Lacks safe b c h) (quote-Lacks safe b s h)

quote-cons : (safe : Bytes) (c : ℕ) (s : Bytes) → quote safe (c ∷ s) ≢ []
unfolding quote
quote-cons safe c s h = elim (Bool-cases (kept safe c)) [
  | inl keep ↦ let h' = rw (keep) at h in cc
  | inr code ↦ let h' = rw (code) at h in cc
]

percent_is_coded : (safe : Bytes) (c : ℕ) → has_byte 37 safe ≡ false → kept safe c ≡ true → c ≢ 37
percent_is_coded safe c p keep e = let h = rw (e) at keep in ground arith

-- Different texts are quoted differently, if `%` is quoted.
pub quote-injective :
    (safe s t : Bytes) → has_byte 37 safe ≡ false → quote safe s ≡ quote safe t → s ≡ t
unfolding quote
quote-injective safe [] [] p h = refl
quote-injective safe [] (d ∷ t) p h = absurd (quote-cons safe d t (sym h))
quote-injective safe (c ∷ s) [] p h = absurd (quote-cons safe c s h)
quote-injective safe (c ∷ s) (d ∷ t) p h = elim (Bool-cases (kept safe c)) [
  | inl keep ↦ elim (Bool-cases (kept safe d)) [
    | inl keep' ↦
        let h' = rw (keep, keep') at h in
        let (same, rest) = cons-injective h' in cc (same, quote-injective safe s t p rest)
    | inr code' ↦
        let h' = rw (keep, code') at h in
        absurd (percent_is_coded safe c p keep (cons-injective h').0)
  ]
  | inr code ↦ elim (Bool-cases (kept safe d)) [
    | inl keep' ↦
        let h' = rw (code, keep') at h in
        absurd (percent_is_coded safe d p keep' (sym (cons-injective h').0))
    | inr code' ↦
        let h' = rw (code, code') at h in
        let (high, more) = cons-injective (cons-injective h').1 in
        let (low, rest) = cons-injective more in
        let same : c ≡ d = omega (
          arith,
          upper_hex-injective (c / 16) (d / 16) high,
          upper_hex-injective (c % 16) (d % 16) low,
        ) in
        cc (same, quote-injective safe s t p rest)
  ]
]

-- What stands behind the first separator.
pub Lacks-append :
    (b : ℕ) (s t u v : Bytes)
    → Lacks b s
    → Lacks b t
    → s ++ (b ∷ u) ≡ t ++ (b ∷ v)
    → (s ≡ t) × (u ≡ v)
unfolding has_byte
Lacks-append b [] [] u v h k e = (refl, (cons-injective e).1)
Lacks-append b [] (d ∷ t) u v h k e = let same = (cons-injective e).0 in ground (arith, ==_iff d b)
Lacks-append b (c ∷ s) [] u v h k e = let same = (cons-injective e).0 in ground (arith, ==_iff c b)
Lacks-append b (c ∷ s) (d ∷ t) u v h k e =
    let (same, rest) = cons-injective e in
    let (more, last) =
      Lacks-append b s t u v (or-eq-false (c == b) (has_byte b s) h).1
        (or-eq-false (d == b) (has_byte b t) k).1 rest in
    (cc, last)
