-- ===== src/Asar/Slot/Field.antt =====
-- The regular expression `"value"\s*:\s*"([0-9a-f]{64})"` of scripts/windows_asar_integrity.py. A text
-- matches it in one way at most, so it is read from left to right.
use codex_subscription_route.Prelude.{
  ℕ, zero, suc, ◌+◌, Bool, ◌&&◌, ◌||◌, Option, none, some, List, [], ◌∷◌, ◌==◌, leb, all, length,
  take, drop, if◌then◌else◌,
}
use codex_subscription_route.Text.{Bytes, codes, starts_with}

abbrev pub is_hex : ℕ → Bool
is_hex c = (leb b'0' c && leb c b'9') || (leb b'a' c && leb c b'f')

-- `[0-9a-f]{64}`
unfoldable pub is_hash : Bytes → Bool
is_hash s = (length s == 64) && all is_hex s

-- `\s` on bytes
abbrev pub is_space : ℕ → Bool
is_space c = (leb 9 c && leb c 13) || (c == 32)

unfoldable pub spaces : Bytes → ℕ
spaces [] = 0
spaces (c ∷ s) = let rest = spaces s in if is_space c then suc rest else 0

-- A piece of the pattern read at the start of a text: the position behind it.
unfoldable pub literal_at : Bytes → ℕ → Bytes → Option ℕ
literal_at p start s = if starts_with (drop start s) p then some (start + length p) else none

abbrev pub skip_spaces : ℕ → Bytes → ℕ
skip_spaces start s = start + spaces (drop start s)

abbrev pub then_at : Option ℕ → (ℕ → Option ℕ) → Option ℕ
then_at none k = none
then_at (some n) k = k n

abbrev pub hash_at : Bytes → ℕ → Option ℕ
hash_at s start =
    if is_hash (take 64 (drop start s))
    then then_at (literal_at (codes "\"") (start + 64) s) (λ _. some start)
    else none

abbrev pub digits_after : Bytes → ℕ → Option ℕ
digits_after s b = then_at (literal_at (codes "\"") (skip_spaces b s) s) (hash_at s)

abbrev pub value_after : Bytes → ℕ → Option ℕ
value_after s a = then_at (literal_at (codes ":") (skip_spaces a s) s) (digits_after s)

-- Where the digits of a match at the start of the text begin.
unfoldable pub hash_field_at : Bytes → Option ℕ
hash_field_at s = then_at (literal_at (codes "\"value\"") 0 s) (value_after s)

-- A match is followed by the search behind its 64 digits and the closing quote.
abbrev pub after_match : ℕ → Option ℕ → (ℕ → List ℕ) → List ℕ
after_match position none search = search 0
after_match position (some start) search = (position + start) ∷ search (start + 64)

-- `re.finditer`: the first number is the position, the second how much of a match is left to skip.
unfoldable pub hash_fields : ℕ → ℕ → Bytes → List ℕ
hash_fields position skip [] = []
hash_fields position (suc skip) (c ∷ s) = hash_fields (suc position) skip s
hash_fields position zero (c ∷ s) =
    after_match position (hash_field_at (c ∷ s)) (λ skip. hash_fields (suc position) skip s)
