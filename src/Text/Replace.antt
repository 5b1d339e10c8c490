-- ===== src/Text/Replace.antt =====
-- Searching, replacing, stripping and quoting in texts.
use codex_subscription_route.Prelude.{
  is_nil, ℕ, zero, suc, ◌+◌, ◌-◌, ◌/◌, ◌%◌, Bool, true, false, ◌&&◌, ◌||◌, Option, none, some, [],
  ◌∷◌, ◌++◌, ◌==◌, ltb, leb, length, drop, if◌then◌else◌, reverse,
}
use codex_subscription_route.Text.Strings.{Bytes, has_byte, starts_with}

-- `p in s`
unfoldable pub includes : Bytes → Bytes → Bool
includes p [] = is_nil p
includes p (c ∷ s) = starts_with (c ∷ s) p || includes p s

-- `s.count(p) == 0`, `1` or more: how often a text that is not empty occurs, without overlap. The
-- first number is how much of a match is left to skip.
unfoldable pub count_from : Bytes → ℕ → Bytes → ℕ
count_from p skip [] = 0
count_from p (suc skip) (c ∷ s) = count_from p skip s
count_from p zero (c ∷ s) = elim (starts_with (c ∷ s) p) [
  | true ↦ suc (count_from p (length p - 1) s)
  | false ↦ count_from p 0 s
]

abbrev pub occurrences : Bytes → Bytes → ℕ
occurrences p s = count_from p 0 s

-- `s.replace(p, q)` for a text `p` that is not empty.
unfoldable pub replace_from : Bytes → Bytes → ℕ → Bytes → Bytes
replace_from p q skip [] = []
replace_from p q (suc skip) (c ∷ s) = replace_from p q skip s
replace_from p q zero (c ∷ s) = elim (starts_with (c ∷ s) p) [
  | true ↦ q ++ replace_from p q (length p - 1) s
  | false ↦ c ∷ replace_from p q 0 s
]

abbrev pub replace : Bytes → Bytes → Bytes → Bytes
replace p q s = replace_from p q 0 s

-- `s.split(p, 1)[0]`
unfoldable pub before_first : Bytes → Bytes → Bytes
before_first p [] = []
before_first p (c ∷ s) =
    let rest = c ∷ before_first p s in if starts_with (c ∷ s) p then [] else rest

-- What follows the last occurrence.
unfoldable pub after_last? : Bytes → Bytes → Option Bytes
after_last? p [] = none
after_last? p (c ∷ s) = elim (after_last? p s) [
  | some rest ↦ some rest
  | none ↦ if starts_with (c ∷ s) p then some (drop (length p) (c ∷ s)) else none
]

abbrev pub or_else : Bytes → Option Bytes → Bytes
or_else s none = s
or_else s (some t) = t

-- `s.rsplit(p, 1)[-1]`
abbrev pub after_last : Bytes → Bytes → Bytes
after_last p s = or_else s (after_last? p s)

-- `s.removeprefix(p)`
abbrev pub remove_prefix : Bytes → Bytes → Bytes
remove_prefix p s = if starts_with s p then drop (length p) s else s

-- `s.endswith(p)`
unfoldable pub ends_with : Bytes → Bytes → Bool
ends_with s p = starts_with (reverse s) (reverse p)

-- `s.lstrip(c)` and `s.strip(c)` for one character
unfoldable pub strip_left : ℕ → Bytes → Bytes
strip_left c [] = []
strip_left c (x ∷ s) = let rest = strip_left c s in if x == c then rest else x ∷ s

unfoldable pub strip_byte : ℕ → Bytes → Bytes
unfolding strip_left
strip_byte c s = reverse (strip_left c (reverse (strip_left c s)))

abbrev pub is_alphanumeric : ℕ → Bool
is_alphanumeric c = leb b'0' c && leb c b'9' || leb b'A' c && leb c b'Z' || leb b'a' c && leb c b'z'

abbrev pub upper_hex : ℕ → ℕ
upper_hex n = if ltb n 10 then b'0' + n else b'A' + (n - 10)

abbrev pub lower_hex : ℕ → ℕ
lower_hex n = if ltb n 10 then b'0' + n else b'a' + (n - 10)

-- `data.hex()`
unfoldable pub hex : Bytes → Bytes
hex [] = []
hex (c ∷ s) = lower_hex (c / 16) ∷ lower_hex (c % 16) ∷ hex s

-- The characters that `urllib.parse.quote` leaves in any case.
abbrev pub is_unreserved : ℕ → Bool
is_unreserved c = is_alphanumeric c || c == b'_' || c == b'.' || c == b'-' || c == b'~'

abbrev pub quote_byte : Bytes → ℕ → Bytes
quote_byte safe c =
    if is_unreserved c || has_byte c safe
    then c ∷ []
    else b'%' ∷ upper_hex (c / 16) ∷ upper_hex (c % 16) ∷ []

-- `urllib.parse.quote(s, safe=…)` on the UTF-8 encoding
unfoldable pub quote : Bytes → Bytes → Bytes
quote safe [] = []
quote safe (c ∷ s) = quote_byte safe c ++ quote safe s
