-- ===== src/Text/Lines.antt =====
-- `data.decode("utf-8")` as a test of well-formedness, and `str.splitlines()` on UTF-8.
use mathlib.Core.List.{append-nil, append_assoc}
use codex_subscription_route.Prelude.{
  ℕ, zero, suc, ◌≡◌, ◌∙◌, refl, Bool, true, false, ◌&&◌, ◌||◌, Option, none, some, List, [], ◌∷◌,
  ◌++◌, arith, ◌==◌, ltb, leb, all, and-eq-true, if◌then◌else◌,
}
use codex_subscription_route.Text.Strings.{Bytes}

-- The continuation bytes that a lead byte wants, and the range of the first of them.
lead : ℕ → Option (ℕ × ℕ × ℕ)
lead c =
    if ltb c 0x80
    then some (0, 0x80, 0xbf)
    else if ltb c 0xc2
    then none
    else if ltb c 0xe0
    then some (1, 0x80, 0xbf)
    else if c == 0xe0
    then some (2, 0xa0, 0xbf)
    else if c == 0xed
    then some (2, 0x80, 0x9f)
    else if ltb c 0xf0
    then some (2, 0x80, 0xbf)
    else if c == 0xf0
    then some (3, 0x90, 0xbf)
    else if ltb c 0xf4
    then some (3, 0x80, 0xbf)
    else if c == 0xf4
    then some (3, 0x80, 0x8f)
    else none

utf8_from : ℕ → ℕ → ℕ → Bytes → Bool
utf8_from zero lo hi [] = true
utf8_from (suc k) lo hi [] = false
utf8_from zero lo hi (c ∷ s) = elim (lead c) [
  | none ↦ false
  | some (k, lo', hi') ↦ utf8_from k lo' hi' s
]
utf8_from (suc k) lo hi (c ∷ s) = leb lo c && leb c hi && utf8_from k 0x80 0xbf s

-- Does `data.decode("utf-8")` succeed?
unfoldable pub is_utf8 : Bytes → Bool
unfolding utf8_from lead
is_utf8 s = utf8_from 0 0x80 0xbf s

abbrev one_byte_break : ℕ → Bool
one_byte_break c = leb 0x0a c && leb c 0x0d || leb 0x1c c && leb c 0x1e

-- The length of the line boundary at the front, or 0: `\n`, `\r\n`, `\r`, `\v`, `\f`, U+001C to U+001E,
-- U+0085, U+2028 and U+2029.
break_length : Bytes → ℕ
break_length [] = 0
break_length (a ∷ []) = if one_byte_break a then 1 else 0
break_length (a ∷ b ∷ []) =
    if a == 0x0d && b == 0x0a || a == 0xc2 && b == 0x85
    then 2
    else if one_byte_break a
    then 1
    else 0
break_length (a ∷ b ∷ c ∷ s) =
    if a == 0x0d && b == 0x0a || a == 0xc2 && b == 0x85
    then 2
    else if a == 0xe2 && b == 0x80 && (c == 0xa8 || c == 0xa9)
    then 3
    else if one_byte_break a
    then 1
    else 0

-- Bytes of a boundary left to skip, the line read so far, and the rest.
lines_from : ℕ → Bytes → Bytes → List Bytes
lines_from k [] [] = []
lines_from k (x ∷ line) [] = (x ∷ line) ∷ []
lines_from (suc k) line (c ∷ s) = lines_from k line s
lines_from zero line (c ∷ s) = elim (break_length (c ∷ s)) [
  | zero ↦ lines_from zero (line ++ (c ∷ [])) s
  | suc k ↦ line ∷ lines_from k [] s
]

unfoldable pub split_lines : Bytes → List Bytes
unfolding lines_from break_length
split_lines s = lines_from 0 [] s

abbrev pub is_printable : ℕ → Bool
is_printable c = leb 0x20 c && leb c 0x7e

-- Printable ASCII, or a line feed.
abbrev pub is_line_byte : ℕ → Bool
is_line_byte c = is_printable c || c == 0x0a

lead-ascii : (c : ℕ) → is_line_byte c ≡ true → lead c ≡ some (0, 0x80, 0xbf)
unfolding lead
lead-ascii c h = ground arith

utf8_from_of_ascii : (s : Bytes) → all is_line_byte s ≡ true → utf8_from 0 0x80 0xbf s ≡ true
unfolding utf8_from
utf8_from_of_ascii [] h = refl
utf8_from_of_ascii (c ∷ s) h =
    let both = and-eq-true (is_line_byte c) (all is_line_byte s) h in
    rw (lead-ascii c both.0, utf8_from) (utf8_from_of_ascii s both.1)

pub is_utf8_of_ascii : (s : Bytes) → all is_line_byte s ≡ true → is_utf8 s ≡ true
unfolding is_utf8
is_utf8_of_ascii s h = utf8_from_of_ascii s h

break_length-printable : (c : ℕ) (s : Bytes) → is_printable c ≡ true → break_length (c ∷ s) ≡ 0
unfolding break_length
break_length-printable c [] h = ground arith
break_length-printable c (a ∷ []) h = ground arith
break_length-printable c (a ∷ b ∷ s) h = ground arith

break_length-newline : (s : Bytes) → break_length (0x0a ∷ s) ≡ 1
unfolding break_length
break_length-newline [] = refl
break_length-newline (a ∷ []) = refl
break_length-newline (a ∷ b ∷ s) = refl

lines_from-newline :
    (line t rest : Bytes)
    → all is_printable t ≡ true
    → lines_from 0 line (t ++ (0x0a ∷ rest)) ≡ (line ++ t) ∷ lines_from 0 [] rest
unfolding lines_from
lines_from-newline line [] rest h = rw (break_length-newline rest, lines_from) (rw append-nil)
lines_from-newline line (c ∷ t) rest h =
    let both = and-eq-true (is_printable c) (all is_printable t) h in
    rw (break_length-printable c (t ++ (0x0a ∷ rest)) both.0, lines_from)
      (lines_from-newline (line ++ (c ∷ [])) t rest both.1 ∙ rw append_assoc)

-- A printable line, its line feed and the rest.
pub split_lines-newline :
    (t rest : Bytes)
    → all is_printable t ≡ true
    → split_lines (t ++ (0x0a ∷ rest)) ≡ t ∷ split_lines rest
unfolding split_lines
split_lines-newline t rest h = lines_from-newline [] t rest h

pub split_lines-nil : split_lines [] ≡ []
unfolding split_lines
split_lines-nil = refl
