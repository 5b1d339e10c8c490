-- ===== src/Regex.antt =====
-- Python's `re` for byte patterns: classes, runs of a class, alternatives, `\b`, and `^` and `$`
-- under `re.MULTILINE`. A match is a list of the ways in which it can end, so `search` finds one
-- exactly if backtracking does.
use mathlib.Core.List.{flat_map}
use codex_subscription_route.Prelude.{
  is_nil, ℕ, ◌+◌, ◌-◌, Bool, true, false, not, ◌&&◌, ◌||◌, Option, none, some, List, [], ◌∷◌, ◌++◌,
  ◌==◌, leb, if◌then◌else◌,
}
use codex_subscription_route.Text.{Bytes}

pub data Regex : Type 0 where
  -- the empty pattern, one byte of a class, and at least so many bytes of a class
  nothing : Regex
  one : (ℕ → Bool) → Regex
  run : (ℕ → Bool) → ℕ → Regex
  seq alt : Regex → Regex → Regex
  -- `\b`, `^` and `$`
  word_boundary line_start line_end : Regex

-- The byte before the position, and what follows the position.
abbrev pub Position : Type 0
Position = Option ℕ × Bytes

abbrev pub is_word : ℕ → Bool
is_word c =
    leb b'0' c && leb c b'9' || leb b'A' c && leb c b'Z' || leb b'a' c && leb c b'z' || c == b'_'

abbrev pub is_space : ℕ → Bool
is_space c = c == b' ' || leb 0x09 c && leb c 0x0d

abbrev word_before : Option ℕ → Bool
word_before none = false
word_before (some c) = is_word c

abbrev word_after : Bytes → Bool
word_after [] = false
word_after (c ∷ s) = is_word c

abbrev differ : Bool → Bool → Bool
differ true b = not b
differ false b = b

abbrev starts_line : Option ℕ → Bool
starts_line none = true
starts_line (some c) = c == b'\n'

abbrev ends_line : Bytes → Bool
ends_line [] = true
ends_line (c ∷ s) = c == b'\n'

abbrev only_if : Bool → Position → List Position
only_if true p = p ∷ []
only_if false p = []

unfoldable pub run_ends : (ℕ → Bool) → ℕ → Option ℕ → Bytes → List Position
run_ends class n before [] = only_if (n == 0) (before, [])
run_ends class n before (c ∷ s) =
    let longer = run_ends class (n - 1) (some c) s in
    only_if (n == 0) (before, c ∷ s) ++ (if class c then longer else [])

unfoldable pub one_end : (ℕ → Bool) → Bytes → List Position
one_end class [] = []
one_end class (c ∷ s) = only_if (class c) (some c, s)

unfoldable pub matches : Regex → Option ℕ → Bytes → List Position
unfolding run_ends one_end flat_map
matches nothing before s = (before, s) ∷ []
matches (one class) before s = one_end class s
matches (run class n) before s = run_ends class n before s
matches (seq a b) before s = flat_map (λ (p : Position). matches b p.0 p.1) (matches a before s)
matches (alt a b) before s = matches a before s ++ matches b before s
matches word_boundary before s = only_if (differ (word_before before) (word_after s)) (before, s)
matches line_start before s = only_if (starts_line before) (before, s)
matches line_end before s = only_if (ends_line s) (before, s)

unfoldable pub search_from : Regex → Option ℕ → Bytes → Bool
unfolding matches
search_from r before [] = not (is_nil (matches r before []))
search_from r before (c ∷ s) =
    let later = search_from r (some c) s in
    if is_nil (matches r before (c ∷ s)) then later else true

-- `pattern.search(data) is not None`
unfoldable pub search_in : Regex → Bytes → Bool
unfolding search_from
search_in r s = search_from r none s

-- A literal text, and one under `re.IGNORECASE`.
abbrev pub literal : Bytes → Regex
literal [] = nothing
literal (c ∷ s) = seq (one (λ x. x == c)) (literal s)

abbrev lower_byte : ℕ → ℕ
lower_byte c = if leb b'A' c && leb c b'Z' then c + 32 else c

abbrev pub literal_any_case : Bytes → Regex
literal_any_case [] = nothing
literal_any_case (c ∷ s) = seq (one (λ x. lower_byte x == lower_byte c)) (literal_any_case s)
