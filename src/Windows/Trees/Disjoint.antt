-- ===== src/Windows/Trees/Disjoint.antt =====
-- What `validate_source_destination` and `tree_digest` of scripts/patch_windows_app.py tell apart.
use codex_subscription_route.Prelude.{
  ◌⊎◌, ℕ, ◌≡◌, ◌≢◌, ◌∙◌, refl, sym, true, false, ◌||◌, List, [], ◌∷◌, ◌++◌, inl, inr, All,
  not_of_false, and-eq-true, or-eq-false, ok, raise_if-eq-ok, raise_if->>-eq-ok,
}
use codex_subscription_route.Text.{Bytes, bytes_eq, bytes_eq_iff, Lacks, Lacks-append}
use codex_subscription_route.Windows.Trees.{
  Parts, inside_source, above_source, inside_windows_apps, is_relative_to, same_path,
  validate_source_destination, tree_text, tree_digest,
}

-- Of two directories above one path, one is above the other.
comparable :
    (path one other : Parts)
    → is_relative_to path one ≡ true
    → is_relative_to path other ≡ true
    → (is_relative_to one other ≡ true) ⊎ (is_relative_to other one ≡ true)
unfolding is_relative_to
comparable path one [] h k = inl refl
comparable path [] (o ∷ other) h k = inr refl
comparable [] (p ∷ one) (o ∷ other) h k = cc h
comparable (x ∷ path) (p ∷ one) (o ∷ other) h k =
    let (first, rest) = and-eq-true (bytes_eq x p) (is_relative_to path one) h in
    let (second, more) = and-eq-true (bytes_eq x o) (is_relative_to path other) k in
    let same_p = (bytes_eq_iff x p).0 first in
    let same_o = (bytes_eq_iff x o).0 second in
    elim (comparable path one other rest more) [
      | inl below ↦ inl (rw ((bytes_eq_iff p o).1 (sym same_p ∙ same_o), below) refl)
      | inr above ↦ inr (rw ((bytes_eq_iff o p).1 (sym same_o ∙ same_p), above) refl)
    ]

-- Where `validate_source_destination` returns, no path is both below the destination and below the source,
-- and the destination is not below `WindowsApps`: nothing that is written below the destination is part of
-- the source.
pub validate_source_destination-disjoint :
    (source target windows_apps path : Parts)
    → validate_source_destination source target windows_apps ≡ ok tt
    → (¬ ((is_relative_to path target ≡ true) × (is_relative_to path source ≡ true)))
      × (is_relative_to target windows_apps ≡ false)
unfolding validate_source_destination
validate_source_destination-disjoint source target windows_apps path h =
    let (outside, h1) =
      raise_if->>-eq-ok (same_path source target || is_relative_to target source) inside_source _
        h in
    let (not_above, h2) = raise_if->>-eq-ok (is_relative_to source target) above_source _ h1 in
    let apart = raise_if-eq-ok (is_relative_to target windows_apps) inside_windows_apps h2 in
    let (_, not_below) =
      or-eq-false (same_path source target) (is_relative_to target source) outside in
    (
      λ (one, two). elim (comparable path target source one two) [
        | inl below ↦ not_of_false (is_relative_to target source) (λ e. e) not_below below
        | inr above ↦ not_of_false (is_relative_to source target) (λ e. e) not_above above
      ],
      apart,
    )

-- A name without a zero byte, and a hash without a line break.
abbrev pub IsNamed : Bytes × Bytes → Type 0
IsNamed e = Lacks 0 e.0 × Lacks b'\n' e.1

ne_nil-append : (s t : Bytes) (c : ℕ) → [] ≢ s ++ (c ∷ t)
ne_nil-append [] t c e = cc e
ne_nil-append (x ∷ s) t c e = cc e

tree_text_injective :
    (first second : List (Bytes × Bytes))
    → All IsNamed first
    → All IsNamed second
    → tree_text first ≡ tree_text second
    → first ≡ second
unfolding tree_text
tree_text_injective [] [] h k e = refl
tree_text_injective [] ((n, s) ∷ ys) h k e = absurd (ne_nil-append n _ 0 e)
tree_text_injective ((n, s) ∷ xs) [] h k e = absurd (ne_nil-append n _ 0 (sym e))
tree_text_injective ((n, s) ∷ xs) ((m, t) ∷ ys) h k e =
    let (same_n, rest) = Lacks-append 0 n m _ _ h.0.0 k.0.0 e in
    let (same_s, more) = Lacks-append b'\n' s t _ _ h.0.1 k.0.1 rest in
    let same = tree_text_injective xs ys h.1 k.1 more in cc

-- Trees whose digests are equal are the same, with names that have no zero byte and hashes that have no
-- line break, if the hash tells apart the texts of the two trees.
pub tree_digest_injective :
    (sha256 : Bytes → Bytes) (first second : List (Bytes × Bytes))
    → (sha256 (tree_text first) ≡ sha256 (tree_text second) → tree_text first ≡ tree_text second)
    → All IsNamed first
    → All IsNamed second
    → tree_digest sha256 first ≡ tree_digest sha256 second
    → first ≡ second
unfolding tree_digest
tree_digest_injective sha256 first second collide h k e =
    tree_text_injective first second h k (collide e)
