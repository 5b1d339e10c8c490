-- ===== src/Windows/Anchors/Once.antt =====
-- What `replace_unique` of scripts/patch_windows_app.py changes.
use codex_subscription_route.Prelude.{
  ok-injective, ℕ, zero, suc, ◌-◌, ◌≡◌, ◌≢◌, ◌∙◌, refl, sym, ap, subst, Bool, true, false, not, [],
  ◌∷◌, ◌++◌, arith, ◌==◌, length, drop, ==_iff, Bool-cases, inl, inr, if◌then◌else◌, ok,
  raise_if->>-eq-ok,
}
use codex_subscription_route.Text.{
  Bytes, starts_with, starts_with-eq_append, occurrences, count_from,
}
use codex_subscription_route.Windows.Anchors.{not_once, replace_first, replace_unique}

count_from-drop :
    (p : Bytes) (skip : ℕ) (s : Bytes) → count_from p skip s ≡ count_from p 0 (drop skip s)
unfolding count_from
count_from-drop p zero s = refl
count_from-drop p (suc skip) [] = refl
count_from-drop p (suc skip) (c ∷ s) = count_from-drop p skip s

count_from-step :
    (p : Bytes) (c : ℕ) (s : Bytes) (b : Bool)
    → starts_with (c ∷ s) p ≡ b
    → count_from p 0 (c ∷ s) ≡ (if b then suc (count_from p (length p - 1) s) else count_from p 0 s)
unfolding count_from
count_from-step p c s b e =
    ap (λ t. elim t [ true ↦ suc (count_from p (length p - 1) s) | false ↦ count_from p 0 s ]) e
    ∙ split b
  where
    split :
        (t : Bool)
        → elim t as (λ x. ℕ) [
          | true ↦ suc (count_from p (length p - 1) s)
          | false ↦ count_from p 0 s
        ]
          ≡ (if t then suc (count_from p (length p - 1) s) else count_from p 0 s)
    split true = refl
    split false = refl

-- The anchor stands once in the text, which is changed there.
pub record IsReplacedOnce (text anchor replacement result : Bytes) : Type 0 where
  pub before : Bytes
  pub after : Bytes
  pub found : text ≡ before ++ (anchor ++ after)
  pub changed : result ≡ before ++ (replacement ++ after)
  pub last : occurrences anchor after ≡ 0

replace_first_lem :
    (a : ℕ) (anchor replacement text : Bytes)
    → occurrences (a ∷ anchor) text ≡ 1
    → IsReplacedOnce text (a ∷ anchor) replacement (replace_first (a ∷ anchor) replacement text)
unfolding replace_first count_from
replace_first_lem a anchor replacement [] h = absurd (zero_ne 0 refl h)
  where
    zero_ne : (n : ℕ) → n ≡ 0 → n ≢ 1
    zero_ne n e f = omega (arith, e, f)
replace_first_lem a anchor replacement (c ∷ text) h =
    elim (Bool-cases (starts_with (c ∷ text) (a ∷ anchor))) [
      | inl here ↦
          let h' = sym (count_from-step (a ∷ anchor) c text true here) ∙ h in
          record {
            before = [];
            after = drop (length (a ∷ anchor)) (c ∷ text);
            found = starts_with-eq_append (c ∷ text) (a ∷ anchor) here;
            changed = rw (here) refl;
            last = sym (count_from-drop (a ∷ anchor) (length anchor) text) ∙ ground (arith, h');
          }
      | inr later ↦
          let h' = sym (count_from-step (a ∷ anchor) c text false later) ∙ h in
          let r = replace_first_lem a anchor replacement text h' in
          record {
            before = c ∷ r.before;
            after = r.after;
            found = ap (λ s. c ∷ s) r.found;
            changed = rw (later) (ap (λ s. c ∷ s) r.changed);
            last = r.last;
          }
    ]

-- Whenever `replace_unique` returns, for an anchor that is not empty: the text is the anchor between two
-- parts, the result is the replacement between the same parts, and the anchor stands nowhere in the second
-- one.
pub replace_unique-IsReplacedOnce :
    (text anchor replacement result : Bytes)
    → anchor ≢ []
    → replace_unique text anchor replacement ≡ ok result
    → IsReplacedOnce text anchor replacement result
unfolding replace_unique
replace_unique-IsReplacedOnce text [] replacement result n h = absurd (n refl)
replace_unique-IsReplacedOnce text (a ∷ anchor) replacement result n h =
    let count = occurrences (a ∷ anchor) text in
    let (once, made) = raise_if->>-eq-ok (not (count == 1)) (not_once count) _ h in
    let one = (==_iff count 1).0 (ground (arith, once)) in
    subst (IsReplacedOnce text (a ∷ anchor) replacement) (ok-injective made)
      (replace_first_lem a anchor replacement text one)
