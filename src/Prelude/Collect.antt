-- ===== src/Prelude/Collect.antt =====
-- What holds of each value that a loop collects, and of the list of them.
use mathlib.Core.Path.{◌≡◌, ap, subst, ◌∙◌, sym}
use mathlib.Core.List.{List, [], ◌∷◌, map}
use Prim.Native.Nat.{suc}
use codex_subscription_route.Prelude.Lists.{All, length}
use codex_subscription_route.Prelude.Errors.{Outcome, ok, collect, >>=-eq-ok, ok-injective}

module _ {ℓ κ μ} {E : Type ℓ} {A : Type κ} {B : Type μ} (f : A → Outcome E B) where
  collect-cons :
      (x : A) (xs : List A) {ys : List B}
      → collect f (x ∷ xs) ≡ ok ys
      → (y : B) × (zs : List B) × (f x ≡ ok y) × (collect f xs ≡ ok zs) × ((y ∷ zs) ≡ ys)
  collect-cons x xs h =
      let (y, made, h1) = >>=-eq-ok (f x) _ h in
      let (zs, rest, h2) = >>=-eq-ok (collect f xs) _ h1 in (y, zs, made, rest, ok-injective h2)

  pub collect-All {ν} :
      (Q : B → Type ν) (xs : List A) {ys : List B}
      → ((x : A) (y : B) → f x ≡ ok y → Q y)
      → collect f xs ≡ ok ys
      → All Q ys
  collect-All Q [] body h = subst (All Q) (ok-injective h) tt
  collect-All Q (x ∷ xs) body h =
      let (y, zs, made, rest, same) = collect-cons x xs h in
      subst (All Q) same (body x y made, collect-All Q xs body rest)

  pub collect-map {ν} :
      {K : Type ν} (key : A → K) (name : B → K) (xs : List A) {ys : List B}
      → ((x : A) (y : B) → f x ≡ ok y → name y ≡ key x)
      → collect f xs ≡ ok ys
      → map name ys ≡ map key xs
  collect-map key name [] body h = ap (map name) (sym (ok-injective h))
  collect-map key name (x ∷ xs) body h =
      let (y, zs, made, rest, same) = collect-cons x xs h in
      ap (map name) (sym same)
      ∙ ap (λ k. k ∷ map name zs) (body x y made)
      ∙ ap (λ ks. key x ∷ ks) (collect-map key name xs body rest)

  pub collect-length : (xs : List A) {ys : List B} → collect f xs ≡ ok ys → length ys ≡ length xs
  collect-length [] h = ap length (sym (ok-injective h))
  collect-length (x ∷ xs) h =
      let (y, zs, made, rest, same) = collect-cons x xs h in
      ap length (sym same) ∙ ap suc (collect-length xs rest)
