-- ===== src/Prelude/Errors.antt =====
-- A Python call that may raise: a result or the exception.
use mathlib.Core.Path.{◌≡◌, refl}
use mathlib.Core.Logic.{◌⊎◌, inl, inr}
use mathlib.Core.Bool.{Bool, true, false}
use mathlib.Core.List.{List, [], ◌∷◌}

pub data Outcome {ℓ κ} (E : Type ℓ) (A : Type κ) : Type (ℓ ⊔ κ) where
  ok : A → Outcome E A
  err : E → Outcome E A

module _ {ℓ} {E : Type ℓ} where
  infixl 5 ◌>>=◌ ◌>>◌
  abbrev pub ◌>>=◌ {κ μ} : {A : Type κ} {B : Type μ} → Outcome E A → (A → Outcome E B) → Outcome E B
  err e >>= next = err e
  ok a >>= next = next a

  abbrev pub ◌>>◌ {κ} : {B : Type κ} → Outcome E (Unit {0}) → Outcome E B → Outcome E B
  check >> rest = check >>= λ _. rest

  -- `if bad: raise e`
  abbrev pub raise_if : Bool → E → Outcome E (Unit {0})
  raise_if true e = err e
  raise_if false e = ok tt

  -- `for x in xs: body(x)`, where the body raises or returns a value to collect.
  abbrev pub collect {κ μ} :
      {A : Type κ} {B : Type μ} → (A → Outcome E B) → List A → Outcome E (List B)
  collect f [] = ok []
  collect f (x ∷ xs) = let rest = collect f xs in f x >>= λ y. rest >>= λ ys. ok (y ∷ ys)

  pub raise_if-eq-ok : (b : Bool) (e : E) {u : Unit {0}} → raise_if b e ≡ ok u → b ≡ false
  raise_if-eq-ok true e h = cc
  raise_if-eq-ok false e h = refl

  -- A check that succeeds, and what follows it succeeding.
  pub raise_if->>-eq-ok {κ} :
      {B : Type κ} (b : Bool) (e : E) (k : Outcome E B) {r : B}
      → (raise_if b e >> k) ≡ ok r
      → (b ≡ false) × (k ≡ ok r)
  raise_if->>-eq-ok true e k h = cc
  raise_if->>-eq-ok false e k h = (refl, h)

-- A chain that succeeds: its first call returned a value, and the rest succeeded on that value.
module _ {ℓ κ μ} {E : Type ℓ} {R : Type κ} {S : Type μ} where
  pub >>=-eq-ok :
      (call : Outcome E R) (next : R → Outcome E S) {s : S}
      → (call >>= next) ≡ ok s
      → (r : R) × (call ≡ ok r) × (next r ≡ ok s)
  >>=-eq-ok (err e) next done = cc
  >>=-eq-ok (ok r) next done = (r, refl, done)

pub ok-injective {ℓ κ} :
    {E : Type ℓ} {A : Type κ} {a b : A} → ◌≡◌ {A = Outcome E A} (ok a) (ok b) → a ≡ b
ok-injective h = cc

pub Outcome-cases {ℓ κ} :
    {E : Type ℓ} {A : Type κ} (o : Outcome E A) → ((a : A) × (o ≡ ok a)) ⊎ ((e : E) × (o ≡ err e))
Outcome-cases (ok a) = inl (a, refl)
Outcome-cases (err e) = inr (e, refl)
