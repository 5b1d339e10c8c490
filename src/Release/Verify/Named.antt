-- ===== src/Release/Verify/Named.antt =====
-- Sets of names with a common prefix, as `verify_release` of scripts/release/release_artifacts.py
-- compares them.
use codex_subscription_route.Prelude.{
  all-append, ◌≡◌, ◌∙◌, refl, true, false, List, [], ◌∷◌, ◌++◌, map, arith, all, and-eq-true,
}
use codex_subscription_route.Text.{
  Bytes, bytes_eq, bytes_eq_comm, bytes_eq_self, contains, contains-append, contains-prefixed,
  Distinct, Distinct-prefixed, Distinct-snoc,
}
use codex_subscription_route.Release.Verify.{same_set}

-- Names with a common prefix, and one name that does not have it.
module _ (p z : Bytes) (other : (e : Bytes) → bytes_eq (p ++ e) z ≡ false) where
  abbrev pub prefixed : List Bytes → List Bytes
  prefixed es = map (λ e. p ++ e) es

  first_aside :
      (es fs : List Bytes)
      → all (contains fs) es ≡ true
      → all (contains (z ∷ prefixed fs)) (prefixed es) ≡ true
  unfolding contains
  first_aside [] fs h = refl
  first_aside (e ∷ es) fs h =
      let (here, rest) = and-eq-true (contains fs e) (all (contains fs) es) h in
      rw (other e, contains-prefixed p fs e, here, first_aside es fs rest)

  last_aside :
      (es fs : List Bytes)
      → all (contains es) fs ≡ true
      → all (contains (prefixed es ++ (z ∷ []))) (prefixed fs) ≡ true
  last_aside es [] h = refl
  last_aside es (f ∷ fs) h =
      let (here, rest) = and-eq-true (contains es f) (all (contains es) fs) h in
      rw (
        contains-append (prefixed es) (z ∷ []) (p ++ f),
        contains-prefixed p es f,
        here,
        last_aside es fs rest,
      )

  -- The same names on both sides, with the other name at the end of one and at the front of the other.
  pub same_set-prefixed :
      (es fs : List Bytes)
      → same_set es fs ≡ true
      → same_set (prefixed es ++ (z ∷ [])) (z ∷ prefixed fs) ≡ true
  unfolding contains
  same_set-prefixed es fs h =
      let (one, two) = and-eq-true (all (contains fs) es) (all (contains es) fs) h in
      let last : contains (prefixed es ++ (z ∷ [])) z ≡ true =
        contains-append (prefixed es) (z ∷ []) z ∙ ground (arith, bytes_eq_self z) in
      rw (
        all-append (contains (z ∷ prefixed fs)) (prefixed es) (z ∷ []),
        first_aside es fs one,
        bytes_eq_self z,
        last,
        last_aside es fs two,
      )

  pub same_set-names :
      (es fs : List Bytes) → same_set es fs ≡ true → same_set (prefixed es) (prefixed fs) ≡ true
  same_set-names es fs h =
      let (one, two) = and-eq-true (all (contains fs) es) (all (contains es) fs) h in
      rw (known es fs one, known fs es two)
    where
      known :
          (as' bs : List Bytes)
          → all (contains bs) as' ≡ true
          → all (contains (prefixed bs)) (prefixed as') ≡ true
      known [] bs k = refl
      known (a ∷ as') bs k =
          let (here, rest) = and-eq-true (contains bs a) (all (contains bs) as') k in
          rw (contains-prefixed p bs a, here, known as' bs rest)

  away : (ss : List Bytes) → contains (prefixed ss) z ≡ false
  unfolding contains
  away [] = refl
  away (s ∷ ss) = rw (bytes_eq_comm z (p ++ s), other s, away ss)

  pub names-Distinct : (es : List Bytes) → Distinct es → Distinct (prefixed es ++ (z ∷ []))
  names-Distinct es d = Distinct-snoc (prefixed es) z (Distinct-prefixed p es d) (away es)
