-- ===== src/Asar/Fuses/Sound.antt =====
-- The fuses that `verify_integrity_fuses` of scripts/windows_asar_integrity.py accepts.
use codex_subscription_route.Prelude.{
  ℕ, zero, suc, ◌+◌, ◌-◌, ◌*◌, ◌≤◌, ◌<◌, ◌≡◌, ◌↔◌, ◌∙◌, refl, sym, ap, subst, true, false, not,
  ◌&&◌, ◌||◌, Option, none, some, [], ◌∷◌, arith, ◌==◌, ltb, leb, ltb_iff, length, drop, get_elem?,
  ==_iff, Bool-cases, Option-cases, inl, inr, not_of_false, or-eq-false, ok, raise_if-eq-ok,
  raise_if->>-eq-ok,
}
use mathlib.Core.Option.{some-injective}
use codex_subscription_route.Text.{Bytes, bytes_eq, bytes_eq_iff, codes, starts_with}
use codex_subscription_route.Asar.Binary.{
  no_runtime, no_fuse_wire, fuse_version, fuse_truncated, fuse_disabled, slice,
}
use codex_subscription_route.Asar.Slices.{drop-drop, get-slice}
use codex_subscription_route.Asar.Fuses.{
  fuse_sentinel, find, byte, check_wire, is_found, check_sentinel, verify_integrity_fuses,
}

-- The pattern stands at a position.
abbrev pub StandsAt : Bytes → Bytes → ℕ → Type 0
StandsAt p s i = starts_with (drop i s) p ≡ true

module _ (b : ℕ) (p : Bytes) where
  find-StandsAt : (s : Bytes) (i : ℕ) → find (b ∷ p) s ≡ some i → StandsAt (b ∷ p) s i
  unfolding find
  find-StandsAt [] i h = cc
  find-StandsAt (c ∷ s) i h = elim (Bool-cases (starts_with (c ∷ s) (b ∷ p))) [
    | inl here ↦
        let h' = rw (here) at h in subst (StandsAt (b ∷ p) (c ∷ s)) (some-injective _ _ h') here
    | inr away ↦ elim (Option-cases (find (b ∷ p) s)) [
      | inl nowhere ↦ let h' = rw (away, nowhere) at h in cc
      | inr (n, there) ↦
          let h' = rw (away, there) at h in
          subst (StandsAt (b ∷ p) (c ∷ s)) (some-injective _ _ h') (find-StandsAt s n there)
    ]
  ]

  not_found : (s : Bytes) (j : ℕ) → find (b ∷ p) s ≡ none → StandsAt (b ∷ p) s j → ⊥
  unfolding find starts_with
  not_found [] zero h there = cc
  not_found [] (suc j) h there = cc
  not_found (c ∷ s) zero h there = let h' = rw (there) at h in cc
  not_found (c ∷ s) (suc j) h there = elim (Bool-cases (starts_with (c ∷ s) (b ∷ p))) [
    | inl here ↦ let h' = rw (here) at h in cc
    | inr away ↦ elim (Option-cases (find (b ∷ p) s)) [
      | inl nowhere ↦ not_found s j nowhere there
      | inr (n, found) ↦ let h' = rw (away, found) at h in cc
    ]
  ]

  -- The first place is the least.
  find-least : (s : Bytes) (i j : ℕ) → find (b ∷ p) s ≡ some i → StandsAt (b ∷ p) s j → i ≤ j
  unfolding find
  find-least [] i j h there = cc
  find-least (c ∷ s) i zero h there =
      let h' = rw (there) at h in let same = some-injective _ _ h' in omega arith
  find-least (c ∷ s) i (suc j) h there = elim (Bool-cases (starts_with (c ∷ s) (b ∷ p))) [
    | inl here ↦ let h' = rw (here) at h in let same = some-injective _ _ h' in omega arith
    | inr away ↦ elim (Option-cases (find (b ∷ p) s)) [
      | inl nowhere ↦ let h' = rw (away, nowhere) at h in cc
      | inr (n, found) ↦
          let h' = rw (away, found) at h in
          let same = some-injective _ _ h' in omega (arith, find-least s n j found there)
    ]
  ]

  -- A place with no other behind it is the only one.
  find-only :
      (s : Bytes) (i j : ℕ)
      → find (b ∷ p) s ≡ some i
      → find (b ∷ p) (drop (i + 1) s) ≡ none
      → StandsAt (b ∷ p) s j
      → j ≡ i
  find-only s i j h none_behind there = elim (Bool-cases (ltb i j)) [
    | inl behind ↦
        let beyond = (ltb_iff i j).0 behind in
        let same = drop-drop (i + 1) (j - (i + 1)) j s (omega arith) in
        absurd (
          not_found (drop (i + 1) s) (j - (i + 1)) none_behind
            (subst (λ t. starts_with t (b ∷ p) ≡ true) (sym same) there))
    | inr not_behind ↦
        let least = find-least s i j h there in
        omega (arith, not_of_false (ltb i j) (ltb_iff i j).1 not_behind)
  ]

is_found-eq-false : (o : Option ℕ) → is_found o ≡ false → o ≡ none
is_found-eq-false none h = refl
is_found-eq-false (some i) h = cc

-- A wire of version 1 whose fifth and sixth fuse are on.
abbrev pub WireOn : Bytes → ℕ → Type 0
WireOn content wire =
    (byte content wire ≡ 1)
    × (get_elem? content (wire + 6) ≡ some b'1')
    × (get_elem? content (wire + 7) ≡ some b'1')

check_wire-WireOn :
    (content : Bytes) (wire : ℕ) → check_wire content wire ≡ ok tt → WireOn content wire
unfolding check_wire
check_wire-WireOn content wire h =
    let count = byte content (wire + 1) in
    let states = slice (wire + 2) (wire + 2 + count) content in
    let (version, h1) =
      raise_if->>-eq-ok (ltb (length content) (wire + 2) || not (byte content wire == 1))
        fuse_version _ h in
    let (long, h2) =
      raise_if->>-eq-ok (ltb count 6 || ltb (length content) (wire + 2 + count)) fuse_truncated _
        h1 in
    let off = raise_if-eq-ok (not (bytes_eq (slice 4 6 states) (codes "11"))) fuse_disabled h2 in
    let both = (bytes_eq_iff (slice 4 6 states) (codes "11")).0 (ground arith) in
    let six : 6 ≤ count =
      omega (arith, not_of_false (ltb count 6) (ltb_iff count 6).1 (or-eq-false _ _ long).0) in
    let fuse : (i n : ℕ)
        → i < 2
        → n ≡ wire + 6 + i
        → get_elem? (slice 4 6 states) i ≡ get_elem? content n =
      λ i n lt e.
        get-slice 4 6 i (4 + i) states (omega arith) refl
        ∙ get-slice (wire + 2) (wire + 2 + count) (4 + i) n content (omega arith) (omega arith) in
    (
      (==_iff _ _).0 (ground arith),
      sym (fuse 0 (wire + 6) (omega arith) (omega arith)) ∙ ap (λ t. get_elem? t 0) both,
      sym (fuse 1 (wire + 7) (omega arith) (omega arith)) ∙ ap (λ t. get_elem? t 1) both,
    )

-- `verify_integrity_fuses` accepts a library only if the fuse sentinel stands at one place in it and
-- the wire behind it is of version 1 and has the fuses for embedded ASAR integrity validation and for
-- loading only from the archive switched on.
pub verify_integrity_fuses_sound :
    (content : Bytes)
    → verify_integrity_fuses (some content) ≡ ok tt
    → (offset : ℕ) × ((j : ℕ) → StandsAt fuse_sentinel content j ↔ (j ≡ offset))
      × WireOn content (offset + 32)
unfolding verify_integrity_fuses check_sentinel
verify_integrity_fuses_sound content h =
    let (_, h1) =
      raise_if->>-eq-ok (not (leb 64 (length content) && leb (length content) (512 * 1024 * 1024)))
        no_runtime _ h in
    elim (Option-cases (find fuse_sentinel content)) [
      | inl nowhere ↦ let h2 = rw (nowhere) at h1 in cc
      | inr (offset, found) ↦
          let h2 = rw (found) at h1 in
          let (once, h3) =
            raise_if->>-eq-ok (is_found (find fuse_sentinel (drop (offset + 1) content)))
              no_fuse_wire _ h2 in
          let only = λ (j : ℕ). find-only _ _ content offset j found (is_found-eq-false _ once) in
          (
            offset,
            λ j. (
              only j,
              λ same.
                  subst (StandsAt fuse_sentinel content) (sym same)
                    (find-StandsAt _ _ content offset found),
            ),
            check_wire-WireOn content (offset + 32) h3,
          )
    ]
