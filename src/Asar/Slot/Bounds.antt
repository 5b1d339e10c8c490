-- ===== src/Asar/Slot/Bounds.antt =====
-- Where the slot that `integrity_hash_slot` of scripts/windows_asar_integrity.py returns lies.
use codex_subscription_route.Prelude.{
  ok-injective, All-map, ℕ, zero, suc, ◌+◌, ◌-◌, ◌≤◌, ◌≡◌, ◌∙◌, refl, sym, ap, subst, true, not,
  ◌&&◌, Option, none, some, List, [], ◌∷◌, arith, leb, length, take, drop, ==_iff, Bool-cases, inl,
  inr, All, and-eq-true, ok, >>=-eq-ok, raise_if->>-eq-ok, length-take, length-drop,
}
use mathlib.Core.Option.{some-injective}
use codex_subscription_route.Text.{Bytes, codes}
use codex_subscription_route.Asar.Binary.{
  AsarError, unexpected_contract, resource_size_invalid, ambiguous_field, slice,
}
use codex_subscription_route.Json.{Json, JsonFields, lookup, keys}
use codex_subscription_route.Asar.Resources.{file_offset, only}
use codex_subscription_route.Asar.Slices.{take-drop-take, drop-drop}
use codex_subscription_route.Asar.Slot.{
  max_pe_bytes, read_layout, check_contract, check_object, only_object, checked_value, text_of,
  text_is, same_keys, parsed, find_payload, read_payload, integrity_hash_slot,
}
use codex_subscription_route.Asar.Slot.Field.{
  is_hash, literal_at, skip_spaces, then_at, hash_at, digits_after, value_after, hash_field_at,
  after_match, hash_fields,
}

-- Digits of a hash that start at a position.
abbrev pub HashAt : Bytes → ℕ → Type 0
HashAt s i = is_hash (take 64 (drop i s)) ≡ true

then_at-eq-some :
    (o : Option ℕ) (k : ℕ → Option ℕ) {r : ℕ} → then_at o k ≡ some r → (n : ℕ) × (k n ≡ some r)
then_at-eq-some none k h = cc
then_at-eq-some (some n) k h = (n, h)

hash_at-HashAt : (s : Bytes) (start : ℕ) {r : ℕ} → hash_at s start ≡ some r → HashAt s r
hash_at-HashAt s start {r = r} h = elim (Bool-cases (is_hash (take 64 (drop start s)))) [
  | inl digits ↦
      let (n, same) =
        then_at-eq-some (literal_at (codes "\"") (start + 64) s) (λ _. some start)
          (rw (digits) at h) in
      subst (HashAt s) (some-injective _ _ same) digits
  | inr other ↦ let h' = rw (other) at h in cc
]

hash_field_at-HashAt : (s : Bytes) {r : ℕ} → hash_field_at s ≡ some r → HashAt s r
unfolding hash_field_at
hash_field_at-HashAt s h =
    let (a, h1) = then_at-eq-some (literal_at (codes "\"value\"") 0 s) (value_after s) h in
    let (b, h2) =
      then_at-eq-some (literal_at (codes ":") (skip_spaces a s) s) (digits_after s) h1 in
    let (c, h3) = then_at-eq-some (literal_at (codes "\"") (skip_spaces b s) s) (hash_at s) h2 in
    hash_at-HashAt s c h3

-- The position is that of some digits behind `position`.
abbrev pub Found : ℕ → Bytes → ℕ → Type 0
Found position s e = (i : ℕ) × (e ≡ position + i) × HashAt s i

later : (position c : ℕ) (s : Bytes) (e : ℕ) → Found (suc position) s e → Found position (c ∷ s) e
later position c s e (i, same, digits) = (suc i, omega arith, digits)

after_match-All :
    (position : ℕ) (s : Bytes) (o : Option ℕ) (search : ℕ → List ℕ)
    → hash_field_at s ≡ o
    → ((skip : ℕ) → All (Found position s) (search skip))
    → All (Found position s) (after_match position o search)
after_match-All position s none search e f = f 0
after_match-All position s (some start) search e f =
    ((start, refl, hash_field_at-HashAt s e), f (start + 64))

hash_fields-All :
    (position skip : ℕ) (s : Bytes) → All (Found position s) (hash_fields position skip s)
unfolding hash_fields
hash_fields-All position skip [] = tt
hash_fields-All position (suc skip) (c ∷ s) =
    All-map (Found (suc position) s) (Found position (c ∷ s)) (later position c s)
      (hash_fields (suc position) skip s) (hash_fields-All (suc position) skip s)
hash_fields-All position zero (c ∷ s) =
    after_match-All position (c ∷ s) (hash_field_at (c ∷ s)) _ refl (λ skip.
      All-map (Found (suc position) s) (Found position (c ∷ s)) (later position c s)
        (hash_fields (suc position) skip s) (hash_fields-All (suc position) skip s))

only-eq-ok : {A : Type 0} (e : AsarError) (xs : List A) {x : A} → only e xs ≡ ok x → xs ≡ x ∷ []
only-eq-ok e [] h = cc
only-eq-ok e (y ∷ []) h = cc
only-eq-ok e (y ∷ z ∷ xs) h = cc

is_hash-length : (s : Bytes) → is_hash s ≡ true → length s ≡ 64
unfolding is_hash
is_hash-length s h = (==_iff _ _).0 ((and-eq-true _ _ h).0)

-- Digits in a slice are digits of the file.
slice-HashAt :
    (content : Bytes) (start size i : ℕ)
    → HashAt (slice start (start + size) content) i
    → HashAt content (start + i)
slice-HashAt content start size i h =
    let part =
      take-drop-take (start + size - start) 64 i (drop start content) (is_hash-length _ h) in
    let whole = ap (take 64) (drop-drop start i (start + i) content refl) in
    subst (λ s. is_hash s ≡ true) (part ∙ whole) h

HashAt-fits : (content : Bytes) (i : ℕ) → HashAt content i → i + 64 ≤ length content
HashAt-fits content i h =
    omega (arith, is_hash-length _ h, length-take 64 (drop i content), length-drop i content)

-- The value that the tests of the contract return is a hash.
checked_value-eq-ok : (o : Option Bytes) {v : Bytes} → checked_value o ≡ ok v → is_hash v ≡ true
checked_value-eq-ok none h = cc
checked_value-eq-ok (some t) h =
    let (good, same) = raise_if->>-eq-ok (not (is_hash t)) unexpected_contract (ok t) h in
    subst (λ v. is_hash v ≡ true) (ok-injective same) (ground arith)

check_object-eq-ok : (o : Option JsonFields) {v : Bytes} → check_object o ≡ ok v → is_hash v ≡ true
check_object-eq-ok none h = cc
check_object-eq-ok (some fields) h =
    let file = text_of (lookup (codes "file") fields) in
    let alg = text_of (lookup (codes "alg") fields) in
    let (_, h1) = raise_if->>-eq-ok (not (same_keys (keys fields))) unexpected_contract _ h in
    let (_, h2) =
      raise_if->>-eq-ok (not (text_is (codes "resources\\app.asar") file)) unexpected_contract _
        h1 in
    let (_, h3) = raise_if->>-eq-ok (not (text_is (codes "SHA256") alg)) unexpected_contract _ h2 in
    checked_value-eq-ok (text_of (lookup (codes "value") fields)) h3

check_contract-eq-ok : (d : Json) {v : Bytes} → check_contract d ≡ ok v → is_hash v ≡ true
unfolding check_contract
check_contract-eq-ok d h = check_object-eq-ok (only_object d) h

module _ (decode : Bytes → Option Bytes) (loads : Bytes → Option Json) where
  read_payload-eq-ok :
      (payload : Bytes) (payload_offset : ℕ) {slot : ℕ} {v : Bytes}
      → read_payload decode loads payload payload_offset ≡ ok (slot, v)
      → ((i : ℕ) × (slot ≡ payload_offset + i) × HashAt payload i) × (is_hash v ≡ true)
  unfolding read_payload
  read_payload-eq-ok payload payload_offset h =
      let (decoded, h1, h2) = >>=-eq-ok (parsed (loads payload)) _ h in
      let (value, h3, h4) = >>=-eq-ok (check_contract decoded) _ h2 in
      let (start, h5, h6) = >>=-eq-ok (only ambiguous_field (hash_fields 0 0 payload)) _ h4 in
      let found = subst (All (Found 0 payload)) (only-eq-ok _ _ h5) (hash_fields-All 0 0 payload) in
      let (i, at, digits) = found.0 in
      let same = ok-injective h6 in
      (
        (i, sym (ap (λ p. p.0) same) ∙ omega arith, digits),
        subst (λ w. is_hash w ≡ true) (ap (λ p. p.1) same) (check_contract-eq-ok decoded h3),
      )

  -- The slot that `integrity_hash_slot` returns lies in the file and holds 64 hexadecimal digits, and
  -- the recorded hash is 64 hexadecimal digits, whatever the file, the decoder of names and the JSON
  -- reader are.
  pub integrity_hash_slot-HashAt :
      (content : Bytes) (slot : ℕ) (recorded : Bytes)
      → integrity_hash_slot decode loads content ≡ ok (slot, recorded)
      → (slot + 64 ≤ length content)
        × (is_hash (take 64 (drop slot content)) ≡ true)
        × (is_hash recorded ≡ true)
  unfolding integrity_hash_slot
  integrity_hash_slot-HashAt content slot recorded h =
      let ((sections, rva, size), _, h1) = >>=-eq-ok (read_layout content) _ h in
      let (_, h2) =
        raise_if->>-eq-ok (not (leb 16 size && leb size max_pe_bytes)) resource_size_invalid _ h1 in
      let (base, _, h3) = >>=-eq-ok (file_offset sections rva size) _ h2 in
      let ((payload_offset, payload_size), _, h4) =
        >>=-eq-ok
          (find_payload decode loads content sections
            (record { base = base; resource_size = size }))
          _ h3 in
      let ((i, at, digits), good) = read_payload-eq-ok _ payload_offset h4 in
      let there = slice-HashAt content payload_offset payload_size i digits in
      let here = subst (HashAt content) (sym at) there in
      (HashAt-fits content slot here, here, good)
