-- ===== src/Windows/Token/Once.antt =====
-- The control token of scripts/patch_windows_app.py is written once.
use codex_subscription_route.Prelude.{
  ok-injective, ◌⊎◌, ℕ, ◌≡◌, ◌∙◌, refl, sym, ap, Bool, true, false, not, ◌&&◌, Option, none, some,
  [], ◌∷◌, arith, ◌==◌, ltb, all, length, Bool-cases, inl, inr, and-eq-true, ok, >>=-eq-ok,
  raise_if->>-eq-ok,
}
use mathlib.Core.Option.{some-injective}
use codex_subscription_route.Text.{
  Bytes, bytes_eq, bytes_eq_iff, bytes_eq_self, is_utf8, is_line_byte, is_utf8_of_ascii,
}
use codex_subscription_route.Asar.Slot.Field.{is_hash, is_hex}
use codex_subscription_route.Windows.Token.{
  invalid_token, changed_concurrently, not_utf8, not_ascii, is_ascii, Calls, TokenFile,
  prepare_control_token, compare_digest, keep_token, write_token, persist_control_token,
}

is_hex-low : (c : ℕ) → is_hex c ≡ true → ltb c 128 ≡ true
is_hex-low c h = ground arith

is_hash-digits : (s : Bytes) → is_hash s ≡ true → all is_hex s ≡ true
unfolding is_hash
is_hash-digits s h = (and-eq-true (length s == 64) (all is_hex s) h).1

is_hex-is_line_byte : (c : ℕ) → is_hex c ≡ true → is_line_byte c ≡ true
is_hex-is_line_byte c h = ground arith

line_bytes : (s : Bytes) → all is_hex s ≡ true → all is_line_byte s ≡ true
line_bytes [] h = refl
line_bytes (c ∷ s) h =
    let (digit, rest) = and-eq-true (is_hex c) (all is_hex s) h in
    rw (line_bytes s rest, is_hex-is_line_byte c digit) refl

is_hash-is_utf8 : (s : Bytes) → is_hash s ≡ true → is_utf8 s ≡ true
is_hash-is_utf8 s h = is_utf8_of_ascii s (line_bytes s (is_hash-digits s h))

module _ (strip : Bytes → Bytes) where
  -- The token that the file holds.
  abbrev pub Holds : Bytes → TokenFile → Type 0
  Holds token file = (content : Bytes) × (file ≡ some content) × (strip content ≡ token)

  pub keep_token-eq-ok :
      (token content : Bytes) {new : Bool}
      → keep_token strip token content ≡ ok new
      → (new ≡ false) × (strip content ≡ token)
  unfolding keep_token
  keep_token-eq-ok token content h =
      let (_, h0) = raise_if->>-eq-ok (not (is_utf8 content)) not_utf8 _ h in
      let (same, compared, h1) = >>=-eq-ok (compare_digest strip (strip content) token) _ h0 in
      let (agree, h2) = raise_if->>-eq-ok (not same) changed_concurrently _ h1 in
      let (_, h3) =
        raise_if->>-eq-ok (not (is_ascii (strip content) && is_ascii token)) not_ascii _ compared in
      let is_same : bytes_eq (strip content) token ≡ same = ok-injective h3 in
      (sym (ok-injective h2), (bytes_eq_iff _ _).0 (ground arith))

  write_token-Holds :
      (cut_off : Option ℕ) (token : Bytes) {new : Bool}
      → strip token ≡ token
      → (write_token strip cut_off token).0 ≡ ok new
      → (new ≡ true) × Holds token (write_token strip cut_off token).1
  write_token-Holds none token trimmed h = (sym (ok-injective h), (token, refl, trimmed))
  write_token-Holds (some n) token trimmed h = cc

  -- When `persist_control_token` returns, the file holds the token; the result is true only if the
  -- file did not exist, and a file that existed is left as it was. The token has no white space
  -- around it.
  persist_control_token-Holds :
      (calls : Calls) (token : Bytes) (file : TokenFile) (new : Bool)
      → strip token ≡ token
      → let done = persist_control_token strip calls token file in
        done.0 ≡ ok new
        → Holds token done.1 × (((new ≡ true) × (file ≡ none)) ⊎ ((new ≡ false) × (done.1 ≡ file)))
  unfolding persist_control_token
  persist_control_token-Holds calls token none new trimmed h =
      elim (Bool-cases calls.directory_made) [
        | inl made ↦
            let (is_new, holds) = write_token-Holds calls.cut_off token trimmed (rw (made) at h) in
            rw (made) (holds, inl (is_new, refl))
        | inr failed ↦ let h' = rw (failed) at h in cc
      ]
  persist_control_token-Holds calls token (some content) new trimmed h =
      elim (Bool-cases calls.directory_made) [
        | inl made ↦
            let (is_old, same) = keep_token-eq-ok token content (rw (made) at h) in
            rw (made) ((content, refl, same), inr (is_old, refl))
        | inr failed ↦ let h' = rw (failed) at h in cc
      ]

  -- A file that exists is never changed.
  pub persist_control_token-keeps :
      (calls : Calls) (token content : Bytes)
      → (persist_control_token strip calls token (some content)).1 ≡ some content
  unfolding persist_control_token
  persist_control_token-keeps calls token content = elim (Bool-cases calls.directory_made) [
    | inl made ↦ rw (made) refl
    | inr failed ↦ rw (failed) refl
  ]

  -- When one installation has stored its token, a second that stores its own later succeeds only with
  -- the same token: two installations that both return use one token, in whatever order they read the
  -- file before. Neither token has white space around it.
  pub persist_control_token-agree :
      (first_calls second_calls : Calls)
      → (first second : Bytes) (file : TokenFile) (new other : Bool) → strip first ≡ first
      → strip second ≡ second
      → let stored = persist_control_token strip first_calls first file in
        stored.0 ≡ ok new
        → (persist_control_token strip second_calls second stored.1).0 ≡ ok other
        → first ≡ second
  persist_control_token-agree first_calls second_calls first second file new other t u h k =
      let (content, is, holds) = (persist_control_token-Holds first_calls first file new t h).0 in
      let (content', is', holds') =
        (persist_control_token-Holds second_calls second _ other u k).0 in
      let kept =
        ap (λ f. (persist_control_token strip second_calls second f).1) is
        ∙ persist_control_token-keeps second_calls second content in
      let same : content ≡ content' = some-injective _ _ (sym kept ∙ is') in
      sym holds ∙ ap strip same ∙ holds'

  all-is_ascii : (s : Bytes) → all is_hex s ≡ true → is_ascii s ≡ true
  all-is_ascii [] h = refl
  all-is_ascii (c ∷ s) h =
      let (digit, rest) = and-eq-true (is_hex c) (all is_hex s) h in
      rw (all-is_ascii s rest, is_hex-low c digit) refl

  -- The token that `prepare_control_token` returns is stored by `persist_control_token` when no call
  -- fails and no other process writes between the two, and a later `prepare_control_token` returns it
  -- as an old token. The fresh token is 64 hexadecimal digits without white space around them, and
  -- stripping a text twice is stripping it once.
  pub prepare-persist_control_token :
      (fresh later token : Bytes) (file : TokenFile) (new : Bool)
      → ((s : Bytes) → strip (strip s) ≡ strip s)
      → is_hash fresh ≡ true
      → strip fresh ≡ fresh
      → prepare_control_token strip fresh file ≡ ok (token, new)
      → let stored =
          persist_control_token strip
            (record { directory_made = true; cut_off = none })
            token
            file in
        (stored.0 ≡ ok new) × (prepare_control_token strip later stored.1 ≡ ok (token, false))
  unfolding persist_control_token prepare_control_token keep_token
  prepare-persist_control_token fresh later token none new twice digits trimmed h =
      let same : fresh ≡ token = ap (λ p. p.0) (ok-injective h) in
      let is_new : true ≡ new = ap (λ p. p.1) (ok-injective h) in
      (ap ok is_new, rw (← same) (rw (is_hash-is_utf8 fresh digits, trimmed, digits) refl))
  prepare-persist_control_token fresh later token (some content) new twice digits trimmed h =
      let (decoded, h0) = raise_if->>-eq-ok (not (is_utf8 content)) not_utf8 _ h in
      let utf8 : is_utf8 content ≡ true = ground arith in
      let (good, h1) = raise_if->>-eq-ok (not (is_hash (strip content))) invalid_token _ h0 in
      let same : strip content ≡ token = ap (λ p. p.0) (ok-injective h1) in
      let is_old : false ≡ new = ap (λ p. p.1) (ok-injective h1) in
      let hash : is_hash (strip content) ≡ true = ground arith in
      let ascii = all-is_ascii (strip content) (is_hash-digits _ hash) in
      (
        rw (← same) (rw (utf8, ascii, bytes_eq_self (strip content)) (ap ok is_old)),
        rw (utf8, hash) (ap (λ t. ok (t, false)) same),
      )
