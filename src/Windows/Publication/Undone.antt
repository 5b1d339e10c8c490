-- ===== src/Windows/Publication/Undone.antt =====
-- What the end of `patch_app` of scripts/patch_windows_app.py leaves of the control token when it fails.
use codex_subscription_route.Prelude.{
  ◌⊎◌, ◌≡◌, ◌∙◌, ◌≤◌, ◌<◌, ℕ, refl, sym, ap, Bool, true, false, Option, none, some, Bool-cases, inl,
  inr, arith, length, take, length-take, if◌then◌else◌, Outcome, ok, err, ok-injective,
}
use codex_subscription_route.Text.{Bytes, is_utf8}
use codex_subscription_route.Asar.Slot.Field.{is_hash}
use codex_subscription_route.Windows.Files.{FilePath, World, FileError}
use codex_subscription_route.Windows.Token.{
  TokenError, os_error, invalid_token, not_utf8, Calls, TokenFile, prepare_control_token,
  persist_control_token,
}
use codex_subscription_route.Windows.Token.Once.{keep_token-eq-ok, persist_control_token-keeps}
use codex_subscription_route.Windows.Publication.{
  PatchError, token_failed, Machine, Publishing, planned_backup, stored, store_token, take_back,
  installed, install_build, publish_build,
}

-- The file is as it was and nothing is to be taken back, or the token is new.
abbrev Marked {ℓ} : {E : Type ℓ} → TokenFile → Outcome E Bool → TokenFile → Type ℓ
Marked before outcome after =
    ((after ≡ before) × ((new : Bool) → outcome ≡ ok new → new ≡ false))
    ⊎ ((outcome ≡ ok true) × (before ≡ none))

persist_control_token-Marked :
    (strip : Bytes → Bytes) (calls : Calls) (token : Bytes) (file : TokenFile)
    → calls.cut_off ≡ none
    → let done = persist_control_token strip calls token file in Marked file done.0 done.1
unfolding persist_control_token
persist_control_token-Marked strip calls token none whole = elim (Bool-cases calls.directory_made) [
  | inl made ↦ rw (made, whole) (inr (refl, refl))
  | inr failed ↦ rw (failed) (inl (refl, λ new h. cc))
]
persist_control_token-Marked strip calls token (some content) whole = inl (
  persist_control_token-keeps strip calls token content,
  λ new h. elim (Bool-cases calls.directory_made) [
    | inl made ↦ (keep_token-eq-ok strip token content (rw (made) at h)).0
    | inr failed ↦ let h' = rw (failed) at h in cc
  ],
)

short-hash : (s : Bytes) → length s < 64 → is_hash s ≡ false
unfolding is_hash
short-hash s h = ground arith

module _ {A : Type 0} (p : Publishing) where
  stored-Marked :
      (m : Machine A) (before : TokenFile) (outcome : Outcome TokenError Bool) (file : TokenFile)
      → Marked before outcome file
      → let done = stored p m (outcome, file) in Marked before done.0 done.1.token_file
  stored-Marked m before (ok new) file (inl (same, old)) =
      inl (same, λ x h. sym (ok-injective h) ∙ old new refl)
  stored-Marked m before (ok new) file (inr (is, absent)) = inr (ap ok (ok-injective is), absent)
  stored-Marked m before (err e) file (inl (same, old)) = inl (same, λ x h. cc)
  stored-Marked m before (err e) file (inr (is, absent)) = cc is

  store_token-Marked :
      (m : Machine A)
      → p.calls.cut_off ≡ none
      → Marked m.token_file (store_token p m).0 (store_token p m).1.token_file
  unfolding store_token
  store_token-Marked m whole = elim (Bool-cases p.token_is_new) [
    | inl new ↦ rw (new) (
        stored-Marked m m.token_file _ _
          (persist_control_token-Marked p.strip p.calls p.token m.token_file whole))
    | inr old ↦ rw (old) (inl (refl, λ x h. sym (ok-injective h)))
  ]

  installed-token_file :
      (persisted preexisted : Bool) (m : Machine A) (r : Outcome FileError (Option FilePath))
      (w : World A) {e : PatchError}
      → p.cleanup_calls.unlinked ≡ true
      → (installed p persisted preexisted m (r, w)).0 ≡ err e
      → (installed p persisted preexisted m (r, w)).1.token_file
        ≡ (if persisted then none else m.token_file)
  unfolding take_back
  installed-token_file persisted preexisted m (ok backup) w u h = cc h
  installed-token_file true preexisted m (err e) w u h = rw (u) refl
  installed-token_file false preexisted m (err e) w u h = refl

  install_build-token_file :
      (preexisted : Bool) (planned : Option FilePath) (before : TokenFile)
      (outcome : Outcome PatchError Bool) (m : Machine A) {e : PatchError}
      → p.cleanup_calls.unlinked ≡ true
      → Marked before outcome m.token_file
      → (install_build p preexisted planned (outcome, m)).0 ≡ err e
      → (install_build p preexisted planned (outcome, m)).1.token_file ≡ before
  unfolding install_build
  install_build-token_file preexisted planned before (err x) m u (inl (same, old)) h = same
  install_build-token_file preexisted planned before (err x) m u (inr (is, absent)) h = cc is
  install_build-token_file preexisted planned before (ok new) m u (inl (same, old)) h =
      installed-token_file new preexisted m _ _ u h
      ∙ ap (λ b. if b then none else m.token_file) (old new refl)
      ∙ same
  install_build-token_file preexisted planned before (ok new) m u (inr (is, absent)) h =
      installed-token_file new preexisted m _ _ u h
      ∙ ap (λ b. if b then none else m.token_file) (ok-injective is)
      ∙ sym absent

  -- When the token or the build cannot be installed, the file of the token is as it was before: a token
  -- that was there is kept, and one that was stored for this build is gone. The token is written whole or
  -- not at all, and the file of the token can be removed.
  pub publish_build-token_file :
      (dry_run : Bool) (m : Machine A) (e : PatchError)
      → p.calls.cut_off ≡ none
      → p.cleanup_calls.unlinked ≡ true
      → (publish_build p dry_run m).0 ≡ err e
      → (publish_build p dry_run m).1.token_file ≡ m.token_file
  unfolding publish_build
  publish_build-token_file true m e whole u h = cc
  publish_build-token_file false m e whole u h =
      install_build-token_file m.state_root (planned_backup p m) m.token_file (store_token p m).0
        (store_token p m).1 u (store_token-Marked m whole) h

  -- When the writing of a new token is cut off, the publication fails and leaves what was written, and from
  -- then on `prepare_control_token` refuses the file: as an invalid token if what was written is UTF-8,
  -- and for not being UTF-8 otherwise. Stripping a text does not make it longer, and less than the 64
  -- bytes of a token were written.
  pub publish_build-cut_off :
      (m : Machine A) (n : ℕ) (fresh : Bytes)
      → ((s : Bytes) → length (p.strip s) ≤ length s)
      → p.token_is_new ≡ true
      → m.token_file ≡ none
      → p.calls.directory_made ≡ true
      → p.calls.cut_off ≡ some n
      → n < 64
      → ((publish_build p false m).0 ≡ err (token_failed os_error))
        × (prepare_control_token p.strip fresh (publish_build p false m).1.token_file
            ≡ err (if is_utf8 (take n p.token) then invalid_token else not_utf8))
  unfolding publish_build install_build store_token persist_control_token prepare_control_token
  publish_build-cut_off m n fresh shorter new absent made cut few =
      let refused =
        short-hash (p.strip (take n p.token))
          (omega (arith, shorter (take n p.token), length-take n p.token)) in
      elim (Bool-cases (is_utf8 (take n p.token))) [
        | inl decoded ↦ rw (new, absent, made, cut) (refl, rw (decoded, refused) refl)
        | inr not_decoded ↦ rw (new, absent, made, cut) (refl, rw (not_decoded) refl)
      ]
