-- ===== src/Tests/Token.antt =====
-- The theorems on the control token of scripts/patch_windows_app.py at concrete data.
use codex_subscription_route.Prelude.{
  ℕ, zero, suc, ◌≡◌, refl, true, false, none, some, [], ◌∷◌, ok, err, ◌==◌, inl, inr, Bool-cases,
  if◌then◌else◌,
}
use codex_subscription_route.Text.{Bytes, bytes_eq, is_utf8}
use codex_subscription_route.Asar.Slot.Field.{is_hash}
use codex_subscription_route.Windows.Token.{
  Calls, os_error, prepare_control_token, keep_token, persist_control_token,
}
use codex_subscription_route.Windows.Token.Once.{
  persist_control_token-agree, prepare-persist_control_token,
}

abbrev token : Bytes
token = digits 64
  where
    digits : ℕ → Bytes
    digits zero = []
    digits (suc n) = b'7' ∷ digits n

-- Line feeds before a text are dropped.
abbrev trim : Bytes → Bytes
trim [] = []
trim (c ∷ s) = let rest = trim s in if c == 10 then rest else c ∷ s

trim-trim : (s : Bytes) → trim (trim s) ≡ trim s
trim-trim [] = refl
trim-trim (c ∷ s) = elim (Bool-cases (c == 10)) [
  | inl feed ↦ rw (feed) (trim-trim s)
  | inr other ↦ rw (other, other) refl
]

abbrev calls : Calls
calls = record { directory_made = true; cut_off = none }

persist_control_token-agree_example : token ≡ token
unfolding persist_control_token keep_token bytes_eq is_utf8
persist_control_token-agree_example =
    persist_control_token-agree trim calls calls token token none true false refl refl refl refl

prepare-persist_control_token_example :
    ((persist_control_token trim calls token none).0 ≡ ok true)
    × (prepare_control_token trim [] (persist_control_token trim calls token none).1
        ≡ ok (token, false))
unfolding prepare_control_token is_hash
prepare-persist_control_token_example =
    prepare-persist_control_token trim token [] token none true trim-trim refl refl refl

-- A write that fails leaves the file with a part of the token.
cut :
    persist_control_token trim (record calls { cut_off = some 2 }) token none
    ≡ (err os_error, some (b'7' ∷ b'7' ∷ []))
unfolding persist_control_token
cut = refl
