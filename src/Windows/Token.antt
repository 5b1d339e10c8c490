-- ===== src/Windows/Token.antt =====
-- `prepare_control_token` and `persist_control_token` of scripts/patch_windows_app.py over the content
-- of the file `control-token`.
pub mod Once
use codex_subscription_route.Prelude.{
  ℕ, Bool, true, false, not, ◌&&◌, Option, none, some, ltb, all, take, if◌then◌else◌, Outcome, ok,
  err, ◌>>=◌, ◌>>◌, raise_if,
}
use codex_subscription_route.Text.{Bytes, bytes_eq, is_utf8}
use codex_subscription_route.Asar.Slot.Field.{is_hash}

pub data TokenError : Type 0 where
  invalid_token changed_concurrently : TokenError
  -- `UnicodeDecodeError` of `read_text`
  not_utf8 : TokenError
  -- `TypeError` of `secrets.compare_digest`, and `OSError`
  not_ascii os_error : TokenError

-- How the calls to the system go: whether the directory can be made, and how many bytes are written
-- before an error, if there is one.
pub record Calls : Type 0 where
  pub directory_made : Bool
  pub cut_off : Option ℕ

-- The content of the file, if it exists.
abbrev pub TokenFile : Type 0
TokenFile = Option Bytes

abbrev pub is_ascii : Bytes → Bool
is_ascii s = all (λ c. ltb c 128) s

-- `strip` is `str.strip`.
module _ (strip : Bytes → Bytes) where
  -- The token, and whether it is new; `fresh` is `secrets.token_hex(32)`.
  unfoldable pub prepare_control_token : Bytes → TokenFile → Outcome TokenError (Bytes × Bool)
  prepare_control_token fresh none = ok (fresh, true)
  prepare_control_token fresh (some content) = do
    raise_if (not (is_utf8 content)) not_utf8
    raise_if (not (is_hash (strip content))) invalid_token
    ok (strip content, false)

  abbrev pub compare_digest : Bytes → Bytes → Outcome TokenError Bool
  compare_digest a b = raise_if (not (is_ascii a && is_ascii b)) not_ascii >> ok (bytes_eq a b)

  -- The file exists already.
  unfoldable pub keep_token : Bytes → Bytes → Outcome TokenError Bool
  keep_token token content = do
    raise_if (not (is_utf8 content)) not_utf8
    same ← compare_digest (strip content) token
    raise_if (not same) changed_concurrently
    ok false

  abbrev pub write_token : Option ℕ → Bytes → Outcome TokenError Bool × TokenFile
  write_token none token = (ok true, some token)
  write_token (some n) token = (err os_error, some (take n token))

  abbrev pub open_token : Option ℕ → Bytes → TokenFile → Outcome TokenError Bool × TokenFile
  open_token cut_off token none = write_token cut_off token
  open_token cut_off token (some content) = (keep_token token content, some content)

  unfoldable pub persist_control_token :
      Calls → Bytes → TokenFile → Outcome TokenError Bool × TokenFile
  persist_control_token calls token file =
      if calls.directory_made then open_token calls.cut_off token file else (err os_error, file)
