-- ===== src/Windows/Anchors.antt =====
-- `replace_unique` of scripts/patch_windows_app.py: a text is changed only where its anchor stands once.
pub mod Once
use codex_subscription_route.Prelude.{
  ℕ, not, [], ◌∷◌, ◌++◌, ◌==◌, length, drop, if◌then◌else◌, Outcome, ok, ◌>>=◌, ◌>>◌, raise_if,
}
use codex_subscription_route.Text.{Bytes, starts_with, occurrences}

pub data AnchorError : Type 0 where
  not_once : ℕ → AnchorError

-- `text.replace(anchor, replacement, 1)` for an anchor that is not empty
unfoldable pub replace_first : Bytes → Bytes → Bytes → Bytes
replace_first anchor replacement [] = []
replace_first anchor replacement (c ∷ text) =
    let later = c ∷ replace_first anchor replacement text in
    if starts_with (c ∷ text) anchor then replacement ++ drop (length anchor) (c ∷ text) else later

unfoldable pub replace_unique : Bytes → Bytes → Bytes → Outcome AnchorError Bytes
replace_unique text anchor replacement = do
  let count = occurrences anchor text
  raise_if (not (count == 1)) (not_once count)
  ok (replace_first anchor replacement text)
