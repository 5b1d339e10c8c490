-- ===== src/Asar/Fuses.antt =====
-- `verify_integrity_fuses` of scripts/windows_asar_integrity.py.
pub mod Sound
use codex_subscription_route.Prelude.{
  is_nil, ℕ, suc, ◌+◌, ◌*◌, Bool, true, false, not, ◌&&◌, ◌||◌, Option, none, some, [], ◌∷◌, ◌==◌,
  ltb, leb, length, drop, get_elem?, if◌then◌else◌, Outcome, err, ◌>>=◌, ◌>>◌, raise_if,
}
use codex_subscription_route.Text.{Bytes, bytes_eq, codes, starts_with}
use codex_subscription_route.Asar.Binary.{
  AsarError, no_runtime, no_fuse_wire, fuse_version, fuse_truncated, fuse_disabled, slice,
}

abbrev pub fuse_sentinel : Bytes
fuse_sentinel = codes "dL7pKGdnNz796PbbjQWNKmHXBZaB9tsX"

abbrev pub shifted : Option ℕ → Option ℕ
shifted none = none
shifted (some n) = some (suc n)

-- `s.find(p)`; `none` stands for -1.
unfoldable pub find : Bytes → Bytes → Option ℕ
find p [] = if is_nil p then some 0 else none
find p (c ∷ s) = let rest = find p s in if starts_with (c ∷ s) p then some 0 else shifted rest

-- `data[i]`, which the code reads only in range
abbrev pub or_zero : Option ℕ → ℕ
or_zero none = 0
or_zero (some c) = c

abbrev pub byte : Bytes → ℕ → ℕ
byte content i = or_zero (get_elem? content i)

-- The tests of the wire that begins at a place.
unfoldable pub check_wire : Bytes → ℕ → Outcome AsarError (Unit {0})
check_wire content wire = do
  raise_if (ltb (length content) (wire + 2) || not (byte content wire == 1)) fuse_version
  raise_if
      (ltb (byte content (wire + 1)) 6 || ltb (length content) (wire + 2 + byte content (wire + 1)))
      fuse_truncated
  raise_if
      (not (
        bytes_eq (slice 4 6 (slice (wire + 2) (wire + 2 + byte content (wire + 1)) content))
          (codes "11")))
      fuse_disabled

abbrev pub is_found : Option ℕ → Bool
is_found none = false
is_found (some i) = true

-- The only sentinel: `data.find(FUSE_SENTINEL, offset + 1)` searches the rest of the file.
unfoldable pub check_sentinel : Bytes → Option ℕ → Outcome AsarError (Unit {0})
check_sentinel content none = err no_fuse_wire
check_sentinel content (some offset) = do
  raise_if (is_found (find fuse_sentinel (drop (offset + 1) content))) no_fuse_wire
  check_wire content (offset + length fuse_sentinel)

-- The content of `chrome.dll`, if it is a regular file and no link.
unfoldable pub verify_integrity_fuses : Option Bytes → Outcome AsarError (Unit {0})
verify_integrity_fuses none = err no_runtime
verify_integrity_fuses (some content) = do
  raise_if (not (leb 64 (length content) && leb (length content) (512 * 1024 * 1024))) no_runtime
  check_sentinel content (find fuse_sentinel content)
