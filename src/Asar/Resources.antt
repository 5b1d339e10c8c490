-- ===== src/Asar/Resources.antt =====
-- The sections and the resource directories of a PE file, as `integrity_hash_slot` of
-- scripts/windows_asar_integrity.py walks them.
use codex_subscription_route.Prelude.{
  ℕ, zero, suc, ◌+◌, ◌-◌, ◌*◌, Bool, false, not, ◌&&◌, Option, none, some, List, [], ◌∷◌, ltb, leb,
  length, if◌then◌else◌, Outcome, ok, err, ◌>>=◌, ◌>>◌, raise_if,
}
use codex_subscription_route.Text.{Bytes, bytes_eq}
use codex_subscription_route.Asar.Binary.{
  AsarError, section_exceeds, unmapped, outside_resources, too_many_entries, name_too_long,
  name_invalid, no_named_directory, slice, unpack_short, unpack_shorts, unpack_pair, unpack_longs,
  high_bit, low_bits,
}

pub record Section : Type 0 where
  pub address : ℕ
  pub raw_size : ℕ
  pub raw_offset : ℕ

unfoldable pub read_section : Bytes → ℕ → Outcome AsarError Section
read_section content entry = do
  (virtual_size, address, size, offset) ← unpack_longs content (entry + 8)
  raise_if (ltb (length content) (offset + size)) section_exceeds
  ok (record { address = address; raw_size = size; raw_offset = offset })

-- `for index in range(sections_count)`
unfoldable pub read_sections : Bytes → ℕ → ℕ → Outcome AsarError (List Section)
read_sections content zero entry = ok []
read_sections content (suc n) entry = do
  section ← read_section content entry
  rest ← read_sections content n (entry + 40)
  ok (section ∷ rest)

abbrev pub covers : ℕ → ℕ → Section → Bool
covers rva size s = leb s.address rva && leb (rva + size) (s.address + s.raw_size)

-- The places of an address in the file; the subtraction is exact, since `address <= rva`.
unfoldable pub places : ℕ → ℕ → List Section → List ℕ
places rva size [] = []
places rva size (s ∷ sections) =
    let rest = places rva size sections in
    if covers rva size s then (s.raw_offset + rva - s.address) ∷ rest else rest

abbrev pub only : {A : Type 0} → AsarError → List A → Outcome AsarError A
only e (x ∷ []) = ok x
only e _ = err e

unfoldable pub file_offset : List Section → ℕ → ℕ → Outcome AsarError ℕ
file_offset sections rva size = only unmapped (places rva size sections)

-- The resource section of a file.
pub record ResourceSection : Type 0 where
  pub base : ℕ
  pub resource_size : ℕ

unfoldable pub resource_offset : ResourceSection → ℕ → ℕ → Outcome AsarError ℕ
resource_offset r relative size =
    raise_if (ltb r.resource_size (relative + size)) outside_resources >> ok (r.base + relative)

pub data Key : Type 0 where
  identifier : ℕ → Key
  named : Bytes → Key

-- `decode` is `bytes.decode("utf-16le")`; a failure is a `ValueError` too.
module _ (decode : Bytes → Option Bytes) (content : Bytes) (r : ResourceSection) where
  abbrev pub decoded : Option Bytes → Outcome AsarError Key
  decoded none = err name_invalid
  decoded (some s) = ok (named s)

  unfoldable pub read_name : ℕ → Outcome AsarError Key
  read_name relative = do
    place ← resource_offset r relative 2
    chars ← unpack_short content place
    raise_if (ltb 256 chars) name_too_long
    start ← resource_offset r (relative + 2) (chars * 2)
    decoded (decode (slice start (start + chars * 2) content))

  unfoldable pub read_key : ℕ → Outcome AsarError Key
  read_key name = if high_bit name then read_name (low_bits name) else ok (identifier name)

  -- `for index in range(count)`
  unfoldable pub directory_entries : ℕ → ℕ → Outcome AsarError (List (Key × ℕ))
  directory_entries zero offset = ok []
  directory_entries (suc n) offset = do
    (name, target) ← unpack_pair content offset
    key ← read_key name
    rest ← directory_entries n (offset + 8)
    ok ((key, target) ∷ rest)

  unfoldable pub directory : ℕ → Outcome AsarError (List (Key × ℕ))
  directory relative = do
    offset ← resource_offset r relative 16
    (named_count, numbered_count) ← unpack_shorts content (offset + 12)
    raise_if (ltb 4096 (named_count + numbered_count)) too_many_entries
    first ← resource_offset r (relative + 16) ((named_count + numbered_count) * 8)
    directory_entries (named_count + numbered_count) (offset + 16)

  abbrev pub is_named : Bytes → Key → Bool
  is_named name (identifier n) = false
  is_named name (named s) = bytes_eq s name

  unfoldable pub targets : Bytes → List (Key × ℕ) → List ℕ
  targets name [] = []
  targets name ((key, target) ∷ entries) =
      let rest = targets name entries in if is_named name key then target ∷ rest else rest

  -- One round of `for name in ("INTEGRITY", "ELECTRONASAR")`
  unfoldable pub enter : Bytes → ℕ → Outcome AsarError ℕ
  enter name current = do
    entries ← directory current
    target ← only no_named_directory (targets name entries)
    raise_if (not (high_bit target)) no_named_directory
    ok (low_bits target)
