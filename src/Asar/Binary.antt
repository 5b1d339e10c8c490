-- ===== src/Asar/Binary.antt =====
-- Bytes of a file as scripts/windows_asar_integrity.py reads them: slices, and `struct.unpack` of
-- little-endian numbers.
use codex_subscription_route.Prelude.{
  ℕ, ◌+◌, ◌-◌, ◌*◌, ◌%◌, ◌^◌, Bool, [], ◌∷◌, ltb, leb, length, take, drop, Outcome, ok, ◌>>=◌, ◌>>◌,
  raise_if,
}
use codex_subscription_route.Text.{Bytes}

-- One constructor for each `raise`.
pub data AsarError : Type 0 where
  no_runtime no_fuse_wire fuse_version fuse_truncated fuse_disabled : AsarError
  not_bounded truncated_header header_framing header_json file_index : AsarError
  truncated no_dos_signature no_signature not_bounded_layout no_resources section_exceeds :
      AsarError
  unmapped resource_size_invalid outside_resources too_many_entries name_too_long name_invalid :
      AsarError
  no_named_directory no_resource descriptor_invalid payload_outside invalid_json : AsarError
  unexpected_contract ambiguous_field : AsarError
  desktop_differs not_separate not_official not_a_copy : AsarError

-- `data[start:stop]` with `start ≤ stop`
abbrev pub slice : ℕ → ℕ → Bytes → Bytes
slice start stop content = take (stop - start) (drop start content)

abbrev pub little : Bytes → ℕ
little [] = 0
little (b ∷ bs) = b + 256 * little bs

-- `unpack`: the bytes of a structure of a size.
abbrev pub structure : Bytes → ℕ → ℕ → Outcome AsarError Bytes
structure content size offset =
    raise_if (ltb (length content) (offset + size)) truncated
    >> ok (slice offset (offset + size) content)

-- `unpack("<H", offset)` and `unpack("<I", offset)`
unfoldable pub unpack_short : Bytes → ℕ → Outcome AsarError ℕ
unpack_short content offset = structure content 2 offset >>= λ s. ok (little s)

unfoldable pub unpack_long : Bytes → ℕ → Outcome AsarError ℕ
unpack_long content offset = structure content 4 offset >>= λ s. ok (little s)

-- `unpack("<HH", offset)`, `unpack("<II", offset)`, `unpack("<IIII", offset)`
unfoldable pub unpack_shorts : Bytes → ℕ → Outcome AsarError (ℕ × ℕ)
unpack_shorts content offset =
    structure content 4 offset >>= λ s. ok (little (take 2 s), little (drop 2 s))

unfoldable pub unpack_pair : Bytes → ℕ → Outcome AsarError (ℕ × ℕ)
unpack_pair content offset =
    structure content 8 offset >>= λ s. ok (little (take 4 s), little (drop 4 s))

unfoldable pub unpack_longs : Bytes → ℕ → Outcome AsarError (ℕ × ℕ × ℕ × ℕ)
unpack_longs content offset = structure content 16 offset >>= λ s.
    ok (little (slice 0 4 s), little (slice 4 8 s), little (slice 8 12 s), little (slice 12 16 s))

-- The high bit of a 32-bit number, and the others.
abbrev pub high_bit : ℕ → Bool
high_bit n = leb (2 ^ 31) n

abbrev pub low_bits : ℕ → ℕ
low_bits n = n % 2 ^ 31
