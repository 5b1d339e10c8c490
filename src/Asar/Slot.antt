-- ===== src/Asar/Slot.antt =====
-- `integrity_hash_slot` of scripts/windows_asar_integrity.py.
pub mod Field
pub mod Bounds
use codex_subscription_route.Prelude.{
  ℕ, ◌+◌, ◌*◌, Bool, false, not, ◌&&◌, ◌||◌, Option, none, some, List, [], ◌∷◌, ◌++◌, ◌==◌, ltb,
  leb, all, take, Outcome, ok, err, ◌>>=◌, ◌>>◌, raise_if,
}
use codex_subscription_route.Text.{Bytes, bytes_eq, codes, contains}
use codex_subscription_route.Asar.Binary.{
  AsarError, no_dos_signature, no_signature, not_bounded_layout, no_resources,
  resource_size_invalid, no_resource, descriptor_invalid, payload_outside, invalid_json,
  unexpected_contract, ambiguous_field, slice, unpack_short, unpack_long, unpack_pair, unpack_longs,
  high_bit,
}
use codex_subscription_route.Json.{
  Json, text, array, object, no_items, item, JsonFields, lookup, keys,
}
use codex_subscription_route.Asar.Resources.{
  Section, read_sections, file_offset, ResourceSection, resource_offset, Key, identifier, directory,
  enter, only,
}
use codex_subscription_route.Asar.Slot.Field.{is_hash, hash_fields}

abbrev pub max_pe_bytes : ℕ
max_pe_bytes = 128 * 1024 * 1024

-- The sections, and the address and the size of the resources.
unfoldable pub read_layout : Bytes → Outcome AsarError (List Section × ℕ × ℕ)
read_layout content = do
  raise_if (not (bytes_eq (take 2 content) (codes "MZ"))) no_dos_signature
  pe ← unpack_long content 60
  raise_if (not (bytes_eq (slice pe (pe + 4) content) (codes "PE" ++ (0 ∷ 0 ∷ [])))) no_signature
  sections_count ← unpack_short content (pe + 6)
  optional_size ← unpack_short content (pe + 20)
  magic ← unpack_short content (pe + 24)
  raise_if
      (not (magic == 523)
        || not (leb 1 sections_count && leb sections_count 96)
        || ltb optional_size 136)
      not_bounded_layout
  directory_count ← unpack_long content (pe + 24 + 108)
  raise_if (ltb directory_count 3) no_resources
  (resource_rva, resource_size) ← unpack_pair content (pe + 24 + 128)
  sections ← read_sections content sections_count (pe + 24 + optional_size)
  ok (sections, resource_rva, resource_size)

-- The only entry of the last directory: the English resource.
abbrev pub english : List (Key × ℕ) → Outcome AsarError ℕ
english ((identifier n, target) ∷ []) =
    raise_if (not (n == 1033) || high_bit target) no_resource >> ok target
english _ = err no_resource

-- The tests of the value that `json.loads` returned.
abbrev pub text_of : Option Json → Option Bytes
text_of (some (text t)) = some t
text_of _ = none

abbrev pub text_is : Bytes → Option Bytes → Bool
text_is s none = false
text_is s (some t) = bytes_eq t s

-- `decoded[0]["value"]`
abbrev pub checked_value : Option Bytes → Outcome AsarError Bytes
checked_value none = err unexpected_contract
checked_value (some t) = raise_if (not (is_hash t)) unexpected_contract >> ok t

-- `set(d) == {"file", "alg", "value"}`
abbrev pub contract_keys : List Bytes
contract_keys = codes "file" ∷ codes "alg" ∷ codes "value" ∷ []

unfoldable pub same_keys : List Bytes → Bool
same_keys ks = all (contains contract_keys) ks && all (contains ks) contract_keys

abbrev pub only_object : Json → Option JsonFields
only_object (array (item (object fields) no_items)) = some fields
only_object _ = none

abbrev pub check_object : Option JsonFields → Outcome AsarError Bytes
check_object none = err unexpected_contract
check_object (some fields) = do
  raise_if (not (same_keys (keys fields))) unexpected_contract
  raise_if (not (text_is (codes "resources\\app.asar") (text_of (lookup (codes "file") fields))))
      unexpected_contract
  raise_if (not (text_is (codes "SHA256") (text_of (lookup (codes "alg") fields))))
      unexpected_contract
  checked_value (text_of (lookup (codes "value") fields))

unfoldable pub check_contract : Json → Outcome AsarError Bytes
check_contract decoded = check_object (only_object decoded)

abbrev pub parsed : Option Json → Outcome AsarError Json
parsed none = err invalid_json
parsed (some v) = ok v

-- `decode` is `bytes.decode("utf-16le")`, `loads` is `json.loads`; `none` is an exception.
module _ (decode : Bytes → Option Bytes) (loads : Bytes → Option Json) where
  -- The place and the size of the payload.
  unfoldable pub find_payload : Bytes → List Section → ResourceSection → Outcome AsarError (ℕ × ℕ)
  find_payload content sections r = do
    integrity ← enter decode content r (codes "INTEGRITY") 0
    electron ← enter decode content r (codes "ELECTRONASAR") integrity
    languages ← directory decode content r electron
    descriptor ← english languages
    place ← resource_offset r descriptor 16
    (payload_rva, payload_size, codepage, reserved) ← unpack_longs content place
    raise_if (not (leb 64 payload_size && leb payload_size 4096) || not (reserved == 0))
        descriptor_invalid
    payload_offset ← file_offset sections payload_rva payload_size
    raise_if
        (not (leb r.base payload_offset)
          || ltb (r.base + r.resource_size) (payload_offset + payload_size))
        payload_outside
    ok (payload_offset, payload_size)

  unfoldable pub read_payload : Bytes → ℕ → Outcome AsarError (ℕ × Bytes)
  read_payload payload payload_offset = do
    decoded ← parsed (loads payload)
    value ← check_contract decoded
    start ← only ambiguous_field (hash_fields 0 0 payload)
    ok (payload_offset + start, value)

  unfoldable pub integrity_hash_slot : Bytes → Outcome AsarError (ℕ × Bytes)
  integrity_hash_slot content = do
    (sections, resource_rva, resource_size) ← read_layout content
    raise_if (not (leb 16 resource_size && leb resource_size max_pe_bytes)) resource_size_invalid
    base ← file_offset sections resource_rva resource_size
    (payload_offset, payload_size) ←
        find_payload content sections (record { base = base; resource_size = resource_size })
    read_payload (slice payload_offset (payload_offset + payload_size) content) payload_offset
