-- ===== src/Tests/Asar.antt =====
-- The theorems on scripts/windows_asar_integrity.py at a small executable, and runs on it.
use codex_subscription_route.Prelude.{
  ℕ, zero, suc, ◌+◌, ◌-◌, ◌*◌, ◌/◌, ◌%◌, ◌^◌, ◌≤◌, ◌≡◌, ◌↔◌, refl, true, false, Option, none, some,
  List, [], ◌∷◌, ◌++◌, ◌==◌, length, take, drop, if◌then◌else◌, ok,
}
use codex_subscription_route.Text.{Bytes, bytes_eq, contains, codes, starts_with}
use codex_subscription_route.Asar.Binary.{
  unpack_short, unpack_long, unpack_shorts, unpack_pair, unpack_longs,
}
use codex_subscription_route.Json.{
  Json, text, array, object, no_items, item, no_fields, field, lookup, keys,
}
use codex_subscription_route.Asar.Resources.{
  read_section, read_sections, places, file_offset, resource_offset, read_name, read_key,
  directory_entries, directory, targets, enter,
}
use codex_subscription_route.Asar.Slot.{
  read_layout, same_keys, check_contract, find_payload, read_payload, integrity_hash_slot,
}
use codex_subscription_route.Asar.Slot.Field.{
  is_hash, spaces, literal_at, hash_field_at, hash_fields,
}
use codex_subscription_route.Asar.Slot.Bounds.{integrity_hash_slot-HashAt}
use codex_subscription_route.Asar.Fuses.{
  fuse_sentinel, find, check_wire, check_sentinel, verify_integrity_fuses,
}
use codex_subscription_route.Asar.Fuses.Sound.{StandsAt, WireOn, verify_integrity_fuses_sound}
use codex_subscription_route.Asar.Desktop.{
  read_pe, Installation, IntegrityReport, asar_header_sha256, verify_desktop_integrity, plan_patch,
  patch_desktop_integrity,
}
use codex_subscription_route.Asar.Desktop.Rebound.{
  Accepted, verify_desktop_integrity-Accepted, patch_desktop_integrity_sound,
}

abbrev repeat : ℕ → ℕ → Bytes
repeat zero c = []
repeat (suc n) c = c ∷ repeat n c

abbrev short : ℕ → Bytes
short n = n % 256 ∷ n / 256 % 256 ∷ []

abbrev long : ℕ → Bytes
long n = short (n % 65536) ++ short (n / 65536)

abbrev wide : Bytes → Bytes
wide [] = []
wide (c ∷ s) = c ∷ 0 ∷ wide s

abbrev concat : List Bytes → Bytes
concat [] = []
concat (s ∷ ss) = s ++ concat ss

-- `[{"file":…,"alg":"SHA256","value":…}]`: the hash stands at place 55.
abbrev payload : Bytes → Bytes
payload hash =
    codes "[{\"file\":\"resources\\\\app.asar\",\"alg\":\"SHA256\",\"value\":\""
    ++ (hash ++ codes "\"}]")

-- A section of 134 bytes of directories and the payload, at place 264 of the file.
abbrev resources : Bytes → Bytes
resources hash = concat (
    repeat 12 0
    ∷ short 1
    ∷ short 0
    ∷ long (2 ^ 31 + 88)
    ∷ long (2 ^ 31 + 24)
    ∷ repeat 12 0
    ∷ short 1
    ∷ short 0
    ∷ long (2 ^ 31 + 108)
    ∷ long (2 ^ 31 + 48)
    ∷ repeat 12 0
    ∷ short 0
    ∷ short 1
    ∷ long 1033
    ∷ long 72
    ∷ long (4096 + 134)
    ∷ long (length (payload hash))
    ∷ long 0
    ∷ long 0
    ∷ short 9
    ∷ wide (codes "INTEGRITY")
    ∷ short 12
    ∷ wide (codes "ELECTRONASAR")
    ∷ payload hash
    ∷ [])

abbrev executable : Bytes → Bytes
executable hash =
    let size = length (resources hash) in
    concat (
      codes "MZ"
      ∷ repeat 58 0
      ∷ long 64
      ∷ codes "PE"
      ∷ repeat 4 0
      ∷ short 1
      ∷ repeat 12 0
      ∷ short 136
      ∷ repeat 2 0
      ∷ short 523
      ∷ repeat 106 0
      ∷ long 3
      ∷ repeat 16 0
      ∷ long 4096
      ∷ long size
      ∷ repeat 8 0
      ∷ long size
      ∷ long 4096
      ∷ long size
      ∷ long 264
      ∷ repeat 16 0
      ∷ resources hash
      ∷ [])

-- What the parameters do on the data of these tests.
abbrev narrow : Bytes → Option Bytes
narrow [] = some []
narrow (c ∷ []) = none
narrow (c ∷ d ∷ s) = elim (narrow s) [ none ↦ none | some t ↦ some (c ∷ t) ]

abbrev contract : Bytes → Json
contract hash = array (
    item
      (object (
        field (codes "file") (text (codes "resources\\app.asar")) (
          field (codes "alg") (text (codes "SHA256"))
            (field (codes "value") (text hash) no_fields))))
      no_items)

abbrev json : Bytes → Option Json
json s =
    if starts_with s (codes "[")
    then some (contract (take 64 (drop 55 s)))
    else some (object (field (codes "files") (object no_fields) no_fields))

abbrev digest : Bytes → Bytes
digest s = repeat 64 (if length s == 12 then b'a' else b'b')

digests : (s : Bytes) → length (digest s) ≡ 64
digests s = refl

abbrev archive_of : Bytes → Bytes
archive_of header =
    let padded = (length header + 3) / 4 * 4 in
    concat (
      long 4
      ∷ long (8 + padded)
      ∷ long (4 + padded)
      ∷ long (length header)
      ∷ header
      ∷ repeat (padded - length header) 0
      ∷ [])

abbrev runtime_library : Bytes
runtime_library = repeat 20 0 ++ (fuse_sentinel ++ (1 ∷ 6 ∷ (codes "001111" ++ repeat 10 0)))

abbrev official : Bytes
official = executable (repeat 64 b'a')

abbrev installation : Installation
installation = record {
  original = some official;
  runtime = some official;
  library = some runtime_library;
  archive = archive_of (codes "{\"files\":{}} ");
  source_archive = archive_of (codes "{\"files\":{}}");
}

field_place :
    length (codes "[{\"file\":\"resources\\\\app.asar\",\"alg\":\"SHA256\",\"value\":\"") ≡ 55
field_place = refl

slot_found : integrity_hash_slot narrow json official ≡ ok (453, repeat 64 b'a')
unfolding integrity_hash_slot read_layout unpack_short unpack_long unpack_shorts unpack_pair
    unpack_longs read_section read_sections places file_offset resource_offset read_name read_key
    directory_entries directory targets enter find_payload read_payload check_contract same_keys
    contains bytes_eq starts_with lookup keys hash_fields hash_field_at literal_at spaces is_hash
slot_found = refl

accepted_fuses : verify_integrity_fuses (some runtime_library) ≡ ok tt
unfolding verify_integrity_fuses check_sentinel check_wire find bytes_eq starts_with
accepted_fuses = refl

integrity_hash_slot-HashAt_example :
    (517 ≤ length official)
    × (is_hash (take 64 (drop 453 official)) ≡ true)
    × (is_hash (repeat 64 b'a') ≡ true)
integrity_hash_slot-HashAt_example =
    integrity_hash_slot-HashAt narrow json official 453 (repeat 64 b'a') slot_found

verify_integrity_fuses_sound_example :
    (offset : ℕ) × ((j : ℕ) → StandsAt fuse_sentinel runtime_library j ↔ (j ≡ offset))
    × WireOn runtime_library (offset + 32)
verify_integrity_fuses_sound_example = verify_integrity_fuses_sound runtime_library accepted_fuses

-- The installation is patched, and what is written is accepted.
abbrev report : IntegrityReport
report = record {
  original_desktop_sha256 = repeat 64 b'b';
  runtime_desktop_sha256 = repeat 64 b'b';
  original_header_sha256 = repeat 64 b'a';
  header_sha256 = repeat 64 b'b';
}

abbrev patched : Installation
patched = record installation { runtime = some (executable (repeat 64 b'b')) }

verified : verify_desktop_integrity narrow json digest patched ≡ ok report
unfolding verify_desktop_integrity asar_header_sha256 read_pe verify_integrity_fuses check_sentinel
    check_wire find integrity_hash_slot read_layout unpack_short unpack_long unpack_shorts
    unpack_pair unpack_longs read_section read_sections places file_offset resource_offset read_name
    read_key directory_entries directory targets enter find_payload read_payload check_contract
    same_keys contains bytes_eq starts_with lookup keys hash_fields hash_field_at literal_at spaces
    is_hash
verified = refl

patch_done : (patch_desktop_integrity narrow json digest false installation).0 ≡ ok report
unfolding patch_desktop_integrity plan_patch verify_desktop_integrity asar_header_sha256 read_pe
    verify_integrity_fuses check_sentinel check_wire find integrity_hash_slot read_layout
    unpack_short unpack_long unpack_shorts unpack_pair unpack_longs read_section read_sections
    places file_offset resource_offset read_name read_key directory_entries directory targets enter
    find_payload read_payload check_contract same_keys contains bytes_eq starts_with lookup keys
    hash_fields hash_field_at literal_at spaces is_hash
patch_done = refl

verify_desktop_integrity-Accepted_example : Accepted narrow json digest patched report
verify_desktop_integrity-Accepted_example =
    verify_desktop_integrity-Accepted narrow json digest patched report digests verified

patch_desktop_integrity_sound_example :
    (source : Bytes) × (recorded : Bytes) × (slot : ℕ) × (false ≡ false)
    × (installation.original ≡ some source)
    × (installation.runtime ≡ some source)
    × (integrity_hash_slot narrow json source ≡ ok (slot, recorded))
    × (asar_header_sha256 narrow json digest installation.source_archive ≡ ok recorded)
    × ((written : Bytes) × ((patch_desktop_integrity narrow json digest false installation).1
          ≡ record installation { runtime = some written }))
    × (verify_desktop_integrity narrow json digest
          (patch_desktop_integrity narrow json digest false installation).1
        ≡ ok report)
patch_desktop_integrity_sound_example =
    patch_desktop_integrity_sound narrow json digest false installation report patch_done
