-- ===== src/Asar/Desktop.antt =====
-- `asar_header_sha256`, `verify_desktop_integrity` and `patch_desktop_integrity` of
-- scripts/windows_asar_integrity.py.
pub mod Rebound
use codex_subscription_route.Prelude.{
  ℕ, ◌+◌, ◌*◌, ◌/◌, Bool, true, false, not, ◌&&◌, ◌||◌, Option, none, some, ◌++◌, ◌==◌, ltb, leb,
  length, take, drop, Outcome, ok, err, ◌>>=◌, ◌>>◌, raise_if,
}
use codex_subscription_route.Text.{Bytes, bytes_eq, codes}
use codex_subscription_route.Asar.Binary.{
  AsarError, not_bounded, truncated_header, header_framing, header_json, file_index,
  desktop_differs, not_separate, not_official, not_a_copy, slice, unpack_longs,
}
use codex_subscription_route.Json.{Json, object, JsonFields, lookup}
use codex_subscription_route.Asar.Slot.{max_pe_bytes, integrity_hash_slot}
use codex_subscription_route.Asar.Fuses.{verify_integrity_fuses}

-- `_read_pe`: the content of a path, if it is a regular file and no link.
unfoldable pub read_pe : Option Bytes → Outcome AsarError Bytes
read_pe none = err not_bounded
read_pe (some content) =
    raise_if (not (leb 256 (length content) && leb (length content) max_pe_bytes)) not_bounded
    >> ok content

abbrev pub max_header_bytes : ℕ
max_header_bytes = 128 * 1024 * 1024

abbrev pub object_fields : Option Json → Option JsonFields
object_fields (some (object fields)) = some fields
object_fields _ = none

-- A dictionary whose "files" is a dictionary.
abbrev pub is_file_index : Option JsonFields → Bool
is_file_index none = false
is_file_index (some fields) = elim (object_fields (lookup (codes "files") fields)) [
  | none ↦ false
  | some files ↦ true
]

abbrev pub check_header : Option Json → Outcome AsarError (Unit {0})
check_header none = err header_json
check_header (some v) = raise_if (not (is_file_index (object_fields (some v)))) file_index

-- The files that the two functions read.
pub record Installation : Type 0 where
  pub original : Option Bytes
  pub runtime : Option Bytes
  pub library : Option Bytes
  pub archive : Bytes
  pub source_archive : Bytes

pub record IntegrityReport : Type 0 where
  pub original_desktop_sha256 : Bytes
  pub runtime_desktop_sha256 : Bytes
  pub original_header_sha256 : Bytes
  pub header_sha256 : Bytes

-- `source[:slot] + digest + source[slot + 64:]`
abbrev pub rebound : ℕ → Bytes → Bytes → Bytes
rebound slot digest source = take slot source ++ (digest ++ drop (slot + 64) source)

-- `sha256` is the hexadecimal digest.
module _ (decode : Bytes → Option Bytes) (loads : Bytes → Option Json)
    (sha256 : Bytes → Bytes) where
  unfoldable pub asar_header_sha256 : Bytes → Outcome AsarError Bytes
  asar_header_sha256 content = do
    raise_if (not (length (take 16 content) == 16)) truncated_header
    (size_payload, header_size, header_payload, text_size) ← unpack_longs content 0
    raise_if
        (not (size_payload == 4)
          || not (header_size == header_payload + 4)
          || not (leb 1 text_size && leb text_size max_header_bytes)
          || not (header_size == 8 + (text_size + 3) / 4 * 4)
          || ltb (length content) (8 + header_size))
        header_framing
    raise_if (not (length (slice 16 (16 + text_size) content) == text_size)) truncated_header
    check_header (loads (slice 16 (16 + text_size) content))
    ok (sha256 (slice 16 (16 + text_size) content))

  unfoldable pub verify_desktop_integrity : Installation → Outcome AsarError IntegrityReport
  verify_desktop_integrity d = do
    verify_integrity_fuses d.library
    source ← read_pe d.original
    actual ← read_pe d.runtime
    (slot, original_hash) ← integrity_hash_slot decode loads source
    (runtime_slot, runtime_hash) ← integrity_hash_slot decode loads actual
    expected_hash ← asar_header_sha256 d.archive
    raise_if
        (not (runtime_slot == slot)
          || not (bytes_eq runtime_hash expected_hash)
          || not (bytes_eq actual (rebound slot expected_hash source)))
        desktop_differs
    ok (record {
      original_desktop_sha256 = sha256 source;
      runtime_desktop_sha256 = sha256 actual;
      original_header_sha256 = original_hash;
      header_sha256 = expected_hash;
    })

  -- What `patch_desktop_integrity` writes to the runtime, or the exception before it writes.
  -- `same_file` tells whether the two paths name one file.
  unfoldable pub plan_patch : Bool → Installation → Outcome AsarError Bytes
  plan_patch same_file d = do
    raise_if same_file not_separate
    source ← read_pe d.original
    (slot, original_hash) ← integrity_hash_slot decode loads source
    official ← asar_header_sha256 d.source_archive
    raise_if (not (bytes_eq original_hash official)) not_official
    copied ← read_pe d.runtime
    raise_if (not (bytes_eq copied source)) not_a_copy
    verify_integrity_fuses d.library
    digest ← asar_header_sha256 d.archive
    ok (rebound slot digest source)

  abbrev pub write_runtime :
      Outcome AsarError Bytes → Installation → Outcome AsarError IntegrityReport × Installation
  write_runtime (err e) d = (err e, d)
  write_runtime (ok content) d =
      let written = record d { runtime = some content } in
      (verify_desktop_integrity written, written)

  unfoldable pub patch_desktop_integrity :
      Bool → Installation → Outcome AsarError IntegrityReport × Installation
  patch_desktop_integrity same_file d = write_runtime (plan_patch same_file d) d
