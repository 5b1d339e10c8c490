-- ===== src/Asar/Desktop/Rebound.antt =====
-- Only the hash differs between the original desktop and an accepted one.
use codex_subscription_route.Prelude.{
  Outcome-cases, ok-injective, ℕ, ◌+◌, ◌*◌, ◌/◌, ◌≤◌, ◌≡◌, ◌∙◌, refl, sym, ap, subst, Bool, false,
  not, ◌&&◌, ◌||◌, Option, none, some, ◌++◌, arith, ◌==◌, ltb, leb, length, length-append, take,
  drop, ==_iff, inl, inr, ok, >>=-eq-ok, raise_if->>-eq-ok, length-take, length-drop,
  take-append_length, drop-append_length,
}
use codex_subscription_route.Text.{Bytes, bytes_eq, bytes_eq_iff}
use codex_subscription_route.Asar.Binary.{
  desktop_differs, not_bounded, not_separate, not_official, not_a_copy, unpack_longs,
  truncated_header, header_framing, slice,
}
use codex_subscription_route.Json.{Json}
use codex_subscription_route.Asar.Slices.{drop-drop}
use codex_subscription_route.Asar.Slot.{max_pe_bytes, integrity_hash_slot}
use codex_subscription_route.Asar.Slot.Bounds.{integrity_hash_slot-HashAt}
use codex_subscription_route.Asar.Fuses.{verify_integrity_fuses}
use codex_subscription_route.Asar.Desktop.{
  read_pe, check_header, Installation, IntegrityReport, rebound, asar_header_sha256,
  verify_desktop_integrity, plan_patch, patch_desktop_integrity, max_header_bytes,
}

-- The two contents are equal but for the 64 bytes at the slot, which are the digest in the second.
abbrev pub OnlyHashDiffers : ℕ → Bytes → Bytes → Bytes → Type 0
OnlyHashDiffers slot digest source actual =
    (length actual ≡ length source)
    × (take slot actual ≡ take slot source)
    × (take 64 (drop slot actual) ≡ digest)
    × (drop (slot + 64) actual ≡ drop (slot + 64) source)

take-at : (n : ℕ) (xs ys : Bytes) → length xs ≡ n → take n (xs ++ ys) ≡ xs
take-at n xs ys h = subst (λ k. take k (xs ++ ys) ≡ xs) h (take-append_length xs ys)

drop-at : (n : ℕ) (xs ys : Bytes) → length xs ≡ n → drop n (xs ++ ys) ≡ ys
drop-at n xs ys h = subst (λ k. drop k (xs ++ ys) ≡ ys) h (drop-append_length xs ys)

rebound-OnlyHashDiffers :
    (slot : ℕ) (digest source : Bytes)
    → length digest ≡ 64
    → slot + 64 ≤ length source
    → OnlyHashDiffers slot digest source (rebound slot digest source)
rebound-OnlyHashDiffers slot digest source h fits =
    let tail = drop (slot + 64) source in
    let front : length (take slot source) ≡ slot = omega (arith, length-take slot source) in
    let rest = drop-at slot (take slot source) (digest ++ tail) front in
    (
      length-append (take slot source) (digest ++ tail)
          ∙ omega (arith, front, h, length-append digest tail, length-drop (slot + 64) source),
      take-at slot (take slot source) (digest ++ tail) front,
      ap (take 64) rest ∙ take-at 64 digest tail h,
      sym (drop-drop slot 64 (slot + 64) (rebound slot digest source) refl)
          ∙ ap (drop 64) rest
          ∙ drop-at 64 digest tail h,
    )

read_pe-eq-ok : (o : Option Bytes) {content : Bytes} → read_pe o ≡ ok content → o ≡ some content
unfolding read_pe
read_pe-eq-ok none h = cc
read_pe-eq-ok (some c) h = ap some (
    ok-injective
      (raise_if->>-eq-ok (not (leb 256 (length c) && leb (length c) max_pe_bytes)) not_bounded
        (ok c) h).1)

module _ (decode : Bytes → Option Bytes) (loads : Bytes → Option Json)
    (sha256 : Bytes → Bytes) where
  -- The digest is that of some bytes.
  asar_header_sha256-eq-ok :
      (content : Bytes) {v : Bytes}
      → asar_header_sha256 decode loads sha256 content ≡ ok v
      → (header : Bytes) × (sha256 header ≡ v)
  unfolding asar_header_sha256
  asar_header_sha256-eq-ok content h =
      let (_, h1) = raise_if->>-eq-ok (not (length (take 16 content) == 16)) truncated_header _ h in
      let ((size_payload, header_size, header_payload, text_size), _, h2) =
        >>=-eq-ok (unpack_longs content 0) _ h1 in
      let (_, h3) =
        raise_if->>-eq-ok
          (not (size_payload == 4)
            || not (header_size == header_payload + 4)
            || not (leb 1 text_size && leb text_size max_header_bytes)
            || not (header_size == 8 + (text_size + 3) / 4 * 4)
            || ltb (length content) (8 + header_size))
          header_framing _ h2 in
      let header = slice 16 (16 + text_size) content in
      let (_, h4) = raise_if->>-eq-ok (not (length header == text_size)) truncated_header _ h3 in
      let (_, _, h5) = >>=-eq-ok (check_header (loads header)) _ h4 in (header, ok-injective h5)

  -- What the acceptance of an installation says of its two executables.
  pub record Accepted (d : Installation) (report : IntegrityReport) : Type 0 where
    pub source : Bytes
    pub actual : Bytes
    pub slot : ℕ
    pub has_original : d.original ≡ some source
    pub has_runtime : d.runtime ≡ some actual
    pub records_header : integrity_hash_slot decode loads actual ≡ ok (slot, report.header_sha256)
    pub is_header : asar_header_sha256 decode loads sha256 d.archive ≡ ok report.header_sha256
    pub only_hash_differs : OnlyHashDiffers slot report.header_sha256 source actual

  -- When `verify_desktop_integrity` returns a report, both executables are there; the hash that the
  -- runtime records in its integrity resource is the digest of the archive's header; and the runtime
  -- has the bytes of the original everywhere but in the 64 bytes of that hash. A hexadecimal digest
  -- must have 64 characters.
  pub verify_desktop_integrity-Accepted :
      (d : Installation) (report : IntegrityReport)
      → ((content : Bytes) → length (sha256 content) ≡ 64)
      → verify_desktop_integrity decode loads sha256 d ≡ ok report
      → Accepted d report
  unfolding verify_desktop_integrity
  verify_desktop_integrity-Accepted d report digits h =
      let (_, _, h1) = >>=-eq-ok (verify_integrity_fuses d.library) _ h in
      let (source, there, h2) = >>=-eq-ok (read_pe d.original) _ h1 in
      let (actual, also, h3) = >>=-eq-ok (read_pe d.runtime) _ h2 in
      let ((slot, original_hash), found, h4) =
        >>=-eq-ok (integrity_hash_slot decode loads source) _ h3 in
      let ((runtime_slot, runtime_hash), read, h5) =
        >>=-eq-ok (integrity_hash_slot decode loads actual) _ h4 in
      let (digest, hashed, h6) =
        >>=-eq-ok (asar_header_sha256 decode loads sha256 d.archive) _ h5 in
      let (same, h7) =
        raise_if->>-eq-ok
          (not (runtime_slot == slot)
            || not (bytes_eq runtime_hash digest)
            || not (bytes_eq actual (rebound slot digest source)))
          desktop_differs _ h6 in
      let same_digest : digest ≡ report.header_sha256 =
        ap (λ r. r.header_sha256) (ok-injective h7) in
      let same_slot : runtime_slot ≡ slot = (==_iff _ _).0 (ground arith) in
      let same_hash : runtime_hash ≡ digest = (bytes_eq_iff _ _).0 (ground arith) in
      let read_slot : integrity_hash_slot decode loads actual ≡ ok (slot, runtime_hash) =
        subst (λ i. integrity_hash_slot decode loads actual ≡ ok (i, runtime_hash)) same_slot
          read in
      let recorded : integrity_hash_slot decode loads actual ≡ ok (slot, report.header_sha256) =
        subst (λ v. integrity_hash_slot decode loads actual ≡ ok (slot, v))
          (same_hash ∙ same_digest) read_slot in
      let fits = (integrity_hash_slot-HashAt decode loads source slot original_hash found).0 in
      let (header, is) = asar_header_sha256-eq-ok d.archive hashed in
      let rebuilt : actual ≡ rebound slot digest source = (bytes_eq_iff _ _).0 (ground arith) in
      let differs =
        rebound-OnlyHashDiffers slot digest source (ap length (sym is) ∙ digits header) fits in
      record {
        source = source;
        actual = actual;
        slot = slot;
        has_original = read_pe-eq-ok d.original there;
        has_runtime = read_pe-eq-ok d.runtime also;
        records_header = recorded;
        is_header = hashed ∙ ap ok same_digest;
        only_hash_differs =
            subst (λ v. OnlyHashDiffers slot v source actual) same_digest
              (subst (OnlyHashDiffers slot digest source) (sym rebuilt) differs);
      }

  plan_patch-eq-ok :
      (same_file : Bool) (d : Installation) {written : Bytes}
      → plan_patch decode loads sha256 same_file d ≡ ok written
      → (source : Bytes) × (recorded : Bytes) × (slot : ℕ) × (same_file ≡ false)
        × (d.original ≡ some source)
        × (d.runtime ≡ some source)
        × (integrity_hash_slot decode loads source ≡ ok (slot, recorded))
        × (asar_header_sha256 decode loads sha256 d.source_archive ≡ ok recorded)
  unfolding plan_patch
  plan_patch-eq-ok same_file d h =
      let (apart, h1) = raise_if->>-eq-ok same_file not_separate _ h in
      let (source, there, h2) = >>=-eq-ok (read_pe d.original) _ h1 in
      let ((slot, recorded), found, h3) =
        >>=-eq-ok (integrity_hash_slot decode loads source) _ h2 in
      let (official, hashed, h4) =
        >>=-eq-ok (asar_header_sha256 decode loads sha256 d.source_archive) _ h3 in
      let (agree, h5) = raise_if->>-eq-ok (not (bytes_eq recorded official)) not_official _ h4 in
      let (copied, also, h6) = >>=-eq-ok (read_pe d.runtime) _ h5 in
      let (copy, _) = raise_if->>-eq-ok (not (bytes_eq copied source)) not_a_copy _ h6 in
      let same_content : copied ≡ source = (bytes_eq_iff _ _).0 (ground arith) in
      let same_hash : recorded ≡ official = (bytes_eq_iff _ _).0 (ground arith) in
      (
        source,
        recorded,
        slot,
        apart,
        read_pe-eq-ok d.original there,
        read_pe-eq-ok d.runtime also ∙ ap some same_content,
        found,
        hashed ∙ ap ok (sym same_hash),
      )

  -- When `patch_desktop_integrity` returns, the original and the runtime were different files of the
  -- same content, whose recorded hash was the digest of the source archive's header; it has changed
  -- nothing but the runtime; and the new state is one that `verify_desktop_integrity` accepts.
  pub patch_desktop_integrity_sound :
      (same_file : Bool) (d : Installation) (report : IntegrityReport)
      → let done = patch_desktop_integrity decode loads sha256 same_file d in
        done.0 ≡ ok report
        → (source : Bytes) × (recorded : Bytes) × (slot : ℕ) × (same_file ≡ false)
          × (d.original ≡ some source)
          × (d.runtime ≡ some source)
          × (integrity_hash_slot decode loads source ≡ ok (slot, recorded))
          × (asar_header_sha256 decode loads sha256 d.source_archive ≡ ok recorded)
          × ((written : Bytes) × (done.1 ≡ record d { runtime = some written }))
          × (verify_desktop_integrity decode loads sha256 done.1 ≡ ok report)
  unfolding patch_desktop_integrity
  patch_desktop_integrity_sound same_file d report h =
      elim (Outcome-cases (plan_patch decode loads sha256 same_file d)) [
        | inr (e, failed) ↦ let h' = rw (failed) at h in cc
        | inl (written, planned) ↦
            let h' = rw (planned) at h in
            let (source, recorded, slot, apart, there, copy, found, hashed) =
              plan_patch-eq-ok same_file d planned in
            rw (planned)
              (source, recorded, slot, apart, there, copy, found, hashed, (written, refl), h')
      ]
