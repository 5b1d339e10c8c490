-- ===== src/Tests/Built.antt =====
-- The theorem on a built release, at the small repository.
use codex_subscription_route.Prelude.{
  ◌≤◌, ◌≡◌, refl, sym, ap, subst, ◌∙◌, false, some, [], ◌∷◌, arith, Bool-cases, inl, inr, All, err,
  ◌⊎◌, ok, ok-injective, length,
}
use mathlib.Core.Option.{some-injective}
use codex_subscription_route.Text.{Bytes, codes, bytes_eq, decimal}
use codex_subscription_route.Json.{lookup, fields_of}
use codex_subscription_route.Release.Library.{json_bytes}
use codex_subscription_route.Release.Archive.{write_tar_gz}
use codex_subscription_route.Release.Manifest.{int_max_str_digits}
use codex_subscription_route.Release.Manifest.Line.{IsDigest}
use codex_subscription_route.Release.Cyclonedx.{bom}
use codex_subscription_route.Release.Spdx.{spdx, spdx_document}
use codex_subscription_route.Release.Gates.{gate_entries}
use codex_subscription_route.Release.Provenance.{provenance, statement}
use codex_subscription_route.Release.Build.{
  file, build_release, Directory, output_names, initial_artifacts,
}
use codex_subscription_route.Release.Errors.{output_not_empty}
use codex_subscription_route.Release.Build.Made.{HoldsArchive, build_release-fails}
use codex_subscription_route.Release.Verify.{find_file, verify_release}
use codex_subscription_route.Release.Verify.Built.{IsReadBack, build_release-verify_release}
use codex_subscription_route.Release.Verify.Stored.{IsSized}
use codex_subscription_route.Tests.Documents.{
  digest_of, build, readme, repository, packed, pack, unpack, py, initial, dictionaries,
  context_found, bills_made, bill_made, gates_made,
}
use codex_subscription_route.Tests.Verified.{
  inputs_read, release, sums, built, sources_listed, archive_IsTarGz, statement_made,
}

digest_of-IsDigest : (s : Bytes) → IsDigest (digest_of s)
digest_of-IsDigest s = record { sixty_four = refl; hexadecimal = ground arith }

find_file-All :
    (P : Bytes → Type 0) (children : Directory) (name : Bytes) {s : Bytes}
    → All (λ child. (t : Bytes) → child.content ≡ some t → P t) children
    → find_file name children ≡ some s
    → P s
unfolding find_file
find_file-All P [] name h e = cc
find_file-All P (child ∷ children) name {s} h e = elim (Bool-cases (bytes_eq name child.name)) [
  | inl here ↦ let e' = rw (here) at e in h.0 s e'
  | inr there ↦ let e' = rw (there) at e in find_file-All P children name h.1 e'
]

sized_lem :
    (s : Bytes)
    → length (decimal (length s)) ≤ int_max_str_digits
    → (t : Bytes) → some s ≡ some t
    → length (decimal (length t)) ≤ int_max_str_digits
sized_lem s h t e =
    subst (λ u. length (decimal (length u)) ≤ int_max_str_digits) (some-injective _ _ e) h

release-IsSized : IsSized release
unfolding decimal
release-IsSized name contents e =
    find_file-All (λ t. length (decimal (length t)) ≤ int_max_str_digits) release name
      (
        sized_lem packed (omega arith),
        (
          sized_lem (codes "bom\n") (omega arith),
          (
            sized_lem (codes "spdx\n") (omega arith),
            (
              sized_lem (codes "gates\n") (omega arith),
              (sized_lem (codes "statement\n") (omega arith), (sized_lem sums (omega arith), tt)),
            ),
          ),
        ),
      )
      e

read_back : IsReadBack py repository build packed
unfolding json_bytes bom spdx_document gate_entries statement lookup fields_of bytes_eq
read_back = record {
  bills_back = λ v h.
      subst (λ w. py.loads (json_bytes py w) ≡ some w) (ok-injective (sym bills_made ∙ h)) refl;
  bill_back = λ u v g h.
      let same = ok-injective (sym bills_made ∙ g) in
      let made = subst (λ w. spdx py build w ≡ ok v) (sym same) h in
      subst (λ w. py.loads (json_bytes py w) ≡ some w) (ok-injective (sym bill_made ∙ made)) refl;
  gates_back = λ v h.
      subst (λ w. py.loads (json_bytes py w) ≡ some w) (ok-injective (sym gates_made ∙ h)) refl;
  statement_back = λ u v w x g h k l.
      let same_u = ok-injective (sym bills_made ∙ g) in
      let same_v =
        ok-injective (sym bill_made ∙ subst (λ b. spdx py build b ≡ ok v) (sym same_u) h) in
      let same_w = ok-injective (sym gates_made ∙ k) in
      let same : initial_artifacts build packed (json_bytes py u) (json_bytes py v)
            (json_bytes py w)
          ≡ initial =
        rw⁻¹ (same_u, same_v, same_w) refl in
      let made = ap (provenance py repository build) (sym same) ∙ l in
      subst (λ y. py.loads (json_bytes py y) ≡ some y) (ok-injective (sym statement_made ∙ made))
        refl;
}

build_release-verify_release_example :
    verify_release unpack py repository release ≡ ok (output_names build)
unfolding write_tar_gz
build_release-verify_release_example =
    build_release-verify_release pack unpack py repository (some (codes "gates\n")) false build
      (readme ∷ []) (output_names build) release digest_of-IsDigest dictionaries context_found
      sources_listed (ground arith, tt) archive_IsTarGz read_back release-IsSized built

abbrev occupied : Directory
occupied = file (codes "notes.txt") [] ∷ []

build_refused :
    build_release pack py repository (some (codes "gates\n")) false occupied
    ≡ (err output_not_empty, occupied)
unfolding build_release
build_refused = rw (inputs_read)

build_release-fails_example :
    (occupied ≡ occupied)
    ⊎ HoldsArchive pack py repository
        (some (codes "gates\n"))
        false
        output_not_empty
        occupied
        occupied
build_release-fails_example =
    build_release-fails pack py repository (some (codes "gates\n")) false occupied occupied
      output_not_empty build_refused
