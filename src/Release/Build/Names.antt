-- ===== src/Release/Build/Names.antt =====
-- The names of the artifacts that `build_release` of scripts/release/release_artifacts.py writes.
use codex_subscription_route.Prelude.{
  all-append, ℕ, ◌≡◌, ◌∙◌, refl, sym, subst, Bool, true, false, Option, none, some, [], ◌∷◌, ◌++◌,
  arith, ◌==◌, all, Bool-cases, inl, inr, and-eq-true, ok,
}
use mathlib.Core.Option.{some-injective}
use codex_subscription_route.Text.{Bytes, codes, join, has_byte, Lacks, is_printable, is_digit}
use codex_subscription_route.Release.Path.{normalized_path}
use codex_subscription_route.Release.Path.Canonical.{IsPiece, normalized_path_iff}
use codex_subscription_route.Release.Context.{
  BuildContext, project_name, is_semantic, after_digits, after_dot, is_suffix, is_pre_release,
}
use codex_subscription_route.Release.Build.{base}

is_digit-pre_release : (c : ℕ) → is_digit c ≡ true → is_pre_release c ≡ true
is_digit-pre_release c h = ground arith

pre_release-printable : (c : ℕ) → is_pre_release c ≡ true → is_printable c ≡ true
pre_release-printable c h = ground arith

abbrev IsPlain : Bytes → Type 0
IsPlain s = all is_pre_release s ≡ true

after_digits-IsPlain :
    (seen : Bool) (s : Bytes) {t : Bytes} → after_digits seen s ≡ some t → IsPlain t → IsPlain s
unfolding after_digits
after_digits-IsPlain seen [] h p = refl
after_digits-IsPlain seen (c ∷ s) h p = elim (Bool-cases (is_digit c)) [
  | inl digit ↦
      let h' = rw (digit) at h in
      rw (is_digit-pre_release c digit, after_digits-IsPlain true s h' p)
  | inr other ↦ elim (Bool-cases seen) [
    | inl begun ↦ let h' = rw (other, begun) at h in subst IsPlain (sym (some-injective _ _ h')) p
    | inr first ↦ let h' = rw (other, first) at h in cc
  ]
]

after_dot-IsPlain :
    (o : Option Bytes) {t : Bytes}
    → after_dot o ≡ some t
    → IsPlain t
    → (s : Bytes) × (o ≡ some s) × IsPlain s
after_dot-IsPlain none h p = cc
after_dot-IsPlain (some []) h p = cc
after_dot-IsPlain (some (c ∷ s)) h p = elim (Bool-cases (c == b'.')) [
  | inr other ↦ let h' = rw (other) at h in cc
  | inl dot ↦
      let h' = rw (dot) at h in
      let plain = after_digits-IsPlain false s h' p in (c ∷ s, refl, ground (arith, dot, plain))
]

is_suffix-IsPlain : (o : Option Bytes) → is_suffix o ≡ true → (s : Bytes) × (o ≡ some s) × IsPlain s
is_suffix-IsPlain none h = cc
is_suffix-IsPlain (some []) h = ([], refl, refl)
is_suffix-IsPlain (some (c ∷ s)) h = (c ∷ s, refl, ground arith)

is_semantic-IsPlain : (s : Bytes) → is_semantic s ≡ true → IsPlain s
unfolding is_semantic
is_semantic-IsPlain s h =
    let (t, third, p) = is_suffix-IsPlain _ h in
    let (u, second, q) = after_dot-IsPlain _ third p in
    let (v, first, r) = after_dot-IsPlain _ second q in after_digits-IsPlain false s first r

plain-Lacks :
    (x : ℕ) (s : Bytes)
    → ((c : ℕ) → is_pre_release c ≡ true → (c == x) ≡ false)
    → IsPlain s
    → Lacks x s
unfolding has_byte
plain-Lacks x [] f p = refl
plain-Lacks x (c ∷ s) f p =
    let (here, rest) = and-eq-true (is_pre_release c) (all is_pre_release s) p in
    rw (f c here, plain-Lacks x s f rest)

plain-printable : (s : Bytes) → IsPlain s → all is_printable s ≡ true
plain-printable [] p = refl
plain-printable (c ∷ s) p =
    let (here, rest) = and-eq-true (is_pre_release c) (all is_pre_release s) p in
    rw (pre_release-printable c here, plain-printable s rest)

-- A name that starts as the project's does and has only such characters.
plain-IsPiece : (s : Bytes) → IsPlain (b'c' ∷ s) → IsPiece (b'c' ∷ s)
plain-IsPiece s p = record {
  nonempty = ground arith;
  not_dot = ground arith;
  not_up = ground arith;
  no_slash = plain-Lacks b'/' (b'c' ∷ s) (λ c h. ground arith) p;
  no_backslash = plain-Lacks b'\\' (b'c' ∷ s) (λ c h. ground arith) p;
}

base-IsPlain :
    (c : BuildContext) (ext : Bytes)
    → is_semantic c.version ≡ true
    → IsPlain ext
    → IsPlain (base c ++ ext)
base-IsPlain c ext h p =
    all-append is_pre_release (base c) ext
    ∙ rw (
      all-append is_pre_release project_name (codes "-v" ++ c.version),
      is_semantic-IsPlain c.version h,
      p,
    )

-- A name with an extension can stand in a manifest.
pub artifact_name_lem :
    (c : BuildContext) (ext : Bytes)
    → is_semantic c.version ≡ true
    → all is_pre_release ext ≡ true
    → (normalized_path (base c ++ ext) ≡ ok (base c ++ ext))
      × (all is_printable (base c ++ ext) ≡ true)
unfolding join
artifact_name_lem c ext h p =
    let plain = base-IsPlain c ext h p in
    let piece : IsPiece (base c ++ ext) = plain-IsPiece _ plain in
    (
      (normalized_path_iff (base c ++ ext) (base c ++ ext)).1 (
        refl,
        inr (record { first = base c ++ ext; more = []; pieces = (piece, tt); joined = refl }),
      ),
      plain-printable (base c ++ ext) plain,
    )

pub archive_root-IsPiece : (c : BuildContext) → is_semantic c.version ≡ true → IsPiece (base c)
archive_root-IsPiece c h =
    let plain : IsPlain (base c) = rw (is_semantic-IsPlain c.version h) in plain-IsPiece _ plain
