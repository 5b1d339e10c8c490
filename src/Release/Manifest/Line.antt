-- ===== src/Release/Manifest/Line.antt =====
-- One line of `SHA256SUMS` read back: `HASH_LINE` against the formatting of `_manifest_bytes`.
use codex_subscription_route.Prelude.{
  all-append, ℕ, ◌≡◌, ◌≢◌, ◌∙◌, refl, ap, subst, Bool, true, some, [], ◌∷◌, ◌++◌, arith, all,
  length, take, drop, and-eq-true, take-append_length, drop-append_length,
}
use codex_subscription_route.Text.{
  Bytes, bytes_eq_iff, Lacks, decimal, decimal-digits, decimal-ne-nil, is_digit, is_printable,
}
use codex_subscription_route.Release.Manifest.{
  render, is_hex, after_spaces, span_digits, after_digest, size_and_name, hash_line,
}

-- What a hexadecimal SHA-256 looks like.
pub record IsDigest (s : Bytes) : Type 0 where
  pub sixty_four : length s ≡ 64
  pub hexadecimal : all is_hex s ≡ true

span_digits-append :
    (run : Bytes) (rest : Bytes)
    → all is_digit run ≡ true
    → span_digits (run ++ (b' ' ∷ rest)) ≡ (run, b' ' ∷ rest)
unfolding span_digits
span_digits-append [] rest h = refl
span_digits-append (c ∷ run) rest h = ground (arith, span_digits-append run rest)

digest_cut : (s t : Bytes) → length s ≡ 64 → (take 64 (s ++ t) ≡ s) × (drop 64 (s ++ t) ≡ t)
digest_cut s t h = (
  subst (λ n. take n (s ++ t) ≡ s) h (take-append_length s t),
  subst (λ n. drop n (s ++ t) ≡ t) h (drop-append_length s t),
)

size_and_name-append :
    (digest : Bytes) (size : ℕ) (name : Bytes)
    → name ≢ []
    → Lacks b'\\' name
    → size_and_name digest (decimal size ++ (b' ' ∷ b' ' ∷ name))
      ≡ some (digest, decimal size, name)
unfolding size_and_name after_spaces
size_and_name-append digest size name n b =
    rw (span_digits-append (decimal size) (b' ' ∷ name) (decimal-digits size), size_and_name)
      (rw (ap (λ r. r.0) (span_digits-append (decimal size) (b' ' ∷ name) (decimal-digits size)))
        (ground (arith, bytes_eq_iff (decimal size) [], bytes_eq_iff name [], decimal-ne-nil size)))

-- The regular expression takes a formatted line apart as it was put together.
pub hash_line-render :
    (digest : Bytes) (size : ℕ) (name : Bytes)
    → IsDigest digest
    → name ≢ []
    → Lacks b'\\' name
    → hash_line (render digest size name) ≡ some (digest, decimal size, name)
unfolding hash_line after_digest render after_spaces
hash_line-render digest size name d n b =
    rw ((digest_cut digest (b' ' ∷ b' ' ∷ (decimal size ++ (b' ' ∷ b' ' ∷ name))) d.sixty_four).0) (
      rw ((digest_cut digest (b' ' ∷ b' ' ∷ (decimal size ++ (b' ' ∷ b' ' ∷ name))) d.sixty_four).1)
        (rw (d.hexadecimal, size_and_name-append digest size name n b) (ground arith)))

digit_printable : (c : ℕ) → is_digit c ≡ true → is_printable c ≡ true
digit_printable c h = ground arith

hex_printable : (c : ℕ) → is_hex c ≡ true → is_printable c ≡ true
hex_printable c h = ground arith

all_of_all :
    (p q : ℕ → Bool) (s : Bytes)
    → ((c : ℕ) → p c ≡ true → q c ≡ true)
    → all p s ≡ true
    → all q s ≡ true
all_of_all p q [] f h = refl
all_of_all p q (c ∷ s) f h =
    let both = and-eq-true (p c) (all p s) h in rw (f c both.0) (all_of_all p q s f both.1)

pub render-printable :
    (digest : Bytes) (size : ℕ) (name : Bytes)
    → IsDigest digest
    → all is_printable name ≡ true
    → all is_printable (render digest size name) ≡ true
unfolding render
render-printable digest size name d n =
    all-append is_printable digest _
    ∙ rw (all_of_all is_hex is_printable digest hex_printable d.hexadecimal) (
        all-append is_printable (decimal size) _
        ∙ rw (all_of_all is_digit is_printable (decimal size) digit_printable (decimal-digits size))
            n)
