-- ===== src/Release/Manifest/RoundTrip.antt =====
-- `_parse_manifest` reads back what `_manifest_bytes` of scripts/release/release_artifacts.py writes.
use mathlib.Core.List.{append_assoc, append-nil, map-append}
use codex_subscription_route.Prelude.{
  all-append, ℕ, ◌≤◌, ◌≡◌, ◌≢◌, ◌∙◌, refl, sym, ap, subst, true, false, some, List, [], ◌∷◌, ◌++◌,
  map, arith, ltb, all, length, All, not_of_false, ok, ◌>>=◌, collect,
}
use codex_subscription_route.Text.{
  Bytes, codes, bytes_eq, bytes_eq_iff, contains, join, sort_by, sort_by-All, sort_by-ne-nil,
  sort_by-IsSortedBy, is_sorted_iff, keys-IsSortedBy, IsSortedBy, sort_by-Distinct, Distinct,
  Distinct-middle, decimal, number-decimal, is_utf8_of_ascii, is_printable, is_line_byte,
  split_lines, split_lines-newline, split_lines-nil,
}
use codex_subscription_route.Release.Path.{normalized_path}
use codex_subscription_route.Release.Path.Canonical.{normalized_path-Passed}
use codex_subscription_route.Release.Manifest.{
  Artifact, Entry, render, manifest_line, manifest_bytes, names, int_max_str_digits, hash_line,
  accept, parse_lines, parse_manifest,
}
use codex_subscription_route.Release.Manifest.Line.{IsDigest, hash_line-render, render-printable}

-- Lines that are printable come back from the joined text.
split_lines-join :
    (l : Bytes) (ls : List Bytes)
    → All (λ t. all is_printable t ≡ true) (l ∷ ls)
    → split_lines (join b'\n' (l ∷ ls) ++ codes "\n") ≡ l ∷ ls
unfolding join
split_lines-join l [] h = split_lines-newline l [] h.0 ∙ ap (λ r. l ∷ r) split_lines-nil
split_lines-join l (m ∷ ls) h = rw append_assoc (
    split_lines-newline l (join b'\n' (m ∷ ls) ++ codes "\n") h.0
    ∙ ap (λ r. l ∷ r) (split_lines-join m ls h.1))

line_bytes : (s : Bytes) → all is_printable s ≡ true → all is_line_byte s ≡ true
line_bytes [] h = refl
line_bytes (c ∷ s) h = ground (arith, line_bytes s)

join-line_bytes :
    (l : Bytes) (ls : List Bytes)
    → All (λ t. all is_printable t ≡ true) (l ∷ ls)
    → all is_line_byte (join b'\n' (l ∷ ls) ++ codes "\n") ≡ true
unfolding join
join-line_bytes l [] h = all-append is_line_byte l (codes "\n") ∙ rw (line_bytes l h.0)
join-line_bytes l (m ∷ ls) h =
    rw append_assoc (all-append is_line_byte l _ ∙ rw (line_bytes l h.0) (join-line_bytes m ls h.1))

-- An artifact that a manifest can list: a portable printable name, and a size of at most 4300 digits.
pub record IsArtifact (a : Artifact) : Type 0 where
  pub portable : normalized_path a.name ≡ ok a.name
  pub printable : all is_printable a.name ≡ true
  pub sized : length (decimal (length a.content)) ≤ int_max_str_digits

le_not_lt : (m n : ℕ) → n ≤ m → ltb m n ≡ false
le_not_lt m n h = ground arith

module _ (sha256 : Bytes → Bytes) (sha256-IsDigest : (s : Bytes) → IsDigest (sha256 s)) where
  line_of : Artifact → Bytes
  line_of a = render (sha256 a.content) (length a.content) a.name

  -- The entry that an artifact should have.
  unfoldable pub entry_of : Artifact → Entry
  entry_of a = record { name = a.name; digest = sha256 a.content; size = length a.content }

  manifest_lines :
      (as' : List Artifact)
      → All IsArtifact as'
      → collect (manifest_line sha256) as' ≡ ok (map line_of as')
  unfolding manifest_line line_of
  manifest_lines [] h = refl
  manifest_lines (a ∷ as') h = rw (h.0.portable, manifest_lines as' h.1)

  lines-printable :
      (as' : List Artifact)
      → All IsArtifact as'
      → All (λ t. all is_printable t ≡ true) (map line_of as')
  unfolding line_of
  lines-printable [] h = tt
  lines-printable (a ∷ as') h = (
    render-printable (sha256 a.content) _ a.name (sha256-IsDigest a.content) h.0.printable,
    lines-printable as' h.1,
  )

  pub names-entries : (as' : List Artifact) → names (map entry_of as') ≡ map (λ a. a.name) as'
  unfolding entry_of
  names-entries [] = refl
  names-entries (a ∷ as') = ap (λ r. a.name ∷ r) (names-entries as')

  hash_line-line_of :
      (a : Artifact)
      → IsArtifact a
      → hash_line (line_of a) ≡ some (sha256 a.content, decimal (length a.content), a.name)
  unfolding line_of
  hash_line-line_of a h =
      let q = (normalized_path-Passed a.name h.portable).1 in
      hash_line-render (sha256 a.content) (length a.content) a.name (sha256-IsDigest a.content)
        (λ e. not_of_false (bytes_eq a.name []) (bytes_eq_iff a.name []).1 q.nonempty e)
        q.no_backslash

  names-snoc :
      (es : List Entry) (a : Artifact) (as' : List Artifact)
      → names (es ++ (entry_of a ∷ [])) ++ map (λ a. a.name) as'
        ≡ names es ++ (a.name ∷ map (λ a. a.name) as')
  unfolding entry_of
  names-snoc es a as' = rw (map-append, append_assoc)

  parse_lines-cons :
      (es : List Entry) (a : Artifact) (ls : List Bytes)
      → IsArtifact a
      → contains (names es) a.name ≡ false
      → parse_lines es (line_of a ∷ ls) ≡ parse_lines (es ++ (entry_of a ∷ [])) ls
  unfolding parse_lines accept entry_of
  parse_lines-cons es a ls h f = rw (hash_line-line_of a h) (
      rw (h.portable, f, number-decimal (length a.content))
        (rw (le_not_lt int_max_str_digits (length (decimal (length a.content))) h.sized)))

  parse_lines-lines :
      (es : List Entry) (as' : List Artifact)
      → All IsArtifact as'
      → Distinct (names es ++ map (λ a. a.name) as')
      → parse_lines es (map line_of as') ≡ ok (es ++ map entry_of as')
  unfolding parse_lines
  parse_lines-lines es [] h d = rw append-nil
  parse_lines-lines es (a ∷ as') h d =
      parse_lines-cons es a (map line_of as') h.0
        (Distinct-middle (names es) a.name (map (λ a. a.name) as') d)
      ∙ parse_lines-lines (es ++ (entry_of a ∷ [])) as' h.1
          (subst Distinct (sym (names-snoc es a as')) d)
      ∙ ap ok (append_assoc es (entry_of a ∷ []) (map entry_of as'))

  -- What the manifest of a sorted list of artifacts is read as.
  parse-lines_of :
      (as' : List Artifact)
      → as' ≢ []
      → All IsArtifact as'
      → Distinct (map (λ a. a.name) as')
      → IsSortedBy (λ a. a.name) as'
      → parse_manifest (join b'\n' (map line_of as') ++ codes "\n") ≡ ok (map entry_of as')
  unfolding parse_manifest
  parse-lines_of [] n h d s = absurd (n refl)
  parse-lines_of (a ∷ as') n h d s =
      rw (is_utf8_of_ascii _ (join-line_bytes (line_of a) (map line_of as') printable)) (
        rw (split_lines-join (line_of a) (map line_of as') printable) (
          rw (parse_lines-lines [] (a ∷ as') h d) (
            rw (
              names-entries (a ∷ as'),
              (is_sorted_iff (map (λ x. x.name) (a ∷ as'))).1
                  (keys-IsSortedBy (λ x. x.name) (a ∷ as') s),
            ))))
    where
      printable : All (λ t. all is_printable t ≡ true) (line_of a ∷ map line_of as')
      printable = lines-printable (a ∷ as') h

  -- Reading the manifest of artifacts gives their names, digests and sizes, in the order of their names.
  -- There is at least one artifact, their names are different, portable and printable ASCII, each size has
  -- at most as many digits as `int` reads, 4300, and each digest of SHA-256 is 64 lower-case hexadecimal
  -- digits.
  pub parse-manifest_bytes :
      (as' : List Artifact)
      → as' ≢ []
      → All IsArtifact as'
      → Distinct (map (λ a. a.name) as')
      → (manifest_bytes sha256 as' >>= parse_manifest)
        ≡ ok (map entry_of (sort_by (λ a. a.name) as'))
  unfolding manifest_bytes
  parse-manifest_bytes as' n h d =
      rw (manifest_lines (sort_by (λ a. a.name) as') (sort_by-All (λ a. a.name) IsArtifact as' h)) (
        parse-lines_of (sort_by (λ a. a.name) as') (sort_by-ne-nil (λ a. a.name) as' n)
          (sort_by-All (λ a. a.name) IsArtifact as' h) (sort_by-Distinct (λ a. a.name) as' d)
          (sort_by-IsSortedBy (λ a. a.name) as'))
