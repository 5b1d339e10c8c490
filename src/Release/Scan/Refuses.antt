-- ===== src/Release/Scan/Refuses.antt =====
-- Files that `scan_source_file` of scripts/release/release_artifacts.py refuses wherever they lie.
use codex_subscription_route.Prelude.{
  is_nil, ℕ, ◌≤◌, ◌≡◌, ◌≢◌, refl, sym, subst, Bool, true, false, Option, none, some, List, [], ◌∷◌,
  ◌++◌, map, arith, any, length, inl, inr, All, or-eq-false, ok, err, >>=-eq-ok,
}
use codex_subscription_route.Text.{Bytes, codes, contains, starts_with, join, In}
use codex_subscription_route.Regex.{Regex, matches, search_from, search_in}
use codex_subscription_route.PurePath.{parse_path, parts, name, suffix, last}
use codex_subscription_route.Release.Errors.{local_state}
use codex_subscription_route.Release.Path.{normalized_path}
use codex_subscription_route.Release.Path.Canonical.{IsPiece, normalized_path_iff, parse_path-join}
use codex_subscription_route.Release.Secrets.{private_key, secret_patterns, has_secret}
use codex_subscription_route.Release.Scan.{
  forbidden_names, forbidden_path_parts, forbidden_suffixes, max_source_file_size, is_local_state,
  is_installed, scan_normalized, scan_source_file,
}

-- A path of portable pieces is accepted as it is.
portable :
    (p : Bytes) (ps : List Bytes)
    → All IsPiece (p ∷ ps)
    → normalized_path (join b'/' (p ∷ ps)) ≡ ok (join b'/' (p ∷ ps))
portable p ps h =
    (normalized_path_iff _ _).1
      (refl, inr (record { first = p; more = ps; pieces = h; joined = refl }))

search_from-append :
    (r : Regex) (before : Option ℕ) (pre s : Bytes)
    → ((b : Option ℕ) → is_nil (matches r b s) ≡ false)
    → search_from r before (pre ++ s) ≡ true
unfolding search_from
search_from-append r before [] [] f = rw (f before)
search_from-append r before [] (c ∷ s) f = rw (f before)
search_from-append r before (c ∷ pre) s f =
    rw (search_from-append r (some c) pre s f) (ground arith)

-- The words that a header of a private key may name the kind of key with.
abbrev pub key_kinds : List Bytes
key_kinds = [] ∷ codes "RSA " ∷ codes "EC " ∷ codes "OPENSSH " ∷ []

abbrev pub pem_header : Bytes → Bytes
pem_header kind = codes "-----BEGIN " ++ (kind ++ codes "PRIVATE KEY-----")

abbrev Matched : Option ℕ → Bytes → Bytes → Type 0
Matched b post kind = is_nil (matches private_key b (pem_header kind ++ post)) ≡ false

private_key-matches : (b : Option ℕ) (kind post : Bytes) → In kind key_kinds → Matched b post kind
unfolding private_key matches
private_key-matches b kind post h = elim h [
  | inl e ↦ subst (Matched b post) (sym e) refl
  | inr (inl e) ↦ subst (Matched b post) (sym e) refl
  | inr (inr (inl e)) ↦ subst (Matched b post) (sym e) refl
  | inr (inr (inr (inl e))) ↦ subst (Matched b post) (sym e) refl
  | inr (inr (inr (inr other))) ↦ absurd other
]

module _ (lower : Bytes → Bytes) where
  -- What the tests say of a file that none of them refuses.
  pub record Scanned (path content : Bytes) : Type 0 where
    pub accepted : normalized_path path ≡ ok path
    pub name_allowed :
        is_local_state (lower (name (parse_path path))) (lower (suffix (parse_path path))) ≡ false
    pub suffix_allowed : contains forbidden_suffixes (lower (suffix (parse_path path))) ≡ false
    pub directories_allowed : is_installed (map lower (parts (parse_path path))) ≡ false
    pub size_allowed : length content ≤ max_source_file_size
    pub no_secret : has_secret content ≡ false

  scan_normalized-Scanned :
      (path content : Bytes)
      → normalized_path path ≡ ok path
      → scan_normalized lower path content ≡ ok tt
      → Scanned path content
  unfolding scan_normalized
  scan_normalized-Scanned path content n h = ground arith

  pub scan-Scanned :
      (path content : Bytes) → scan_source_file lower path content ≡ ok tt → Scanned path content
  unfolding scan_source_file
  scan-Scanned path content h =
      let (w, n, k) = >>=-eq-ok (normalized_path path) _ h in
      let same : w ≡ path = ((normalized_path_iff path w).0 n).0 in
      scan_normalized-Scanned path content (rw same at n)
        (subst (λ x. scan_normalized lower x content ≡ ok tt) same k)

  -- A file whose lower-cased name is forbidden is refused in every directory, whatever it holds.
  scan-refuses_name :
      (p : Bytes) (ps : List Bytes) (content : Bytes)
      → All IsPiece (p ∷ ps)
      → contains forbidden_names (lower (last (p ∷ ps))) ≡ true
      → scan_source_file lower (join b'/' (p ∷ ps)) content ≡ err local_state
  unfolding scan_source_file scan_normalized name is_local_state
  scan-refuses_name p ps content h f = rw (portable p ps h) (rw (parse_path-join p ps h) (rw f))

  any_of_In :
      (test : Bytes → Bool) (q : Bytes) (ss : List Bytes)
      → In q ss
      → test (lower q) ≡ true
      → any test (map lower ss) ≡ true
  any_of_In test q [] m t = absurd m
  any_of_In test q (s ∷ ss) (inl e) t = rw (subst (λ r. test (lower r) ≡ true) e t)
  any_of_In test q (s ∷ ss) (inr m) t = ground (arith, any_of_In test q ss m t)

  -- Nothing below a directory of the installed application is accepted.
  scan-refuses_directory :
      (p : Bytes) (ps : List Bytes) (q content : Bytes)
      → All IsPiece (p ∷ ps)
      → In q (p ∷ ps)
      → starts_with (lower q) (codes "openai.codex_") ≡ true
      → scan_source_file lower (join b'/' (p ∷ ps)) content ≢ ok tt
  unfolding is_installed parts
  scan-refuses_directory p ps q content h m s e =
      let allowed = (scan-Scanned _ content e).directories_allowed in
      let clear : any (λ r. starts_with r (codes "openai.codex_")) (map lower (p ∷ ps)) ≡ false =
        (or-eq-false (any (contains forbidden_path_parts) (map lower (p ∷ ps))) _
          (rw (parse_path-join p ps h) at allowed)).1 in
      cc (any_of_In (λ r. starts_with r (codes "openai.codex_")) q (p ∷ ps) m s, clear)

  -- No accepted file has the header of a private key anywhere in it: without a kind of key, or with RSA,
  -- EC or OPENSSH.
  pub scan-refuses_private_key :
      (path pre kind post : Bytes)
      → In kind key_kinds
      → scan_source_file lower path (pre ++ (pem_header kind ++ post)) ≢ ok tt
  unfolding has_secret secret_patterns search_in
  scan-refuses_private_key path pre kind post h e = ground (
    arith,
    (scan-Scanned path _ e).no_secret,
    search_from-append private_key none pre (pem_header kind ++ post)
        (λ b. private_key-matches b kind post h),
  )
