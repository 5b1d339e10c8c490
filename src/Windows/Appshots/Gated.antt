-- ===== src/Windows/Appshots/Gated.antt =====
-- Where `verify_windows_appshots_contract` of scripts/patch_windows_app.py finds the variable for Appshots.
use codex_subscription_route.Prelude.{
  ◌≡◌, ◌⊎◌, refl, inl, inr, All, true, ◌&&◌, ◌∙◌, ◌≤◌, sym, ap, Bool, false, not, Option, List, [],
  ◌∷◌, ◌==◌, ==_iff, or-eq-false, arith, ok, >>=-eq-ok, raise_if->>-eq-ok, raise_if-eq-ok,
  ok-injective,
}
use codex_subscription_route.Text.{Bytes, codes, includes, occurrences}
use codex_subscription_route.Json.{Json}
use codex_subscription_route.Windows.Files.{FilePath}
use codex_subscription_route.Windows.Disk.{
  Disk, Python, gate_differs, enabled_always, read_bounded_text,
}
use codex_subscription_route.Windows.ComputerUse.{check_markers}
use codex_subscription_route.Windows.ComputerUse.Inspected.{check_markers_lem}
use codex_subscription_route.Windows.Appshots.{
  max_appshots_bundle_bytes, variable, strict_gate, expected_gate_count, required_markers, one_file,
  is_enabled_always, gates_differ, build_version, is_split_renderer, check_bundle,
  verify_windows_appshots_contract,
}

-- A bundle in which the variable occurs only in the gate, that has the markers of its version, and that
-- enables Appshots always neither in one renderer nor, where it is split, in the other.
pub record IsGated (split : Bool) (version : Option Json) (bundle : Bytes) : Type 0 where
  pub only_gates : occurrences variable bundle ≡ occurrences strict_gate bundle
  pub some_gate : 1 ≤ occurrences strict_gate bundle
  pub marked : All (λ marker. includes marker bundle ≡ true) (required_markers split version)
  pub not_always : includes (codes "s.appshotsEnabled=!0") bundle ≡ false
  pub not_always_split : (split ≡ false) ⊎ (includes (codes "o.appshotsEnabled=!0") bundle ≡ false)

neither : (split found : Bool) → (split && found) ≡ false → (split ≡ false) ⊎ (found ≡ false)
neither false found h = inl refl
neither true found h = inr h

gate_count_pos : (version : Option Json) → 1 ≤ expected_gate_count version
gate_count_pos version = ground arith

check_bundle-IsGated :
    (split : Bool) (version : Option Json) (bundle : Bytes) {u : Unit {0}}
    → check_bundle split version bundle ≡ ok u
    → IsGated split version bundle
unfolding check_bundle
check_bundle-IsGated split version bundle h =
    let (counted, h1) = raise_if->>-eq-ok (gates_differ version bundle) gate_differs _ h in
    let (u, marked, h2) = >>=-eq-ok (check_markers bundle (required_markers split version)) _ h1 in
    let apart = raise_if-eq-ok (is_enabled_always split bundle) enabled_always h2 in
    let (gates, names) =
      or-eq-false (not (occurrences strict_gate bundle == expected_gate_count version)) _ counted in
    let gate =
      (==_iff (occurrences strict_gate bundle) (expected_gate_count version)).0 (ground arith) in
    let name =
      (==_iff (occurrences variable bundle) (expected_gate_count version)).0 (ground arith) in
    record {
      only_gates = name ∙ sym gate;
      some_gate = omega (arith, gate, gate_count_pos version);
      marked = check_markers_lem bundle (required_markers split version) marked;
      not_always_split =
          neither split (includes (codes "o.appshotsEnabled=!0") bundle)
            (or-eq-false (includes (codes "s.appshotsEnabled=!0") bundle) _ apart).1;
      not_always = (or-eq-false (includes (codes "s.appshotsEnabled=!0") bundle) _ apart).0;
    }

-- The main bundle of an extracted application that passes the checks.
abbrev pub HasGatedBundle : Python → Disk → Type 0
HasGatedBundle py extracted =
    (path : FilePath) × (bundle : Bytes) × (version : Option Json) × (extracted.glob
        (codes ".vite" ∷ codes "build" ∷ []) (codes "main-*.js")
      ≡ path ∷ [])
    × (read_bounded_text extracted path max_appshots_bundle_bytes (codes "main bundle") ≡ ok bundle)
    × (build_version py extracted [] ≡ ok version)
    × IsGated (is_split_renderer extracted []) version bundle

one_file_lem :
    (paths : List FilePath) {path : FilePath} → one_file paths ≡ ok path → paths ≡ path ∷ []
one_file_lem (path ∷ []) h = ap (λ p. p ∷ []) (ok-injective h)
one_file_lem [] h = cc
one_file_lem (path ∷ other ∷ paths) h = cc

pub verify_windows_appshots_contract-HasGatedBundle :
    (py : Python) (extracted : Disk) {entries : List (Bytes × Json)}
    → verify_windows_appshots_contract py extracted [] ≡ ok entries
    → HasGatedBundle py extracted
unfolding verify_windows_appshots_contract
verify_windows_appshots_contract-HasGatedBundle py extracted h =
    let (path, found, h1) = >>=-eq-ok (one_file (extracted.glob _ _)) _ h in
    let (bundle, read, h2) =
      >>=-eq-ok (read_bounded_text extracted path max_appshots_bundle_bytes (codes "main bundle")) _
        h1 in
    let (version, known, h3) = >>=-eq-ok (build_version py extracted []) _ h2 in
    let (_, gated, h4) =
      >>=-eq-ok (check_bundle (is_split_renderer extracted []) version bundle) _ h3 in
    (
      path,
      bundle,
      version,
      one_file_lem _ found,
      read,
      known,
      check_bundle-IsGated _ version bundle gated,
    )
