-- ===== src/Windows/Disk/Inside.antt =====
-- Where `_safe_relative_file` of scripts/patch_windows_app.py leads.
use codex_subscription_route.Prelude.{
  ℕ, ◌≡◌, ◌≢◌, ◌∙◌, refl, sym, ap, subst, true, false, not, ◌||◌, Option, some, List, [], ◌∷◌, ◌++◌,
  any, All, or-eq-false, arith, ok, raise_if->>-eq-ok, ok-injective,
}
use codex_subscription_route.Text.{
  Bytes, codes, has_byte, Lacks, split, split-ne-nil, split-Lacks, join, join-split, replace_from,
  starts_with,
}
use codex_subscription_route.Json.{Json, text}
use codex_subscription_route.PurePath.{keep, parse_path, parts, is_absolute}
use codex_subscription_route.PurePath.Pieces.{
  root_of_relative, parts_relative, parse_path_relative, keep-All, join-Lacks, not-contains-All,
}
use codex_subscription_route.Windows.Files.{FilePath}
use codex_subscription_route.Windows.Disk.{
  Disk, unsafe_path, not_regular, is_linklike, is_file, require_regular_file, is_bounded,
  is_special, normalized, escapes, safe_relative_file,
}

-- A piece of a path that leads one level down, for Windows as well.
pub record IsPiece (p : Bytes) : Type 0 where
  pub no_slash : Lacks b'/' p
  pub no_backslash : Lacks b'\\' p
  pub no_colon : Lacks b':' p
  pub named : (p ≢ []) × (p ≢ codes ".") × (p ≢ codes "..")

replace-Lacks : (s : Bytes) → Lacks b'\\' (normalized s)
unfolding replace_from starts_with has_byte
replace-Lacks [] = refl
replace-Lacks (c ∷ s) = ground (arith, replace-Lacks s)

pieces-Lacks :
    (c : ℕ) (s : Bytes) (ps : List Bytes)
    → join b'/' ps ≡ s
    → ps ≢ []
    → Lacks c s
    → All (Lacks c) ps
pieces-Lacks c s [] e some_piece h = absurd (some_piece refl)
pieces-Lacks c s (p ∷ ps) e some_piece h = join-Lacks c b'/' p ps (subst (Lacks c) (sym e) h)

-- What a text lacks, the pieces that parsing keeps lack.
keep-Lacks : (c : ℕ) (s : Bytes) → Lacks c s → All (Lacks c) (keep (split b'/' s))
keep-Lacks c s h =
    keep-All (Lacks c) (split b'/' s)
      (pieces-Lacks c s (split b'/' s) (join-split b'/' s) (split-ne-nil b'/' s) h)

named_of : (p : Bytes) → is_special p ≡ false → (p ≢ []) × (p ≢ codes ".") × (p ≢ codes "..")
named_of p h =
    let apart = not-contains-All ([] ∷ codes "." ∷ codes ".." ∷ []) p h in
    (λ e. apart.0 (sym e), λ e. apart.1.0 (sym e), λ e. apart.1.1.0 (sym e))

pieces_of :
    (ps : List Bytes)
    → All (Lacks b'/') ps
    → All (Lacks b'\\') ps
    → All (Lacks b':') ps
    → any is_special ps ≡ false
    → All IsPiece ps
pieces_of [] a b c d = tt
pieces_of (p ∷ ps) a b c d =
    let (here, rest) = or-eq-false (is_special p) (any is_special ps) d in
    (
      record { no_slash = a.0; no_backslash = b.0; no_colon = c.0; named = named_of p here },
      pieces_of ps a.1 b.1 c.1 rest,
    )

-- A relative path has the parts that parsing keeps.
parts_of_relative :
    (s : Bytes) → is_absolute (parse_path s) ≡ false → parts (parse_path s) ≡ keep (split b'/' s)
parts_of_relative s h =
    let root = root_of_relative (parse_path s) h in
    parts_relative (parse_path s) root ∙ parse_path_relative s root

pub require_regular_file_lem :
    (disk : Disk) (path : FilePath) (label : Bytes) {found : FilePath}
    → require_regular_file disk path label ≡ ok found
    → (path ≡ found) × (is_linklike disk found ≡ false) × (is_file disk found ≡ true)
unfolding require_regular_file
require_regular_file_lem disk path label h =
    let (safe, h1) =
      raise_if->>-eq-ok (is_linklike disk path || not (is_file disk path)) (not_regular label) _
        h in
    let same = ok-injective h1 in
    let (plain, there) = or-eq-false (is_linklike disk path) (not (is_file disk path)) safe in
    (same, ap (is_linklike disk) (sym same) ∙ plain, ap (is_file disk) (sym same) ∙ ground (arith))

-- A relative file that `_safe_relative_file` accepts is a regular file below the root: each piece of the
-- path leads one level down, also for Windows.
pub safe_relative_file-IsInside :
    (disk : Disk) (root : FilePath) (value : Option Json) (label : Bytes) {path : FilePath}
    → safe_relative_file disk root value label ≡ ok path
    → (ps : List Bytes) × (root ++ ps ≡ path)
      × All IsPiece ps
      × (is_linklike disk path ≡ false)
      × (is_file disk path ≡ true)
unfolding safe_relative_file
safe_relative_file-IsInside disk root (some (text value)) label h =
    let (bounded, h1) = raise_if->>-eq-ok (not (is_bounded value)) (unsafe_path label) _ h in
    let (inside, h2) = raise_if->>-eq-ok (escapes value) (unsafe_path label) _ h1 in
    let (relative, more) = or-eq-false (is_absolute (parse_path (normalized value))) _ inside in
    let (no_colon, ordinary) = or-eq-false (has_byte b':' (normalized value)) _ more in
    let ps = keep (split b'/' (normalized value)) in
    let same = parts_of_relative (normalized value) relative in
    let (here, plain, there) = require_regular_file_lem disk _ label h2 in
    (
      ps,
      ap (λ qs. root ++ qs) (sym same) ∙ here,
      pieces_of ps (keep-All (Lacks b'/') _ (split-Lacks b'/' (normalized value)))
          (keep-Lacks b'\\' (normalized value) (replace-Lacks value))
          (keep-Lacks b':' (normalized value) no_colon) (ap (any is_special) (sym same) ∙ ordinary),
      plain,
      there,
    )
safe_relative_file-IsInside disk root _ label h = cc
