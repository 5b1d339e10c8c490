-- ===== src/Release/Go.antt =====
-- `_go_components` of scripts/release/release_artifacts.py.
pub mod References
use codex_subscription_route.Prelude.{
  Bool, true, false, ◌&&◌, Option, none, some, List, [], ◌∷◌, ◌++◌, map, any, if◌then◌else◌,
  Outcome, ok, ◌>>=◌, ◌>>◌,
}
use codex_subscription_route.Text.{
  Bytes, codes, bytes_eq, bytes_le, split_lines, starts_with, before_first, remove_prefix,
  ends_with, quote,
}
use codex_subscription_route.Release.Errors.{ReleaseError}
use codex_subscription_route.Release.Library.{Library, Repository}
use codex_subscription_route.Release.Npm.{Component, read_file}

-- `requirements.append((fields[0], fields[1]))`
abbrev pub requirement : List Bytes → List (Bytes × Bytes)
requirement (name ∷ version ∷ fields) = (name, version) ∷ []
requirement _ = []

-- The loop over the lines of go.mod, with `in_require`.
unfoldable pub read_requirements : Library → Bool → List Bytes → List (Bytes × Bytes)
read_requirements py in_require [] = []
read_requirements py in_require (raw_line ∷ lines) =
    let line = py.strip (before_first (codes "//") raw_line) in
    let opened = read_requirements py true lines in
    let closed = read_requirements py false lines in
    let same = read_requirements py in_require lines in
    if bytes_eq line (codes "require (")
    then opened
    else if in_require && bytes_eq line (codes ")")
    then closed
    else if starts_with line (codes "require ")
    then requirement (py.words (remove_prefix (codes "require ") line)) ++ same
    else if in_require
    then requirement (py.words line) ++ same
    else same

-- A line of go.sum: module, version and checksum.
abbrev pub checksum_of : List Bytes → List (Bytes × Bytes × Bytes)
checksum_of (name ∷ version ∷ sum ∷ []) =
    if ends_with version (codes "/go.mod") then [] else (name, version, sum) ∷ []
checksum_of _ = []

unfoldable pub read_checksums : Library → List Bytes → List (Bytes × Bytes × Bytes)
read_checksums py [] = []
read_checksums py (line ∷ lines) = checksum_of (py.words line) ++ read_checksums py lines

-- `sums.get((name, version))`: the last of two equal keys counts.
unfoldable pub find_checksum : Bytes → Bytes → List (Bytes × Bytes × Bytes) → Option Bytes
find_checksum name version [] = none
find_checksum name version ((n, v, sum) ∷ sums) = elim (find_checksum name version sums) [
  | some found ↦ some found
  | none ↦ if bytes_eq n name && bytes_eq v version then some sum else none
]

-- The order of pairs of texts.
abbrev pub pair_le : Bytes × Bytes → Bytes × Bytes → Bool
pair_le (a, b) (c, d) = if bytes_eq a c then bytes_le b d else bytes_le a c

abbrev pub same_pair : Bytes × Bytes → Bytes × Bytes → Bool
same_pair (a, b) (c, d) = bytes_eq a c && bytes_eq b d

unfoldable pub insert_pair : Bytes × Bytes → List (Bytes × Bytes) → List (Bytes × Bytes)
insert_pair p [] = p ∷ []
insert_pair p (q ∷ qs) =
    let later = q ∷ insert_pair p qs in if pair_le p q then p ∷ q ∷ qs else later

abbrev pub insert_new : Bytes × Bytes → List (Bytes × Bytes) → List (Bytes × Bytes)
insert_new p ps = if any (same_pair p) ps then ps else insert_pair p ps

-- `sorted(set(…))`
unfoldable pub sorted_set : List (Bytes × Bytes) → List (Bytes × Bytes)
sorted_set [] = []
sorted_set (p ∷ ps) = insert_new p (sorted_set ps)

abbrev pub go_purl : Bytes → Bytes → Bytes
go_purl name version =
    codes "pkg:golang/" ++ (quote (codes "/") name ++ (codes "@" ++ quote [] version))

unfoldable pub go_component : List (Bytes × Bytes × Bytes) → Bytes × Bytes → Component
go_component sums (name, version) = record {
  bom_ref = go_purl name version;
  name = name;
  purl = go_purl name version;
  scope = codes "required";
  version = version;
  license = none;
  sha512 = none;
  checksum = find_checksum name version sums;
}

-- go.sum may be missing.
abbrev pub optional_lines : Option Bytes → Outcome ReleaseError (List Bytes)
optional_lines none = ok []
optional_lines (some contents) = read_file (some contents) >>= λ read. ok (split_lines read)

unfoldable pub go_components : Library → Repository → Outcome ReleaseError (List Component)
go_components py r = do
  go_mod ← read_file r.go_mod
  let requirements = read_requirements py false (split_lines go_mod)
  lines ← optional_lines r.go_sum
  let sums = read_checksums py lines
  ok (map (go_component sums) (sorted_set requirements))
