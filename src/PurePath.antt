-- ===== src/PurePath.antt =====
-- Python 3.13's `PurePosixPath`, which the release scripts use to read portable paths.
pub mod Pieces
use codex_subscription_route.Prelude.{
  Bool, true, false, not, ◌&&◌, Option, none, some, List, [], ◌∷◌, ◌++◌, ◌==◌, ltb, length,
  if◌then◌else◌,
}
use codex_subscription_route.Text.{Bytes, codes, bytes_eq, split, join}

-- The root is empty, `/` or `//`; the tail has neither empty pieces nor `.`.
pub record PurePath : Type 0 where
  pub root : Bytes
  pub tail : List Bytes

-- `posixpath.splitroot`: exactly two leading slashes are kept.
unfoldable pub split_root : Bytes → Bytes × Bytes
split_root [] = ([], [])
split_root (x ∷ []) = if x == b'/' then (codes "/", []) else ([], x ∷ [])
split_root (x ∷ y ∷ []) =
    if x == b'/'
    then (if y == b'/' then (codes "//", []) else (codes "/", y ∷ []))
    else ([], x ∷ y ∷ [])
split_root (x ∷ y ∷ z ∷ s) =
    if x == b'/'
    then (if y == b'/' && not (z == b'/') then (codes "//", z ∷ s) else (codes "/", y ∷ z ∷ s))
    else ([], x ∷ y ∷ z ∷ s)

-- A piece that parsing keeps: `x and x != '.'`.
unfoldable pub is_kept : Bytes → Bool
unfolding bytes_eq
is_kept p = not (bytes_eq p []) && not (bytes_eq p (codes "."))

unfoldable pub keep : List Bytes → List Bytes
unfolding is_kept
keep [] = []
keep (p ∷ ps) = if is_kept p then p ∷ keep ps else keep ps

unfoldable pub parse_path : Bytes → PurePath
unfolding split_root keep split
parse_path s =
    let (root, rel) = split_root s in record { root = root; tail = keep (split b'/' rel) }

-- `path.parts`
unfoldable pub parts : PurePath → List Bytes
parts p = elim p.root [ [] ↦ p.tail | x ∷ r ↦ (x ∷ r) ∷ p.tail ]

-- `path.is_absolute()`
unfoldable pub is_absolute : PurePath → Bool
is_absolute p = elim p.root [ [] ↦ false | x ∷ r ↦ true ]

-- `path.as_posix()`: the empty path prints as `.`.
unfoldable pub as_posix : PurePath → Bytes
unfolding join
as_posix p = elim (p.root ++ join b'/' p.tail) [ [] ↦ codes "." | x ∷ s ↦ x ∷ s ]

unfoldable pub last : List Bytes → Bytes
last [] = []
last (p ∷ []) = p
last (p ∷ q ∷ ps) = last (q ∷ ps)

-- `path.name`
unfoldable pub name : PurePath → Bytes
unfolding last
name p = last p.tail

-- What follows the last dot of a name, with the dot, if there is one.
after_dot : Bytes → Option Bytes
after_dot [] = none
after_dot (x ∷ s) = elim (after_dot s) [
  | some r ↦ some r
  | none ↦ if x == b'.' then some (x ∷ s) else none
]

-- `path.suffix`: neither a leading nor a trailing dot starts a suffix.
unfoldable pub suffix_of_name : Bytes → Bytes
unfolding after_dot
suffix_of_name n = elim (after_dot n) [
  | none ↦ []
  | some r ↦ if ltb (length r) (length n) && ltb 1 (length r) then r else []
]

unfoldable pub suffix : PurePath → Bytes
unfolding suffix_of_name name
suffix p = suffix_of_name (name p)
