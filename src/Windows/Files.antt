-- ===== src/Windows/Files.antt =====
-- The part of a file system that scripts/patch_windows_app.py changes when it installs a build.
-- A path is the list of its pieces. A directory is moved as a whole, so an entry is its content.
pub mod Moves
use codex_subscription_route.Prelude.{
  Bool, true, false, ◌&&◌, Option, none, some, List, [], ◌∷◌, any, if◌then◌else◌, Outcome, ok, err,
}
use codex_subscription_route.Text.{Bytes, bytes_eq, lists_eq}

abbrev pub FilePath : Type 0
FilePath = List Bytes

-- What the operating system does with one call: it works, it fails and changes nothing, or it fails
-- after it created something at the target.
pub data Fault (A : Type 0) : Type 0 where
  pass refuse : Fault A
  partial : A → Fault A

-- A directory exists with all its parents.
abbrev pub is_within : FilePath → FilePath → Bool
is_within [] d = true
is_within (p ∷ ps) [] = false
is_within (p ∷ ps) (d ∷ ds) = bytes_eq p d && is_within ps ds

pub record World (A : Type 0) : Type 0 where
  pub entry : FilePath → Option A
  pub directories : List FilePath
  -- the outcomes of the calls to come; when none is left, all work
  pub faults : List (Fault A)

pub data FileError : Type 0 where
  os_error file_exists : FileError
  -- `RuntimeError`
  destination_exists outside_backup_root : FileError

-- A call that may raise; what it changed before it raised stays changed.
abbrev pub Action : Type 0 → Type 0 → Type 0
Action A R = World A → Outcome FileError R × World A

module _ {A R S : Type 0} where
  abbrev pub resume :
      (R → Action A S) → Outcome FileError R → World A → Outcome FileError S × World A
  resume k (ok r) w = k r w
  resume k (err e) w = (err e, w)

  infixl 5 ◌>>=◌
  abbrev pub ◌>>=◌ : Action A R → (R → Action A S) → Action A S
  ◌>>=◌ call k w = let (r, w') = call w in resume k r w'

module _ {A S : Type 0} where
  infixl 5 ◌>>◌
  abbrev pub ◌>>◌ : Action A (Unit {0}) → Action A S → Action A S
  call >> rest = call >>= λ _. rest

module _ {A : Type 0} where
  abbrev pub done : {R : Type 0} → R → Action A R
  done r w = (ok r, w)

  abbrev pub fail : {R : Type 0} → FileError → Action A R
  fail e w = (err e, w)

  abbrev pub is_some : Option A → Bool
  is_some none = false
  is_some (some a) = true

  -- `path.exists()` of a path that may be an installation
  abbrev pub exists : World A → FilePath → Bool
  exists w p = is_some (w.entry p)

  abbrev pub put : FilePath → Option A → (FilePath → Option A) → FilePath → Option A
  put p a entry q = if lists_eq p q then a else entry q

  abbrev pub next_fault : List (Fault A) → Fault A
  next_fault [] = pass
  next_fault (f ∷ fs) = f

  abbrev pub later_faults : List (Fault A) → List (Fault A)
  later_faults [] = []
  later_faults (f ∷ fs) = fs

  abbrev pub set_entry : (FilePath → Option A) → World A → World A
  set_entry entry w = record w { entry = entry }

  abbrev pub add_directory : FilePath → World A → World A
  add_directory p w = record w { directories = p ∷ w.directories }

  -- A move that the system lets through needs a source.
  abbrev pub move : Option A → FilePath → FilePath → Action A (Unit {0})
  move none source target w = (err os_error, w)
  move (some a) source target w =
      (ok tt, set_entry (put target (some a) (put source none w.entry)) w)

  abbrev pub rename_by : Fault A → FilePath → FilePath → Action A (Unit {0})
  rename_by refuse source target w = (err os_error, w)
  rename_by (partial a) source target w =
      (err os_error, if exists w target then w else set_entry (put target (some a) w.entry) w)
  rename_by pass source target w =
      if exists w target then (err file_exists, w) else move (w.entry source) source target w

  -- `source.rename(target)`: on Windows an existing target is an error.
  unfoldable pub rename : FilePath → FilePath → Action A (Unit {0})
  rename source target w =
      rename_by (next_fault w.faults) source target (record w { faults = later_faults w.faults })

  abbrev pub make_by : Fault A → Bool → FilePath → Action A (Unit {0})
  make_by pass exist_ok p w =
      if any (is_within p) w.directories
      then (if exist_ok then (ok tt, w) else (err file_exists, w))
      else (ok tt, add_directory p w)
  make_by refuse exist_ok p w = (err os_error, w)
  make_by (partial a) exist_ok p w = (err os_error, add_directory p w)

  -- `path.mkdir(parents=True, exist_ok=…)`
  unfoldable pub make_directory : Bool → FilePath → Action A (Unit {0})
  make_directory exist_ok p w =
      make_by (next_fault w.faults) exist_ok p (record w { faults = later_faults w.faults })
