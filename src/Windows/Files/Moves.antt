-- ===== src/Windows/Files/Moves.antt =====
-- What a move does to the installations of `World`, whatever the system answers.
use codex_subscription_route.Prelude.{
  ◌⊎◌, ◌≡◌, refl, Bool, false, none, some, arith, Bool-cases, Option-cases, inl, inr, Outcome, ok,
  err,
}
use codex_subscription_route.Text.{lists_eq, lists_eq_iff}
use codex_subscription_route.Windows.Files.{
  FilePath, World, Fault, pass, refuse, partial, FileError, rename, rename_by, exists,
  make_directory, make_by, next_fault, later_faults,
}

module _ {A : Type 0} where
  -- Paths other than the two of a move keep their installation.
  rename_by-elsewhere :
      (f : Fault A) (source target p : FilePath) (w : World A)
      → lists_eq source p ≡ false
      → lists_eq target p ≡ false
      → (rename_by f source target w).1.entry p ≡ w.entry p
  rename_by-elsewhere refuse source target p w hs ht = refl
  rename_by-elsewhere (partial a) source target p w hs ht = ground arith
  rename_by-elsewhere pass source target p w hs ht = elim (Option-cases (w.entry source)) [
    | inl none_there ↦ rw (none_there) (ground arith)
    | inr (a, there) ↦ rw (there) (ground arith)
  ]

  pub rename-elsewhere :
      (source target p : FilePath) (w : World A)
      → lists_eq source p ≡ false
      → lists_eq target p ≡ false
      → (rename source target w).1.entry p ≡ w.entry p
  unfolding rename
  rename-elsewhere source target p w hs ht =
      rename_by-elsewhere (next_fault w.faults) source target p
        (record w { faults = later_faults w.faults }) hs ht

  -- A move of an installation either took place or left it where it was.
  abbrev pub Moved : A → FilePath → FilePath → Outcome FileError (Unit {0}) × World A → Type 0
  Moved a source target r =
      ((r.0 ≡ ok tt) × (r.1.entry target ≡ some a) × (r.1.entry source ≡ none))
      ⊎ ((e : FileError) × (r.0 ≡ err e) × (r.1.entry source ≡ some a))

  rename_by-Moved :
      (f : Fault A) (source target : FilePath) (w : World A) (a : A)
      → w.entry source ≡ some a
      → lists_eq target source ≡ false
      → Moved a source target (rename_by f source target w)
  rename_by-Moved refuse source target w a h apart = inr (_, refl, h)
  rename_by-Moved (partial b) source target w a h apart = inr (_, refl, ground arith)
  rename_by-Moved pass source target w a h apart = elim (Bool-cases (exists w target)) [
    | inl taken ↦ rw (taken) (inr (_, refl, h))
    | inr free ↦
        rw (free, h)
          (inl (
            refl,
            rw ((lists_eq_iff target target).1 refl) refl,
            ground (arith, (lists_eq_iff source source).1 refl),
          ))
  ]

  pub rename-Moved :
      (source target : FilePath) (w : World A) (a : A)
      → w.entry source ≡ some a
      → lists_eq target source ≡ false
      → Moved a source target (rename source target w)
  unfolding rename
  rename-Moved source target w a h apart =
      rename_by-Moved (next_fault w.faults) source target
        (record w { faults = later_faults w.faults }) a h apart

  make_by-entry :
      (f : Fault A) (exist_ok : Bool) (p : FilePath) (w : World A)
      → (make_by f exist_ok p w).1.entry ≡ w.entry
  make_by-entry pass exist_ok p w = ground arith
  make_by-entry refuse exist_ok p w = refl
  make_by-entry (partial a) exist_ok p w = refl

  -- Making a directory touches no installation.
  pub make_directory-entry :
      (exist_ok : Bool) (p : FilePath) (w : World A)
      → (make_directory exist_ok p w).1.entry ≡ w.entry
  unfolding make_directory
  make_directory-entry exist_ok p w =
      make_by-entry (next_fault w.faults) exist_ok p (record w { faults = later_faults w.faults })

  -- What a move that the program saw succeed has done.
  rename_by-eq-ok :
      (f : Fault A) (source target : FilePath) (w : World A) {u : Unit {0}}
      → (rename_by f source target w).0 ≡ ok u
      → (a : A) × (w.entry source ≡ some a)
  rename_by-eq-ok refuse source target w h = ground arith
  rename_by-eq-ok (partial b) source target w h = ground arith
  rename_by-eq-ok pass source target w h = elim (Option-cases (w.entry source)) [
    | inl nothing ↦ ground arith
    | inr (a, there) ↦ (a, there)
  ]

  pub rename-eq-ok :
      (source target : FilePath) (w : World A) {u : Unit {0}}
      → (rename source target w).0 ≡ ok u
      → (a : A) × (w.entry source ≡ some a)
  unfolding rename
  rename-eq-ok source target w h =
      rename_by-eq-ok (next_fault w.faults) source target
        (record w { faults = later_faults w.faults }) h
