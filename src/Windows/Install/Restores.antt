-- ===== src/Windows/Install/Restores.antt =====
-- `atomic_install` of scripts/patch_windows_app.py when the last move is the only call that fails, and
-- when none fails.
use codex_subscription_route.Prelude.{
  ◌⊎◌, ◌≡◌, refl, ap, ◌∙◌, Bool, true, false, Option, none, some, List, [], ◌∷◌, arith, Bool-cases,
  inl, inr, any, ok, err,
}
use codex_subscription_route.Text.{Bytes, lists_eq_iff}
use codex_subscription_route.Windows.Files.{
  FilePath, World, Fault, os_error, rename, make_directory, make_by, pass, refuse, partial,
}
use codex_subscription_route.Windows.Files.Moves.{make_directory-entry}
use codex_subscription_route.Windows.Install.{
  parent, chosen_backup, refuse_existing, move_aside, put_back, recover, publish, is_planned,
  take_backup, backup_if_present, atomic_install,
}
use codex_subscription_route.Windows.Files.{put, later_faults, next_fault, put, is_within}
use codex_subscription_route.Windows.Install.Keeps.{Apart}

module _ {A : Type 0} where
  -- A call that the system lets through.
  abbrev pub NextPasses : World A → Type 0
  NextPasses w = next_fault w.faults ≡ pass

  rename_works :
      (source target : FilePath) (w : World A) (a : A)
      → NextPasses w
      → w.entry source ≡ some a
      → w.entry target ≡ none
      → ((rename source target w).0 ≡ ok tt)
        × ((rename source target w).1.faults ≡ later_faults w.faults)
        × ((rename source target w).1.entry ≡ put target (some a) (put source none w.entry))
  unfolding rename
  rename_works source target w a f h free = rw (f, free, h) (refl, refl, refl)

  rename_fails :
      (source target : FilePath) (w : World A)
      → next_fault w.faults ≡ refuse
      → ((rename source target w).0 ≡ err os_error)
        × ((rename source target w).1.faults ≡ later_faults w.faults)
        × ((rename source target w).1.entry ≡ w.entry)
  unfolding rename
  rename_fails source target w f = rw (f) (refl, refl, refl)

  make_directory_works :
      (exist_ok : Bool) (p : FilePath) (w : World A)
      → NextPasses w
      → (exist_ok ≡ true) ⊎ (any (is_within p) w.directories ≡ false)
      → ((make_directory exist_ok p w).0 ≡ ok tt)
        × ((make_directory exist_ok p w).1.faults ≡ later_faults w.faults)
  unfolding make_directory
  make_directory_works exist_ok p w f (inl h) =
      elim (Bool-cases (any (is_within p) w.directories)) [
        | inl there ↦ rw (f, there, h) (refl, refl)
        | inr new ↦ rw (f, new) (refl, refl)
      ]
  make_directory_works exist_ok p w f (inr new) = rw (f, new) (refl, refl)

  make_by-fresh :
      (f : Fault A) (exist_ok : Bool) (p : FilePath) (Q : FilePath → Bool) (w : World A)
      → any Q (p ∷ w.directories) ≡ false
      → any Q (make_by f exist_ok p w).1.directories ≡ false
  make_by-fresh pass exist_ok p Q w h = ground arith
  make_by-fresh refuse exist_ok p Q w h = ground arith
  make_by-fresh (partial a) exist_ok p Q w h = h

  make_directory-fresh :
      (exist_ok : Bool) (p : FilePath) (Q : FilePath → Bool) (w : World A)
      → any Q (p ∷ w.directories) ≡ false
      → any Q (make_directory exist_ok p w).1.directories ≡ false
  unfolding make_directory
  make_directory-fresh exist_ok p Q w h =
      make_by-fresh (next_fault w.faults) exist_ok p Q (record w { faults = later_faults w.faults })
        h

module _ {A : Type 0} (resolve : FilePath → FilePath) (backup_stamp : Bytes) where
  take_backup_works :
      (destination backup : FilePath) (w : World A) (old : A) (fs : List (Fault A))
      → is_planned resolve destination backup ≡ true
      → any (is_within (parent backup)) w.directories ≡ false
      → w.entry destination ≡ some old
      → w.entry backup ≡ none
      → w.faults ≡ pass ∷ pass ∷ fs
      → ((take_backup resolve destination backup w).0 ≡ ok (some backup))
        × ((take_backup resolve destination backup w).1.faults ≡ fs)
        × ((take_backup resolve destination backup w).1.entry
            ≡ put backup (some old) (put destination none w.entry))
  unfolding take_backup
  take_backup_works destination backup w old fs inside fresh there free f =
      let w1 = (make_directory false (parent backup) w).1 in
      let same = make_directory-entry false (parent backup) w in
      let (made, f1) = make_directory_works false (parent backup) w (rw (f) refl) (inr fresh) in
      let f2 : w1.faults ≡ pass ∷ fs = f1 ∙ ap later_faults f in
      let (moved, f3, now) =
        rename_works destination backup w1 old (rw (f2) refl) (ap (λ e. e destination) same ∙ there)
          (ap (λ e. e backup) same ∙ free) in
      rw (inside, made, moved)
        (
          refl,
          f3 ∙ ap later_faults f2,
          now ∙ ap (λ e. put backup (some old) (put destination none e)) same,
        )

  -- The backup is where it belongs, and nothing is in its way.
  abbrev pub Replaceable : FilePath → FilePath → World A → Type 0
  Replaceable destination backup w =
      (is_planned resolve destination backup ≡ true)
      × (any (is_within (parent backup)) (parent destination ∷ w.directories) ≡ false)
      × (w.entry backup ≡ none)

  -- The calls before the last move work, and the outcome of that move is `last`.
  backed_up :
      (failed_stamp : Bytes)
      → (staged destination : FilePath) → (planned : Option FilePath) → (w : World A) → (old : A)
      → (last : Fault A)
      → let backup = chosen_backup backup_stamp destination planned in
        let run =
          atomic_install resolve backup_stamp failed_stamp staged destination true planned w in
        Replaceable destination backup w
        → w.entry destination ≡ some old
        → w.faults ≡ pass ∷ pass ∷ pass ∷ last ∷ []
        → (w1 : World A) × (run ≡ publish failed_stamp staged destination (some backup) w1)
          × (w1.faults ≡ last ∷ [])
          × (w1.entry ≡ put backup (some old) (put destination none w.entry))
  unfolding atomic_install backup_if_present refuse_existing
  backed_up failed_stamp staged destination planned w old last (inside, fresh, free) there f =
      let backup = chosen_backup backup_stamp destination planned in
      let w1 = (make_directory true (parent destination) w).1 in
      let same = make_directory-entry true (parent destination) w in
      let (made, f1) = make_directory_works true (parent destination) w (rw (f) refl) (inl refl) in
      let there1 : w1.entry destination ≡ some old = ap (λ e. e destination) same ∙ there in
      let (saved, f2, now) =
        take_backup_works destination backup w1 old (last ∷ []) inside
          (make_directory-fresh true (parent destination) _ w fresh) there1
          (ap (λ e. e backup) same ∙ free) (f1 ∙ ap later_faults f) in
      (
        (take_backup resolve destination backup w1).1,
        rw (made, there1, there1, saved) refl,
        f2,
        now ∙ ap (λ e. put backup (some old) (put destination none e)) same,
      )

  -- Replacing an installation returns its backup when no call fails: `force` is given, the backup lies
  -- in the backup root, its directory is new, nothing is at the backup, and there is a staged build
  -- at another path than the destination and the backup.
  pub atomic_install-succeeds :
      (failed_stamp : Bytes)
      → (staged destination : FilePath) → (planned : Option FilePath) → (w : World A)
      → (old new : A)
      → let backup = chosen_backup backup_stamp destination planned in
        Replaceable destination backup w
        → Apart destination backup
        → Apart staged backup
        → Apart staged destination
        → w.entry destination ≡ some old
        → w.entry staged ≡ some new
        → w.faults ≡ pass ∷ pass ∷ pass ∷ pass ∷ []
        → (atomic_install resolve backup_stamp failed_stamp staged destination true planned w).0
          ≡ ok (some backup)
  unfolding publish
  atomic_install-succeeds failed_stamp staged destination planned w old new can d s p there ready
        f =
      let backup = chosen_backup backup_stamp destination planned in
      let (w1, run, f1, now) =
        backed_up failed_stamp staged destination planned w old pass can there f in
      let (worked, _, _) =
        rename_works staged destination w1 new (rw (f1) refl) (rw (now, s.1, p.1) ready)
          (rw (now, d.1, (lists_eq_iff destination destination).1 refl) refl) in
      rw (run, worked) refl

  -- When the last move is the call that fails, with the error of the system and without any change,
  -- `atomic_install` raises that error and the old installation is back at the destination. `force` is given, the backup lies in the
  -- backup root, its directory is new, nothing is at the backup, which is not the destination.
  pub atomic_install-restores :
      (failed_stamp : Bytes)
      → (staged destination : FilePath) → (planned : Option FilePath) → (w : World A) → (old : A)
      → let backup = chosen_backup backup_stamp destination planned in
        let run =
          atomic_install resolve backup_stamp failed_stamp staged destination true planned w in
        Replaceable destination backup w
        → Apart destination backup
        → w.entry destination ≡ some old
        → w.faults ≡ pass ∷ pass ∷ pass ∷ refuse ∷ []
        → (run.0 ≡ err os_error) × (run.1.entry destination ≡ some old)
  unfolding publish recover move_aside put_back
  atomic_install-restores failed_stamp staged destination planned w old can d there f =
      let backup = chosen_backup backup_stamp destination planned in
      let (w1, run, f1, now) =
        backed_up failed_stamp staged destination planned w old refuse can there f in
      let (failed, f2, same) = rename_fails staged destination w1 (rw (f1) refl) in
      let w2 = (rename staged destination w1).1 in
      let gone : w2.entry destination ≡ none =
        ap (λ g. g destination) (same ∙ now)
        ∙ rw (d.1, (lists_eq_iff destination destination).1 refl) refl in
      let saved : w2.entry backup ≡ some old =
        ap (λ g. g backup) (same ∙ now) ∙ rw ((lists_eq_iff backup backup).1 refl) refl in
      let (worked, _, back) =
        rename_works backup destination w2 old (rw (f2, f1) refl) saved gone in
      rw (run, failed, gone, saved, worked)
        (refl, rw (back, (lists_eq_iff destination destination).1 refl) refl)
