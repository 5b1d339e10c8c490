-- ===== src/Windows/Install/Keeps.antt =====
-- An installation that `atomic_install` of scripts/patch_windows_app.py found at the destination is
-- never lost.
use codex_subscription_route.Prelude.{
  Outcome-cases, ◌⊎◌, ◌≡◌, refl, ap, ◌∙◌, not, ◌&&◌, Bool, true, false, Option, none, some,
  Bool-cases, inl, inr, Outcome, ok, err,
}
use codex_subscription_route.Text.{Bytes, lists_eq}
use codex_subscription_route.Windows.Files.{
  FilePath, World, FileError, Action, done, fail, ◌>>=◌, ◌>>◌, rename, exists, make_directory,
}
use codex_subscription_route.Windows.Files.Moves.{
  rename-elsewhere, rename-Moved, make_directory-entry,
}
use codex_subscription_route.Windows.Install.{
  parent, failed_path, chosen_backup, handle, refuse_existing, move_aside, put_back, recover,
  publish, is_planned, take_backup, backup_if_present, atomic_install,
}

abbrev pub Apart : FilePath → FilePath → Type 0
Apart p q = (lists_eq p q ≡ false) × (lists_eq q p ≡ false)

module _ {A : Type 0} where
  -- The installation is at its place or at its backup.
  abbrev pub Kept : A → FilePath → FilePath → World A → Type 0
  Kept a destination backup w = (w.entry destination ≡ some a) ⊎ (w.entry backup ≡ some a)

  move_aside-elsewhere :
      (stamp : Bytes) (destination p : FilePath) (w : World A)
      → Apart destination p
      → Apart (failed_path stamp destination) p
      → (move_aside stamp destination w).1.entry p ≡ w.entry p
  unfolding move_aside
  move_aside-elsewhere stamp destination p w d f = elim (Bool-cases (exists w destination)) [
    | inl there ↦
        rw (there) (rename-elsewhere destination (failed_path stamp destination) p w d.0 f.0)
    | inr away ↦ rw (away) refl
  ]

  put_back-Kept :
      (destination backup : FilePath) (w : World A) (a : A)
      → w.entry backup ≡ some a
      → Apart destination backup
      → Kept a destination backup (put_back destination (some backup) w).1
  unfolding put_back
  put_back-Kept destination backup w a h d =
      rw (h) (elim (rename-Moved backup destination w a h d.0) [
        | inl moved ↦ inl moved.1
        | inr stayed ↦ inr stayed.2
      ])

  -- A chain of calls ends in the state of its first call or of the rest of it.
  pub >>=-ends :
      {R S : Type 0}
      → (Q : World A → Type 0) (call : Action A R) (k : R → Action A S) (w : World A) → Q (call w).1
      → ((r : R) → (call w).0 ≡ ok r → Q (k r (call w).1).1)
      → Q ((call >>= k) w).1
  >>=-ends Q call k w stop go = resumed (call w).0 refl
    where
      resumed : (o : Outcome FileError _) → (call w).0 ≡ o → Q ((call >>= k) w).1
      resumed (ok r) h = rw (h) (go r h)
      resumed (err e) h = rw (h) stop

  recover-Kept :
      (stamp : Bytes) (destination backup : FilePath) (e : FileError) (w : World A) (a : A)
      → w.entry backup ≡ some a
      → Apart destination backup
      → Apart (failed_path stamp destination) backup
      → Kept a destination backup (recover stamp destination (some backup) e w).1
  unfolding recover
  recover-Kept stamp destination backup e w a h d f =
      let still = move_aside-elsewhere stamp destination backup w d f ∙ h in
      >>=-ends (Kept a destination backup) (move_aside stamp destination)
        (λ _. put_back destination (some backup) >> fail e) w (inr still)
        (λ _ _.
          let kept =
            put_back-Kept destination backup (move_aside stamp destination w).1 a still d in
          >>=-ends (Kept a destination backup) (put_back destination (some backup)) (λ _. fail e)
            (move_aside stamp destination w).1 kept (λ _ _. kept))

  handle-ends :
      {R S : Type 0}
      → (Q : World A → Type 0) (next : R → Action A S) (handler : FileError → Action A S)
        (r : Outcome FileError R × World A)
      → ((x : R) → r.0 ≡ ok x → Q (next x r.1).1)
      → ((e : FileError) → r.0 ≡ err e → Q (handler e r.1).1)
      → Q (handle next handler r).1
  handle-ends Q next handler (ok x, w) go catch = go x refl
  handle-ends Q next handler (err e, w) go catch = catch e refl

  publish-Kept :
      (stamp : Bytes) (staged destination backup : FilePath) (w : World A) (a : A)
      → w.entry backup ≡ some a
      → Apart destination backup
      → Apart staged backup
      → Apart (failed_path stamp destination) backup
      → Kept a destination backup (publish stamp staged destination (some backup) w).1
  unfolding publish
  publish-Kept stamp staged destination backup w a h d s f =
      let still = rename-elsewhere staged destination backup w s.0 d.0 ∙ h in
      handle-ends (Kept a destination backup) (λ _. done (some backup))
        (recover stamp destination (some backup)) (rename staged destination w) (λ _ _. inr still)
        (λ e _. recover-Kept stamp destination backup e (rename staged destination w).1 a still d f)

  -- The old installation is at its backup, or an error was raised and it is at its place.
  abbrev pub BackedUp :
      A → FilePath → FilePath → Outcome FileError (Option FilePath) × World A → Type 0
  BackedUp a destination backup r =
      ((r.0 ≡ ok (some backup)) × (r.1.entry backup ≡ some a) × (r.1.entry destination ≡ none))
      ⊎ ((e : FileError) × (r.0 ≡ err e) × (r.1.entry destination ≡ some a))

  rename-BackedUp :
      (destination backup : FilePath) (w : World A) (a : A)
      → w.entry destination ≡ some a
      → Apart destination backup
      → BackedUp a destination backup ((rename destination backup >> done (some backup)) w)
  rename-BackedUp destination backup w a h d = elim (rename-Moved destination backup w a h d.1) [
    | inl (worked, there, gone) ↦ rw (worked) (inl (refl, there, gone))
    | inr (e, failed, there) ↦ rw (failed) (inr (e, refl, there))
  ]

  make_directory-BackedUp :
      (destination backup : FilePath) (w : World A) (a : A)
      → w.entry destination ≡ some a
      → Apart destination backup
      → BackedUp a destination backup (
          (make_directory false (parent backup)
              >> (rename destination backup >> done (some backup)))
            w)
  make_directory-BackedUp destination backup w a h d =
      let made = make_directory false (parent backup) w in
      let same = ap (λ f. f destination) (make_directory-entry false (parent backup) w) ∙ h in
      elim (Outcome-cases made.0) [
        | inl (u, k) ↦ rw (k) (rename-BackedUp destination backup made.1 a same d)
        | inr (e, k) ↦ rw (k) (inr (e, refl, same))
      ]

  pub refuse_existing-same :
      (destination : FilePath) (force : Bool) (w : World A)
      → (refuse_existing destination force w).1 ≡ w
  unfolding refuse_existing
  refuse_existing-same destination force w = elim (Bool-cases (exists w destination && not force)) [
    | inl stop ↦ rw (stop) refl
    | inr go ↦ rw (go) refl
  ]

module _ {A : Type 0} (resolve : FilePath → FilePath) where
  pub backup_if_present-BackedUp :
      (stamp : Bytes) (destination : FilePath) (planned : Option FilePath) (w : World A) (a : A)
      → w.entry destination ≡ some a
      → Apart destination (chosen_backup stamp destination planned)
      → BackedUp a destination
          (chosen_backup stamp destination planned)
          (backup_if_present resolve stamp destination planned w)
  unfolding backup_if_present take_backup
  backup_if_present-BackedUp stamp destination planned w a h d =
      let backup = chosen_backup stamp destination planned in
      elim (Bool-cases (is_planned resolve destination backup)) [
        | inl inside ↦ rw (h, inside) (make_directory-BackedUp destination backup w a h d)
        | inr outside ↦ rw (h, outside) (inr (_, refl, h))
      ]

  replace-Kept :
      (backup_stamp failed_stamp : Bytes)
      → (staged destination : FilePath) (planned : Option FilePath) (w : World A) (a : A)
      → let backup = chosen_backup backup_stamp destination planned in
        w.entry destination ≡ some a
        → Apart destination backup
        → Apart staged backup
        → Apart (failed_path failed_stamp destination) backup
        → Kept a destination backup
            ((backup_if_present resolve backup_stamp destination planned >>= λ b.
                publish failed_stamp staged destination b)
              w).1
  replace-Kept backup_stamp failed_stamp staged destination planned w a h d s f =
      let backup = chosen_backup backup_stamp destination planned in
      elim (backup_if_present-BackedUp backup_stamp destination planned w a h d) [
        | inl (worked, there, gone) ↦
            rw (worked) (publish-Kept failed_stamp staged destination backup _ a there d s f)
        | inr (e, failed, there) ↦ rw (failed) (inl there)
      ]

  -- Whatever calls to the operating system fail, and at whatever point of the installation, the
  -- installation that was at the destination is afterwards at the destination or at its backup. The
  -- backup must be another path than the destination, the staged build and the place for a failed
  -- build.
  pub atomic_install-Kept :
      (backup_stamp failed_stamp : Bytes)
      → (staged destination : FilePath) → (force : Bool) → (planned : Option FilePath)
      → (w : World A) → (a : A)
      → let backup = chosen_backup backup_stamp destination planned in
        w.entry destination ≡ some a
        → Apart destination backup
        → Apart staged backup
        → Apart (failed_path failed_stamp destination) backup
        → Kept a destination backup
            (atomic_install resolve backup_stamp failed_stamp staged destination force planned w).1
  unfolding atomic_install
  atomic_install-Kept backup_stamp failed_stamp staged destination force planned w a h d s f =
      let backup = chosen_backup backup_stamp destination planned in
      let w1 = (make_directory true (parent destination) w).1 in
      let still = ap (λ g. g destination) (make_directory-entry true (parent destination) w) ∙ h in
      let w2 = (refuse_existing destination force w1).1 in
      let here =
        ap (λ v. v.entry destination) (refuse_existing-same destination force w1) ∙ still in
      let replaced =
        replace-Kept backup_stamp failed_stamp staged destination planned w2 a here d s f in
      >>=-ends (Kept a destination backup) (make_directory true (parent destination)) _ w
        (inl still)
        (λ _ _.
          >>=-ends (Kept a destination backup) (refuse_existing destination force) _ w1 (inl here)
            (λ _ _. replaced))
