-- ===== src/Windows/Install/Installs.antt =====
-- What `atomic_install` of scripts/patch_windows_app.py has done when it returns, and when it returns.
use codex_subscription_route.Prelude.{
  Outcome-cases, ◌⊎◌, ◌≡◌, ◌≢◌, refl, sym, ap, ◌∙◌, subst, not, ◌&&◌, Bool, true, false, Option,
  none, some, arith, Bool-cases, Option-cases, inl, inr, ok, ok-injective,
}
use codex_subscription_route.Text.{Bytes}
use codex_subscription_route.Windows.Files.{
  FilePath, World, FileError, ◌>>=◌, rename, exists, make_directory,
}
use codex_subscription_route.Windows.Files.Moves.{
  rename-elsewhere, rename-Moved, rename-eq-ok, make_directory-entry,
}
use codex_subscription_route.Windows.Install.{
  parent, chosen_backup, refuse_existing, move_aside, put_back, recover, publish, is_planned,
  take_backup, backup_if_present, atomic_install,
}
use codex_subscription_route.Windows.Install.Keeps.{
  Apart, >>=-ends, backup_if_present-BackedUp, refuse_existing-same,
}

module _ {A : Type 0} where
  recover-fails :
      (stamp : Bytes) (destination : FilePath) (backup : Option FilePath) (e : FileError)
      (w : World A)
      → (r : Option FilePath) → (recover stamp destination backup e w).0 ≢ ok r
  unfolding recover
  recover-fails stamp destination backup e w r h =
      elim (Outcome-cases (move_aside stamp destination w).0) [
        | inl (u, k) ↦
            elim (Outcome-cases
              (put_back destination backup (move_aside stamp destination w).1).0) [
                | inl (v, l) ↦ ground arith
                | inr (f, l) ↦ ground arith
              ]
        | inr (f, k) ↦ ground arith
      ]

  -- The staged build is published: it is at the destination and no longer where it was staged.
  abbrev pub Published : FilePath → FilePath → (FilePath → Option A) → World A → Type 0
  Published staged destination before w' =
      (new : A) × (before staged ≡ some new)
      × (w'.entry destination ≡ some new)
      × (w'.entry staged ≡ none)

  rename-Published :
      (staged destination : FilePath) (w : World A) {u : Unit {0}}
      → Apart staged destination
      → (rename staged destination w).0 ≡ ok u
      → Published staged destination w.entry (rename staged destination w).1
  rename-Published staged destination w d worked =
      let (new, there) = rename-eq-ok staged destination w worked in
      elim (rename-Moved staged destination w new there d.1) [
        | inl (_, arrived, gone) ↦ (new, there, arrived, gone)
        | inr (e, failed, _) ↦ ground arith
      ]

  publish-eq-ok :
      (stamp : Bytes) (staged destination : FilePath) (backup : Option FilePath) (w : World A)
      → {r : Option FilePath} → Apart staged destination
      → (publish stamp staged destination backup w).0 ≡ ok r
      → let w' = (publish stamp staged destination backup w).1 in
        (r ≡ backup)
        × Published staged destination w.entry w'
        × ((p : FilePath) → Apart staged p → Apart destination p → w'.entry p ≡ w.entry p)
  unfolding publish
  publish-eq-ok stamp staged destination backup w d h =
      elim (Outcome-cases (rename staged destination w).0) [
        | inl (u, worked) ↦
            let h' = rw (worked) at h in
            (rw (worked) (
              sym (ok-injective h'),
              rename-Published staged destination w d worked,
              λ p s t. rename-elsewhere staged destination p w s.0 t.0,
            ))
        | inr (e, failed) ↦
            let h' = rw (failed) at h in
            absurd (recover-fails stamp destination backup e (rename staged destination w).1 _ h')
      ]

  refuse_existing-eq-ok :
      (destination : FilePath) (force : Bool) (w : World A) {u : Unit {0}}
      → (refuse_existing destination force w).0 ≡ ok u
      → (exists w destination && not force) ≡ false
  unfolding refuse_existing
  refuse_existing-eq-ok destination force w h = ground arith

  -- Where the old installation, if there was one, is afterwards.
  abbrev pub OldKept :
      FilePath → FilePath → Option FilePath → (FilePath → Option A) → World A → Type 0
  OldKept destination backup r before w' =
      ((before destination ≡ none) × (r ≡ none))
      ⊎ ((old : A) × (before destination ≡ some old)
          × (r ≡ some backup)
          × (w'.entry backup ≡ some old))

module _ {A : Type 0} (resolve : FilePath → FilePath) where
  backup_if_present-elsewhere :
      (stamp : Bytes) (destination : FilePath) (planned : Option FilePath) (w : World A)
      (p : FilePath)
      → Apart destination p
      → Apart (chosen_backup stamp destination planned) p
      → (backup_if_present resolve stamp destination planned w).1.entry p ≡ w.entry p
  unfolding backup_if_present take_backup
  backup_if_present-elsewhere stamp destination planned w p d b =
      let backup = chosen_backup stamp destination planned in
      let made = (make_directory false (parent backup) w).1 in
      let same = ap (λ f. f p) (make_directory-entry false (parent backup) w) in
      let moved = rename-elsewhere destination backup p made d.0 b.0 ∙ same in
      elim (Bool-cases (exists w destination)) [
        | inr fresh ↦ rw (fresh) refl
        | inl there ↦ elim (Bool-cases (is_planned resolve destination backup)) [
          | inr outside ↦ rw (there, outside) refl
          | inl inside ↦
              rw (there, inside)
                (>>=-ends (λ v. v.entry p ≡ w.entry p) (make_directory false (parent backup)) _ w
                  same
                  (λ _ _.
                    >>=-ends (λ v. v.entry p ≡ w.entry p) (rename destination backup) _ made moved
                      (λ _ _. moved)))
        ]
      ]

  backup_if_present-fresh :
      (stamp : Bytes) (destination : FilePath) (planned : Option FilePath) (w : World A)
      → w.entry destination ≡ none
      → (backup_if_present resolve stamp destination planned w).0 ≡ ok none
  unfolding backup_if_present
  backup_if_present-fresh stamp destination planned w h = rw (h) refl

  -- The part of `atomic_install` after its guards.
  replace-eq-ok :
      (backup_stamp failed_stamp : Bytes)
      → (staged destination : FilePath) (planned : Option FilePath) (w : World A)
      → {r : Option FilePath}
      → let backup = chosen_backup backup_stamp destination planned in
        let done =
          (backup_if_present resolve backup_stamp destination planned >>= λ b.
          publish failed_stamp staged destination b)
            w in
        Apart destination backup
        → Apart staged backup
        → Apart staged destination
        → done.0 ≡ ok r
        → OldKept destination backup r w.entry done.1 × Published staged destination w.entry done.1
  replace-eq-ok backup_stamp failed_stamp staged destination planned w d s p h =
      let backup = chosen_backup backup_stamp destination planned in
      let w1 = (backup_if_present resolve backup_stamp destination planned w).1 in
      let same =
        backup_if_present-elsewhere backup_stamp destination planned w staged (p.1, p.0)
          (s.1, s.0) in
      elim (Option-cases (w.entry destination)) [
        | inl nothing ↦
            let first = backup_if_present-fresh backup_stamp destination planned w nothing in
            let h' = rw (first) at h in
            (let (unsaved, (new, was, is, gone), rest) =
                publish-eq-ok failed_stamp staged destination none w1 p h' in
              rw (first) (inl (nothing, unsaved), (new, sym same ∙ was, is, gone)))
        | inr (old, there) ↦
            elim (backup_if_present-BackedUp resolve backup_stamp destination planned w old there
              d) [
                | inl (first, saved, _) ↦
                    let h' = rw (first) at h in
                    (let (kept, (new, was, is, gone), rest) =
                        publish-eq-ok failed_stamp staged destination (some backup) w1 p h' in
                      rw (first) (
                        inr (old, there, kept, rest backup s d ∙ saved),
                        (new, sym same ∙ was, is, gone),
                      ))
                | inr (e, failed, _) ↦ let h' = rw (failed) at h in ground arith
              ]
      ]

  -- When `atomic_install` returns, an existing destination was overwritten only with `force`; the
  -- staged build is at the destination and no longer in its place; and the installation that was at
  -- the destination, if there was one, is at the backup whose path is returned. The staged build, the
  -- destination and the backup must be different paths.
  pub atomic_install-Published :
      (backup_stamp failed_stamp : Bytes)
      → (staged destination : FilePath) → (force : Bool) → (planned : Option FilePath)
      → (w : World A) → (r : Option FilePath)
      → let backup = chosen_backup backup_stamp destination planned in
        let done =
          atomic_install resolve backup_stamp failed_stamp staged destination force planned w in
        Apart destination backup
        → Apart staged backup
        → Apart staged destination
        → done.0 ≡ ok r
        → ((exists w destination && not force) ≡ false)
          × OldKept destination backup r w.entry done.1
          × Published staged destination w.entry done.1
  unfolding atomic_install
  atomic_install-Published backup_stamp failed_stamp staged destination force planned w r d s p h =
      let backup = chosen_backup backup_stamp destination planned in
      let w1 = (make_directory true (parent destination) w).1 in
      let same = make_directory-entry true (parent destination) w in
      let w2 = (refuse_existing destination force w1).1 in
      let unchanged = refuse_existing-same destination force w1 in
      elim (Outcome-cases (make_directory true (parent destination) w).0) [
        | inr (e, failed) ↦ let h' = rw (failed) at h in ground arith
        | inl (_, made) ↦ elim (Outcome-cases (refuse_existing destination force w1).0) [
          | inr (e, refused) ↦ let h' = rw (made, refused) at h in ground arith
          | inl (_, allowed) ↦
              let h' = rw (made, allowed, unchanged) at h in
              let (old, new) =
                replace-eq-ok backup_stamp failed_stamp staged destination planned w1 d s p h' in
              let after =
                ((backup_if_present resolve backup_stamp destination planned >>= λ b.
                publish failed_stamp staged destination b)
                  w1).1 in
              rw (made, allowed, unchanged)
                (
                  rw (same) at (refuse_existing-eq-ok destination force w1 allowed),
                  subst (λ e. OldKept destination backup r e after) same old,
                  subst (λ e. Published staged destination e after) same new,
                )
        ]
      ]
