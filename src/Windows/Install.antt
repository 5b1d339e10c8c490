-- ===== src/Windows/Install.antt =====
-- `atomic_install` and `plan_backup_path` of scripts/patch_windows_app.py. The clock and the random
-- part of a new name are parameters (the stamps); `resolve` is `Path.resolve` with the comparison of
-- Windows paths.
pub mod Keeps
pub mod Installs
pub mod Restores
use codex_subscription_route.Prelude.{
  Bool, true, false, not, ◌&&◌, Option, none, some, [], ◌∷◌, ◌++◌, if◌then◌else◌, Outcome, ok, err,
}
use codex_subscription_route.Text.{Bytes, codes, lists_eq}
use codex_subscription_route.Windows.Files.{
  FilePath, World, FileError, destination_exists, outside_backup_root, Action, ◌>>=◌, ◌>>◌, done,
  fail, exists, rename, make_directory,
}

-- `path.parent` and `path.name`
unfoldable pub parent : FilePath → FilePath
parent [] = []
parent (p ∷ []) = []
parent (p ∷ q ∷ ps) = p ∷ parent (q ∷ ps)

unfoldable pub base_name : FilePath → Bytes
base_name [] = []
base_name (p ∷ []) = p
base_name (p ∷ q ∷ ps) = base_name (q ∷ ps)

abbrev pub backup_root_name : Bytes
backup_root_name = codes ".codex-subscription-router-backups"

unfoldable pub plan_backup_path : Bytes → FilePath → FilePath
plan_backup_path stamp destination =
    parent destination ++ (backup_root_name ∷ stamp ∷ base_name destination ∷ [])

-- `.{name}.failed-{stamp}` beside the destination.
unfoldable pub failed_path : Bytes → FilePath → FilePath
failed_path stamp destination =
    parent destination
    ++ ((codes "." ++ (base_name destination ++ (codes ".failed-" ++ stamp))) ∷ [])

-- `planned_backup or plan_backup_path(destination)`
abbrev pub chosen_backup : Bytes → FilePath → Option FilePath → FilePath
chosen_backup stamp destination none = plan_backup_path stamp destination
chosen_backup stamp destination (some planned) = planned

module _ {A : Type 0} where
  -- `if wanted: call`
  abbrev pub perform_if : Bool → Action A (Unit {0}) → Action A (Unit {0})
  perform_if wanted call w = if wanted then call w else (ok tt, w)

  -- `try: … except OSError as e: …`, where every error of the call is an `OSError`.
  abbrev pub handle :
      {R S : Type 0}
      → (R → Action A S)
      → (FileError → Action A S)
      → Outcome FileError R × World A
      → Outcome FileError S × World A
  handle next handler (ok r, w) = next r w
  handle next handler (err e, w) = handler e w

  unfoldable pub refuse_existing : FilePath → Bool → Action A (Unit {0})
  refuse_existing destination force w =
      if exists w destination && not force then (err destination_exists, w) else (ok tt, w)

  -- The handler moves a half-made destination aside and the old build back to its place.
  unfoldable pub move_aside : Bytes → FilePath → Action A (Unit {0})
  move_aside stamp destination w =
      perform_if (exists w destination) (rename destination (failed_path stamp destination)) w

  unfoldable pub put_back : FilePath → Option FilePath → Action A (Unit {0})
  put_back destination none w = (ok tt, w)
  put_back destination (some backup) w = perform_if (exists w backup) (rename backup destination) w

  unfoldable pub recover :
      Bytes → FilePath → Option FilePath → FileError → Action A (Option FilePath)
  recover stamp destination backup e =
      move_aside stamp destination >> (put_back destination backup >> fail e)

  unfoldable pub publish :
      Bytes → FilePath → FilePath → Option FilePath → Action A (Option FilePath)
  publish stamp staged destination backup w =
      handle (λ _. done backup) (recover stamp destination backup) (rename staged destination w)

abbrev pub is_planned : (FilePath → FilePath) → FilePath → FilePath → Bool
is_planned resolve destination backup =
    lists_eq (resolve (parent (parent backup)))
      (resolve (parent destination ++ (backup_root_name ∷ [])))

module _ {A : Type 0} (resolve : FilePath → FilePath) where
  unfoldable pub take_backup : FilePath → FilePath → Action A (Option FilePath)
  take_backup destination backup w =
      if is_planned resolve destination backup
      then (make_directory false (parent backup)
            >> (rename destination backup >> done (some backup)))
          w
      else (err outside_backup_root, w)

  unfoldable pub backup_if_present : Bytes → FilePath → Option FilePath → Action A (Option FilePath)
  backup_if_present stamp destination planned w =
      if exists w destination
      then take_backup destination (chosen_backup stamp destination planned) w
      else (ok none, w)

  unfoldable pub atomic_install :
      Bytes → Bytes → FilePath → FilePath → Bool → Option FilePath → Action A (Option FilePath)
  atomic_install backup_stamp failed_stamp staged destination force planned =
      make_directory true (parent destination)
      >> (refuse_existing destination force
          >> (backup_if_present backup_stamp destination planned >>= λ backup.
              publish failed_stamp staged destination backup))
