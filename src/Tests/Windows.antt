-- ===== src/Tests/Windows.antt =====
-- The theorems on scripts/patch_windows_app.py at concrete data, and runs on small inputs.
use codex_subscription_route.Prelude.{
  ℕ, ◌≡◌, refl, true, false, none, some, List, [], ◌∷◌, ok, err, not, ◌&&◌,
}
use codex_subscription_route.Text.{codes, bytes_eq, lists_eq}
use codex_subscription_route.Windows.Files.{
  FilePath, World, os_error, pass, refuse, destination_exists, exists, put, rename, make_directory,
}
use codex_subscription_route.Windows.Install.{
  parent, base_name, plan_backup_path, failed_path, refuse_existing, recover, publish, take_backup,
  backup_if_present, atomic_install,
}
use codex_subscription_route.Windows.Install.Keeps.{Kept, atomic_install-Kept}
use codex_subscription_route.Windows.Install.Installs.{OldKept, Published, atomic_install-Published}
use codex_subscription_route.Windows.Install.Restores.{
  atomic_install-succeeds, atomic_install-restores,
}

abbrev destination : FilePath
destination = codes "C:" ∷ codes "Router" ∷ []

abbrev staged : FilePath
staged = codes "C:" ∷ codes "staged" ∷ []

abbrev stamp : List ℕ
stamp = codes "20260101-000000-0a1b2c3d"

abbrev backup : FilePath
backup = codes "C:" ∷ codes ".codex-subscription-router-backups" ∷ stamp ∷ codes "Router" ∷ []

abbrev same_path : FilePath → FilePath
same_path p = p

-- Build 1 is installed, build 2 is staged, and the last move fails.
abbrev before : World ℕ
before = record {
  entry = put destination (some 1) (put staged (some 2) (λ _. none));
  directories = parent destination ∷ [];
  faults = pass ∷ pass ∷ pass ∷ refuse ∷ [];
}

abbrev quiet : World ℕ
quiet = record before { faults = pass ∷ pass ∷ pass ∷ pass ∷ [] }

planned_backup : plan_backup_path stamp destination ≡ backup
unfolding plan_backup_path parent base_name
planned_backup = refl

atomic_install-Kept_example :
    Kept 1 destination backup
      (atomic_install same_path stamp stamp staged destination true none before).1
unfolding plan_backup_path failed_path parent base_name lists_eq bytes_eq
atomic_install-Kept_example =
    atomic_install-Kept same_path stamp stamp staged destination true none before 1 refl
      (refl, refl) (refl, refl) (refl, refl)

atomic_install-succeeds_example :
    (atomic_install same_path stamp stamp staged destination true none quiet).0 ≡ ok (some backup)
unfolding plan_backup_path parent base_name lists_eq bytes_eq
atomic_install-succeeds_example =
    atomic_install-succeeds same_path stamp stamp staged destination none quiet 1 2
      (refl, refl, refl) (refl, refl) (refl, refl) (refl, refl) refl refl refl

installed :
    (atomic_install same_path stamp stamp staged destination true none quiet).0 ≡ ok (some backup)
unfolding plan_backup_path parent base_name lists_eq bytes_eq atomic_install refuse_existing
    backup_if_present take_backup publish recover rename make_directory
installed = refl

atomic_install-Published_example :
    ((exists quiet destination && not true) ≡ false)
    × OldKept destination backup
        (some backup)
        quiet.entry
        (atomic_install same_path stamp stamp staged destination true none quiet).1
    × Published staged destination quiet.entry
        (atomic_install same_path stamp stamp staged destination true none quiet).1
unfolding plan_backup_path parent base_name lists_eq bytes_eq
atomic_install-Published_example =
    atomic_install-Published same_path stamp stamp staged destination true none quiet (some backup)
      (refl, refl) (refl, refl) (refl, refl) installed

atomic_install-restores_example :
    ((atomic_install same_path stamp stamp staged destination true none before).0 ≡ err os_error)
    × ((atomic_install same_path stamp stamp staged destination true none before).1.entry
          destination
        ≡ some 1)
unfolding plan_backup_path parent base_name lists_eq bytes_eq
atomic_install-restores_example =
    atomic_install-restores same_path stamp stamp staged destination none before 1
      (refl, refl, refl) (refl, refl) refl refl

unforced :
    (atomic_install same_path stamp stamp staged destination false none quiet).0
    ≡ err destination_exists
unfolding parent lists_eq bytes_eq atomic_install refuse_existing make_directory
unforced = refl
