-- ===== src/Windows/Publication.antt =====
-- The end of `patch_app` of scripts/patch_windows_app.py, from the plan of the backup: the control token is
-- stored, the staged build is installed, and an error of either takes back the token that was stored.
pub mod Undone
use codex_subscription_route.Prelude.{
  Bool, false, not, ◌&&◌, ◌||◌, Option, none, some, if◌then◌else◌, Outcome, ok, err,
}
use codex_subscription_route.Text.{Bytes}
use codex_subscription_route.Windows.Files.{FilePath, World, FileError, exists}
use codex_subscription_route.Windows.Install.{plan_backup_path, atomic_install}
use codex_subscription_route.Windows.Token.{TokenError, Calls, TokenFile, persist_control_token}

pub data PatchError : Type 0 where
  token_failed : TokenError → PatchError
  install_failed : FileError → PatchError

-- The installations, the file `control-token`, and whether its directory is there.
pub record Machine (A : Type 0) : Type 0 where
  pub world : World A
  pub token_file : TokenFile
  pub state_root : Bool

-- Whether the token can be removed, and the directory of it.
pub record Cleanup : Type 0 where
  pub unlinked : Bool
  pub removed : Bool

-- The arguments and what the system answers: the stamps of the paths that are made, how the calls on the
-- token go, and `str.strip` and `Path.resolve`.
pub record Publishing : Type 0 where
  pub strip : Bytes → Bytes
  pub resolve : FilePath → FilePath
  pub calls : Calls
  pub cleanup_calls : Cleanup
  pub planned_stamp : Bytes
  pub backup_stamp : Bytes
  pub failed_stamp : Bytes
  pub staged : FilePath
  pub destination : FilePath
  pub force : Bool
  pub token : Bytes
  pub token_is_new : Bool

module _ {A : Type 0} (p : Publishing) where
  abbrev pub planned_backup : Machine A → Option FilePath
  planned_backup m =
      if exists m.world p.destination
      then some (plan_backup_path p.planned_stamp p.destination)
      else none

  abbrev pub stored :
      Machine A → Outcome TokenError Bool × TokenFile → Outcome PatchError Bool × Machine A
  stored m (ok persisted, file) = (
    ok persisted,
    record m { token_file = file; state_root = m.state_root || p.calls.directory_made },
  )
  stored m (err e, file) = (
    err (token_failed e),
    record m { token_file = file; state_root = m.state_root || p.calls.directory_made },
  )

  -- The result is `token_persisted`.
  unfoldable pub store_token : Machine A → Outcome PatchError Bool × Machine A
  store_token m =
      if p.token_is_new
      then stored m (persist_control_token p.strip p.calls p.token m.token_file)
      else (ok false, m)

  -- The directory goes only if it was made for the token.
  unfoldable pub take_back : Bool → Bool → Machine A → Machine A
  take_back persisted preexisted m =
      if persisted && p.cleanup_calls.unlinked
      then record m {
        token_file = none;
        state_root = if preexisted then m.state_root else not p.cleanup_calls.removed;
      }
      else m

  abbrev pub installed :
      Bool
      → Bool
      → Machine A
      → Outcome FileError (Option FilePath) × World A
      → Outcome PatchError (Option FilePath) × Machine A
  installed persisted preexisted m (ok backup, w) = (ok backup, record m { world = w })
  installed persisted preexisted m (err e, w) =
      (err (install_failed e), take_back persisted preexisted (record m { world = w }))

  unfoldable pub install_build :
      Bool
      → Option FilePath
      → Outcome PatchError Bool × Machine A
      → Outcome PatchError (Option FilePath) × Machine A
  install_build preexisted planned (err e, m) = (err e, m)
  install_build preexisted planned (ok persisted, m) = installed persisted preexisted m (
      atomic_install p.resolve p.backup_stamp p.failed_stamp p.staged p.destination p.force planned
        m.world)

  -- A dry run returns before.
  unfoldable pub publish_build : Bool → Machine A → Outcome PatchError (Option FilePath) × Machine A
  publish_build dry_run m =
      if dry_run
      then (ok none, m)
      else install_build m.state_root (planned_backup m) (store_token m)
