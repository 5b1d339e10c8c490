-- ===== src/Tests/Publication.antt =====
-- The end of `patch_app` of scripts/patch_windows_app.py at concrete data.
use codex_subscription_route.Prelude.{ℕ, ◌≡◌, refl, true, false, none, some, [], ◌∷◌, err, arith}
use codex_subscription_route.Text.{codes, bytes_eq, lists_eq, is_utf8}
use codex_subscription_route.Windows.Files.{pass, refuse, os_error, put, rename, make_directory}
use codex_subscription_route.Windows.Install.{
  parent, base_name, plan_backup_path, failed_path, refuse_existing, move_aside, put_back, recover,
  publish, take_backup, backup_if_present, atomic_install,
}
use codex_subscription_route.Windows.Token.{
  TokenError, invalid_token, prepare_control_token, persist_control_token,
}
use codex_subscription_route.Windows.Publication.{
  token_failed, install_failed, Machine, Publishing, store_token, take_back, install_build,
  publish_build,
}
use codex_subscription_route.Windows.Publication.Undone.{
  publish_build-token_file, publish_build-cut_off,
}

-- Build 1 is installed, build 2 is staged, and the last move fails.
abbrev machine : Machine ℕ
machine = record {
  world = record {
    entry = put (codes "Router" ∷ []) (some 1) (put (codes "staged" ∷ []) (some 2) (λ _. none));
    directories = [];
    faults = pass ∷ pass ∷ pass ∷ refuse ∷ [];
  };
  token_file = none;
  state_root = false;
}

abbrev publishing : Publishing
publishing = record {
  strip = λ s. s;
  resolve = λ path. path;
  calls = record { directory_made = true; cut_off = none };
  cleanup_calls = record { unlinked = true; removed = true };
  planned_stamp = codes "1";
  backup_stamp = codes "2";
  failed_stamp = codes "3";
  staged = codes "staged" ∷ [];
  destination = codes "Router" ∷ [];
  force = true;
  token = codes "0a1b";
  token_is_new = true;
}

failed : (publish_build publishing false machine).0 ≡ err (install_failed os_error)
unfolding publish_build install_build store_token take_back persist_control_token atomic_install
    parent base_name plan_backup_path failed_path refuse_existing move_aside put_back recover
    publish take_backup backup_if_present rename make_directory lists_eq bytes_eq
failed = refl

publish_build-token_file_example : (publish_build publishing false machine).1.token_file ≡ none
publish_build-token_file_example =
    publish_build-token_file publishing false machine (install_failed os_error) refl refl failed

abbrev cut_off : Publishing
cut_off = record publishing { calls = record { directory_made = true; cut_off = some 2 } }

publish_build-cut_off_example :
    ((publish_build cut_off false machine).0 ≡ err (token_failed TokenError.os_error))
    × (prepare_control_token
          (λ s. s)
          (codes "2c3d")
          (publish_build cut_off false machine).1.token_file
        ≡ err invalid_token)
unfolding is_utf8
publish_build-cut_off_example =
    publish_build-cut_off cut_off machine 2 (codes "2c3d") (λ s. omega arith) refl refl refl refl
      (omega arith)
