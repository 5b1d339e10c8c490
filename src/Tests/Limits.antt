-- ===== src/Tests/Limits.antt =====
-- The theorems on ports, path lengths and anchors at concrete data.
use codex_subscription_route.Prelude.{◌≡◌, ◌↔◌, refl, none, [], ◌∷◌, ◌++◌, All, ok}
use codex_subscription_route.Text.{Bytes, codes, count_from, starts_with}
use codex_subscription_route.Windows.Anchors.{replace_first, replace_unique}
use codex_subscription_route.Windows.Anchors.Once.{IsReplacedOnce, replace_unique-IsReplacedOnce}
use codex_subscription_route.Windows.Limits.{resolve_control_port, validate_windows_path_budget}
use codex_subscription_route.Windows.Limits.Within.{IsShort, validate_windows_path_budget_iff}

resolved : resolve_control_port 7 none ≡ ok 49159
unfolding resolve_control_port
resolved = refl

abbrev join_paths : Bytes → Bytes → Bytes
join_paths root relative = root ++ (codes "\\" ++ relative)

validate_windows_path_budget_iff_example :
    (validate_windows_path_budget join_paths
        (codes "a.dll" ∷ [])
        (codes "C:\\App")
        (codes "C:\\Tmp")
      ≡ ok tt)
    ↔ All (IsShort join_paths (codes "C:\\App") (codes "C:\\Tmp")) (codes "a.dll" ∷ [])
validate_windows_path_budget_iff_example =
    validate_windows_path_budget_iff join_paths (codes "a.dll" ∷ []) (codes "C:\\App")
      (codes "C:\\Tmp")

changed_once : replace_unique (codes "let a=1;") (codes "a=") (codes "b=") ≡ ok (codes "let b=1;")
unfolding replace_unique replace_first count_from starts_with
changed_once = refl

replace_unique-IsReplacedOnce_example :
    IsReplacedOnce (codes "let a=1;") (codes "a=") (codes "b=") (codes "let b=1;")
replace_unique-IsReplacedOnce_example =
    replace_unique-IsReplacedOnce (codes "let a=1;") (codes "a=") (codes "b=") (codes "let b=1;")
      (λ e. cc e) changed_once
