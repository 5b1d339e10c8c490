-- ===== src/Tests/Trees.antt =====
-- The theorems on directory trees at concrete data.
use codex_subscription_route.Prelude.{◌≡◌, refl, List, All, [], ◌∷◌, true, false, ok}
use codex_subscription_route.Text.{Bytes, codes, bytes_eq, has_byte}
use codex_subscription_route.Windows.Trees.{Parts, is_relative_to, validate_source_destination}
use codex_subscription_route.Windows.Trees.Disjoint.{
  IsNamed, validate_source_destination-disjoint, tree_digest_injective,
}

abbrev official : Parts
official = codes "c:" ∷ codes "codex" ∷ []

abbrev routed : Parts
routed = codes "c:" ∷ codes "routed" ∷ []

abbrev windows_apps : Parts
windows_apps = codes "c:" ∷ codes "windowsapps" ∷ []

apart : validate_source_destination official routed windows_apps ≡ ok tt
unfolding validate_source_destination is_relative_to bytes_eq
apart = refl

validate_source_destination-disjoint_example :
    (¬ (
      (is_relative_to (codes "c:" ∷ codes "routed" ∷ codes "app" ∷ []) routed ≡ true)
      × (is_relative_to (codes "c:" ∷ codes "routed" ∷ codes "app" ∷ []) official ≡ true)))
    × (is_relative_to routed windows_apps ≡ false)
validate_source_destination-disjoint_example =
    validate_source_destination-disjoint official routed windows_apps
      (codes "c:" ∷ codes "routed" ∷ codes "app" ∷ []) apart

abbrev tree : List (Bytes × Bytes)
tree = (codes "app.exe", codes "1f") ∷ []

tree-IsNamed : All IsNamed tree
unfolding has_byte
tree-IsNamed = ((refl, refl), tt)

tree_digest_injective_example : tree ≡ tree
tree_digest_injective_example =
    tree_digest_injective (λ s. s) tree tree (λ e. e) tree-IsNamed tree-IsNamed refl
