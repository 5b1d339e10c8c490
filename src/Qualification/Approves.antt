-- ===== src/Qualification/Approves.antt =====
-- Which builds `qualify` of scripts/qualify_windows_capabilities.py accepts.
use codex_subscription_route.Prelude.{
  ◌≡◌, ◌⊎◌, ◌∙◌, ◌*◌, refl, sym, ap, Bool, true, false, not, Option, none, some, List, [], ◌∷◌, All,
  inl, inr, arith, ok, >>=-eq-ok, raise_if->>-eq-ok, ok-injective,
}
use codex_subscription_route.Text.{Bytes, codes, bytes_eq, bytes_eq_iff}
use codex_subscription_route.Json.{Json, JsonFields, text, lookup}
use codex_subscription_route.Windows.Approval.{Dictionary, get}
use codex_subscription_route.Windows.Files.{FilePath}
use codex_subscription_route.Windows.Disk.{
  Disk, Python, value_differs, read_bounded_json, sha256_file,
}
use codex_subscription_route.Windows.ComputerUse.{Contract, inspect_computer_use_contract}
use codex_subscription_route.Windows.ComputerUse.Inspected.{
  IsInspected, inspect_computer_use_contract-IsInspected,
}
use codex_subscription_route.Windows.Preserved.{resources_of, child}
use codex_subscription_route.Qualification.{
  approved_build, or_not_approved, or_key_error, when_there, compare_values, compare_build,
  validate_approved_computer_use, ensure_asar_tool, Surroundings, qualify_appshots, qualify,
}
use codex_subscription_route.Windows.Appshots.Gated.{
  HasGatedBundle, verify_windows_appshots_contract-HasGatedBundle,
}

-- Every value is the approved one.
compare_values_lem :
    (comparisons : List (Bytes × Bytes × Bytes)) {u : Unit {0}}
    → compare_values comparisons ≡ ok u
    → All (λ c. c.1 ≡ c.2) comparisons
unfolding compare_values
compare_values_lem [] h = tt
compare_values_lem ((label, actual, wanted) ∷ comparisons) h =
    let (same, rest) = raise_if->>-eq-ok (not (bytes_eq actual wanted)) (value_differs label) _ h in
    ((bytes_eq_iff actual wanted).0 (ground arith), compare_values_lem comparisons rest)

or_key_error_lem : (found : Option Bytes) {s : Bytes} → or_key_error found ≡ ok s → found ≡ some s
or_key_error_lem none h = cc
or_key_error_lem (some t) h = ap some (ok-injective h)

when_there_lem :
    (label actual : Bytes) (found : Option Bytes)
    → All (λ c. c.1 ≡ c.2) (when_there label actual found)
    → (found ≡ none) ⊎ (found ≡ some actual)
when_there_lem label actual none h = inl refl
when_there_lem label actual (some wanted) h = inr (ap some (sym h.0))

-- A build of the table whose values are those of the contract.
pub record IsApproved (expected : Dictionary Bytes) (c : Contract) : Type 0 where
  pub tree : get expected (codes "cua_tree_sha256") ≡ some c.tree_sha256
  pub node : get expected (codes "cua_node_version") ≡ some c.node_version
  pub runtime : get expected (codes "cua_runtime_version") ≡ some c.runtime_version
  pub version : get expected (codes "cua_package_version") ≡ some c.package_version
  pub node_manifest :
      (get expected (codes "cua_node_manifest_version") ≡ none)
      ⊎ (get expected (codes "cua_node_manifest_version") ≡ some c.node_manifest_version)

compare_build-IsApproved :
    (expected : Dictionary Bytes) (c : Contract) {u : Unit {0}}
    → compare_build expected c ≡ ok u
    → IsApproved expected c
unfolding compare_build
compare_build-IsApproved expected c h =
    let (tree, h1, k1) = >>=-eq-ok (or_key_error (get expected (codes "cua_tree_sha256"))) _ h in
    let (node, h2, k2) = >>=-eq-ok (or_key_error (get expected (codes "cua_node_version"))) _ k1 in
    let (runtime, h3, k3) =
      >>=-eq-ok (or_key_error (get expected (codes "cua_runtime_version"))) _ k2 in
    let (version, h4, k4) =
      >>=-eq-ok (or_key_error (get expected (codes "cua_package_version"))) _ k3 in
    let same = compare_values_lem _ k4 in
    record {
      tree = or_key_error_lem _ h1 ∙ ap some (sym same.0);
      node = or_key_error_lem _ h2 ∙ ap some (sym same.1.0);
      runtime = or_key_error_lem _ h3 ∙ ap some (sym same.1.1.0);
      version = or_key_error_lem _ h4 ∙ ap some (sym same.1.1.1.0);
      node_manifest = when_there_lem _ c.node_manifest_version _ same.1.1.1.1;
    }

or_not_approved_lem :
    (version : Option Json) (found : Option (Dictionary Bytes)) {expected : Dictionary Bytes}
    → or_not_approved version found ≡ ok expected
    → found ≡ some expected
or_not_approved_lem version none h = cc
or_not_approved_lem version (some d) h = ap some (ok-injective h)

approved_build_lem :
    (tested : Dictionary (Dictionary Bytes)) (version : Option Json) {expected : Dictionary Bytes}
    → approved_build tested version ≡ ok expected
    → (v : Bytes) × (version ≡ some (text v)) × (get tested v ≡ some expected)
unfolding approved_build
approved_build_lem tested (some (text v)) h = (v, refl, or_not_approved_lem _ _ h)
approved_build_lem tested _ h = cc

module _ (py : Python) (disk : Disk) (outside : Surroundings)
    (tested : Dictionary (Dictionary Bytes)) where
  -- What a qualified build is.
  pub record IsQualified (app_root : FilePath) (cua_only : Bool) : Type 0 where
    pub approved :
        (manifest : JsonFields) × (v : Bytes) × (expected : Dictionary Bytes) × (c : Contract)
        × (read_bounded_json py disk
              (child app_root (codes "codex-mux-build.json"))
              (1024 * 1024)
              (codes "router build manifest")
            ≡ ok manifest)
        × (lookup (codes "sourceVersion") manifest ≡ some (text v))
        × (get tested v ≡ some expected)
        × IsApproved expected c
        × IsInspected py disk (child (resources_of app_root) (codes "cua_node")) c
    pub appshots :
        (cua_only ≡ true)
        ⊎ ((asar : FilePath) × (extracted : Disk) × (outside.extract asar
                (child (resources_of app_root) (codes "app.asar"))
              ≡ ok extracted)
            × HasGatedBundle py extracted)

  qualify_appshots-HasGatedBundle :
      (resources : FilePath) (cua_only : Bool) {entries : List (Bytes × Json)}
      → qualify_appshots py disk outside tested resources cua_only ≡ ok entries
      → (cua_only ≡ true)
        ⊎ ((asar : FilePath) × (extracted : Disk) × (outside.extract asar
                (child resources (codes "app.asar"))
              ≡ ok extracted)
            × HasGatedBundle py extracted)
  unfolding qualify_appshots
  qualify_appshots-HasGatedBundle resources true h = inl refl
  qualify_appshots-HasGatedBundle resources false h =
      let (asar, _, h1) =
        >>=-eq-ok (ensure_asar_tool py disk outside.project_root outside.executable) _ h in
      let (extracted, made, h2) =
        >>=-eq-ok (outside.extract asar (child resources (codes "app.asar"))) _ h1 in
      inr (asar, extracted, made, verify_windows_appshots_contract-HasGatedBundle py extracted h2)

  -- Where `qualify` accepts an application, its build manifest names a version in the table whose values for
  -- Computer Use are those of the runtime that is there, which fulfils the contract; and unless only that is
  -- asked for, the archive's one main bundle names the variable for Appshots in the strict gate only, at
  -- least once, has the markers of the extracted version, and has neither the text that enables Appshots
  -- always nor, where the renderer is split, the other renderer's text for it.
  pub qualify-IsQualified :
      (app_root : FilePath) (cua_only : Bool) (report : List (Bytes × Json))
      → qualify py disk outside tested app_root cua_only ≡ ok report
      → IsQualified app_root cua_only
  unfolding qualify validate_approved_computer_use
  qualify-IsQualified app_root cua_only report h =
      let (manifest, read, h1) =
        >>=-eq-ok
          (read_bounded_json py disk (child app_root (codes "codex-mux-build.json")) (1024 * 1024)
            (codes "router build manifest"))
          _ h in
      let (c, inspected, h2) =
        >>=-eq-ok (inspect_computer_use_contract py disk (resources_of app_root)) _ h1 in
      let (_, valid, h3) =
        >>=-eq-ok
          (validate_approved_computer_use tested (lookup (codes "sourceVersion") manifest) c) _
          h2 in
      let (hash, _, h4) =
        >>=-eq-ok (sha256_file py disk (child app_root (codes "codex-mux-build.json"))) _ h3 in
      let (entries, gated, h5) =
        >>=-eq-ok (qualify_appshots py disk outside tested (resources_of app_root) cua_only) _ h4 in
      let (expected, chosen, compared) =
        >>=-eq-ok (approved_build tested (lookup (codes "sourceVersion") manifest)) _ valid in
      let (v, named, there) = approved_build_lem tested _ chosen in
      record {
        approved = (
          manifest,
          v,
          expected,
          c,
          read,
          named,
          there,
          compare_build-IsApproved expected c compared,
          inspect_computer_use_contract-IsInspected py disk (resources_of app_root) c inspected,
        );
        appshots = qualify_appshots-HasGatedBundle (resources_of app_root) cua_only gated;
      }
