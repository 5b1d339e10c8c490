-- ===== src/Tests/Approval.antt =====
-- The theorem on approved sources of scripts/patch_windows_app.py at concrete data.
use codex_subscription_route.Prelude.{
  ◌≡◌, ◌≢◌, ◌&&◌, not, is_nil, if◌then◌else◌, List, refl, true, false, [], ◌∷◌, ok, err,
}
use codex_subscription_route.Text.{Bytes, bytes_eq, codes}
use codex_subscription_route.Windows.Approval.{
  SourceInfo, Dictionary, get, compare_required, compare_optional, mismatches_of, not_approved,
  validate_approved_source,
}
use codex_subscription_route.Windows.Builds.{tested_source_builds}
use codex_subscription_route.Windows.Builds.Complete.{validate_approved_source-tested}
use codex_subscription_route.Windows.Approval.Approved.{InTable, validate_approved_source-InTable}

abbrev same : Bytes → Bytes
same s = s

abbrev source : SourceInfo
source = record {
  package_version = codes "26.930";
  asar_version = codes "asar";
  asar_build = codes "asar";
  asar_sha256 = codes "asar";
  codex_sha256 = codes "code";
  chatgpt_sha256 = codes "chat";
  codex_launcher_sha256 = codes "code";
  windows_account_sha256 = codes "wind";
  cua_tree_sha256 = codes "cua_";
  cua_node_version = codes "cua_";
  cua_runtime_version = codes "cua_";
  cua_package_version = codes "cua_";
  chrome_sha256 = codes "chrome";
  cua_node_manifest_version = codes "cua_";
  signer_thumbprint = codes "sign";
}

abbrev approved : Dictionary Bytes
approved =
    (codes "asar_version", codes "asar")
    ∷ (codes "asar_build", codes "asar")
    ∷ (codes "asar_sha256", codes "asar")
    ∷ (codes "codex_sha256", codes "code")
    ∷ (codes "chatgpt_sha256", codes "chat")
    ∷ (codes "codex_launcher_sha256", codes "code")
    ∷ (codes "windows_account_sha256", codes "wind")
    ∷ (codes "cua_tree_sha256", codes "cua_")
    ∷ (codes "cua_node_version", codes "cua_")
    ∷ (codes "cua_runtime_version", codes "cua_")
    ∷ (codes "cua_package_version", codes "cua_")
    ∷ (codes "chrome_sha256", codes "chrome")
    ∷ []

abbrev tested : Dictionary (Dictionary Bytes)
tested = (codes "26.930", approved) ∷ []

accepted : validate_approved_source same same tested source false ≡ ok []
unfolding validate_approved_source mismatches_of compare_required compare_optional get bytes_eq
accepted = refl

validate_approved_source-InTable_example : InTable same same source (get tested (codes "26.930"))
validate_approved_source-InTable_example =
    validate_approved_source-InTable same same tested source [] accepted

changed :
    validate_approved_source same same tested (record source { asar_build = codes "2" }) false
    ≡ err (not_approved (codes "ASAR build" ∷ []))
unfolding validate_approved_source mismatches_of compare_required compare_optional get bytes_eq
changed = refl

warned :
    validate_approved_source same same tested (record source { asar_build = codes "2" }) true
    ≡ ok (codes "ASAR build" ∷ [])
unfolding validate_approved_source mismatches_of compare_required compare_optional get bytes_eq
warned = refl

validate_approved_source-tested_example :
    (ms : List Bytes) × (mismatches_of same same source
        (get tested_source_builds source.package_version)
      ≡ ok ms)
    × (validate_approved_source same same tested_source_builds source false
        ≡ (if not (is_nil ms) && not false then err (not_approved ms) else ok ms))
validate_approved_source-tested_example = validate_approved_source-tested same same source false

-- The version alone does not make a source an approved one.
version_alone :
    validate_approved_source same same tested_source_builds
      (record source { package_version = codes "26.930.4958.0"; asar_build = codes "12" })
      true
    ≢ ok []
unfolding validate_approved_source mismatches_of compare_required compare_optional get bytes_eq
    tested_source_builds
version_alone = λ h. cc h
