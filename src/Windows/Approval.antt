-- ===== src/Windows/Approval.antt =====
-- `validate_approved_source` of scripts/patch_windows_app.py. `TESTED_SOURCE_BUILDS` is an argument, a
-- dictionary of dictionaries; a message is the label of a comparison that fails.
pub mod Approved
use codex_subscription_route.Prelude.{
  is_nil, Bool, not, ◌&&◌, Option, none, some, List, [], ◌∷◌, ◌++◌, if◌then◌else◌, Outcome, ok, err,
  ◌>>=◌, ◌>>◌, raise_if,
}
use codex_subscription_route.Text.{Bytes, bytes_eq, codes}

-- The fields of a source build that are compared.
pub record SourceInfo : Type 0 where
  pub package_version : Bytes
  pub asar_version : Bytes
  pub asar_build : Bytes
  pub asar_sha256 : Bytes
  pub codex_sha256 : Bytes
  pub chatgpt_sha256 : Bytes
  pub codex_launcher_sha256 : Bytes
  pub windows_account_sha256 : Bytes
  pub cua_tree_sha256 : Bytes
  pub cua_node_version : Bytes
  pub cua_runtime_version : Bytes
  pub cua_package_version : Bytes
  pub chrome_sha256 : Bytes
  pub cua_node_manifest_version : Bytes
  pub signer_thumbprint : Bytes

-- `KeyError` of a required entry of the table, and `RuntimeError`
pub data ApprovalError : Type 0 where
  missing_key : Bytes → ApprovalError
  not_approved : List Bytes → ApprovalError

abbrev pub Dictionary : Type 0 → Type 0
Dictionary V = List (Bytes × V)

-- `d.get(key)`
unfoldable pub get : {V : Type 0} → Dictionary V → Bytes → Option V
unfolding bytes_eq
get [] key = none
get ((k, v) ∷ d) key = let rest = get d key in if bytes_eq key k then some v else rest

-- A label, the key of the approved value, and the value of the source.
pub record Comparison : Type 0 where
  pub label : Bytes
  pub key : Bytes
  pub actual : Bytes

abbrev pub comparison : Bytes → Bytes → Bytes → Comparison
comparison label key actual = record { label = label; key = key; actual = actual }

abbrev pub required : SourceInfo → List Comparison
required source =
    comparison (codes "ASAR version") (codes "asar_version") source.asar_version
    ∷ comparison (codes "ASAR build") (codes "asar_build") source.asar_build
    ∷ comparison (codes "app.asar SHA-256") (codes "asar_sha256") source.asar_sha256
    ∷ comparison (codes "codex.exe SHA-256") (codes "codex_sha256") source.codex_sha256
    ∷ comparison (codes "ChatGPT.exe SHA-256") (codes "chatgpt_sha256") source.chatgpt_sha256
    ∷ comparison (codes "Codex.exe SHA-256") (codes "codex_launcher_sha256")
        source.codex_launcher_sha256
    ∷ comparison (codes "windows-account.node SHA-256") (codes "windows_account_sha256")
        source.windows_account_sha256
    ∷ comparison (codes "Computer Use tree SHA-256") (codes "cua_tree_sha256")
        source.cua_tree_sha256
    ∷ comparison (codes "Computer Use Node version") (codes "cua_node_version")
        source.cua_node_version
    ∷ comparison (codes "Computer Use runtime version") (codes "cua_runtime_version")
        source.cua_runtime_version
    ∷ comparison (codes "@oai/cua package version") (codes "cua_package_version")
        source.cua_package_version
    ∷ []

-- The comparisons that are made when the key is there.
abbrev pub optional : SourceInfo → List Comparison
optional source =
    comparison (codes "chrome.dll SHA-256") (codes "chrome_sha256") source.chrome_sha256
    ∷ comparison (codes "Computer Use Node manifest version") (codes "cua_node_manifest_version")
        source.cua_node_manifest_version
    ∷ comparison (codes "Authenticode signer thumbprint") (codes "signer_thumbprint")
        source.signer_thumbprint
    ∷ []

-- `lower` and `upper` are `str.lower` and `str.upper`. The signer thumbprints are put in upper case
-- before all values are compared in lower case.
module _ (lower : Bytes → Bytes) (upper : Bytes → Bytes) where
  abbrev pub cased : Bytes → Bytes → Bytes
  cased key value =
      if bytes_eq key (codes "signer_thumbprint") then lower (upper value) else lower value

  abbrev pub agrees : Comparison → Bytes → Bool
  agrees c wanted = bytes_eq (cased c.key c.actual) (cased c.key wanted)

  -- The label of a comparison that fails.
  abbrev pub mismatch : Comparison → Bytes → List Bytes
  mismatch c wanted = if agrees c wanted then [] else c.label ∷ []

  abbrev pub require : Comparison → Option Bytes → Outcome ApprovalError (List Bytes)
  require c none = err (missing_key c.key)
  require c (some wanted) = ok (mismatch c wanted)

  abbrev pub allow_missing : Comparison → Option Bytes → Outcome ApprovalError (List Bytes)
  allow_missing c none = ok []
  allow_missing c (some wanted) = ok (mismatch c wanted)

  unfoldable pub compare_required :
      Dictionary Bytes → List Comparison → Outcome ApprovalError (List Bytes)
  compare_required expected [] = ok []
  compare_required expected (c ∷ cs) = do
    here ← require c (get expected c.key)
    rest ← compare_required expected cs
    ok (here ++ rest)

  unfoldable pub compare_optional :
      Dictionary Bytes → List Comparison → Outcome ApprovalError (List Bytes)
  compare_optional expected [] = ok []
  compare_optional expected (c ∷ cs) = do
    here ← allow_missing c (get expected c.key)
    rest ← compare_optional expected cs
    ok (here ++ rest)

  unfoldable pub mismatches_of :
      SourceInfo → Option (Dictionary Bytes) → Outcome ApprovalError (List Bytes)
  mismatches_of source none = ok (codes "package version" ∷ [])
  mismatches_of source (some expected) = do
    mandatory ← compare_required expected (required source)
    further ← compare_optional expected (optional source)
    ok (mandatory ++ further)

  -- The result is the list of mismatches that only a warning names.
  unfoldable pub validate_approved_source :
      Dictionary (Dictionary Bytes) → SourceInfo → Bool → Outcome ApprovalError (List Bytes)
  validate_approved_source tested source allow_untested = do
    mismatches ← mismatches_of source (get tested source.package_version)
    raise_if (not (is_nil mismatches) && not allow_untested) (not_approved mismatches)
    ok mismatches
