-- ===== src/Windows/Appshots.antt =====
-- `verify_windows_appshots_contract` of scripts/patch_windows_app.py, and the tests on the version of the
-- extracted application that choose its markers.
pub mod Gated
use codex_subscription_route.Prelude.{
  ℕ, Bool, true, false, not, ◌&&◌, ◌||◌, Option, none, some, List, [], ◌∷◌, ◌++◌, ◌==◌, map, is_nil,
  if◌then◌else◌, Outcome, ok, err, ◌>>=◌, ◌>>◌, raise_if, ◌*◌,
}
use codex_subscription_route.Text.{Bytes, codes, includes, occurrences, replace}
use codex_subscription_route.Json.{Json, text, boolean, object, lookup, is_text}
use codex_subscription_route.Windows.Files.{FilePath}
use codex_subscription_route.Windows.Disk.{
  Disk, Python, ContractError, attribute_error, main_bundle, gate_differs, enabled_always, is_file,
  read_json, read_bounded_text,
}
use codex_subscription_route.Windows.ComputerUse.{check_markers}

abbrev pub max_appshots_bundle_bytes : ℕ
max_appshots_bundle_bytes = 64 * 1024 * 1024

abbrev version_of : Json → Outcome ContractError (Option Json)
version_of (object entries) = ok (lookup (codes "version") entries)
version_of v = err attribute_error

-- The version in package.json, if that is a file: what the functions `_is_26903` to `_is_26930` read.
unfoldable pub build_version : Python → Disk → FilePath → Outcome ContractError (Option Json)
build_version py disk extracted =
    let path = extracted ++ (codes "package.json" ∷ []) in
    let read = (do value ← read_json py disk path (codes "package.json"); version_of value) in
    if is_file disk path then read else ok none

abbrev is_version : Bytes → Option Json → Bool
is_version wanted none = false
is_version wanted (some v) = is_text wanted v

abbrev pub is_26903 : Option Json → Bool
is_26903 v = is_version (codes "26.903.61454") v || is_version (codes "26.903.71938") v

abbrev pub is_26908 : Option Json → Bool
is_26908 = is_version (codes "26.908.40834")

abbrev pub is_26911 : Option Json → Bool
is_26911 = is_version (codes "26.911.61220")

abbrev pub is_26915 : Option Json → Bool
is_26915 = is_version (codes "26.915.31945")

abbrev pub is_26917 : Option Json → Bool
is_26917 = is_version (codes "26.917.51856")

abbrev pub is_26924 : Option Json → Bool
is_26924 = is_version (codes "26.924.22138")

abbrev pub is_26930 : Option Json → Bool
is_26930 = is_version (codes "26.930.41038")

unfoldable pub is_split_renderer : Disk → FilePath → Bool
is_split_renderer disk extracted = not (
    is_nil
      (disk.glob (extracted ++ (codes "webview" ∷ codes "assets" ∷ [])) (codes "app-primary-*.js")))

abbrev pub variable : Bytes
variable = codes "CODEX_ROUTER_ENABLE_APPSHOTS"

abbrev pub strict_gate : Bytes
strict_gate = codes "process.env.CODEX_ROUTER_ENABLE_APPSHOTS===\"1\""

abbrev pub expected_gate_count : Option Json → ℕ
expected_gate_count version = if is_26924 version || is_26930 version then 1 else 2

-- `APPSHOTS_PRIVATE` of scripts/windows_native_26930.py
abbrev gated : Bytes → Bytes → Bytes
gated before after = before ++ (strict_gate ++ after)

-- `APPSHOTS_PRIVATE` of scripts/windows_native_26930.py
abbrev appshots_private : Bytes
appshots_private =
    gated (codes "L&&(i.appshotsEnabled=i.appshotsEnabled&&")
      (codes "&&U.windowsCaptureNativeBridge!=null),We.setDesktopFeatureAvailability(i);")

abbrev when_gated : Bytes → Bytes → Bytes
when_gated before after =
    before
    ++ (codes "&&(!("
        ++ (strict_gate
            ++ (codes ")||"
                ++ (after ++ codes ".windowsCaptureNativeBridge==null)&&(a.appshotsEnabled=!1)"))))

-- The markers of a version that is not one of the later ones.
abbrev first_markers : Bool → List Bytes
first_markers true =
    (codes "a.a.isInternal(t)||" ++ strict_gate)
    ∷ codes "o.appshotsEnabled=B.windowsCaptureNativeBridge!=null"
    ∷ []
first_markers false =
    (codes "a.a.isInternal(i)||" ++ strict_gate)
    ∷ codes "s.appshotsEnabled=H.windowsCaptureNativeBridge!=null"
    ∷ []

-- `if test: required = markers`, for each in order.
abbrev assign : List (Bool × List Bytes) → List Bytes → List Bytes
assign [] markers = markers
assign ((test, chosen) ∷ tests) markers = assign tests (if test then chosen else markers)

abbrev with_bridge : Bytes → Bytes → Bytes → Bytes → List Bytes
with_bridge before after feature bridge = gated before after ∷ when_gated feature bridge ∷ []

unfoldable pub required_markers : Bool → Option Json → List Bytes
required_markers split version =
    assign
      ((is_26903 version, map (replace (codes "a.a.") (codes "a.i.")) (first_markers split))
        ∷ (
          is_26908 version,
          with_bridge (codes "ie=y&&") (codes "?g4e(g):null") (codes "F") (codes "K"),
        )
        ∷ (
          is_26911 version,
          with_bridge (codes "ae=v&&") (codes "?M3e(h):null") (codes "I") (codes "W"),
        )
        ∷ (
          is_26915 version,
          with_bridge (codes "ie=_&&") (codes "?yit(m):null") (codes "P") (codes "U"),
        )
        ∷ (
          is_26917 version,
          with_bridge (codes "re=_&&") (codes "?Jit(m):null") (codes "P") (codes "W"),
        )
        ∷ (
          is_26924 version,
          gated (codes "R&&(i.appshotsEnabled=i.appshotsEnabled&&")
                (codes "&&G.windowsCaptureNativeBridge!=null),He.setDesktopFeatureAvailability(i);")
              ∷ [],
        )
        ∷ (is_26930 version, appshots_private ∷ [])
        ∷ [])
      (first_markers split)

abbrev pub one_file : List FilePath → Outcome ContractError FilePath
one_file (path ∷ []) = ok path
one_file _ = err main_bundle

abbrev pub is_enabled_always : Bool → Bytes → Bool
is_enabled_always split bundle =
    includes (codes "s.appshotsEnabled=!0") bundle
    || split && includes (codes "o.appshotsEnabled=!0") bundle

abbrev pub gates_differ : Option Json → Bytes → Bool
gates_differ version bundle =
    not (occurrences strict_gate bundle == expected_gate_count version)
    || not (occurrences variable bundle == expected_gate_count version)

abbrev pub appshots_entries : List (Bytes × Json)
appshots_entries =
    (codes "qualification", text (codes "static-contract-only"))
    ∷ (codes "defaultEnabled", boolean false)
    ∷ (codes "optInEnvironment", text variable)
    ∷ (codes "enabledValue", text (codes "1"))
    ∷ (codes "requiresNativeBridge", boolean true)
    ∷ []

unfoldable pub check_bundle : Bool → Option Json → Bytes → Outcome ContractError (Unit {0})
check_bundle split version bundle = do
  raise_if (gates_differ version bundle) gate_differs
  check_markers bundle (required_markers split version)
  raise_if (is_enabled_always split bundle) enabled_always

unfoldable pub verify_windows_appshots_contract :
    Python → Disk → FilePath → Outcome ContractError (List (Bytes × Json))
verify_windows_appshots_contract py disk extracted = do
  path ←
      one_file (disk.glob (extracted ++ (codes ".vite" ∷ codes "build" ∷ [])) (codes "main-*.js"))
  bundle ← read_bounded_text disk path max_appshots_bundle_bytes (codes "main bundle")
  version ← build_version py disk extracted
  check_bundle (is_split_renderer disk extracted) version bundle
  ok appshots_entries
