-- ===== src/Windows/ComputerUse/Markers.antt =====
-- The limits, the paths and the texts that `inspect_computer_use_contract` of scripts/patch_windows_app.py
-- looks for.
use codex_subscription_route.Prelude.{ℕ, ◌*◌, List, [], ◌∷◌, ◌++◌}
use codex_subscription_route.Text.{Bytes, codes}
use codex_subscription_route.Windows.Files.{FilePath}

abbrev pub max_cua_manifest_bytes : ℕ
max_cua_manifest_bytes = 64 * 1024

abbrev pub max_cua_package_bytes : ℕ
max_cua_package_bytes = 256 * 1024

abbrev pub max_cua_contract_source_bytes : ℕ
max_cua_contract_source_bytes = 2 * 1024 * 1024

abbrev pub max_cua_tree_bytes : ℕ
max_cua_tree_bytes = 1024 * 1024 * 1024

abbrev pub max_cua_file_bytes : ℕ
max_cua_file_bytes = 256 * 1024 * 1024

abbrev pub max_cua_file_count : ℕ
max_cua_file_count = 20000

abbrev pub cua_package_relative : FilePath
cua_package_relative = codes "bin" ∷ codes "node_modules" ∷ codes "@oai" ∷ codes "cua" ∷ []

abbrev cua_sources : FilePath
cua_sources =
    codes "dist"
    ∷ codes "project"
    ∷ codes "cua"
    ∷ codes "sky_js"
    ∷ codes "src"
    ∷ codes "targets"
    ∷ codes "windows"
    ∷ codes "internal"
    ∷ []

abbrev pub cua_helper_transport_relative : FilePath
cua_helper_transport_relative = cua_sources ++ (codes "helper_transport.js" ∷ [])

abbrev pub cua_native_pipe_client_relative : FilePath
cua_native_pipe_client_relative = cua_sources ++ (codes "computer_use_client.js" ∷ [])

abbrev pub exact_manifest_values : List (Bytes × Bytes)
exact_manifest_values =
    (codes "platform", codes "windows")
    ∷ (codes "arch", codes "x64")
    ∷ (codes "target", codes "windows-x64")
    ∷ (codes "node_path", codes "bin/node.exe")
    ∷ (codes "node_repl_path", codes "bin/node_repl.exe")
    ∷ (codes "node_modules", codes "bin/node_modules")
    ∷ []

abbrev pub transport_markers : List Bytes
transport_markers =
    codes "stdio:[\"pipe\",\"pipe\",\"pipe\"]"
    ∷ codes "windowsHide:!0"
    ∷ codes ".stdin.write("
    ∷ codes ".stdout.on("
    ∷ codes ".stderr.on("
    ∷ codes "CODEX_HOME"
    ∷ codes "computer-use request timed out"
    ∷ []

abbrev pub native_pipe_markers : List Bytes
native_pipe_markers =
    codes "SKY_CUA_NATIVE_PIPE"
    ∷ codes "SKY_CUA_NATIVE_PIPE_DIRECTORY"
    ∷ codes "createConnection"
    ∷ codes "--parent-pid"
    ∷ codes "8388608"
    ∷ codes "67108864"
    ∷ codes "Computer Use native pipe is unavailable"
    ∷ codes "Computer Use native pipe frame is too large"
    ∷ []

abbrev pub fallbacks : List Bytes
fallbacks =
    codes "powershell.exe"
    ∷ codes "cmd.exe"
    ∷ codes "osascript"
    ∷ codes "SendInput"
    ∷ codes "UIAutomation"
    ∷ []
