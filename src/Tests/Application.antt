-- ===== src/Tests/Application.antt =====
-- A small application for the inspections of scripts/patch_windows_app.py.
use codex_subscription_route.Prelude.{
  true, Option, none, some, List, [], ◌∷◌, ◌++◌, if◌then◌else◌, length,
}
use codex_subscription_route.Text.{Bytes, codes, contains, join, split, starts_with, decimal}
use codex_subscription_route.Json.{Json, text, object_of, fields_of, lookup}
use codex_subscription_route.Windows.Files.{FilePath}
use codex_subscription_route.Windows.Disk.{Node, file, directory, Disk, Python}
use codex_subscription_route.Windows.ComputerUse.{Contract}
use codex_subscription_route.Windows.ComputerUse.Markers.{
  transport_markers, native_pipe_markers, cua_helper_transport_relative,
  cua_native_pipe_client_relative,
}
use codex_subscription_route.Windows.Disk.Hashes.{hash_of}

abbrev pub joined : List Bytes → Bytes
joined [] = []
joined (marker ∷ markers) = marker ++ (codes "\r\n" ++ joined markers)

abbrev pub contents : List (Bytes × Bytes)
contents =
    (codes "resources/app.asar", codes "archive")
    ∷ (codes "resources/codex.exe", codes "MZcodex")
    ∷ (codes "resources/codex.real.exe", codes "MZcodex")
    ∷ (codes "resources/codex-code-mode-host.exe", codes "MZhost")
    ∷ (codes "resources/codex-command-runner.exe", codes "MZrunner")
    ∷ (codes "resources/codex-windows-sandbox-setup.exe", codes "MZsetup")
    ∷ (codes "resources/native/windows-account.node", codes "MZnode")
    ∷ (codes "resources/app.asar.unpacked/pty.node", codes "MZpty")
    ∷ (codes "resources/cua_node/manifest.json", codes "M")
    ∷ (codes "resources/cua_node/bin/node.exe", codes "MZnode")
    ∷ (codes "resources/cua_node/bin/node_repl.exe", codes "MZrepl")
    ∷ (codes "resources/cua_node/bin/node_modules/@oai/cua/package.json", codes "P")
    ∷ (codes "resources/cua_node/bin/node_modules/@oai/cua/dist/index.js", codes "main")
    ∷ (
      codes "resources/cua_node/bin/node_modules/@oai/cua/bin/windows/codex-computer-use.exe",
      codes "MZhelper",
    )
    ∷ (
      codes "resources/cua_node/bin/node_modules/@oai/cua/"
          ++ join b'/' cua_helper_transport_relative,
      joined transport_markers,
    )
    ∷ (
      codes "resources/cua_node/bin/node_modules/@oai/cua/"
          ++ join b'/' cua_native_pipe_client_relative,
      joined native_pipe_markers,
    )
    ∷ (codes "codex-mux-build.json", codes "B")
    ∷ (codes "package.json", codes "J")
    ∷ (codes "node_modules/.bin/asar", codes "tool")
    ∷ (codes "node_modules/@electron/asar/package.json", codes "V")
    ∷ []

abbrev pub directories : List Bytes
directories =
    codes "resources"
    ∷ codes "resources/cua_node"
    ∷ codes "resources/native"
    ∷ codes "resources/app.asar.unpacked"
    ∷ []

abbrev pub node_of : Bytes → Option Bytes → Option Node
node_of path none = if contains directories path then some directory else none
node_of path (some s) = some (file s)

abbrev pub below_in : Bytes → Bytes → List (Bytes × Bytes) → List FilePath
below_in app path [] = []
below_in app path ((name, s) ∷ entries) =
    let rest = below_in app path entries in
    if starts_with name (path ++ codes "/") then (app ∷ split b'/' name) ∷ rest else rest

-- Every application has the same files.
abbrev pub disk : Disk
disk = record {
  node = λ path. elim path [
    | [] ↦ none
    | app ∷ pieces ↦ node_of (join b'/' pieces) (hash_of (join b'/' pieces) contents)
  ];
  below = λ path. elim path [ [] ↦ [] | app ∷ pieces ↦ below_in app (join b'/' pieces) contents ];
  glob = λ path pattern. [];
}

abbrev pub manifest : Json
manifest = object_of (
    (codes "platform", text (codes "windows"))
    ∷ (codes "arch", text (codes "x64"))
    ∷ (codes "target", text (codes "windows-x64"))
    ∷ (codes "node_path", text (codes "bin/node.exe"))
    ∷ (codes "node_repl_path", text (codes "bin/node_repl.exe"))
    ∷ (codes "node_modules", text (codes "bin/node_modules"))
    ∷ (codes "node_version", text (codes "24.1.0-cua.1"))
    ∷ (codes "node_binary_version", text (codes "24.1.0"))
    ∷ (codes "runtime_archive_version", text (codes "7"))
    ∷ (codes "runtime_archive_name", text (codes "cua-windows-x64.zip"))
    ∷ [])

abbrev pub cua_package : Json
cua_package = object_of (
    (codes "name", text (codes "@oai/cua"))
    ∷ (codes "type", text (codes "module"))
    ∷ (codes "version", text (codes "1.2"))
    ∷ (codes "main", text (codes ".\\dist\\index.js"))
    ∷ [])

abbrev pub parsed : List (Bytes × Json)
parsed =
    (codes "M", manifest)
    ∷ (codes "P", cua_package)
    ∷ (codes "B", object_of ((codes "sourceVersion", text (codes "26.930")) ∷ []))
    ∷ (
      codes "J",
      object_of (
          (codes "devDependencies", object_of ((codes "@electron/asar", text (codes "4")) ∷ []))
          ∷ []),
    )
    ∷ (codes "V", object_of ((codes "version", text (codes "4")) ∷ []))
    ∷ []

abbrev pub py : Python
py = record {
  lower = λ s. s;
  path_name = λ s. s;
  loads = λ s. lookup s (fields_of parsed);
  equal = λ v w. true;
  sha256 = λ s. decimal (length s);
}

abbrev pub contract : Contract
contract = record {
  tree_sha256 = codes "406";
  files = 8;
  total_bytes = 346;
  node_version = codes "24.1.0";
  node_manifest_version = codes "24.1.0-cua.1";
  runtime_version = codes "7";
  package_version = codes "1.2";
}

abbrev pub resources : FilePath
resources = codes "app" ∷ codes "resources" ∷ []
