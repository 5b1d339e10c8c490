-- ===== src/Windows/ComputerUse/Inspected.antt =====
-- What `inspect_computer_use_contract` of scripts/patch_windows_app.py says of the resources that it accepts.
use codex_subscription_route.Prelude.{
  ◌≡◌, ◌⊎◌, refl, subst, true, false, not, List, [], ◌∷◌, ◌++◌, All, arith, ok, >>=-eq-ok,
  raise_if->>-eq-ok, ok-injective,
}
use codex_subscription_route.Text.{Bytes, codes, includes}
use codex_subscription_route.Json.{lookup}
use codex_subscription_route.Windows.Files.{FilePath}
use codex_subscription_route.Windows.Disk.{
  Disk, Python, missing_marker, forbidden_fallback, is_linklike, is_file, read_bounded_text,
  read_bounded_json, safe_relative_file,
}
use codex_subscription_route.Windows.Disk.Inside.{IsPiece, safe_relative_file-IsInside}
use codex_subscription_route.Windows.Trees.{tree_digest}
use codex_subscription_route.Windows.ComputerUse.Versions.{check_versions-agree}
use codex_subscription_route.Windows.ComputerUse.{
  Contract, check_named, check_package, check_executables, check_markers, check_fallbacks,
  check_transports, check_tree, inspect_computer_use_contract, package_type,
}
use codex_subscription_route.Windows.Disk.{package_differs}
use codex_subscription_route.Windows.ComputerUse.Markers.{
  max_cua_contract_source_bytes, cua_package_relative, cua_helper_transport_relative,
  cua_native_pipe_client_relative, exact_manifest_values, transport_markers, native_pipe_markers,
  fallbacks,
}
use codex_subscription_route.Windows.ComputerUse.Manifest.{
  check_exact, check_versions, require_text, is_short,
}
use codex_subscription_route.Windows.Disk.Hashes.{tree_file_hashes}
use codex_subscription_route.Windows.ComputerUse.Bounded.{IsBounded, check_tree-IsBounded}

pub check_markers_lem :
    (source : Bytes) (markers : List Bytes) {u : Unit {0}}
    → check_markers source markers ≡ ok u
    → All (λ marker. includes marker source ≡ true) markers
unfolding check_markers
check_markers_lem source [] h = tt
check_markers_lem source (marker ∷ markers) h =
    let (here, rest) =
      raise_if->>-eq-ok (not (includes marker source)) (missing_marker marker) _ h in
    (ground arith, check_markers_lem source markers rest)

check_fallbacks_lem :
    (py : Python) (source : Bytes) (more : List Bytes) {u : Unit {0}}
    → check_fallbacks py source more ≡ ok u
    → All (λ fallback. includes (py.lower fallback) (py.lower source) ≡ false) more
unfolding check_fallbacks
check_fallbacks_lem py source [] h = tt
check_fallbacks_lem py source (fallback ∷ more) h =
    let (here, rest) =
      raise_if->>-eq-ok (includes (py.lower fallback) (py.lower source))
        (forbidden_fallback fallback) _ h in
    (here, check_fallbacks_lem py source more rest)

-- Two sources that have all markers, and together no name of a fallback in any case.
pub record IsMarked (py : Python) (transport : Bytes) (pipe : Bytes) : Type 0 where
  pub stdio : All (λ marker. includes marker transport ≡ true) transport_markers
  pub native_pipe : All (λ marker. includes marker pipe ≡ true) native_pipe_markers
  pub no_fallback :
      All
        (λ fallback.
          includes (py.lower fallback) (py.lower (transport ++ (codes "\n" ++ pipe))) ≡ false)
        fallbacks

-- A source below the package.
abbrev pub Source : Disk → FilePath → FilePath → Bytes → Type 0
Source disk package_root relative contents =
    (label : Bytes) × (read_bounded_text disk (package_root ++ relative)
        max_cua_contract_source_bytes label
      ≡ ok contents)

check_transports-IsMarked :
    (py : Python) (disk : Disk) (package_root : FilePath) {u : Unit {0}}
    → check_transports py disk package_root ≡ ok u
    → (transport : Bytes) × (pipe : Bytes) × IsMarked py transport pipe
      × Source disk package_root cua_helper_transport_relative transport
      × Source disk package_root cua_native_pipe_client_relative pipe
unfolding check_transports
check_transports-IsMarked py disk package_root h =
    let (transport, read, h1) = >>=-eq-ok (read_bounded_text disk _ _ _) _ h in
    let (_, marked, h2) = >>=-eq-ok (check_markers transport transport_markers) _ h1 in
    let (pipe, read_pipe, h3) = >>=-eq-ok (read_bounded_text disk _ _ _) _ h2 in
    let (_, marked_pipe, h4) = >>=-eq-ok (check_markers pipe native_pipe_markers) _ h3 in
    (
      transport,
      pipe,
      record {
        stdio = check_markers_lem transport transport_markers marked;
        native_pipe = check_markers_lem pipe native_pipe_markers marked_pipe;
        no_fallback = check_fallbacks_lem py _ fallbacks h4;
      },
      (_, read),
      (_, read_pipe),
    )

-- A regular file below a directory, reached without leaving it.
abbrev pub FileInside : Disk → FilePath → FilePath → Type 0
FileInside disk root path =
    (ps : List Bytes) × (root ++ ps ≡ path)
    × All IsPiece ps
    × (is_linklike disk path ≡ false)
    × (is_file disk path ≡ true)

check_package-FileInside :
    (py : Python) (disk : Disk) (package_root : FilePath) {version : Bytes}
    → check_package py disk package_root ≡ ok version
    → (main : FilePath) × FileInside disk package_root main
unfolding check_package
check_package-FileInside py disk package_root h =
    let (found, read, h1) = >>=-eq-ok (read_bounded_json py disk _ _ _) _ h in
    let (named, h2) = raise_if->>-eq-ok (not (package_type found)) package_differs _ h1 in
    let (version, made, h3) = >>=-eq-ok (require_text is_short _ (lookup _ found)) _ h2 in
    let (main, safe, h4) =
      >>=-eq-ok (safe_relative_file disk package_root (lookup _ found) _) _ h3 in
    (main, safe_relative_file-IsInside disk package_root (lookup _ found) _ safe)

-- What is inspected under `cua_node`.
pub record IsInspected (py : Python) (disk : Disk) (root : FilePath) (c : Contract) : Type 0 where
  pub bounded : IsBounded disk root c.files c.total_bytes
  pub digest :
      (hashes : List (Bytes × Bytes)) × (tree_file_hashes py disk root ≡ ok hashes)
      × (c.tree_sha256 ≡ tree_digest py.sha256 hashes)
  pub versions :
      (c.node_manifest_version ≡ c.node_version)
      ⊎ (c.node_manifest_version ≡ c.node_version ++ codes "-cua.1")
  pub main : (main : FilePath) × FileInside disk (root ++ cua_package_relative) main
  pub transports :
      (transport : Bytes) × (pipe : Bytes) × IsMarked py transport pipe
      × Source disk (root ++ cua_package_relative) cua_helper_transport_relative transport
      × Source disk (root ++ cua_package_relative) cua_native_pipe_client_relative pipe

-- Where `inspect_computer_use_contract` accepts resources, no path below `cua_node` is a link, the number
-- of its regular files and of the bytes that are read from them are those that are reported, there is a
-- file, no file is larger than the limit on one and all together are within the limits on their number and
-- their bytes, the digest is that of its tree, the package of Node has the version of its binary, with `-cua.1` behind it or not, the
-- main module of the package is a regular file below the package, reached by pieces that lead one level
-- down, and the two sources of the transport have every marker and, together, no name of a fallback in
-- any case.
pub inspect_computer_use_contract-IsInspected :
    (py : Python) (disk : Disk) (resources : FilePath) (c : Contract)
    → inspect_computer_use_contract py disk resources ≡ ok c
    → IsInspected py disk (resources ++ (codes "cua_node" ∷ [])) c
unfolding inspect_computer_use_contract
inspect_computer_use_contract-IsInspected py disk resources c h =
    let root = resources ++ (codes "cua_node" ∷ []) in
    let (sizes, bounded, h1) = >>=-eq-ok (check_tree disk root) _ h in
    let (manifest, _, h2) = >>=-eq-ok (read_bounded_json py disk _ _ _) _ h1 in
    let (_, _, h3) = >>=-eq-ok (check_exact manifest exact_manifest_values) _ h2 in
    let (versions, checked, h4) = >>=-eq-ok (check_versions py manifest) _ h3 in
    let (_, _, h5) = >>=-eq-ok (check_named disk root manifest _) _ h4 in
    let (version, packaged, h6) =
      >>=-eq-ok (check_package py disk (root ++ cua_package_relative)) _ h5 in
    let (_, _, h7) = >>=-eq-ok (check_executables disk _) _ h6 in
    let (_, marked, h8) =
      >>=-eq-ok (check_transports py disk (root ++ cua_package_relative)) _ h7 in
    let (hashes, hashed, h9) = >>=-eq-ok (tree_file_hashes py disk root) _ h8 in
    subst (IsInspected py disk root) (ok-injective h9) (record {
      bounded = check_tree-IsBounded disk root bounded;
      digest = (hashes, hashed, refl);
      versions = check_versions-agree py manifest versions checked;
      main = check_package-FileInside py disk (root ++ cua_package_relative) packaged;
      transports = check_transports-IsMarked py disk (root ++ cua_package_relative) marked;
    })
