-- ===== src/Windows/Builds.antt =====
-- `TESTED_SOURCE_BUILDS` of scripts/patch_windows_app.py: the source builds that are approved, by the
-- version of the package.
pub mod Complete
use codex_subscription_route.Prelude.{[], ◌∷◌}
use codex_subscription_route.Text.{Bytes, codes}
use codex_subscription_route.Windows.Approval.{Dictionary}

abbrev build_26_930_4958_0 : Dictionary Bytes
build_26_930_4958_0 =
    (codes "asar_version", codes "26.930.41038")
    ∷ (codes "asar_build", codes "13022")
    ∷ (
      codes "asar_sha256",
      codes "644fec616f2fbd203266d806c2ed9a26869abb84e76fbd6f5a33469e8cfd1686",
    )
    ∷ (
      codes "codex_sha256",
      codes "4b01d5920e6785614727443bbecf343f4dedbb7347052b72ba805aab6353ef01",
    )
    ∷ (
      codes "chatgpt_sha256",
      codes "784300980f00a4ebd3bd978fb01c99b6da72bd4cab4d4bfdfc7085db4c60fe74",
    )
    ∷ (
      codes "codex_launcher_sha256",
      codes "2afd9567a849d56822128816f791bc686418335de2bdffe86ed996351267d5c7",
    )
    ∷ (
      codes "windows_account_sha256",
      codes "b8786084e0d0c83856265374c9bb9762a89d9ff1fc4df210bfcfba0da92ec67f",
    )
    ∷ (
      codes "chrome_sha256",
      codes "ebbdc0c58a3dda4fc94179373044457a30bb14bc94bf3e02376a0624ad3d7d19",
    )
    ∷ (codes "signer_thumbprint", codes "AAB04F57830B69182775AB3CEB6CE37981FE71C5")
    ∷ (
      codes "cua_tree_sha256",
      codes "2ac3d5a9e74bb829e61178feed98a404c6d466d839f87e21c30c00a476c62317",
    )
    ∷ (codes "cua_node_version", codes "24.21.0")
    ∷ (codes "cua_node_manifest_version", codes "24.21.0-cua.1")
    ∷ (codes "cua_runtime_version", codes "0.0.27/20260927214556-b77d38801cca")
    ∷ (codes "cua_package_version", codes "0.2.5")
    ∷ []

abbrev build_26_924_2738_0 : Dictionary Bytes
build_26_924_2738_0 =
    (codes "asar_version", codes "26.924.22138")
    ∷ (codes "asar_build", codes "11645")
    ∷ (
      codes "asar_sha256",
      codes "89fba67324ffb8dd54ccf13b6f097172e697549eeb1f26396f86f972c10c5b0c",
    )
    ∷ (
      codes "codex_sha256",
      codes "8f0554ede25bbc5450921897c468b2e84635aa513c5017457997af0954581f49",
    )
    ∷ (
      codes "chatgpt_sha256",
      codes "3c440d9004ef5195a93b5b934623bf02032f74d40b9a9fbe33934e57e5f1f117",
    )
    ∷ (
      codes "codex_launcher_sha256",
      codes "c4231d899c8413d638816d5f245bbb1ef270607076a6c76573914131d0ce35ac",
    )
    ∷ (
      codes "windows_account_sha256",
      codes "94db23f03175536025f52ebb568376af7960a0ddfe4a65e64509e1a4c83158eb",
    )
    ∷ (
      codes "chrome_sha256",
      codes "b6f5c2323c642c3ad3dfdc3501aa94482970f88b4c12db0875ce593aece75c16",
    )
    ∷ (codes "signer_thumbprint", codes "DB9831002B26D78F14E07806F595C6A429E9B6E9")
    ∷ (
      codes "cua_tree_sha256",
      codes "355f5b4661571019ff76e671289320694585e6e3c5fabfddd27f77f6a48f8cb9",
    )
    ∷ (codes "cua_node_version", codes "24.21.0")
    ∷ (codes "cua_node_manifest_version", codes "24.21.0-cua.1")
    ∷ (codes "cua_runtime_version", codes "0.0.24/20260924074400-f52ea85e2a98")
    ∷ (codes "cua_package_version", codes "0.2.5")
    ∷ []

abbrev build_26_917_6896_0 : Dictionary Bytes
build_26_917_6896_0 =
    (codes "asar_version", codes "26.917.51856")
    ∷ (codes "asar_build", codes "10492")
    ∷ (
      codes "asar_sha256",
      codes "00b7936388d11a3faede5fc736a8c6264eb66e1907bac4ef72c39b7399175d68",
    )
    ∷ (
      codes "codex_sha256",
      codes "97d4d67419d0ac2f71342f9a5e850f9468aa622618de8ea823223edb9a91926a",
    )
    ∷ (
      codes "chatgpt_sha256",
      codes "03e193b8beff46f155272af70fedaa6b1404b7eb9c8f8ff13efb8f1b046a0b34",
    )
    ∷ (
      codes "codex_launcher_sha256",
      codes "36f8aea6e68f6623d66d6048fccf0b7b7900a33d48637918ccecc36659f99dd6",
    )
    ∷ (
      codes "windows_account_sha256",
      codes "68abc81e47e9c17cc4bec6a897bf29dfc8e65a1a5d6fa352a42c268d03b60954",
    )
    ∷ (
      codes "cua_tree_sha256",
      codes "e312411601e65bd24cfb85434ae688eb5fa89470bb42625aa56de9ced6706087",
    )
    ∷ (codes "cua_node_version", codes "24.21.0")
    ∷ (codes "cua_runtime_version", codes "0.0.16/20260915001755-492f19756c31")
    ∷ (codes "cua_package_version", codes "0.2.5")
    ∷ []

abbrev build_26_915_4065_0 : Dictionary Bytes
build_26_915_4065_0 =
    (codes "asar_version", codes "26.915.31945")
    ∷ (codes "asar_build", codes "9922")
    ∷ (
      codes "asar_sha256",
      codes "b8aeb817cd1ee6ef50efe8a97985d3be41de89688a5addfe0a444e1e52348096",
    )
    ∷ (
      codes "codex_sha256",
      codes "bc45017e8239dc150258f69309ced9df6bbcdf5b8e4f346decf780ac0999e226",
    )
    ∷ (
      codes "chatgpt_sha256",
      codes "0d27aef4010466bd8d2a95f6483938cfdb8926f6668ecc1182facec9b85b75d2",
    )
    ∷ (
      codes "codex_launcher_sha256",
      codes "3798b224dc945cfb4c79f1d78b8c4d1e4e7d03abd8a6db7dd8aad14d3dc9e3a8",
    )
    ∷ (
      codes "windows_account_sha256",
      codes "6bab21ac99f0848514ec8d58e9601e84c766fd583225f2f83bec86aaa514870d",
    )
    ∷ (
      codes "cua_tree_sha256",
      codes "4acc27c77290487692fac3887db988ee853ead31d6c12f2b38cc25653664b79d",
    )
    ∷ (codes "cua_node_version", codes "24.21.0")
    ∷ (codes "cua_runtime_version", codes "0.0.16/20260915001755-492f19756c31")
    ∷ (codes "cua_package_version", codes "0.2.5")
    ∷ []

abbrev build_26_911_7940_0 : Dictionary Bytes
build_26_911_7940_0 =
    (codes "asar_version", codes "26.911.61220")
    ∷ (codes "asar_build", codes "9647")
    ∷ (
      codes "asar_sha256",
      codes "74e7aaf2c112f84ef68a7846d10d1411403e72763f7e93fe046df2f264adf6e0",
    )
    ∷ (
      codes "codex_sha256",
      codes "be793ab45adbcbd9fa716df04cb6bc68eb9e353c6e6af20886af45c11abc2413",
    )
    ∷ (
      codes "chatgpt_sha256",
      codes "f28e7d55de4ee465747e252741218bf5a58c33620d014598e01bddb9189abaca",
    )
    ∷ (
      codes "codex_launcher_sha256",
      codes "b1f6e808343d63f67601367bde61afbfaf887102a8503ed49234a82ff74a77be",
    )
    ∷ (
      codes "windows_account_sha256",
      codes "9bf42804bb9524a613d98f7e373613839933a4c846cfb5ca6e1a5e06900d1bd9",
    )
    ∷ (
      codes "cua_tree_sha256",
      codes "336fd5a7af792ccaa406f8c307057dc64b90198fe75208be888056ffe8d98959",
    )
    ∷ (codes "cua_node_version", codes "24.20.0")
    ∷ (codes "cua_runtime_version", codes "0.0.11/20260909002225-0b90dbee8d2e")
    ∷ (codes "cua_package_version", codes "0.2.4")
    ∷ []

abbrev build_26_908_4834_0 : Dictionary Bytes
build_26_908_4834_0 =
    (codes "asar_version", codes "26.908.40834")
    ∷ (codes "asar_build", codes "8881")
    ∷ (
      codes "asar_sha256",
      codes "2bd5b96a48232f3ccf3df6be50965920699ea3a1b4512dcdd770e209fd1f009e",
    )
    ∷ (
      codes "codex_sha256",
      codes "081e4de4be8e38fac6ed4d95e3b1a0b9f6d31c090ddc36e1696b349fe406f575",
    )
    ∷ (
      codes "chatgpt_sha256",
      codes "ca98461fd573f8b9912f48080b0f40f3b44788d1074493f4285e68169503fc23",
    )
    ∷ (
      codes "codex_launcher_sha256",
      codes "a682a539b0c7e3fcbc8c7d5a0a1c15904ec3c74a2a747e518c889c03ecaa8387",
    )
    ∷ (
      codes "windows_account_sha256",
      codes "c87c027b22d57882025875c4a9331631f8f4286175d121ac4666a75352947b53",
    )
    ∷ (
      codes "cua_tree_sha256",
      codes "da1253ef9634a6595a7612c60f459617db6b33857650b2d3a9ca3fb58e367892",
    )
    ∷ (codes "cua_node_version", codes "24.20.0")
    ∷ (codes "cua_runtime_version", codes "0.0.11/20260909002225-0b90dbee8d2e")
    ∷ (codes "cua_package_version", codes "0.2.4")
    ∷ []

abbrev build_26_903_9818_0 : Dictionary Bytes
build_26_903_9818_0 =
    (codes "asar_version", codes "26.903.71938")
    ∷ (codes "asar_build", codes "8576")
    ∷ (
      codes "asar_sha256",
      codes "5d9b0399491060b2756fca70c2e5cca746fa8eb38372b7ad8f236dc69bda0bc6",
    )
    ∷ (
      codes "codex_sha256",
      codes "3d6ca7085c932b62ef4ee4877e92f15b050fb94b2eb8e6c10a346a06248c6004",
    )
    ∷ (
      codes "chatgpt_sha256",
      codes "49e7e8f5db0a4c8a12a666b70dac40e0e88a1873d02e8aafb82c3e8cabeca49c",
    )
    ∷ (
      codes "codex_launcher_sha256",
      codes "0519bc74d05ed81332d314ea0b6e49063891daa34b8411b9ea38afda5bb5e8e3",
    )
    ∷ (
      codes "windows_account_sha256",
      codes "a73a28de4bb8144b923b2dbbac19fedb89ad0f055cb52072b6bb63770836c643",
    )
    ∷ (
      codes "cua_tree_sha256",
      codes "858c6eb3c0e82390ef6616ad61228a4d9f702d810be526908288ead808dc8388",
    )
    ∷ (codes "cua_node_version", codes "24.20.0")
    ∷ (codes "cua_runtime_version", codes "0.0.11/20260902191201-81d486bd9181")
    ∷ (codes "cua_package_version", codes "0.2.4")
    ∷ []

abbrev build_26_903_8094_0 : Dictionary Bytes
build_26_903_8094_0 =
    (codes "asar_version", codes "26.903.61454")
    ∷ (codes "asar_build", codes "8378")
    ∷ (
      codes "asar_sha256",
      codes "3b8e61c9b7afefeda3166f251270724a138af15eb947b7c3907691a695bce66c",
    )
    ∷ (
      codes "codex_sha256",
      codes "ccdc9eb9dd71fbcfb03ad42c4eca2b0d6ff6fbd32ebe9416550e6244561e559b",
    )
    ∷ (
      codes "chatgpt_sha256",
      codes "23796d3d11d19cd4cc0aef5b00b33f362cdcda98aa82607c27b9011f3c8e095f",
    )
    ∷ (
      codes "codex_launcher_sha256",
      codes "aef54618342d6bb03fde9bc2dceed50d31119f74d2523039b2e0bc2e27e1c4ba",
    )
    ∷ (
      codes "windows_account_sha256",
      codes "57c9d406a7ca0e714fae5ed24448d0de70541d44f846558b44b88dcf7654b748",
    )
    ∷ (
      codes "cua_tree_sha256",
      codes "fffa9aa0d0f9f9dd5bd19cd6061b35ace1a68a44956996f9d4334ef2ad72d4df",
    )
    ∷ (codes "cua_node_version", codes "24.20.0")
    ∷ (codes "cua_runtime_version", codes "0.0.11/20260902191201-81d486bd9181")
    ∷ (codes "cua_package_version", codes "0.2.4")
    ∷ []

abbrev build_26_901_6511_0 : Dictionary Bytes
build_26_901_6511_0 =
    (codes "asar_version", codes "26.901.51231")
    ∷ (codes "asar_build", codes "8109")
    ∷ (
      codes "asar_sha256",
      codes "e75bae2b8a02f174c7ceeed6d631aaff355e44f8af5c798fa3628089f11d659e",
    )
    ∷ (
      codes "codex_sha256",
      codes "e5aa76d19c7c94e2e9ef9b707d590206a73ac0e97c8ddc8382181242494bef75",
    )
    ∷ (
      codes "chatgpt_sha256",
      codes "814e9fbd141cfa2aaefa33220bc3a7170824e18089946bf1947617597353851d",
    )
    ∷ (
      codes "codex_launcher_sha256",
      codes "8c725ce6a4d04cff93dbbe525d00a8379684c9bcaa84dcd492c2ee544742c08f",
    )
    ∷ (
      codes "windows_account_sha256",
      codes "eb3b16e5ad56de88f93d7170895434ff177b2602c82a54ce92fe176d29166d38",
    )
    ∷ (
      codes "cua_tree_sha256",
      codes "c2b1cb4ea9e1394bf5c7ae189d3b82d1732c105a680a3762894dc7a08f531ee7",
    )
    ∷ (codes "cua_node_version", codes "24.19.0")
    ∷ (codes "cua_runtime_version", codes "0.0.9/20260829001140-68931e022688")
    ∷ (codes "cua_package_version", codes "0.2.4")
    ∷ []

abbrev build_26_820_9563_0 : Dictionary Bytes
build_26_820_9563_0 =
    (codes "asar_version", codes "26.820.71523")
    ∷ (codes "asar_build", codes "7226")
    ∷ (
      codes "asar_sha256",
      codes "e353c580ef4939d36f4ae32a35c896d089205c1d06b9f711cf78ffa4a3578a8a",
    )
    ∷ (
      codes "codex_sha256",
      codes "799ff77125c47b0736ceb36e9b33975bb93d4162bca663730f3a4c90faf2add9",
    )
    ∷ (
      codes "chatgpt_sha256",
      codes "4ec11307b67796338d666f40c431b2804e41669576d3bc350dece8703bf4a114",
    )
    ∷ (
      codes "codex_launcher_sha256",
      codes "d99a17c753d4d554d4e69a31018366b2b46929e4c2bc72a31f1785c8e827b710",
    )
    ∷ (
      codes "windows_account_sha256",
      codes "bd71836a5784f5d808e324578af2dbd1c5fa724d42ec6460a2bbd80756a765a2",
    )
    ∷ (
      codes "cua_tree_sha256",
      codes "2726d48210704778798c61a8df08e8747d8adde0a721464e334acab72eead1cf",
    )
    ∷ (codes "cua_node_version", codes "24.19.0")
    ∷ (codes "cua_runtime_version", codes "0.0.9/20260825190732-1bc5ee2d44ce-pr-1350514")
    ∷ (codes "cua_package_version", codes "0.2.3-202608251207-pr-1350514-1bc5ee2d44ce")
    ∷ []

unfoldable pub tested_source_builds : Dictionary (Dictionary Bytes)
tested_source_builds =
    (codes "26.930.4958.0", build_26_930_4958_0)
    ∷ (codes "26.924.2738.0", build_26_924_2738_0)
    ∷ (codes "26.917.6896.0", build_26_917_6896_0)
    ∷ (codes "26.915.4065.0", build_26_915_4065_0)
    ∷ (codes "26.911.7940.0", build_26_911_7940_0)
    ∷ (codes "26.908.4834.0", build_26_908_4834_0)
    ∷ (codes "26.903.9818.0", build_26_903_9818_0)
    ∷ (codes "26.903.8094.0", build_26_903_8094_0)
    ∷ (codes "26.901.6511.0", build_26_901_6511_0)
    ∷ (codes "26.820.9563.0", build_26_820_9563_0)
    ∷ []
