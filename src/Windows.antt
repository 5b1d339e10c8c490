-- ===== src/Windows.antt =====
-- scripts/patch_windows_app.py: the approval of a source build, the control token and the installation.
pub mod Files
pub mod Install
pub mod Token
pub mod Approval
pub mod Builds
pub mod Anchors
pub mod Limits
pub mod Trees
pub mod Disk
pub mod ComputerUse
pub mod Appshots
pub mod Preserved
pub mod Publication
