-- ===== src/Release.antt =====
-- scripts/release/release_artifacts.py: source-only release artifacts.
pub mod Errors
pub mod Path
pub mod Manifest
pub mod Secrets
pub mod Scan
pub mod Sources
pub mod Archive
pub mod Library
pub mod Context
pub mod Gates
pub mod Npm
pub mod Go
pub mod Cyclonedx
pub mod Spdx
pub mod Provenance
pub mod Sboms
pub mod Build
pub mod Verify
