-- ===== src/Asar.antt =====
-- scripts/windows_asar_integrity.py: the integrity hash that Electron keeps in its executable.
pub mod Binary
pub mod Slices
pub mod Resources
pub mod Slot
pub mod Fuses
pub mod Desktop
