-- ===== src/Tests.antt =====
-- Runs of the models on small inputs, and the theorems at concrete data.
mod Release
mod Windows
mod Asar
mod Token
mod Approval
mod Documents
mod Verified
mod Built
mod Repair
mod Limits
mod Trees
mod Application
mod ComputerUse
mod Qualified
mod Publication
