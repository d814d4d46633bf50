-- ===== src/Tests.antt =====
-- The theorems at concrete inputs.
pub mod Demo
pub mod History
pub mod Programs
pub mod Histories
pub mod Entries
pub mod Sharing
pub mod Exits
pub mod Logics
pub mod Stakes
pub mod Registering
pub mod Updates
