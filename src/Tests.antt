-- ===== src/Tests.antt =====
-- Runs of the definitions on concrete data, and the theorems applied to it.
pub mod Units
pub mod Guards
pub mod Store
pub mod Queue
pub mod Dispatch
pub mod Signatures
pub mod Outbound
pub mod Workers
pub mod Migrations
