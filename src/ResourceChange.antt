-- ===== src/ResourceChange.antt =====
-- defs/src/resource_change.rs: the audit trail of a Terraform plan, without its sensitive values.
pub mod Sanitize
pub mod Erasure
pub mod Diff
pub mod Recorded
pub mod Dependencies
pub mod Parse
pub mod Secrecy
mod Tests
