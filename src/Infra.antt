-- ===== src/Infra.antt =====
-- env_common/src/logic/api_infra.rs: claims are checked, and become jobs.
pub mod Names
pub mod Manifest
pub mod Claim
pub mod Progress
pub mod Submit
pub mod Existing
pub mod Tests
mod ExistingTests
