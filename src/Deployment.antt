-- ===== src/Deployment.antt =====
-- Deployments: defs/src/deployment.rs and env_common/src/interface/deployment_status_handler.rs.
pub mod Status
pub mod Handler
pub mod Sending
pub mod Event
pub mod Store
pub mod Items
pub mod Dependents
mod Tests
mod StoreTests
