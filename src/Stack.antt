-- ===== src/Stack.antt =====
-- env_common/src/logic/api_stack.rs: the checks on the claims of a stack.
pub mod Graph
pub mod Cycle
pub mod Search
pub mod Finished
pub mod Acyclic
pub mod Claims
pub mod Validate
pub mod Sound
pub mod Examples
pub mod ExamplesSound
pub mod Manifest
mod ClaimTests
mod Tests
