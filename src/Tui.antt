-- ===== src/Tui.antt =====
-- cli/src/tui/state: the state records of the terminal interface.
pub mod Events
pub mod Detail
pub mod Derived
pub mod DetailValid
pub mod View
pub mod Search
pub mod Modal
pub mod ModalFilter
pub mod ViewValid
pub mod Input
pub mod InputValid
mod Tests
pub mod InputCheck
mod InputTests
mod DerivedTests
