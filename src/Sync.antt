-- ===== src/Sync.antt =====
-- nut_webgui/src/state.rs, event/ and sync/: the state of the servers and how it follows upsd.
pub mod State
pub mod Events
pub mod Clients
pub mod Devices
pub mod Statuses
pub mod Descriptions
mod Tests
