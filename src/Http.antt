-- ===== src/Http.antt =====
-- nut_webgui/src/http: the middleware that stands in front of the routes, and the probes.
pub mod Api
pub mod Cookie
pub mod Keys
pub mod Checks
pub mod Messages
pub mod Writes
pub mod StatusDetail
pub mod Probe
mod Tests
