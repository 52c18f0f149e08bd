-- ===== src/Config.antt =====
-- nut_webgui/src/config: the base path of the server.
pub mod UriPath
pub mod Settings
pub mod Layers
mod Tests
