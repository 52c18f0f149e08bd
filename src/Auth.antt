-- ===== src/Auth.antt =====
-- nut_webgui/src/auth: tokens, their signatures, and the sessions of users.
pub mod Outcome
pub mod LittleEndian
pub mod Token
pub mod Signer
pub mod Utf8
pub mod Session
pub mod Users
mod Tests
