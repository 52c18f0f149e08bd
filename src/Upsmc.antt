-- ===== src/Upsmc.antt =====
-- The crate nut_webgui_upsmc: the client side of the protocol that upsd speaks (RFC 9271).
pub mod Text
pub mod Dict
pub mod Bits
pub mod Error
pub mod Lexer
pub mod Escape
pub mod Names
pub mod Parser
pub mod Value
pub mod Status
pub mod Str
pub mod Event
pub mod ItemPool
pub mod Response
pub mod Values
pub mod Command
pub mod Client
