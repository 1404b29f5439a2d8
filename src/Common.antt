-- ===== src/Common.antt =====
-- mesh/src/common: what the server and the client share.
pub mod Types
pub mod Auth
pub mod Routing
pub mod Config
