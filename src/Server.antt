-- ===== src/Server.antt =====
-- mesh/src/server: the ingress.
pub mod Error
pub mod Channels
pub mod Registry
pub mod Router
pub mod Auth
pub mod Libraries
pub mod Dispatcher
pub mod Http
pub mod Tunnel
pub mod Service
pub mod Handlers
pub mod Start
pub mod Tests
