-- ===== src/Client.antt =====
-- mesh/src/client: the agent beside a service.
pub mod Proxy
pub mod Sessions
pub mod Agent
pub mod Replies
pub mod Inward
pub mod Anyhow
pub mod Presign
pub mod Aws
pub mod Identity
pub mod Connection
pub mod Monitor
pub mod Heartbeats
pub mod Start
pub mod Extends
pub mod Handshake
pub mod Introduction
pub mod Local
pub mod Reach
pub mod Delivery
pub mod Uplink
pub mod Exchange
pub mod Opening
