-- ===== src/Websocket.antt =====
-- The websocket transport of the SDK: crates/sdk/src/transport/ws.rs and ws_daemon.rs.
pub mod Auth
pub mod Address
pub mod Target
pub mod Probe
pub mod Server
pub mod Spawn
pub mod Ready
pub mod Start
