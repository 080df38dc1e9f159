-- ===== src/Events.antt =====
-- crates/sdk/src/events/mod.rs and the payloads of the protocol.
pub mod Payloads
pub mod Notifications
pub mod MethodNames
pub mod ServerRequests
use codex_sdk_rs.Events.Notifications.{ServerNotification}
use codex_sdk_rs.Events.ServerRequests.{ServerRequestEvent}

pub data ServerEvent (Value Object : Type 0) : Type 0 where
  notification : ServerNotification Value Object → ServerEvent Value Object
  server_request : ServerRequestEvent Value Object → ServerEvent Value Object
  transport_closed : ServerEvent Value Object
