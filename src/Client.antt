-- ===== src/Client.antt =====
-- The state of `CodexClient` (`Inner`) in crates/sdk/src/client/mod.rs. The children hold its pending
-- requests, the requests, the inbound loop and the handshake.
--
-- A oneshot channel is a number, and `slots` tells what its sender has done. The events are those
-- published on the broadcast channel, oldest first. `outbound` holds the frames that were handed to
-- the transport, oldest first, as long as the transport takes them.
pub mod Pending
pub mod Requests
pub mod Typed
pub mod Handlers
pub mod Inbound
pub mod Invariant
pub mod Waiting
pub mod Operations
pub mod Delivery
pub mod Handshake
pub mod Ready
pub mod HandledBy
pub mod EnsureReady
pub mod Answers
pub mod Registered
pub mod Unrelated
pub mod Failure
use codex_sdk_rs.Prelude.{
  ℕ, ◌+◌, String, Bool, true, false, Option, none, some, List, [], ◌∷◌, ◌++◌, eqb, if◌then◌else◌,
}
use codex_sdk_rs.Prelude.Int.{ℤ, pos}
use codex_sdk_rs.Protocol.{RequestId, RpcError, ClientError, Result, ok, err}
use codex_sdk_rs.Events.{ServerEvent}
use codex_sdk_rs.Client.Handlers.{ServerRequestHandlers, no_handlers}

-- What the receiving end of a oneshot channel finds.
pub data Slot (Value : Type 0) : Type 0 where
  waiting : Slot Value
  delivered : Result Value (RpcError Value) → Slot Value
  dropped : Slot Value

-- The states `HANDSHAKE_*`.
abbrev pub handshake_new : ℕ
handshake_new = 0

abbrev pub handshake_initializing : ℕ
handshake_initializing = 1

abbrev pub handshake_initialized : ℕ
handshake_initialized = 2

abbrev pub handshake_ready : ℕ
handshake_ready = 3

pub record Client (Value Object : Type 0) : Type 0 where
  pub outbound : List Value
  pub outbound_open : Bool
  pub pending : List (RequestId × ℕ)
  pub slots : ℕ → Slot Value
  pub next_slot : ℕ
  pub handshake_state : ℕ
  pub next_id : ℤ
  pub events : List (ServerEvent Value Object)
  pub server_request_handlers : ServerRequestHandlers Value Object

-- `from_transport`, for an open transport.
abbrev pub from_transport : {Value Object : Type 0} → Client Value Object
from_transport = record {
  outbound = [];
  outbound_open = true;
  pending = [];
  slots = λ s. Slot.waiting;
  next_slot = 0;
  handshake_state = handshake_new;
  next_id = pos 1;
  events = [];
  server_request_handlers = no_handlers;
}

abbrev pub set_slot : {Value : Type 0} → ℕ → Slot Value → (ℕ → Slot Value) → ℕ → Slot Value
set_slot s v slots t = if eqb s t then v else slots t

module _ {Value Object : Type 0} where
  -- `event_tx.send(event)`.
  abbrev pub publish : ServerEvent Value Object → Client Value Object → Client Value Object
  publish event c = record c { events = c.events ++ event ∷ [] }

  -- `outbound.send(value).await.is_ok()`, and the frame that it hands over.
  abbrev pub send_message :
      Value → Client Value Object → Client Value Object × Result (Unit {0}) (ClientError Value)
  send_message frame c =
      if c.outbound_open
      then (record c { outbound = c.outbound ++ frame ∷ [] }, ok tt)
      else (c, err (ClientError.transport_send "failed to send outbound frame: channel closed"))
