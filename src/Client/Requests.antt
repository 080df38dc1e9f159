-- ===== src/Client/Requests.antt =====
-- `request_value_internal` and `send_notification` in crates/sdk/src/client/mod.rs, cut at the points
-- where they wait. Between taking the id and the insertion into the map only the map's lock is
-- awaited; nobody else knows the id, so the two are one step.
use codex_sdk_rs.Prelude.{
  ℕ, ◌+◌, String, Bool, not, Option, none, some, ◌&&◌, ltb, leb, if◌then◌else◌,
}
use codex_sdk_rs.Prelude.Int.{wrapping_suc}
use codex_sdk_rs.Protocol.{RequestId, integer, ClientError, Result, ok, err}
use codex_sdk_rs.SerdeJson.{SerdeJson}
use codex_sdk_rs.Incoming.{request_frame, notification_frame}
use codex_sdk_rs.Client.{
  Client, Slot, set_slot, send_message, handshake_initialized, handshake_ready,
}
use codex_sdk_rs.Client.Pending.{lookup, insert, remove}

-- A request under way: its id and its oneshot channel.
pub record Call : Type 0 where
  pub id : RequestId
  pub slot : ℕ

-- A sender that is removed or replaced is dropped with its entry.
abbrev pub drop_sender : {Value : Type 0} → Option ℕ → (ℕ → Slot Value) → ℕ → Slot Value
drop_sender none slots = slots
drop_sender (some s) slots = set_slot s Slot.dropped slots

-- What a receiver that is ready gives; `none` while it waits.
abbrev pub received : {Value : Type 0} → Slot Value → Option (Result Value (ClientError Value))
received Slot.waiting = none
received (Slot.delivered (ok value)) = some (ok value)
received (Slot.delivered (err error)) = some (err (ClientError.rpc error))
received Slot.dropped = some (err ClientError.transport_closed)

module _ {Value Object : Type 0} where
  unfoldable pub remove_pending : RequestId → Client Value Object → Client Value Object
  remove_pending id c = record c {
    pending = remove id c.pending;
    slots = drop_sender (lookup id c.pending) c.slots;
  }

  -- The two gates.
  unfoldable pub gate : String → Bool → Client Value Object → Option (ClientError Value)
  gate method requires_ready c =
      if requires_ready && ltb c.handshake_state handshake_ready
      then some (ClientError.not_ready method)
      else if not requires_ready && leb handshake_initialized c.handshake_state
      then some ClientError.already_initialized
      else none

  -- `next_id.fetch_add(1)`, the oneshot channel, and `pending.insert(id, tx)`.
  unfoldable pub register : Client Value Object → Client Value Object × Call
  register c =
      let id = integer c.next_id in
      (
        record c {
          next_id = wrapping_suc c.next_id;
          pending = insert id c.next_slot c.pending;
          slots = drop_sender (lookup id c.pending) c.slots;
          next_slot = c.next_slot + 1;
        },
        record { id = id; slot = c.next_slot },
      )

  unfoldable pub poll : Call → Client Value Object → Option (Result Value (ClientError Value))
  poll call c = received (c.slots call.slot)

  -- The timeout of a request that is still waiting.
  unfoldable pub expire :
      String → ℕ → Call → Client Value Object → Client Value Object × ClientError Value
  expire method timeout_ms call c =
      (remove_pending call.id c, ClientError.timeout method timeout_ms)

module _ ⦃json : SerdeJson⦄ where
  open json use {Value, Object}

  -- The frame was sent, or the transport is gone and the entry is removed.
  abbrev pub after_send :
      Call
      → Client Value Object × Result (Unit {0}) (ClientError Value)
      → Client Value Object × Result Call (ClientError Value)
  after_send call (sent, ok done) = (sent, ok call)
  after_send call (sent, err e) = (remove_pending call.id sent, err e)

  abbrev pub after_gate :
      Option (ClientError Value)
      → String
      → Value
      → Client Value Object
      → Client Value Object × Result Call (ClientError Value)
  after_gate (some e) method params c = (c, err e)
  after_gate none method params c =
      let (registered, call) = register c in
      after_send call (send_message (request_frame method call.id params) registered)

  -- A request up to the point where it waits for its response.
  unfoldable pub begin_request :
      String
      → Value
      → Bool
      → Client Value Object
      → Client Value Object × Result Call (ClientError Value)
  begin_request method params requires_ready c =
      after_gate (gate method requires_ready c) method params c

  -- `send_notification`, for parameters that are a value already.
  unfoldable pub send_notification :
      String
      → Value
      → Bool
      → Client Value Object
      → Client Value Object × Result (Unit {0}) (ClientError Value)
  send_notification method params requires_ready c =
      if requires_ready && ltb c.handshake_state handshake_ready
      then (c, err (ClientError.not_ready method))
      else send_message (notification_frame method params) c
