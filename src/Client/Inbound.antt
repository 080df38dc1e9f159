-- ===== src/Client/Inbound.antt =====
-- The inbound side of crates/sdk/src/client/mod.rs: `process_incoming_value`, `fail_all_pending` and
-- `run_inbound_loop`, with the auto-dispatch of crates/sdk/src/client/server_requests.rs.
use codex_sdk_rs.Prelude.{ℕ, String, Option, none, some, List, [], ◌∷◌}
use codex_sdk_rs.Prelude.Text.{concat}
use codex_sdk_rs.Protocol.{
  RequestId, RpcError, ClientError, Result, ok, err, ok_or, rpc_error_code_transport_failure,
}
use codex_sdk_rs.SerdeJson.{SerdeJson}
use codex_sdk_rs.Incoming.{IncomingClassified, classify_incoming}
use codex_sdk_rs.Events.{ServerEvent}
use codex_sdk_rs.Events.Notifications.{NotificationDecoders, ServerNotification, parse_notification}
use codex_sdk_rs.Events.ServerRequests.{
  ServerRequestDecoders, ServerRequestEvent, request_id, parse_server_request,
}
use codex_sdk_rs.Client.{Client, Slot, set_slot, publish, send_message}
use codex_sdk_rs.Client.Pending.{PendingMap, lookup, remove}
use codex_sdk_rs.Client.Handlers.{Handled, run_handler, handler_payload, display_error}

abbrev pub transport_failure : {Value : Type 0} → String → RpcError Value
transport_failure message = record {
  code = rpc_error_code_transport_failure;
  message = message;
  details = none;
}

abbrev pub send_all : {Value : Type 0} → Slot Value → PendingMap → (ℕ → Slot Value) → ℕ → Slot Value
send_all v [] slots = slots
send_all v ((k, s) ∷ entries) slots = send_all v entries (set_slot s v slots)

module _ {Value Object : Type 0} where
  -- A response: its entry is removed, and its sender sends.
  unfoldable pub deliver :
      RequestId → Result Value (RpcError Value) → Client Value Object → Client Value Object
  deliver id result c = elim (lookup id c.pending) [
    | none ↦ c
    | some s ↦ record c {
      pending = remove id c.pending;
      slots = set_slot s (Slot.delivered result) c.slots;
    }
  ]

  unfoldable pub fail_all_pending : String → Client Value Object → Client Value Object
  fail_all_pending message c = record c {
    pending = [];
    slots = send_all (Slot.delivered (err (transport_failure message))) c.pending c.slots;
  }

module _ ⦃json : SerdeJson⦄ (notifications : NotificationDecoders json.Value json.Object)
    (requests : ServerRequestDecoders json.Value json.Object) where
  open json use {Value, Object}

  -- `send_server_request_handler_result`: a failed send publishes the end of the transport.
  abbrev pub after_response :
      Client Value Object × Result (Unit {0}) (ClientError Value) → Client Value Object
  after_response (sent, ok done) = sent
  after_response (sent, err e) = publish ServerEvent.transport_closed sent

  -- `try_auto_handle_server_request`, and the event if there is no handler.
  abbrev pub handle_or_publish :
      Option (Handled Value)
      → ServerRequestEvent Value Object
      → Client Value Object
      → Client Value Object
  handle_or_publish (some handled) parsed c =
      after_response
        (send_message (handler_payload (request_id parsed) handled.response handled.context) c)
  handle_or_publish none parsed c = publish (ServerEvent.server_request parsed) c

  unfoldable pub process_notification : String → Value → Client Value Object → Client Value Object
  process_notification method params c =
      publish
        (ServerEvent.notification (
          ok_or (ServerNotification.unknown method params)
            (parse_notification notifications method params)))
        c

  unfoldable pub process_server_request :
      RequestId → String → Value → Client Value Object → Client Value Object
  process_server_request id method params c =
      let parsed =
        ok_or (ServerRequestEvent.unknown id method params)
          (parse_server_request requests id method params) in
      handle_or_publish (run_handler c.server_request_handlers parsed) parsed c

  abbrev pub process_classified :
      Result (IncomingClassified Value) (ClientError Value)
      → Client Value Object
      → Result (Client Value Object) (ClientError Value)
  process_classified (err e) c = err e
  process_classified (ok (IncomingClassified.response id result)) c = ok (deliver id result c)
  process_classified (ok (IncomingClassified.notification method params raw)) c =
      ok (process_notification method params c)
  process_classified (ok (IncomingClassified.server_request id method params raw)) c =
      ok (process_server_request id method params c)

  unfoldable pub process_incoming_value :
      Value → Client Value Object → Result (Client Value Object) (ClientError Value)
  process_incoming_value value c = process_classified (classify_incoming value) c

  -- The end of the loop.
  unfoldable pub shut_down : String → Client Value Object → Client Value Object
  unfolding fail_all_pending
  shut_down message c = publish ServerEvent.transport_closed (fail_all_pending message c)

  -- `run_inbound_loop` on the frames that the transport hands over until its channel closes.
  unfoldable pub run_inbound_loop :
      List (Result Value (ClientError Value)) → Client Value Object → Client Value Object
  run_inbound_loop [] c = c
  run_inbound_loop (err e ∷ frames) c =
      shut_down (concat ("transport error: " ∷ display_error e ∷ [])) c
  run_inbound_loop (ok value ∷ frames) c = elim (process_incoming_value value c) [
    | ok next ↦ run_inbound_loop frames next
    | err e ↦ shut_down (concat ("processing inbound frame failed: " ∷ display_error e ∷ [])) c
  ]
