-- ===== src/Client/Operations.antt =====
-- The operations on the client that may happen while a request waits, one after the other
-- (crates/sdk/src/client/mod.rs), and the invariant that they keep.
use codex_sdk_rs.Prelude.{ℕ, ◌+◌, ◌<◌, ◌^◌, ◌≢◌, List, [], ◌∷◌, subst, Bool, String, arith, length}
use codex_sdk_rs.Prelude.Text.{concat}
use codex_sdk_rs.Protocol.{ClientError, Result, ok, err}
use codex_sdk_rs.SerdeJson.{SerdeJson}
use codex_sdk_rs.Incoming.{IncomingClassified, classify_incoming}
use codex_sdk_rs.Events.Notifications.{NotificationDecoders}
use codex_sdk_rs.Events.ServerRequests.{ServerRequestDecoders}
use codex_sdk_rs.Client.{Client}
use codex_sdk_rs.Client.Handlers.{HandlerChange, change_handler, display_error}
use codex_sdk_rs.Client.Requests.{Call, begin_request, send_notification, expire}
use codex_sdk_rs.Client.Inbound.{process_incoming_value, shut_down, process_classified}
use codex_sdk_rs.Client.Failure.{shut_down-Within}
use codex_sdk_rs.Client.Unrelated.{
  SamePending-Within, send_notification-SamePending, process_notification-SamePending,
  process_server_request-SamePending,
}
use codex_sdk_rs.Client.Registered.{
  Within, remove_pending-Within, deliver-Within, register-Within, begin_request_elim,
}

module _ ⦃json : SerdeJson⦄ where
  open json use {Value, Object}

  -- What may happen to a client between two points of a request.
  pub data Operation : Type 0 where
    request : (method : String) (params : Value) (requires_ready : Bool) → Operation
    notify : (method : String) (params : Value) (requires_ready : Bool) → Operation
    time_out : (method : String) (timeout_ms : ℕ) (call : Call) → Operation
    receive : Value → Operation
    transport_error : ClientError Value → Operation
    set_handshake : ℕ → Operation
    set_handler : HandlerChange Value Object → Operation

  -- A frame that is no answer to the call and does not end the loop.
  abbrev pub SparesFrame : Call → Result (IncomingClassified Value) (ClientError Value) → Type 0
  SparesFrame call (err e) = ⊥
  SparesFrame call (ok (IncomingClassified.response id result)) = id ≢ call.id
  SparesFrame call (ok (IncomingClassified.notification method params raw)) = Unit
  SparesFrame call (ok (IncomingClassified.server_request id method params raw)) = Unit

  -- An operation that is not the end of the call.
  abbrev pub Spares : Call → Operation → Type 0
  Spares call (Operation.request method params requires_ready) = Unit
  Spares call (Operation.notify method params requires_ready) = Unit
  Spares call (Operation.time_out method timeout_ms other) = other.id ≢ call.id
  Spares call (Operation.receive value) = SparesFrame call (classify_incoming value)
  Spares call (Operation.transport_error e) = ⊥
  Spares call (Operation.set_handshake state) = Unit
  Spares call (Operation.set_handler change) = Unit

module _ ⦃json : SerdeJson⦄ (notifications : NotificationDecoders json.Value json.Object)
    (requests : ServerRequestDecoders json.Value json.Object) where
  open json use {Value, Object}

  abbrev pub inbound_step :
      Result (Client Value Object) (ClientError Value) → Client Value Object → Client Value Object
  inbound_step (ok next) c = next
  inbound_step (err e) c =
      shut_down notifications requests
        (concat ("processing inbound frame failed: " ∷ display_error e ∷ [])) c

  abbrev pub apply_operation : Operation → Client Value Object → Client Value Object
  apply_operation (Operation.request method params requires_ready) c =
      (begin_request method params requires_ready c).0
  apply_operation (Operation.notify method params requires_ready) c =
      (send_notification method params requires_ready c).0
  apply_operation (Operation.time_out method timeout_ms call) c =
      (expire method timeout_ms call c).0
  apply_operation (Operation.receive value) c =
      inbound_step (process_incoming_value notifications requests value c) c
  apply_operation (Operation.transport_error e) c =
      shut_down notifications requests (concat ("transport error: " ∷ display_error e ∷ [])) c
  apply_operation (Operation.set_handshake state) c = record c { handshake_state = state }
  apply_operation (Operation.set_handler change) c = record c {
    server_request_handlers = change_handler change c.server_request_handlers;
  }

  abbrev pub run_operations : List Operation → Client Value Object → Client Value Object
  run_operations [] c = c
  run_operations (operation ∷ operations) c =
      run_operations operations (apply_operation operation c)

  Within-more : (n : ℕ) (c : Client Value Object) → Within n c → Within (n + 1) c
  Within-more n c h = record {
    next = h.next;
    is_next = h.is_next;
    few = ground (arith, h.few);
    sound = h.sound;
  }

  inbound_step-Within :
      (n : ℕ) (r : Result (IncomingClassified Value) (ClientError Value)) (c : Client Value Object)
      → Within n c
      → Within n (inbound_step (process_classified notifications requests r c) c)
  inbound_step-Within n (err e) c h = shut_down-Within notifications requests n _ c h
  inbound_step-Within n (ok (IncomingClassified.response id result)) c h =
      deliver-Within n id result c h
  inbound_step-Within n (ok (IncomingClassified.notification method params raw)) c h =
      SamePending-Within n _ c
        (process_notification-SamePending notifications requests method params c) h
  inbound_step-Within n (ok (IncomingClassified.server_request id method params raw)) c h =
      SamePending-Within n _ c
        (process_server_request-SamePending notifications requests id method params c) h

  pub apply_operation-Within :
      (n : ℕ) (operation : Operation) (c : Client Value Object)
      → Within n c
      → n + 1 < 2 ^ 63
      → Within (n + 1) (apply_operation operation c)
  unfolding process_incoming_value expire
  apply_operation-Within n (Operation.request method params requires_ready) c h bound =
      begin_request_elim (Within (n + 1)) method params requires_ready c (Within-more n c h)
        (λ outbound.
          let r = register-Within n c h bound in
          record { next = r.next; is_next = r.is_next; few = r.few; sound = r.sound })
        (remove_pending-Within (n + 1) _ _ (register-Within n c h bound))
  apply_operation-Within n (Operation.notify method params requires_ready) c h bound =
      SamePending-Within (n + 1) _ c
        (send_notification-SamePending notifications requests method params requires_ready c)
        (Within-more n c h)
  apply_operation-Within n (Operation.time_out method timeout_ms call) c h bound =
      Within-more n _ (remove_pending-Within n call.id c h)
  apply_operation-Within n (Operation.receive value) c h bound =
      Within-more n _ (inbound_step-Within n (classify_incoming value) c h)
  apply_operation-Within n (Operation.transport_error e) c h bound =
      Within-more n _ (shut_down-Within notifications requests n _ c h)
  apply_operation-Within n (Operation.set_handshake state) c h bound = record {
    next = h.next;
    is_next = h.is_next;
    few = ground (arith, h.few);
    sound = h.sound;
  }
  apply_operation-Within n (Operation.set_handler change) c h bound = record {
    next = h.next;
    is_next = h.is_next;
    few = ground (arith, h.few);
    sound = h.sound;
  }

  -- Whatever operations happen to a client, the pending requests stay sound as long as fewer than
  -- 2^63 ids are given out: their ids are different, were given out and not taken again, and each has
  -- a channel of its own whose receiver waits.
  pub run_operations-Within :
      (operations : List Operation) (n : ℕ) (c : Client Value Object)
      → Within n c
      → n + length operations < 2 ^ 63
      → Within (n + length operations) (run_operations operations c)
  run_operations-Within [] n c h bound = subst (λ k. Within k c) (ground arith) h
  run_operations-Within (operation ∷ operations) n c h bound =
      subst (λ k. Within k (run_operations operations (apply_operation operation c))) (ground arith)
        (run_operations-Within operations (n + 1) _
          (apply_operation-Within n operation c h (ground (arith, bound))) (ground (arith, bound)))
