-- ===== src/Client/Delivery.antt =====
-- The operations on the client that may happen while a request waits, one after the other
-- (crates/sdk/src/client/mod.rs), and the answer that the request gets.
use codex_sdk_rs.Prelude.{
  ℕ, ◌+◌, ◌<◌, ◌^◌, ◌≡◌, ◌≢◌, refl, true, none, some, List, [], ◌∷◌, ◌++◌, ◌∙◌, sym, ap, subst,
  Bool, String, arith, length, All,
}
use codex_sdk_rs.Protocol.{integer, RequestId, RpcError, ClientError, Result, ok, err}
use codex_sdk_rs.SerdeJson.{SerdeJson}
use codex_sdk_rs.Incoming.{
  IncomingClassified, classify_incoming, request_frame, result_frame, error_frame,
}
use codex_sdk_rs.Incoming.RoundTrip.{classify_result_frame, classify_error_frame}
use codex_sdk_rs.Events.Notifications.{NotificationDecoders}
use codex_sdk_rs.Events.ServerRequests.{ServerRequestDecoders}
use codex_sdk_rs.Client.{Client, Slot}
use codex_sdk_rs.Client.Requests.{
  after_gate, after_send, Call, begin_request, expire, remove_pending, register, poll, received,
  gate,
}
use codex_sdk_rs.Client.Inbound.{process_incoming_value, process_classified}
use codex_sdk_rs.Client.Operations.{
  Operation, Spares, SparesFrame, inbound_step, apply_operation, run_operations,
  run_operations-Within, apply_operation-Within,
}
use codex_sdk_rs.Client.Unrelated.{
  send_notification-SamePending, process_notification-SamePending,
  process_server_request-SamePending,
}
use codex_sdk_rs.Client.Registered.{Within, Waits, register-Within, begin_request_elim}
use codex_sdk_rs.Client.Waiting.{
  other_id, fresh-call, register-Waits, remove_pending-Waits, deliver-Waits, poll-Waits,
  poll-deliver, deliver-missing, removed, send_message-open, register-registered,
}

module _ ⦃json : SerdeJson⦄ where
  open json use {Value, Object, null}

  -- The frame that answers a request.
  abbrev pub answer_frame : RequestId → Result Value (RpcError Value) → Value
  answer_frame id (ok value) = result_frame id value
  answer_frame id (err error) = error_frame id error

  -- What the caller gets for an answer.
  abbrev pub outcome : Result Value (RpcError Value) → Result Value (ClientError Value)
  outcome (ok value) = ok value
  outcome (err error) = err (ClientError.rpc error)

  -- The answer can be read: an error's data is not `null`, which is read as no data.
  abbrev pub IsReadable : Result Value (RpcError Value) → Type 0
  IsReadable (ok value) = Unit
  IsReadable (err error) = error.details ≢ some null

  classify_answer_frame :
      (id : RequestId) (result : Result Value (RpcError Value))
      → IsReadable result
      → classify_incoming (answer_frame id result) ≡ ok (IncomingClassified.response id result)
  classify_answer_frame id (ok value) told = classify_result_frame id value
  classify_answer_frame id (err error) told = classify_error_frame id error told

  received-outcome :
      (result : Result Value (RpcError Value))
      → received (Slot.delivered result) ≡ some (outcome result)
  received-outcome (ok value) = refl
  received-outcome (err error) = refl

module _ ⦃json : SerdeJson⦄ (notifications : NotificationDecoders json.Value json.Object)
    (requests : ServerRequestDecoders json.Value json.Object) where
  open json use {Value, Object}

  inbound_step-Waits :
      (r : Result (IncomingClassified Value) (ClientError Value)) (call : Call)
      (c : Client Value Object)
      → SparesFrame call r
      → Waits call c
      → Waits call
          (inbound_step notifications requests (process_classified notifications requests r c) c)
  inbound_step-Waits (err e) call c spares w = elim spares [ ]
  inbound_step-Waits (ok (IncomingClassified.response id result)) call c spares w =
      deliver-Waits id result call c (other_id id call.id spares) w
  inbound_step-Waits (ok (IncomingClassified.notification method params raw)) call c spares w =
      rw (process_notification-SamePending notifications requests method params c).same_pending w
  inbound_step-Waits (ok (IncomingClassified.server_request id method params raw)) call c spares w =
      rw (process_server_request-SamePending notifications requests id method params c).same_pending
        w

  apply_operation-Waits :
      (n : ℕ) (operation : Operation) (call : Call) (c : Client Value Object)
      → Within n c
      → Spares call operation
      → Waits call c
      → Waits call (apply_operation notifications requests operation c)
  unfolding process_incoming_value expire register
  apply_operation-Waits n (Operation.request method params requires_ready) call c h spares w =
      begin_request_elim (Waits call) method params requires_ready c w
        (λ outbound. register-Waits n c call h w)
        (remove_pending-Waits _ call _ (fresh-call n c call h w) (register-Waits n c call h w))
  apply_operation-Waits n (Operation.notify method params requires_ready) call c h spares w =
      rw
        (send_notification-SamePending notifications requests method params requires_ready
          c).same_pending
        w
  apply_operation-Waits n (Operation.time_out method timeout_ms other) call c h spares w =
      remove_pending-Waits other.id call c (other_id other.id call.id spares) w
  apply_operation-Waits n (Operation.receive value) call c h spares w =
      inbound_step-Waits (classify_incoming value) call c spares w
  apply_operation-Waits n (Operation.transport_error e) call c h spares w = elim spares [ ]
  apply_operation-Waits n (Operation.set_handshake state) call c h spares w = w
  apply_operation-Waits n (Operation.set_handler change) call c h spares w = w

  run_operations-Waits :
      (operations : List Operation) (n : ℕ) (call : Call) (c : Client Value Object)
      → Within n c
      → n + length operations < 2 ^ 63
      → All (Spares call) operations
      → Waits call c
      → Waits call (run_operations notifications requests operations c)
  run_operations-Waits [] n call c h bound spares w = w
  run_operations-Waits (operation ∷ operations) n call c h bound spares w =
      run_operations-Waits operations (n + 1) call _
        (apply_operation-Within notifications requests n operation c h (ground (arith, bound)))
        (ground (arith, bound)) spares.1 (apply_operation-Waits n operation call c h spares.0 w)

  -- On a client whose pending requests are sound, a request that waits goes on waiting through any
  -- sequence of other operations (new requests and notifications, timeouts of other requests, answers
  -- to other ids, notifications and requests of the server, changes of the handshake and of the
  -- handlers), and the frame that then answers its id gives its caller exactly that result or that
  -- error of the server. Fewer than 2^63 ids are given out, and the error's data is not `null`.
  pub run_operations-answered :
      (operations : List Operation) (n : ℕ) (call : Call) (c : Client Value Object)
      (result : Result Value (RpcError Value))
      → Within n c
      → n + length operations < 2 ^ 63
      → All (Spares call) operations
      → Waits call c
      → IsReadable result
      → (poll call (run_operations notifications requests operations c) ≡ none)
        × (poll call (
              apply_operation notifications requests
                (Operation.receive (answer_frame call.id result))
                (run_operations notifications requests operations c))
            ≡ some (outcome result))
  unfolding process_incoming_value
  run_operations-answered operations n call c result h bound spares w told =
      let w2 = run_operations-Waits operations n call c h bound spares w in
      (
        poll-Waits _ call _ (run_operations-Within notifications requests operations n c h bound)
            w2,
        rw (classify_answer_frame call.id result told)
            (poll-deliver result call _ w2 ∙ received-outcome result),
      )

  -- A request that timed out is forgotten: when its answer comes late, a result or an error whose
  -- data is not `null`, nothing of the client changes.
  pub late_answer-ignored :
      (method : String) (timeout_ms : ℕ) (call : Call) (c : Client Value Object)
      (result : Result Value (RpcError Value))
      → IsReadable result
      → apply_operation notifications requests
          (Operation.receive (answer_frame call.id result))
          (expire method timeout_ms call c).0
        ≡ (expire method timeout_ms call c).0
  unfolding process_incoming_value expire
  late_answer-ignored method timeout_ms call c result told =
      rw (classify_answer_frame call.id result told)
        (deliver-missing call.id result (remove_pending call.id c) (removed call.id c))

  begun :
      (method : String) (params : Value) (requires_ready : Bool) (c : Client Value Object)
      → gate method requires_ready c ≡ none
      → c.outbound_open ≡ true
      → begin_request method params requires_ready c ≡ (
        record (register c).0 {
          outbound = c.outbound ++ request_frame method (integer c.next_id) params ∷ [];
        },
        ok (register c).1,
      )
  unfolding begin_request register
  begun method params requires_ready c g o =
      ap (λ gated. after_gate gated method params c) g
      ∙ ap (after_send (register c).1)
          (send_message-open (request_frame method (integer c.next_id) params) (register c).0 o)

  -- On a client whose pending requests are sound and that gave out fewer than 2^63 - 1 ids, a request
  -- that passes the gate on an open transport is handed over with the next id as one frame, after
  -- those that were handed over before, and then waits under that id; the id is not given out again.
  pub begin_request-sent :
      (n : ℕ) (method : String) (params : Value) (requires_ready : Bool) (c : Client Value Object)
      → Within n c
      → n + 1 < 2 ^ 63
      → gate method requires_ready c ≡ none
      → c.outbound_open ≡ true
      → (begin_request method params requires_ready c ≡ (
        record (register c).0 {
          outbound = c.outbound ++ request_frame method (integer c.next_id) params ∷ [];
        },
        ok (register c).1,
      ))
        × Waits (register c).1 (begin_request method params requires_ready c).0
        × Within (n + 1) (begin_request method params requires_ready c).0
  begin_request-sent n method params requires_ready c h bound g o =
      let e = begun method params requires_ready c g o in
      let r = register-Within n c h bound in
      (
        e,
        subst (λ b. Waits (register c).1 b.0) (sym e) (register-registered c),
        subst (λ b. Within (n + 1) b.0) (sym e)
            (record { next = r.next; is_next = r.is_next; few = r.few; sound = r.sound }),
      )
