-- ===== src/Tests/Requests.antt =====
-- Examples on the client's requests and its handshake.
use codex_sdk_rs.Prelude.{
  ◌+◌, ◌≤◌, ◌≡◌, ◌⊎◌, refl, arith, String, true, none, some, List, [], ◌∷◌, ◌++◌, length,
}
use codex_sdk_rs.Prelude.Int.{pos}
use codex_sdk_rs.Prelude.Text.{concat}
use codex_sdk_rs.Protocol.{integer, ClientError, Result, ok, err}
use codex_sdk_rs.Incoming.{request_frame, classify_incoming, classify_response}
use codex_sdk_rs.Events.{ServerEvent}
use codex_sdk_rs.Client.{
  Client, from_transport, handshake_initializing, handshake_ready, handshake_new,
}
use codex_sdk_rs.Client.Handlers.{HandlerChange, display_error, no_handlers}
use codex_sdk_rs.Client.Typed.{begin_typed, poll_typed, read_result, next_event}
use codex_sdk_rs.Client.Typed.Answered.{begin_typed-answered}
use codex_sdk_rs.Turn.Pump.{received, lagged, closed}
use codex_sdk_rs.Client.Pending.{lookup}
use codex_sdk_rs.Client.Requests.{Call, begin_request, expire, poll, register, gate}
use codex_sdk_rs.Client.Inbound.{run_inbound_loop, transport_failure}
use codex_sdk_rs.Client.Registered.{Within}
use codex_sdk_rs.Client.Inbound.{process_server_request}
use codex_sdk_rs.Client.Answers.{IsAnswered, IsPublished, process_server_request-answer}
use codex_sdk_rs.Client.Failure.{run_inbound_loop-transport_error}
use codex_sdk_rs.Client.Operations.{
  Operation, apply_operation, run_operations, run_operations-Within,
}
use codex_sdk_rs.Client.Delivery.{
  answer_frame, run_operations-answered, late_answer-ignored, outcome,
}
use codex_sdk_rs.Client.Handshake.{
  Progress, initialize_begin, initialize_end, initialized, ensure_ready_enter, ensure_ready_resume,
}
use codex_sdk_rs.Client.Ready.{explicit_handshake-monotone}
use codex_sdk_rs.Client.EnsureReady.{Ends, answered, ensure_ready-handshake}
use codex_sdk_rs.Tests.Json.{Json, Fields, get_field, fields_of, json}
use codex_sdk_rs.Tests.Decoders.{notifications, requests}

abbrev new_client : Client Json Fields
new_client = from_transport

abbrev new_client-Within : Within 1 new_client
new_client-Within = record {
  next = 1;
  is_next = refl;
  few = omega arith;
  sound = record { entries = tt; distinct = tt; unused = λ t le. refl };
}

-- A client that is ready, with one request under way.
abbrev first_call : Call
first_call = record { id = integer (pos 1); slot = 0 }

abbrev waiting_client : Client Json Fields
waiting_client = record new_client {
  handshake_state = handshake_ready;
  pending = (integer (pos 1), 0) ∷ [];
  next_slot = 1;
  next_id = pos 2;
}

abbrev waiting_client-Within : Within 2 waiting_client
waiting_client-Within = record {
  next = 2;
  is_next = refl;
  few = omega arith;
  sound = record {
    entries = (
      record {
        number = 1;
        is_id = refl;
        given_out = omega arith;
        slot_used = omega arith;
        waits = refl;
      },
      tt,
    );
    distinct = (tt, tt);
    unused = λ t le. refl;
  };
}

abbrev traffic : List Operation
traffic =
    Operation.request "thread/list" Json.null true
    ∷ Operation.receive (answer_frame (integer (pos 2)) (ok (Json.text "other")))
    ∷ []

run_operations-Within_example :
    Within (1 + length traffic) (run_operations notifications requests traffic new_client)
run_operations-Within_example =
    run_operations-Within notifications requests traffic 1 new_client new_client-Within
      (omega arith)

run_operations-answered_example :
    (poll first_call (run_operations notifications requests traffic waiting_client) ≡ none)
    × (poll first_call (
          apply_operation notifications requests
            (Operation.receive (answer_frame first_call.id (ok (Json.text "mine"))))
            (run_operations notifications requests traffic waiting_client))
        ≡ some (ok (Json.text "mine")))
unfolding lookup classify_incoming classify_response get_field fields_of
run_operations-answered_example =
    run_operations-answered notifications requests traffic 2 first_call waiting_client
      (ok (Json.text "mine")) waiting_client-Within (omega arith)
      (tt, ((λ e. ground (arith, e)), tt)) refl tt

late_answer-ignored_example :
    apply_operation notifications requests
      (Operation.receive (answer_frame first_call.id (ok (Json.text "late"))))
      (expire "thread/list" 30000 first_call waiting_client).0
    ≡ (expire "thread/list" 30000 first_call waiting_client).0
late_answer-ignored_example =
    late_answer-ignored notifications requests "thread/list" 30000 first_call waiting_client
      (ok (Json.text "late")) tt

-- A typed request of texts: they are serialised to JSON texts, and only those are read.
abbrev text_of : String → Result Json String
text_of s = ok (Json.text s)

abbrev read_text : Json → Result String String
read_text (Json.text s) = ok s
read_text other = err "expected a string"

abbrev other_traffic : List Operation
other_traffic =
    Operation.request "thread/list" Json.null true
    ∷ Operation.receive (answer_frame (integer (pos 1)) (ok (Json.text "other")))
    ∷ Operation.set_handler (HandlerChange.apply_patch_approval none)
    ∷ []

begin_typed-answered_example :
    ((begin_typed text_of "thread/read" "t1" true waiting_client).1
      ≡ ok (register waiting_client).1)
    × ((begin_typed text_of "thread/read" "t1" true waiting_client).0.outbound
        ≡ [] ++ request_frame "thread/read" (integer (pos 2)) (Json.text "t1") ∷ [])
    × (poll_typed read_text "thread/read" (register waiting_client).1 (
          run_operations notifications requests other_traffic
            (begin_typed text_of "thread/read" "t1" true waiting_client).0)
        ≡ none)
    × (poll_typed read_text "thread/read" (register waiting_client).1 (
          apply_operation notifications requests
            (Operation.receive (answer_frame (register waiting_client).1.id (ok Json.null)))
            (run_operations notifications requests other_traffic
              (begin_typed text_of "thread/read" "t1" true waiting_client).0))
        ≡ some (read_result read_text "thread/read" (outcome (ok Json.null))))
unfolding gate register lookup classify_incoming classify_response get_field fields_of
begin_typed-answered_example =
    begin_typed-answered notifications requests text_of read_text "thread/read" "t1"
      (Json.text "t1") true 2 waiting_client other_traffic (ok Json.null) refl waiting_client-Within
      (omega arith) refl refl (tt, ((λ e. ground (arith, e)), (tt, tt))) tt

-- What cannot be read as the type that was asked for is an error that names the method.
misread :
    read_result read_text "thread/read" (outcome (ok Json.null))
    ≡ err (ClientError.unexpected_result "thread/read" "expected a string")
unfolding read_result
misread = refl

-- Lag is skipped, and a closed channel is the end.
next_events :
    (next_event {Value = Json} {Object = Fields}
        (lagged ∷ received ServerEvent.transport_closed ∷ closed ∷ [])
      ≡ some (ok ServerEvent.transport_closed, closed ∷ []))
    × (next_event {Value = Json} {Object = Fields} (closed ∷ [])
        ≡ some (err ClientError.transport_closed, closed ∷ []))
unfolding next_event
next_events = (refl, refl)

run_inbound_loop-transport_error_example :
    (poll first_call
        (run_inbound_loop notifications requests (err (ClientError.io "reset") ∷ []) waiting_client)
      ≡ some (
          err (
            ClientError.rpc (
              transport_failure
                (concat ("transport error: " ∷ display_error (ClientError.io "reset") ∷ []))))))
    × ((run_inbound_loop notifications requests
          (err (ClientError.io "reset") ∷ [])
          waiting_client).pending
        ≡ [])
    × ((run_inbound_loop notifications requests
          (err (ClientError.io "reset") ∷ [])
          waiting_client).events
        ≡ [] ++ ServerEvent.transport_closed ∷ [])
unfolding lookup
run_inbound_loop-transport_error_example =
    run_inbound_loop-transport_error notifications requests 2 waiting_client first_call
      (ClientError.io "reset") [] waiting_client-Within refl

explicit_handshake-monotone_example :
    (3 ≤ (initialize_begin Json.null waiting_client).0.handshake_state)
    × (3 ≤ (initialize_end (ok tt) waiting_client).0.handshake_state)
    × (3 ≤ (initialized waiting_client).0.handshake_state)
explicit_handshake-monotone_example = explicit_handshake-monotone Json.null (ok tt) waiting_client

-- Every result is read as that of `initialize`.
abbrev read_any : Json → Result (Unit {0}) String
read_any value = ok tt

abbrev meanwhile : List Operation
meanwhile = Operation.set_handler (HandlerChange.apply_patch_approval none) ∷ []

ensure_ready-handshake_example :
    let call = (register new_client).1 in
    let (begun, progress) = ensure_ready_enter Json.null new_client in
    let later = answered notifications requests meanwhile call (ok Json.null) begun in
    let read = read_result read_any "initialize" (outcome (ok Json.null)) in
    (progress ≡ Progress.waits call)
    × (begun.outbound ≡ [] ++ request_frame "initialize" (integer (pos 1)) Json.null ∷ [])
    × (begun.handshake_state ≡ handshake_initializing)
    × (poll_typed read_any "initialize" call (run_operations notifications requests meanwhile begun)
        ≡ none)
    × (poll_typed read_any "initialize" call later ≡ some read)
    × Ends read later (ensure_ready_resume read later)
unfolding register lookup classify_incoming classify_response get_field fields_of
    codex_sdk_rs.Client.Inbound.process_incoming_value codex_sdk_rs.Client.Inbound.deliver
    ensure_ready_enter begin_request gate codex_sdk_rs.Client.Pending.insert
ensure_ready-handshake_example =
    ensure_ready-handshake notifications requests read_any Json.null 1 new_client meanwhile
      (ok Json.null) new_client-Within (omega arith) (omega arith) refl (tt, tt) tt refl

-- A client with a handler that approves every patch.
abbrev approving_client : Client Json Fields
approving_client = record waiting_client {
  server_request_handlers = record no_handlers {
    apply_patch_approval = some (λ params. ok (Json.text "approved"));
  };
}

process_server_request-answer_example :
    let after =
      process_server_request notifications requests
        (integer (pos 9))
        "applyPatchApproval"
        (Json.object Fields.none_left)
        approving_client in
    IsAnswered notifications requests
      (integer (pos 9))
      "applyPatchApproval"
      (Json.object Fields.none_left)
      approving_client
      after
    ⊎ IsPublished notifications requests
        (integer (pos 9))
        "applyPatchApproval"
        (Json.object Fields.none_left)
        approving_client
        after
process_server_request-answer_example =
    process_server_request-answer notifications requests (integer (pos 9)) "applyPatchApproval"
      (Json.object Fields.none_left) approving_client refl
