-- ===== src/Tests/Turns.antt =====
-- Examples on the turns of a thread.
use codex_sdk_rs.Prelude.{◌≡◌, refl, arith, eq_iff, none, some, List, [], ◌∷◌, ◌++◌, or_else, inl}
use codex_sdk_rs.Prelude.Text.{to_ascii_lowercase}
use codex_sdk_rs.Protocol.{ok, err}
use codex_sdk_rs.ThreadItem.{ThreadItem, ThreadEvent}
use codex_sdk_rs.Events.{ServerEvent}
use codex_sdk_rs.Events.Notifications.{ServerNotification}
use codex_sdk_rs.Events.Payloads.{TurnCompletedNotification}
use codex_sdk_rs.Turn.{matches_target_from_extra, parse_usage_from_turn_extra}
use codex_sdk_rs.Turn.Pump.{Recv, received, lagged, closed, Item, pump, pump_turn_events}
use codex_sdk_rs.Turn.Run.{ThreadRunError, run}
use codex_sdk_rs.Turn.Response.{completed_items, response_of, verdict, run-verdict}
use codex_sdk_rs.Turn.Isolation.{pump-IsForeign}
use codex_sdk_rs.Turn.Stream.{Shape, pump-Shape}
use codex_sdk_rs.Turn.Completion.{completed, reported_usage}
use codex_sdk_rs.Turn.EndToEnd.{run-turn_completed, run-turn_failed}
use codex_sdk_rs.Tests.Json.{Json, Fields, get_field, json}

abbrev answer : ThreadItem Json
answer = ThreadItem.agent_message (record { id = "a1"; text = "done"; phase = none })

abbrev stream : List (Item Json)
stream = ok ThreadEvent.turn_started ∷ ok (ThreadEvent.item_completed answer) ∷ []

run-verdict_example :
    run (stream ++ ok (ThreadEvent.turn_completed none) ∷ [])
    ≡ verdict (completed_items stream) (ok (ThreadEvent.turn_completed none))
run-verdict_example =
    run-verdict stream [] (ok (ThreadEvent.turn_completed none)) (tt, (tt, tt)) (λ h. h)

-- `{"threadId": "t2"}`.
abbrev elsewhere : Fields
elsewhere = Fields.entry "threadId" (Json.text "t2") Fields.none_left

abbrev foreign : ServerNotification Json Fields
foreign = ServerNotification.item_started (record { item = Json.null; extra = elsewhere })

pump-IsForeign_example :
    pump "t1" "u1" ([] ++ received (ServerEvent.notification foreign) ∷ closed ∷ []) 5 none
    ≡ pump "t1" "u1" ([] ++ closed ∷ []) 5 none
unfolding get_field
pump-IsForeign_example =
    pump-IsForeign "t1" "u1" [] (closed ∷ []) foreign 5 none
      (inl ("t2", refl, λ e. ground (arith, e, eq_iff "t2" "t1")))

pump-Shape_example : Shape 5 (pump "t1" "u1" (lagged ∷ closed ∷ []) 5 none)
pump-Shape_example = pump-Shape "t1" "u1" (lagged ∷ closed ∷ []) 5 none

abbrev completed_turn : TurnCompletedNotification Json Fields
completed_turn = record {
  turn = record {
    id = "u1";
    status = some "completed";
    items = [];
    error = none;
    extra = Fields.none_left;
  };
  extra = Fields.none_left;
}

abbrev failed_turn : TurnCompletedNotification Json Fields
failed_turn = record {
  turn = record {
    id = "u1";
    status = some "FAILED";
    items = [];
    error = none;
    extra = Fields.none_left;
  };
  extra = Fields.none_left;
}

-- Lag, and an agent message that is completed for the turn.
abbrev before : List (Recv Json Fields)
before =
    lagged
    ∷ received (
        ServerEvent.notification (
          ServerNotification.item_completed (record {
            item = Json.object (
                Fields.entry "type" (Json.text "agentMessage")
                  (Fields.entry "text" (Json.text "done") Fields.none_left));
            extra = Fields.none_left;
          })))
    ∷ []

abbrev ends : TurnCompletedNotification Json Fields → Recv Json Fields
ends payload = received (ServerEvent.notification (ServerNotification.turn_completed payload))

run-turn_completed_example :
    run (
      ok ThreadEvent.turn_started
      ∷ (pump_turn_events "t1" "u1" (before ++ ends completed_turn ∷ []) 5).sent)
    ≡ ok (record {
      items = completed "t1" "u1" before;
      final_response = response_of (completed "t1" "u1" before);
      usage =
          or_else
            (parse_usage_from_turn_extra completed_turn.turn.extra)
            (reported_usage "t1" "u1" none before);
    })
unfolding matches_target_from_extra get_field to_ascii_lowercase
run-turn_completed_example =
    run-turn_completed "t1" "u1" before [] 5 completed_turn (tt, (tt, tt)) (omega arith) refl refl

run-turn_failed_example :
    run (
      ok ThreadEvent.turn_started
      ∷ (pump_turn_events "t1" "u1" (before ++ ends failed_turn ∷ []) 5).sent)
    ≡ err (ThreadRunError.turn_failed "turn failed")
unfolding matches_target_from_extra get_field to_ascii_lowercase
run-turn_failed_example =
    run-turn_failed "t1" "u1" before [] 5 failed_turn (tt, (tt, tt)) (omega arith) refl refl
