-- ===== src/Turn/EndToEnd.antt =====
-- One turn from the server's events to the result of `Thread::run` (crates/sdk/src/api.rs): the pump
-- and the loop over its stream, joined.
use codex_sdk_rs.Prelude.{
  ℕ, zero, suc, ◌<◌, ◌≡◌, refl, sym, ap, ◌∙◌, String, true, false, Option, none, List, [], ◌∷◌,
  ◌++◌, map_some, unwrap_or, or_else, str_eq, arith, length, All,
}
use codex_sdk_rs.Prelude.Text.{to_ascii_lowercase}
use codex_sdk_rs.Protocol.{ok, err}
use codex_sdk_rs.SerdeJson.{SerdeJson}
use codex_sdk_rs.ThreadItem.{ThreadEvent, Usage}
use codex_sdk_rs.Events.{ServerEvent}
use codex_sdk_rs.Events.Notifications.{ServerNotification}
use codex_sdk_rs.Events.Payloads.{TurnCompletedNotification, TurnError}
use codex_sdk_rs.Turn.{
  Reaction, on_turn_completed, on_notification, react, parse_usage_from_turn_extra,
}
use codex_sdk_rs.Turn.Pump.{Recv, received, lagged, closed, Item, pump, pump_turn_events}
use codex_sdk_rs.Turn.Run.{ThreadRunError, Progress, no_progress, run_from, run}
use codex_sdk_rs.Turn.Response.{response_of, advance, advance-nil, advance-append}
use codex_sdk_rs.Turn.Completion.{
  Outcome, run_from-act, ends_turn, IsQuiet, completed_by, completed, usage_after, reported_usage,
  react-Does,
}

module _ ⦃json : SerdeJson⦄ (thread_id turn_id : String) where
  open json use {Value, Object}

  run_from-quiet :
      (before rest : List (Recv Value Object)) (room : ℕ) (u : Option Usage) (p : Progress Value)
      (result : Outcome)
      → All (IsQuiet thread_id turn_id) before
      → length before < room
      → ((k : ℕ)
          → 0 < k
          → run_from
              (advance p (completed thread_id turn_id before))
              (pump thread_id turn_id rest k (reported_usage thread_id turn_id u before)).sent
            ≡ result)
      → run_from p (pump thread_id turn_id (before ++ rest) room u).sent ≡ result
  unfolding pump
  run_from-quiet [] rest room u p result q fits h =
      ap (λ (s : Progress Value). run_from s (pump thread_id turn_id rest room u).sent)
        (sym (advance-nil p))
      ∙ h room (omega arith)
  run_from-quiet (closed ∷ before) rest room u p result (q, qs) fits h = absurd q
  run_from-quiet (lagged ∷ before) rest room u p result (q, qs) fits h =
      run_from-quiet before rest room u p result qs (omega arith) h
  run_from-quiet (received event ∷ before) rest zero u p result (q, qs) fits h = elim fits [ ]
  run_from-quiet (received event ∷ before) rest (suc room) u p result (q, qs) fits h =
      let xs = completed_by thread_id turn_id event in
      let ys = completed thread_id turn_id before in
      let v = usage_after thread_id turn_id u event in
      run_from-act (react thread_id turn_id u event) room u v xs
        (pump thread_id turn_id (before ++ rest)) p result (react-Does thread_id turn_id u event q)
        λ k le. run_from-quiet before rest k v (advance p xs) result qs (omega arith) λ m some_room.
          ap
            (λ (s : Progress Value).
              run_from s
                (pump thread_id turn_id rest m (reported_usage thread_id turn_id v before)).sent)
            (advance-append p xs ys)
          ∙ h m some_room

  module _ (before after : List (Recv Value Object)) (room : ℕ)
      (payload : TurnCompletedNotification Value Object)
      (quiet : All (IsQuiet thread_id turn_id) before) (fits : length before < room)
      (ends : ends_turn thread_id turn_id payload ≡ true) where
    abbrev stop : Recv Value Object
    stop = received (ServerEvent.notification (ServerNotification.turn_completed payload))

    run_until_stop :
        (item : Item Value)
        → react thread_id turn_id
            (reported_usage thread_id turn_id none before)
            (ServerEvent.notification (ServerNotification.turn_completed payload))
          ≡ Reaction.last item
        → run (
            ok ThreadEvent.turn_started
            ∷ (pump_turn_events thread_id turn_id (before ++ stop ∷ after) room).sent)
          ≡ run_from (advance no_progress (completed thread_id turn_id before)) (item ∷ [])
    unfolding run pump_turn_events
    run_until_stop item e =
        run_from-quiet before (stop ∷ after) room none no_progress _ quiet fits last_item
      where
        last_item :
            (k : ℕ)
            → 0 < k
            → run_from
                (advance no_progress (completed thread_id turn_id before))
                (pump thread_id turn_id
                  (stop ∷ after)
                  k
                  (reported_usage thread_id turn_id none before)).sent
              ≡ run_from (advance no_progress (completed thread_id turn_id before)) (item ∷ [])
        last_item zero none_left = elim none_left [ ]
        last_item (suc k) some_left = rw (e, pump) refl

    -- A turn that the server completes with a status other than "failed" is returned with the items
    -- that the server completed for it, in order; its response is the last final answer among them,
    -- else the last other agent message, else the empty text. Its usage is that of the completed
    -- turn, else the last that was reported for the turn. Before it, nothing may end the turn or
    -- report an error of it, and the consumer takes more items than there are events before it; other
    -- traffic, lag, and all that follows make no difference.
    pub run-turn_completed :
        str_eq (to_ascii_lowercase (unwrap_or "" payload.turn.status)) "failed" ≡ false
        → run (
            ok ThreadEvent.turn_started
            ∷ (pump_turn_events thread_id turn_id (before ++ stop ∷ after) room).sent)
          ≡ ok (record {
            items = completed thread_id turn_id before;
            final_response = response_of (completed thread_id turn_id before);
            usage =
                or_else
                  (parse_usage_from_turn_extra payload.turn.extra)
                  (reported_usage thread_id turn_id none before);
          })
    unfolding run_from react on_notification on_turn_completed
    run-turn_completed fine =
        run_until_stop
          (ok (
            ThreadEvent.turn_completed (
              or_else (parse_usage_from_turn_extra payload.turn.extra)
                (reported_usage thread_id turn_id none before))))
          (rw (ends, fine) refl)

    -- A turn that the server completes with the status "failed", in any case of letters, is returned
    -- as `TurnFailed` with the server's message, or "turn failed" where it sent none, under the same
    -- conditions on what comes before it.
    pub run-turn_failed :
        str_eq (to_ascii_lowercase (unwrap_or "" payload.turn.status)) "failed" ≡ true
        → run (
            ok ThreadEvent.turn_started
            ∷ (pump_turn_events thread_id turn_id (before ++ stop ∷ after) room).sent)
          ≡ err (
              ThreadRunError.turn_failed (
                unwrap_or "turn failed"
                  (map_some (λ (e : TurnError Value Object). e.message) payload.turn.error)))
    unfolding run_from react on_notification on_turn_completed
    run-turn_failed failed =
        run_until_stop
          (ok (
            ThreadEvent.turn_failed (record {
              message =
                  unwrap_or "turn failed"
                    (map_some (λ (e : TurnError Value Object). e.message) payload.turn.error);
            })))
          (rw (ends, failed) refl)
