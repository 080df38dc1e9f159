-- ===== src/Turn/Completion.antt =====
-- One turn from the server's events to the result of `Thread::run` (crates/sdk/src/api.rs).
use codex_sdk_rs.Prelude.{
  ℕ, suc, ◌≤◌, ◌≡◌, refl, sym, ap, ◌∙◌, String, Bool, true, false, Option, some, List, [], ◌∷◌,
  ◌++◌, ◌&&◌, ◌and_then◌, map_some, unwrap_or, or_else, str_eq, if◌then◌else◌, if_elim, Bool-cases,
  inl, inr, arith,
}
use codex_sdk_rs.Prelude.Text.{is_empty_str}
use codex_sdk_rs.Protocol.{Result}
use codex_sdk_rs.SerdeJson.{SerdeJson}
use codex_sdk_rs.ThreadItem.{ThreadItem, ThreadEvent, Usage}
use codex_sdk_rs.ThreadItem.Parse.{parse_thread_item}
use codex_sdk_rs.Events.{ServerEvent}
use codex_sdk_rs.Events.Notifications.{ServerNotification}
use codex_sdk_rs.Events.Payloads.{DeltaNotification, TurnCompletedNotification}
use codex_sdk_rs.Turn.{
  Reaction, send_some, delta_item_updated, on_target, matches_target_from_extra, on_turn_completed,
  on_token_usage, on_notification, react, parse_usage_from_value,
}
use codex_sdk_rs.Turn.Pump.{Recv, received, closed, Pumped, act}
use codex_sdk_rs.Turn.Run.{FinishedTurn, ThreadRunError, Progress, complete_item, run_from}
use codex_sdk_rs.Turn.Response.{advance, advance-nil, advance-cons}

module _ ⦃json : SerdeJson⦄ where
  open json use {Value, Object, get}

  -- What a reaction does to the run: the items that it completes, and the usage before and after.
  -- Reactions that end the run or report an error are excluded.
  abbrev pub Does : Reaction → List (ThreadItem Value) → Option Usage → Option Usage → Type 0
  Does Reaction.skip items u v = (items ≡ []) × (v ≡ u)
  Does (Reaction.remember usage) items u v = (items ≡ []) × (v ≡ usage)
  Does (Reaction.send (ThreadEvent.item_completed item)) items u v = (items ≡ item ∷ []) × (v ≡ u)
  Does (Reaction.send (ThreadEvent.turn_completed usage)) items u v = ⊥
  Does (Reaction.send (ThreadEvent.turn_failed e)) items u v = ⊥
  Does (Reaction.send (ThreadEvent.error message)) items u v = ⊥
  Does (Reaction.send event) items u v = (items ≡ []) × (v ≡ u)
  Does (Reaction.last item) items u v = ⊥

  module _ (p : Progress Value) {items : List (ThreadItem Value)} where
    idle : items ≡ [] → p ≡ advance p items
    idle e = sym (advance-nil p) ∙ ap (λ l. advance p l) (sym e)

    completes :
        (item : ThreadItem Value) → items ≡ item ∷ [] → complete_item item p ≡ advance p items
    completes item e =
        sym (advance-nil (complete_item item p))
        ∙ advance-cons p item []
        ∙ ap (λ l. advance p l) (sym e)

  abbrev pub Outcome : Type 0
  Outcome = Result (FinishedTurn Value) (ThreadRunError Value)

  pub run_from-act :
      (r : Reaction) (room : ℕ) (u v : Option Usage) (items : List (ThreadItem Value))
      (go_on : ℕ → Option Usage → Pumped Value) (p : Progress Value) (result : Outcome)
      → Does r items u v
      → ((k : ℕ) → room ≤ k → run_from (advance p items) (go_on k v).sent ≡ result)
      → run_from p (act r (suc room) u go_on).sent ≡ result
  unfolding run_from
  run_from-act Reaction.skip room u v items go_on p result (e, f) h =
      (λ i. run_from (idle p e i) (go_on (suc room) (sym f i)).sent) ∙ h (suc room) (omega arith)
  run_from-act (Reaction.remember usage) room u v items go_on p result (e, f) h =
      (λ i. run_from (idle p e i) (go_on (suc room) (sym f i)).sent) ∙ h (suc room) (omega arith)
  run_from-act (Reaction.send (ThreadEvent.item_completed item)) room u v items go_on p result
        (e, f) h =
      (λ i. run_from (completes p item e i) (go_on room (sym f i)).sent) ∙ h room (omega arith)
  run_from-act (Reaction.send (ThreadEvent.thread_started id)) room u v items go_on p result (e, f)
        h =
      (λ i. run_from (idle p e i) (go_on room (sym f i)).sent) ∙ h room (omega arith)
  run_from-act (Reaction.send ThreadEvent.turn_started) room u v items go_on p result (e, f) h =
      (λ i. run_from (idle p e i) (go_on room (sym f i)).sent) ∙ h room (omega arith)
  run_from-act (Reaction.send (ThreadEvent.item_started item)) room u v items go_on p result (e, f)
        h =
      (λ i. run_from (idle p e i) (go_on room (sym f i)).sent) ∙ h room (omega arith)
  run_from-act (Reaction.send (ThreadEvent.item_updated item)) room u v items go_on p result (e, f)
        h =
      (λ i. run_from (idle p e i) (go_on room (sym f i)).sent) ∙ h room (omega arith)
  run_from-act (Reaction.send (ThreadEvent.turn_completed usage)) room u v items go_on p result d
        h =
      absurd d
  run_from-act (Reaction.send (ThreadEvent.turn_failed e)) room u v items go_on p result d h =
      absurd d
  run_from-act (Reaction.send (ThreadEvent.error message)) room u v items go_on p result d h =
      absurd d
  run_from-act (Reaction.last item) room u v items go_on p result d h = absurd d

  delta-Does :
      (delta : DeltaNotification Value Object) (build : String → String → ThreadItem Value)
      (u : Option Usage)
      → Does (send_some (delta_item_updated delta build)) [] u u
  unfolding delta_item_updated
  delta-Does delta build u =
      if_elim (λ o. Does (send_some o) [] u u)
        (is_empty_str (unwrap_or "" (or_else delta.delta delta.text))) (λ e. (refl, refl))
        (λ e. (refl, refl))

  module _ (thread_id turn_id : String) where
    abbrev pub on : Object → Bool
    on extra = matches_target_from_extra extra thread_id (some turn_id)

    -- The notification completes the turn.
    abbrev pub ends_turn : TurnCompletedNotification Value Object → Bool
    ends_turn payload = str_eq payload.turn.id turn_id && on payload.turn.extra

    -- What is received neither ends the turn nor reports an error of it.
    abbrev pub IsQuiet : Recv Value Object → Type 0
    IsQuiet closed = ⊥
    IsQuiet (received ServerEvent.transport_closed) = ⊥
    IsQuiet (received (ServerEvent.notification (ServerNotification.turn_completed payload))) =
        ends_turn payload ≡ false
    IsQuiet (received (ServerEvent.notification (ServerNotification.error payload))) =
        on payload.extra ≡ false
    IsQuiet _ = Unit

    -- The items of the turn that the events complete, in order.
    abbrev pub completed_by : ServerEvent Value Object → List (ThreadItem Value)
    completed_by (ServerEvent.notification (ServerNotification.item_completed payload)) =
        if on payload.extra then parse_thread_item payload.item ∷ [] else []
    completed_by _ = []

    abbrev pub completed : List (Recv Value Object) → List (ThreadItem Value)
    completed [] = []
    completed (received event ∷ rest) = completed_by event ++ completed rest
    completed (_ ∷ rest) = completed rest

    -- The usage that the last token-usage notification of the turn reports.
    abbrev pub usage_after : Option Usage → ServerEvent Value Object → Option Usage
    usage_after u
          (ServerEvent.notification (ServerNotification.thread_token_usage_updated payload)) =
        if unwrap_or true (map_some (λ incoming. str_eq incoming thread_id) payload.thread_id)
          && on payload.extra
        then or_else (payload.usage and_then parse_usage_from_value)
            (get "tokenUsage" payload.extra and_then parse_usage_from_value)
        else u
    usage_after u _ = u

    abbrev pub reported_usage : Option Usage → List (Recv Value Object) → Option Usage
    reported_usage u [] = u
    reported_usage u (received event ∷ rest) = reported_usage (usage_after u event) rest
    reported_usage u (_ ∷ rest) = reported_usage u rest

    on_target-Does :
        (extra : Object) (r : Reaction) (items : List (ThreadItem Value)) (u : Option Usage)
        → Does r items u u
        → Does (on_target thread_id turn_id extra r) (if on extra then items else []) u u
    on_target-Does extra r items u d = elim (Bool-cases (on extra)) [
      | inl e ↦ rw e d
      | inr e ↦ rw e (refl, refl)
    ]

    on_target_silent-Does :
        (extra : Object) (r : Reaction) (u : Option Usage)
        → Does r [] u u
        → Does (on_target thread_id turn_id extra r) [] u u
    on_target_silent-Does extra r u d =
        if_elim (λ r'. Does r' [] u u) (on extra) (λ e. d) (λ e. (refl, refl))

    on_notification-Does :
        (u : Option Usage) (n : ServerNotification Value Object)
        → IsQuiet (received (ServerEvent.notification n))
        → Does
            (on_notification thread_id turn_id u n)
            (completed_by (ServerEvent.notification n))
            u
            (usage_after u (ServerEvent.notification n))
    unfolding on_notification on_turn_completed on_token_usage
    on_notification-Does u (ServerNotification.item_started payload) q =
        on_target_silent-Does payload.extra _ u (refl, refl)
    on_notification-Does u (ServerNotification.item_completed payload) q =
        on_target-Does payload.extra _ _ u (refl, refl)
    on_notification-Does u (ServerNotification.item_agent_message_delta delta) q =
        on_target_silent-Does delta.extra _ u (delta-Does delta _ u)
    on_notification-Does u (ServerNotification.item_plan_delta delta) q =
        on_target_silent-Does delta.extra _ u (delta-Does delta _ u)
    on_notification-Does u (ServerNotification.item_reasoning_summary_text_delta delta) q =
        on_target_silent-Does delta.extra _ u (delta-Does delta _ u)
    on_notification-Does u (ServerNotification.item_reasoning_text_delta delta) q =
        on_target_silent-Does delta.extra _ u (delta-Does delta _ u)
    on_notification-Does u (ServerNotification.turn_completed payload) q = rw q (refl, refl)
    on_notification-Does u (ServerNotification.thread_token_usage_updated payload) q =
        elim (Bool-cases (
          unwrap_or true (map_some (λ incoming. str_eq incoming thread_id) payload.thread_id)
          && on payload.extra)) [ inl e ↦ rw e (refl, refl) | inr e ↦ rw e (refl, refl) ]
    on_notification-Does u (ServerNotification.error payload) q = rw q (refl, refl)
    on_notification-Does u _ q = (refl, refl)

    pub react-Does :
        (u : Option Usage) (event : ServerEvent Value Object)
        → IsQuiet (received event)
        → Does (react thread_id turn_id u event) (completed_by event) u (usage_after u event)
    unfolding react
    react-Does u (ServerEvent.notification n) q = on_notification-Does u n q
    react-Does u ServerEvent.transport_closed q = absurd q
    react-Does u (ServerEvent.server_request request) q = (refl, refl)
