-- ===== src/Turn/Isolation.antt =====
-- Which server events concern a turn (`pump_turn_events` in crates/sdk/src/api.rs).
use codex_sdk_rs.Prelude.{
  ℕ, ◌≡◌, ◌≢◌, refl, ap, ◌⊎◌, inl, inr, String, false, Option, some, List, [], ◌∷◌, ◌++◌,
  ◌and_then◌, arith, eq_iff,
}
use mathlib.Core.Path.{fun_ext}
use codex_sdk_rs.SerdeJson.{SerdeJson}
use codex_sdk_rs.ThreadItem.{Usage}
use codex_sdk_rs.Events.{ServerEvent}
use codex_sdk_rs.Events.Notifications.{ServerNotification}
use codex_sdk_rs.Turn.{
  Reaction, matches_target_from_extra, on_turn_completed, on_token_usage, on_notification, react,
}
use codex_sdk_rs.Turn.Pump.{Recv, received, lagged, closed, act, pump}

module _ ⦃json : SerdeJson⦄ (thread_id turn_id : String) where
  open json use {Value, Object, as_str, get}

  -- The map names another thread or another turn.
  abbrev pub Elsewhere : Object → Type 0
  Elsewhere extra =
      ((t : String) × ((get "threadId" extra and_then as_str) ≡ some t) × (t ≢ thread_id))
      ⊎ ((t : String) × ((get "turnId" extra and_then as_str) ≡ some t) × (t ≢ turn_id))

  -- A notification that names another thread or another turn, or of which the pump takes no notice. A
  -- completed turn has an id of its own, and a report of token usage may name a thread of its own.
  abbrev pub IsForeign : ServerNotification Value Object → Type 0
  IsForeign (ServerNotification.item_started payload) = Elsewhere payload.extra
  IsForeign (ServerNotification.item_completed payload) = Elsewhere payload.extra
  IsForeign (ServerNotification.item_agent_message_delta delta) = Elsewhere delta.extra
  IsForeign (ServerNotification.item_plan_delta delta) = Elsewhere delta.extra
  IsForeign (ServerNotification.item_reasoning_summary_text_delta delta) = Elsewhere delta.extra
  IsForeign (ServerNotification.item_reasoning_text_delta delta) = Elsewhere delta.extra
  IsForeign (ServerNotification.turn_completed payload) =
      (payload.turn.id ≢ turn_id) ⊎ Elsewhere payload.turn.extra
  IsForeign (ServerNotification.thread_token_usage_updated payload) =
      ((t : String) × (payload.thread_id ≡ some t) × (t ≢ thread_id)) ⊎ Elsewhere payload.extra
  IsForeign (ServerNotification.error payload) = Elsewhere payload.extra
  IsForeign _ = Unit

  matches-Elsewhere :
      (extra : Object)
      → Elsewhere extra
      → matches_target_from_extra extra thread_id (some turn_id) ≡ false
  unfolding matches_target_from_extra
  matches-Elsewhere extra (inl (t, e, other)) = ground (arith, eq_iff t thread_id)
  matches-Elsewhere extra (inr (t, e, other)) = ground (arith, eq_iff t turn_id)

  on_notification-IsForeign :
      (latest : Option Usage) (n : ServerNotification Value Object)
      → IsForeign n
      → on_notification thread_id turn_id latest n ≡ Reaction.skip
  unfolding on_notification on_turn_completed on_token_usage
  on_notification-IsForeign latest (ServerNotification.item_started payload) h =
      rw (matches-Elsewhere payload.extra h) refl
  on_notification-IsForeign latest (ServerNotification.item_completed payload) h =
      rw (matches-Elsewhere payload.extra h) refl
  on_notification-IsForeign latest (ServerNotification.item_agent_message_delta delta) h =
      rw (matches-Elsewhere delta.extra h) refl
  on_notification-IsForeign latest (ServerNotification.item_plan_delta delta) h =
      rw (matches-Elsewhere delta.extra h) refl
  on_notification-IsForeign latest (ServerNotification.item_reasoning_summary_text_delta delta) h =
      rw (matches-Elsewhere delta.extra h) refl
  on_notification-IsForeign latest (ServerNotification.item_reasoning_text_delta delta) h =
      rw (matches-Elsewhere delta.extra h) refl
  on_notification-IsForeign latest (ServerNotification.turn_completed payload) (inl other) =
      ground (arith, eq_iff payload.turn.id turn_id, other)
  on_notification-IsForeign latest (ServerNotification.turn_completed payload) (inr h) =
      ground (arith, matches-Elsewhere payload.turn.extra h)
  on_notification-IsForeign latest (ServerNotification.thread_token_usage_updated payload)
        (inl (t, e, other)) =
      rw e (ground (arith, eq_iff t thread_id, other))
  on_notification-IsForeign latest (ServerNotification.thread_token_usage_updated payload) (inr h) =
      ground (arith, matches-Elsewhere payload.extra h)
  on_notification-IsForeign latest (ServerNotification.error payload) h =
      rw (matches-Elsewhere payload.extra h) refl
  on_notification-IsForeign latest _ h = refl

  -- A notification that names another thread or another turn (in its extra fields, a completed turn
  -- also by its id and a report of token usage by its thread), or that is of a kind the pump does not
  -- look at, changes nothing wherever it arrives: the same results are sent, and the pump is as far.
  pub pump-IsForeign :
      (before after : List (Recv Value Object)) (n : ServerNotification Value Object) (room : ℕ)
      (latest : Option Usage)
      → IsForeign n
      → pump thread_id turn_id (before ++ received (ServerEvent.notification n) ∷ after) room latest
        ≡ pump thread_id turn_id (before ++ after) room latest
  unfolding pump react
  pump-IsForeign [] after n room latest h = rw (on_notification-IsForeign latest n h, pump) refl
  pump-IsForeign (closed ∷ before) after n room latest h = refl
  pump-IsForeign (lagged ∷ before) after n room latest h =
      pump-IsForeign before after n room latest h
  pump-IsForeign (received event ∷ before) after n room latest h =
      ap (act (react thread_id turn_id latest event) room latest)
        (fun_ext λ room'. fun_ext λ latest'. pump-IsForeign before after n room' latest' h)
