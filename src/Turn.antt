-- ===== src/Turn.antt =====
-- The streaming of one turn in crates/sdk/src/api.rs: token usage, the filter by thread and turn, and
-- what `pump_turn_events` makes of one server event.
pub mod Pump
pub mod Run
pub mod TokenUsage
pub mod Isolation
pub mod Completion
pub mod EndToEnd
pub mod Response
pub mod Stream
use codex_sdk_rs.Prelude.{
  ℕ, zero, suc, String, Bool, true, false, Option, none, some, List, [], ◌∷◌, ◌&&◌, ◌and_then◌,
  map_some, unwrap_or, or_else, str_eq, if◌then◌else◌,
}
use codex_sdk_rs.Prelude.Int.{ℤ, pos}
use codex_sdk_rs.Prelude.Text.{is_empty_str, to_ascii_lowercase}
use codex_sdk_rs.Protocol.{Result, ok, err, ClientError}
use codex_sdk_rs.SerdeJson.{SerdeJson, as_i64}
use codex_sdk_rs.ThreadItem.{ThreadItem, ThreadEvent, ThreadError, Usage}
use codex_sdk_rs.ThreadItem.Parse.{parse_thread_item}
use codex_sdk_rs.Events.{ServerEvent}
use codex_sdk_rs.Events.Notifications.{ServerNotification}
use codex_sdk_rs.Events.Payloads.{
  DeltaNotification, TurnCompletedNotification, ThreadTokenUsageUpdatedNotification, TurnError,
}

module _ ⦃json : SerdeJson⦄ where
  open json use {Value, Object, as_object, as_str, get, depth}

  int_field : String → Object → Option ℤ
  int_field key object = get key object and_then as_i64

  unfoldable pub usage_fields : Object → Option Usage
  unfolding int_field
  usage_fields object = int_field "inputTokens" object and_then λ input_tokens.
      int_field "outputTokens" object and_then λ output_tokens. some (record {
        input_tokens = input_tokens;
        cached_input_tokens = unwrap_or (pos 0) (int_field "cachedInputTokens" object);
        output_tokens = output_tokens;
      })

  -- `parse_usage_from_value` follows `last` down; the fuel is one more than the value's depth.
  unfoldable pub usage_by_fuel : ℕ → Value → Option Usage
  usage_by_fuel zero value = none
  usage_by_fuel (suc fuel) value = elim (as_object value) [
    | none ↦ none
    | some object ↦ elim (get "last" object) [
      | some last ↦ usage_by_fuel fuel last
      | none ↦ usage_fields object
    ]
  ]

  unfoldable pub parse_usage_from_value : Value → Option Usage
  parse_usage_from_value value = usage_by_fuel (suc (depth value)) value

  abbrev pub parse_usage_from_turn_extra : Object → Option Usage
  parse_usage_from_turn_extra extra =
      or_else (get "usage" extra and_then parse_usage_from_value)
        (get "tokenUsage" extra and_then parse_usage_from_value)

  -- `extra.get(key).and_then(as_str).map(|incoming| incoming == target).unwrap_or(true)`.
  abbrev pub field_matches : String → String → Object → Bool
  field_matches key target extra =
      unwrap_or true (map_some (λ incoming. str_eq incoming target) (get key extra and_then as_str))

  unfoldable pub matches_target_from_extra : Object → String → Option String → Bool
  matches_target_from_extra extra thread_id turn_id =
      field_matches "threadId" thread_id extra && elim turn_id [
        | none ↦ true
        | some target_turn_id ↦ field_matches "turnId" target_turn_id extra
      ]

  unfoldable pub delta_item_updated :
      DeltaNotification Value Object
      → (String → String → ThreadItem Value)
      → Option (ThreadEvent Value)
  delta_item_updated delta build_item =
      let text = unwrap_or "" (or_else delta.delta delta.text) in
      if is_empty_str text
      then none
      else some (ThreadEvent.item_updated (build_item (unwrap_or "" delta.item_id) text))

  -- What the pump does with one server event: nothing, keep the usage, send an event and go on, or
  -- send a last result and stop.
  pub data Reaction : Type 0 where
    skip : Reaction
    remember : Option Usage → Reaction
    send : ThreadEvent Value → Reaction
    last : Result (ThreadEvent Value) (ClientError Value) → Reaction

  abbrev pub send_some : Option (ThreadEvent Value) → Reaction
  send_some none = Reaction.skip
  send_some (some event) = Reaction.send event

  module _ (thread_id turn_id : String) where
    abbrev pub on_target : Object → Reaction → Reaction
    on_target extra reaction =
        if matches_target_from_extra extra thread_id (some turn_id) then reaction else Reaction.skip

    unfoldable pub on_turn_completed :
        Option Usage → TurnCompletedNotification Value Object → Reaction
    on_turn_completed latest_usage payload =
        if str_eq payload.turn.id turn_id
          && matches_target_from_extra payload.turn.extra thread_id (some turn_id)
        then (if str_eq (to_ascii_lowercase (unwrap_or "" payload.turn.status)) "failed"
            then Reaction.last (
                Result.ok (
                  ThreadEvent.turn_failed (record {
                    message =
                        unwrap_or "turn failed"
                          (map_some (λ (e : TurnError Value Object). e.message) payload.turn.error);
                  })))
            else Reaction.last (
                Result.ok (
                  ThreadEvent.turn_completed
                    (or_else (parse_usage_from_turn_extra payload.turn.extra) latest_usage))))
        else Reaction.skip

    unfoldable pub on_token_usage : ThreadTokenUsageUpdatedNotification Value Object → Reaction
    on_token_usage payload =
        if unwrap_or true (map_some (λ incoming. str_eq incoming thread_id) payload.thread_id)
          && matches_target_from_extra payload.extra thread_id (some turn_id)
        then Reaction.remember (
            or_else (payload.usage and_then parse_usage_from_value)
              (get "tokenUsage" payload.extra and_then parse_usage_from_value))
        else Reaction.skip

    unfoldable pub on_notification : Option Usage → ServerNotification Value Object → Reaction
    on_notification latest_usage (ServerNotification.item_started payload) =
        on_target payload.extra
          (Reaction.send (ThreadEvent.item_started (parse_thread_item payload.item)))
    on_notification latest_usage (ServerNotification.item_completed payload) =
        on_target payload.extra
          (Reaction.send (ThreadEvent.item_completed (parse_thread_item payload.item)))
    on_notification latest_usage (ServerNotification.item_agent_message_delta delta) =
        on_target delta.extra (
          send_some (
            delta_item_updated delta
              λ id text. ThreadItem.agent_message (record { id = id; text = text; phase = none })))
    on_notification latest_usage (ServerNotification.item_plan_delta delta) =
        on_target delta.extra (
          send_some
            (delta_item_updated delta λ id text. ThreadItem.plan (record { id = id; text = text })))
    on_notification latest_usage (ServerNotification.item_reasoning_summary_text_delta delta) =
        on_target delta.extra (
          send_some (
            delta_item_updated delta
              λ id text. ThreadItem.reasoning (record { id = id; text = text })))
    on_notification latest_usage (ServerNotification.item_reasoning_text_delta delta) =
        on_target delta.extra (
          send_some (
            delta_item_updated delta
              λ id text. ThreadItem.reasoning (record { id = id; text = text })))
    on_notification latest_usage (ServerNotification.turn_completed payload) =
        on_turn_completed latest_usage payload
    on_notification latest_usage (ServerNotification.thread_token_usage_updated payload) =
        on_token_usage payload
    on_notification latest_usage (ServerNotification.error payload) =
        on_target payload.extra (Reaction.send (ThreadEvent.error payload.error.message))
    on_notification latest_usage _ = Reaction.skip

    unfoldable pub react : Option Usage → ServerEvent Value Object → Reaction
    react latest_usage (ServerEvent.notification notification) =
        on_notification latest_usage notification
    react latest_usage ServerEvent.transport_closed =
        Reaction.last (Result.err ClientError.transport_closed)
    react latest_usage (ServerEvent.server_request request) = Reaction.skip
