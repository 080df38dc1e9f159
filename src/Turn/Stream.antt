-- ===== src/Turn/Stream.antt =====
-- The shape of the stream that `pump_turn_events` (crates/sdk/src/api.rs) sends.
use codex_sdk_rs.Prelude.{
  ℕ, zero, suc, ◌≤◌, ◌<◌, ◌≡◌, refl, String, Bool, true, false, not, Option, some, List, [], ◌∷◌,
  ◌++◌, ap, if_elim, All, unwrap_or, or_else, arith, length,
}
use codex_sdk_rs.Prelude.Text.{is_empty_str}
use codex_sdk_rs.Protocol.{ok, err}
use codex_sdk_rs.SerdeJson.{SerdeJson}
use codex_sdk_rs.ThreadItem.{ThreadItem, ThreadEvent, Usage}
use codex_sdk_rs.Events.{ServerEvent}
use codex_sdk_rs.Events.Notifications.{ServerNotification}
use codex_sdk_rs.Events.Payloads.{DeltaNotification}
use codex_sdk_rs.Turn.{
  Reaction, send_some, delta_item_updated, on_target, matches_target_from_extra, on_turn_completed,
  on_token_usage, on_notification, react,
}
use codex_sdk_rs.Turn.Pump.{
  Recv, received, lagged, closed, Item, Pumped, after_send, act, pump, send_last,
}

-- The results after which a stream has nothing more to say of the turn.
abbrev pub is_terminal : {Value : Type 0} → Item Value → Bool
is_terminal (err e) = true
is_terminal (ok (ThreadEvent.turn_completed usage)) = true
is_terminal (ok (ThreadEvent.turn_failed e)) = true
is_terminal (ok _) = false

-- What a pump that had room for so many results has done: it sent results that are not terminal and
-- either waits, or has found the consumer gone, or has sent one terminal result and ended.
pub data Shape {Value : Type 0} (room : ℕ) (p : Pumped Value) : Type 0 where
  waits :
      All (λ x. is_terminal x ≡ false) p.sent
      → length p.sent ≤ room
      → p.ended ≡ false
      → Shape room p
  abandoned :
      All (λ x. is_terminal x ≡ false) p.sent → length p.sent ≡ room → p.ended ≡ true → Shape room p
  finished :
      (before : List (Item Value)) (x : Item Value)
      → All (λ x. is_terminal x ≡ false) before
      → length before < room
      → is_terminal x ≡ true
      → p.sent ≡ before ++ x ∷ []
      → p.ended ≡ true
      → Shape room p

after_send-Shape :
    {Value : Type 0} (room : ℕ) (item : Item Value) (p : Pumped Value)
    → is_terminal item ≡ false
    → Shape room p
    → Shape (suc room) (after_send item p)
after_send-Shape room item p calm (waits h fits going) = waits (calm, h) (omega arith) going
after_send-Shape room item p calm (abandoned h full over) = abandoned (calm, h) (omega arith) over
after_send-Shape room item p calm (finished before x h fits t e over) =
    finished (item ∷ before) x (calm, h) (omega arith) t (ap (λ l. item ∷ l) e) over

send_last-Shape :
    {Value : Type 0} (room : ℕ) (item : Item Value)
    → is_terminal item ≡ true
    → Shape room (send_last room item)
send_last-Shape zero item t = abandoned tt refl refl
send_last-Shape (suc room) item t = finished [] item tt (omega arith) t refl refl

module _ ⦃json : SerdeJson⦄ where
  open json use {Value, Object}

  -- The reaction sends terminal results last, and no others.
  abbrev fits : Reaction → Bool
  fits (Reaction.send event) = not (is_terminal (ok event))
  fits (Reaction.last item) = is_terminal item
  fits _ = true

  abbrev Fits : Reaction → Type 0
  Fits r = fits r ≡ true

  act-Shape :
      (r : Reaction) (room : ℕ) (latest : Option Usage) (go_on : ℕ → Option Usage → Pumped Value)
      → Fits r
      → ((k : ℕ) (u : Option Usage) → Shape k (go_on k u))
      → Shape room (act r room latest go_on)
  act-Shape Reaction.skip room latest go_on f h = h room latest
  act-Shape (Reaction.remember usage) room latest go_on f h = h room usage
  act-Shape (Reaction.send event) zero latest go_on f h = abandoned tt refl refl
  act-Shape (Reaction.send event) (suc room) latest go_on f h =
      after_send-Shape room (ok event) (go_on room latest) (ground arith) (h room latest)
  act-Shape (Reaction.last item) room latest go_on f h = send_last-Shape room item f

  send_delta-Fits :
      (delta : DeltaNotification Value Object) (build : String → String → ThreadItem Value)
      → Fits (send_some (delta_item_updated delta build))
  unfolding delta_item_updated
  send_delta-Fits delta build =
      if_elim (λ o. Fits (send_some o))
        (is_empty_str (unwrap_or "" (or_else delta.delta delta.text))) (λ e. refl) (λ e. refl)

  module _ (thread_id turn_id : String) where
    on_target-Fits :
        (extra : Object) (r : Reaction) → Fits r → Fits (on_target thread_id turn_id extra r)
    on_target-Fits extra r f =
        if_elim Fits (matches_target_from_extra extra thread_id (some turn_id)) (λ e. f) (λ e. refl)

    on_notification-Fits :
        (latest : Option Usage) (n : ServerNotification Value Object)
        → Fits (on_notification thread_id turn_id latest n)
    unfolding on_notification on_turn_completed on_token_usage
    on_notification-Fits latest (ServerNotification.item_started payload) =
        on_target-Fits payload.extra _ refl
    on_notification-Fits latest (ServerNotification.item_completed payload) =
        on_target-Fits payload.extra _ refl
    on_notification-Fits latest (ServerNotification.item_agent_message_delta delta) =
        on_target-Fits delta.extra _ (send_delta-Fits delta _)
    on_notification-Fits latest (ServerNotification.item_plan_delta delta) =
        on_target-Fits delta.extra _ (send_delta-Fits delta _)
    on_notification-Fits latest (ServerNotification.item_reasoning_summary_text_delta delta) =
        on_target-Fits delta.extra _ (send_delta-Fits delta _)
    on_notification-Fits latest (ServerNotification.item_reasoning_text_delta delta) =
        on_target-Fits delta.extra _ (send_delta-Fits delta _)
    on_notification-Fits latest (ServerNotification.turn_completed payload) = ground arith
    on_notification-Fits latest (ServerNotification.thread_token_usage_updated payload) =
        ground arith
    on_notification-Fits latest (ServerNotification.error payload) =
        on_target-Fits payload.extra _ refl
    on_notification-Fits latest _ = refl

    react-Fits :
        (latest : Option Usage) (event : ServerEvent Value Object)
        → Fits (react thread_id turn_id latest event)
    unfolding react
    react-Fits latest (ServerEvent.notification n) = on_notification-Fits latest n
    react-Fits latest ServerEvent.transport_closed = refl
    react-Fits latest (ServerEvent.server_request request) = refl

    -- Whatever the server sends, the stream has at most one terminal result (a completed turn, a
    -- failed turn or a client error) and nothing after it. The pump sends no more than the consumer
    -- takes, and it ends exactly when it has sent that result or found the consumer gone.
    pub pump-Shape :
        (events : List (Recv Value Object)) (room : ℕ) (latest : Option Usage)
        → Shape room (pump thread_id turn_id events room latest)
    unfolding pump
    pump-Shape [] room latest = waits tt (omega arith) refl
    pump-Shape (closed ∷ rest) room latest = send_last-Shape room _ refl
    pump-Shape (lagged ∷ rest) room latest = pump-Shape rest room latest
    pump-Shape (received event ∷ rest) room latest =
        act-Shape (react thread_id turn_id latest event) room latest _ (react-Fits latest event)
          (pump-Shape rest)
