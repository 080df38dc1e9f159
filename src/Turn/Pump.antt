-- ===== src/Turn/Pump.antt =====
-- `pump_turn_events` in crates/sdk/src/api.rs: the loop over what the broadcast receiver yields, with
-- a consumer that takes `room` more events before it is dropped.
use codex_sdk_rs.Prelude.{ℕ, zero, suc, String, Bool, true, false, Option, none, List, [], ◌∷◌}
use codex_sdk_rs.Protocol.{Result, ok, err, ClientError}
use codex_sdk_rs.SerdeJson.{SerdeJson}
use codex_sdk_rs.ThreadItem.{ThreadEvent, Usage}
use codex_sdk_rs.Events.{ServerEvent}
use codex_sdk_rs.Turn.{Reaction, react}

-- One answer of `server_events.recv()`.
pub data Recv (Value Object : Type 0) : Type 0 where
  received : ServerEvent Value Object → Recv Value Object
  lagged : Recv Value Object
  closed : Recv Value Object

-- An item of the stream.
abbrev pub Item : Type 0 → Type 0
Item Value = Result (ThreadEvent Value) (ClientError Value)

-- What was sent so far, and whether the task has ended; it waits for more if not.
pub record Pumped (Value : Type 0) : Type 0 where
  pub sent : List (Item Value)
  pub ended : Bool

abbrev pub ended_with : {Value : Type 0} → List (Item Value) → Pumped Value
ended_with items = record { sent = items; ended = true }

abbrev pub after_send : {Value : Type 0} → Item Value → Pumped Value → Pumped Value
after_send item p = record p { sent = item ∷ p.sent }

-- `send_or_break!` of a last item, then `break`.
abbrev pub send_last : {Value : Type 0} → ℕ → Item Value → Pumped Value
send_last zero item = ended_with []
send_last (suc room) item = ended_with (item ∷ [])

module _ ⦃json : SerdeJson⦄ where
  open json use {Value}

  -- The end of a round, with the rest of the loop over its variables.
  abbrev pub act : Reaction → ℕ → Option Usage → (ℕ → Option Usage → Pumped Value) → Pumped Value
  act Reaction.skip room latest_usage go_on = go_on room latest_usage
  act (Reaction.remember usage) room latest_usage go_on = go_on room usage
  act (Reaction.send event) zero latest_usage go_on = ended_with []
  act (Reaction.send event) (suc room) latest_usage go_on =
      after_send (ok event) (go_on room latest_usage)
  act (Reaction.last item) room latest_usage go_on = send_last room item

module _ ⦃json : SerdeJson⦄ (thread_id turn_id : String) where
  open json use {Value, Object}

  unfoldable pub pump : List (Recv Value Object) → ℕ → Option Usage → Pumped Value
  pump [] room latest_usage = record { sent = []; ended = false }
  pump (closed ∷ rest) room latest_usage = send_last room (err ClientError.transport_closed)
  pump (lagged ∷ rest) room latest_usage = pump rest room latest_usage
  pump (received event ∷ rest) room latest_usage =
      act (react thread_id turn_id latest_usage event) room latest_usage (pump rest)

  unfoldable pub pump_turn_events : List (Recv Value Object) → ℕ → Pumped Value
  unfolding pump
  pump_turn_events events room = pump events room none
