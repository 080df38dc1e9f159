-- ===== src/Client/Handshake.antt =====
-- The handshake of crates/sdk/src/client/mod.rs: `initialize`, `initialized` and `ensure_ready_with`,
-- cut where they wait for an answer. The lock is held from `ensure_ready_enter` to the end, so no
-- other `ensure_ready` runs between the two parts; everything else may.
use codex_sdk_rs.Prelude.{ℕ, false, [], eqb, ltb, if◌then◌else◌}
use codex_sdk_rs.Protocol.{ClientError, Result, ok, err}
use codex_sdk_rs.SerdeJson.{SerdeJson}
use codex_sdk_rs.Client.{
  Client, handshake_new, handshake_initializing, handshake_initialized, handshake_ready,
}
use codex_sdk_rs.Client.Requests.{Call, begin_request, send_notification}

-- `fetch_max`.
abbrev pub fetch_max : ℕ → ℕ → ℕ
fetch_max state n = if ltb state n then n else state

module _ {Value Object : Type 0} where
  abbrev pub store : ℕ → Client Value Object → Client Value Object
  store state c = record c { handshake_state = state }

-- A function that returned, or that waits for the answer to a call.
pub data Progress (Value : Type 0) : Type 0 where
  returned : Result (Unit {0}) (ClientError Value) → Progress Value
  waits : Call → Progress Value

module _ ⦃json : SerdeJson⦄ where
  open json use {Value, Object, object}

  -- `EmptyObject::default()`.
  abbrev pub empty_params : Value
  empty_params = object []

  -- `initialize` up to its answer, and the rest once the answer is read.
  unfoldable pub initialize_begin :
      Value → Client Value Object → Client Value Object × Result Call (ClientError Value)
  initialize_begin params c = begin_request "initialize" params false c

  unfoldable pub initialize_end :
      Result (Unit {0}) (ClientError Value)
      → Client Value Object
      → Client Value Object × Result (Unit {0}) (ClientError Value)
  initialize_end (ok result) c =
      (store (fetch_max c.handshake_state handshake_initialized) c, ok result)
  initialize_end (err e) c = (c, err e)

  -- The notification is sent, and `advance` sets the state.
  abbrev pub finish_with :
      (ℕ → ℕ)
      → Client Value Object × Result (Unit {0}) (ClientError Value)
      → Client Value Object × Result (Unit {0}) (ClientError Value)
  finish_with advance (sent, ok done) = (store (advance sent.handshake_state) sent, ok done)
  finish_with advance (sent, err e) = (sent, err e)

  unfoldable pub initialized :
      Client Value Object → Client Value Object × Result (Unit {0}) (ClientError Value)
  initialized c =
      if ltb c.handshake_state handshake_initialized
      then (c, err (ClientError.not_initialized "initialized"))
      else finish_with (λ state. fetch_max state handshake_ready)
          (send_notification "initialized" empty_params false c)

  -- The last part of `ensure_ready_with`.
  unfoldable pub announce :
      Client Value Object → Client Value Object × Result (Unit {0}) (ClientError Value)
  announce c =
      finish_with (λ state. handshake_ready) (send_notification "initialized" empty_params false c)

  abbrev pub after_announce :
      Client Value Object × Result (Unit {0}) (ClientError Value)
      → Client Value Object × Progress Value
  after_announce (sent, result) = (sent, Progress.returned result)

  abbrev pub after_begin :
      Client Value Object × Result Call (ClientError Value) → Client Value Object × Progress Value
  after_begin (sent, ok call) = (sent, Progress.waits call)
  after_begin (sent, err e) = (store handshake_new sent, Progress.returned (err e))

  -- `ensure_ready_with` up to the answer to `initialize`.
  unfoldable pub ensure_ready_enter :
      Value → Client Value Object → Client Value Object × Progress Value
  ensure_ready_enter params c =
      if eqb c.handshake_state handshake_ready
      then (c, Progress.returned (ok tt))
      else if ltb c.handshake_state handshake_initialized
      then after_begin (begin_request "initialize" params false (store handshake_initializing c))
      else after_announce (announce c)

  -- The rest of it, once the answer is read.
  unfoldable pub ensure_ready_resume :
      Result (Unit {0}) (ClientError Value)
      → Client Value Object
      → Client Value Object × Result (Unit {0}) (ClientError Value)
  ensure_ready_resume (ok result) c = announce (store handshake_initialized c)
  ensure_ready_resume (err e) c = (store handshake_new c, err e)
