-- ===== src/Client/Typed/Answered.antt =====
-- A typed request of crates/sdk/src/client/mod.rs from its parameters to its result.
use codex_sdk_rs.Prelude.{
  ℕ, ◌+◌, ◌<◌, ◌^◌, ◌≡◌, true, none, some, List, [], ◌∷◌, ◌++◌, ap, Bool, String, arith, length,
  All, map_some,
}
use codex_sdk_rs.Protocol.{integer, RpcError, Result, ok}
use codex_sdk_rs.SerdeJson.{SerdeJson}
use codex_sdk_rs.Incoming.{request_frame}
use codex_sdk_rs.Events.Notifications.{NotificationDecoders}
use codex_sdk_rs.Events.ServerRequests.{ServerRequestDecoders}
use codex_sdk_rs.Client.{Client}
use codex_sdk_rs.Client.Requests.{begin_request, register, gate}
use codex_sdk_rs.Client.Operations.{Operation, Spares, apply_operation, run_operations}
use codex_sdk_rs.Client.Registered.{Within}
use codex_sdk_rs.Client.Delivery.{
  answer_frame, outcome, IsReadable, run_operations-answered, begin_request-sent,
}
use codex_sdk_rs.Client.Typed.{begin_typed, read_result, poll_typed}

module _ ⦃json : SerdeJson⦄ (notifications : NotificationDecoders json.Value json.Object)
    (requests : ServerRequestDecoders json.Value json.Object) where
  open json use {Value, Object}

  -- A typed request on a client whose pending requests are sound, which passes the gate on an open
  -- transport and whose parameters can be serialised, is handed over as one frame with the next id,
  -- after those that were handed over before. Whatever other operations follow, it waits; once the
  -- frame that answers its id arrives, its caller gets the result read as the type that it asked for,
  -- the error that says it cannot be read so, or the server's error. Fewer than 2^63 ids are given
  -- out, and the error's data is not `null`.
  pub begin_typed-answered :
      {Params Answer : Type 0} (to_value : Params → Result Value String)
      (from_value : Value → Result Answer String) (method : String) (params : Params)
      (value : Value) (requires_ready : Bool) (n : ℕ) (c : Client Value Object)
      (operations : List Operation) (result : Result Value (RpcError Value))
      → to_value params ≡ ok value
      → Within n c
      → n + 1 + length operations < 2 ^ 63
      → gate method requires_ready c ≡ none
      → c.outbound_open ≡ true
      → All (Spares (register c).1) operations
      → IsReadable result
      → let begun = begin_typed to_value method params requires_ready c in
        let later = run_operations notifications requests operations begun.0 in
        (begun.1 ≡ ok (register c).1)
        × (begun.0.outbound ≡ c.outbound ++ request_frame method (integer c.next_id) value ∷ [])
        × (poll_typed from_value method (register c).1 later ≡ none)
        × (poll_typed from_value method (register c).1 (
              apply_operation notifications requests
                (Operation.receive (answer_frame (register c).1.id result))
                later)
            ≡ some (read_result from_value method (outcome result)))
  unfolding begin_typed poll_typed
  begin_typed-answered to_value from_value method params value requires_ready n c operations result
        e h bound g o spares told =
      rw e (
        let (sent, waits, sound) =
          begin_request-sent notifications requests n method value requires_ready c h
            (ground (arith, bound)) g o in
        let (quiet, answered) =
          run_operations-answered notifications requests operations (n + 1) (register c).1
            (begin_request method value requires_ready c).0 result sound bound spares waits told in
        (
          ap (λ b. b.1) sent,
          ap (λ b. b.0.outbound) sent,
          ap (map_some (read_result from_value method)) quiet,
          ap (map_some (read_result from_value method)) answered,
        ))
