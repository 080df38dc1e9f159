-- ===== src/Client/Typed.antt =====
-- The requests of crates/sdk/src/client/mod.rs whose parameters and results are typed or raw, cut where
-- they wait, the responses to server requests, and `next_event`. How a type is serialised and read
-- (serde) is a parameter: a failure is the error's text.
pub mod Answered
use codex_sdk_rs.Prelude.{ℕ, String, Bool, Option, none, some, List, [], ◌∷◌, not, map_some, str_eq}
use codex_sdk_rs.Protocol.{RequestId, RpcError, ClientError, Result, ok, err}
use codex_sdk_rs.SerdeJson.{SerdeJson}
use codex_sdk_rs.Incoming.{result_frame, error_frame}
use codex_sdk_rs.Events.{ServerEvent}
use codex_sdk_rs.Client.{Client, send_message}
use codex_sdk_rs.Client.Requests.{Call, begin_request, send_notification, poll}
use codex_sdk_rs.Turn.Pump.{Recv, received, lagged, closed}

module _ ⦃json : SerdeJson⦄ where
  open json use {Value, Object}

  abbrev pub serialized :
      {A : Type 0}
      → Result Value String
      → (Value → Client Value Object → Client Value Object × Result A (ClientError Value))
      → Client Value Object
      → Client Value Object × Result A (ClientError Value)
  serialized (err e) send c = (c, err (ClientError.serialization e))
  serialized (ok value) send c = send value c

  -- `request_typed_internal` up to the point where it waits for its response.
  unfoldable pub begin_typed :
      {Params : Type 0}
      → (Params → Result Value String)
      → String
      → Params
      → Bool
      → Client Value Object
      → Client Value Object × Result Call (ClientError Value)
  begin_typed to_value method params requires_ready c =
      serialized (to_value params) (λ value c. begin_request method value requires_ready c) c

  abbrev pub unexpected :
      {Value A : Type 0} → String → Result A String → Result A (ClientError Value)
  unexpected method (ok a) = ok a
  unexpected method (err source) = err (ClientError.unexpected_result method source)

  -- The end of `request_typed_value_internal`: the response is read.
  unfoldable pub read_result :
      {A : Type 0}
      → (Value → Result A String)
      → String
      → Result Value (ClientError Value)
      → Result A (ClientError Value)
  read_result from_value method (ok raw) = unexpected method (from_value raw)
  read_result from_value method (err e) = err e

  -- What a typed request gives; `none` while it waits.
  unfoldable pub poll_typed :
      {A : Type 0}
      → (Value → Result A String)
      → String
      → Call
      → Client Value Object
      → Option (Result A (ClientError Value))
  poll_typed from_value method call c = map_some (read_result from_value method) (poll call c)

  -- `send_raw_request` up to the point where it waits; only the handshake is sent before it is done.
  unfoldable pub send_raw_request :
      String → Value → Client Value Object → Client Value Object × Result Call (ClientError Value)
  send_raw_request method params c =
      begin_request method params (not (str_eq method "initialize")) c

  unfoldable pub send_raw_notification :
      String
      → Value
      → Client Value Object
      → Client Value Object × Result (Unit {0}) (ClientError Value)
  send_raw_notification method params c =
      send_notification method params (not (str_eq method "initialized")) c

  unfoldable pub respond_server_request :
      {A : Type 0}
      → (A → Result Value String)
      → RequestId
      → A
      → Client Value Object
      → Client Value Object × Result (Unit {0}) (ClientError Value)
  respond_server_request to_value id result c =
      serialized (to_value result) (λ value c. send_message (result_frame id value) c) c

  unfoldable pub respond_server_request_error :
      RequestId
      → RpcError Value
      → Client Value Object
      → Client Value Object × Result (Unit {0}) (ClientError Value)
  respond_server_request_error id error c = send_message (error_frame id error) c

module _ {Value Object : Type 0} where
  -- `next_event`, and what is left to receive; `none` while it waits.
  unfoldable pub next_event :
      List (Recv Value Object)
      → Option (Result (ServerEvent Value Object) (ClientError Value) × List (Recv Value Object))
  next_event [] = none
  next_event (received event ∷ rest) = some (ok event, rest)
  next_event (lagged ∷ rest) = next_event rest
  next_event (closed ∷ rest) = some (err ClientError.transport_closed, closed ∷ rest)
