-- ===== src/Incoming.antt =====
-- `classify_incoming` in crates/sdk/src/error.rs, and the frames that the client builds by `json!` in
-- crates/sdk/src/client/mod.rs.
pub mod RoundTrip
use codex_sdk_rs.Prelude.{String, Option, none, some, List, [], ◌∷◌, unwrap_or, ◌and_then◌}
use codex_sdk_rs.Protocol.{RequestId, RpcError, ClientError, Result, ok, err}
use codex_sdk_rs.SerdeJson.{SerdeJson}

pub data IncomingClassified (Value : Type 0) : Type 0 where
  response : (id : RequestId) (result : Result Value (RpcError Value)) → IncomingClassified Value
  notification : (method : String) (params raw : Value) → IncomingClassified Value
  server_request :
      (id : RequestId) (method : String) (params raw : Value) → IncomingClassified Value

module _ ⦃json : SerdeJson⦄ where
  open json use {
    Value, Object, as_object, as_str, get, null, text, object, decode_request_id, decode_rpc_error,
    encode_request_id, encode_rpc_error,
  }

  abbrev Classified : Type 0
  Classified = Result (IncomingClassified Value) (ClientError Value)

  -- A response: `result` comes before `error`.
  unfoldable pub classify_response : RequestId → Object → Classified
  classify_response id obj = elim (get "result" obj) [
    | some result ↦ ok (IncomingClassified.response id (ok result))
    | none ↦ elim (get "error" obj) [
      | some error ↦ elim (decode_rpc_error error) [
        | ok parsed ↦ ok (IncomingClassified.response id (err parsed))
        | err e ↦ err (ClientError.serialization e)
      ]
      | none ↦ err (ClientError.invalid_message "response missing both result and error")
    ]
  ]

  abbrev pub params_of : Object → Value
  params_of obj = unwrap_or null (get "params" obj)

  -- The match on the id and the method.
  abbrev pub classify_parts : Option RequestId → Option String → Object → Value → Classified
  classify_parts (some id) (some method) obj value =
      ok (IncomingClassified.server_request id method (params_of obj) value)
  classify_parts none (some method) obj value =
      ok (IncomingClassified.notification method (params_of obj) value)
  classify_parts (some id) none obj value = classify_response id obj
  classify_parts none none obj value =
      err (ClientError.invalid_message "message missing method and id")

  abbrev pub method_of : Object → Option String
  method_of obj = get "method" obj and_then as_str

  unfoldable pub classify_incoming : Value → Classified
  classify_incoming value = elim (as_object value) [
    | none ↦ err (ClientError.invalid_message "expected JSON object")
    | some obj ↦ elim (get "id" obj) [
      | none ↦ classify_parts none (method_of obj) obj value
      | some raw_id ↦ elim (decode_request_id raw_id) [
        | err e ↦ err (ClientError.serialization e)
        | ok id ↦ classify_parts (some id) (method_of obj) obj value
      ]
    ]
  ]

  -- `request_value_internal`, `send_notification`, `respond_server_request` and
  -- `respond_server_request_error`.
  abbrev pub request_frame : String → RequestId → Value → Value
  request_frame method id params =
      object (("method", text method) ∷ ("id", encode_request_id id) ∷ ("params", params) ∷ [])

  abbrev pub notification_frame : String → Value → Value
  notification_frame method params = object (("method", text method) ∷ ("params", params) ∷ [])

  abbrev pub result_frame : RequestId → Value → Value
  result_frame id result = object (("id", encode_request_id id) ∷ ("result", result) ∷ [])

  abbrev pub error_frame : RequestId → RpcError Value → Value
  error_frame id error =
      object (("id", encode_request_id id) ∷ ("error", encode_rpc_error error) ∷ [])
