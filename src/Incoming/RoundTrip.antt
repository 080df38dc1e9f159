-- ===== src/Incoming/RoundTrip.antt =====
-- What the client sends is classified by its peer as what it was meant to be
-- (crates/sdk/src/error.rs and crates/sdk/src/client/mod.rs).
use codex_sdk_rs.Prelude.{◌≡◌, ◌≢◌, refl, ◌∙◌, String, none, some, List}
use codex_sdk_rs.Protocol.{RequestId, RpcError, ok, err}
use codex_sdk_rs.SerdeJson.{SerdeJson, field}
use codex_sdk_rs.Incoming.{
  IncomingClassified, classify_response, classify_parts, method_of, classify_incoming,
  request_frame, notification_frame, result_frame, error_frame,
}

module _ ⦃json : SerdeJson⦄ where
  open json use {
    null, Value, Object, as_object, decode_request_id, encode_request_id, decode_rpc_error,
    encode_rpc_error, text, object_of, get, as_object-object, get-object_of, as_str-text,
    request_id_round_trip, rpc_error_round_trip,
  }

  -- The steps of the classification, given what the value's parts are.
  pub classify_with_id :
      (value raw_id : Value) (obj : Object) (id : RequestId)
      → as_object value ≡ some obj
      → get "id" obj ≡ some raw_id
      → decode_request_id raw_id ≡ ok id
      → classify_incoming value ≡ classify_parts (some id) (method_of obj) obj value
  unfolding classify_incoming
  classify_with_id value raw_id obj id o i d =
      rw (o, classify_incoming) (rw (i, classify_incoming) (rw (d, classify_incoming) refl))

  pub classify_without_id :
      (value : Value) (obj : Object)
      → as_object value ≡ some obj
      → get "id" obj ≡ none
      → classify_incoming value ≡ classify_parts none (method_of obj) obj value
  unfolding classify_incoming
  classify_without_id value obj o i = rw (o, classify_incoming) (rw (i, classify_incoming) refl)

  pub response_with_result :
      (id : RequestId) (obj : Object) (result : Value)
      → get "result" obj ≡ some result
      → classify_response id obj ≡ ok (IncomingClassified.response id (ok result))
  unfolding classify_response
  response_with_result id obj result r = rw (r, classify_response) refl

  pub response_with_error :
      (id : RequestId) (obj : Object) (raw : Value) (error : RpcError Value)
      → get "result" obj ≡ none
      → get "error" obj ≡ some raw
      → decode_rpc_error raw ≡ ok error
      → classify_response id obj ≡ ok (IncomingClassified.response id (err error))
  unfolding classify_response
  response_with_error id obj raw error r e d =
      rw (r, classify_response) (rw (e, classify_response) (rw (d, classify_response) refl))

  method_of-text :
      (fields : List (String × Value)) (method : String)
      → field "method" fields ≡ some (text method)
      → method_of (object_of fields) ≡ some method
  method_of-text fields method e = rw (get-object_of "method" fields, e) (as_str-text method)

  method_of-none :
      (fields : List (String × Value))
      → field "method" fields ≡ none
      → method_of (object_of fields) ≡ none
  method_of-none fields e = rw (get-object_of "method" fields, e) refl

  classify_request_frame :
      (id : RequestId) (method : String) (params : Value)
      → classify_incoming (request_frame method id params)
        ≡ ok (IncomingClassified.server_request id method params (request_frame method id params))
  classify_request_frame id method params =
      classify_with_id _ (encode_request_id id) (object_of _) id (as_object-object _)
        (get-object_of "id" _) (request_id_round_trip id)
      ∙ rw (method_of-text _ method refl, get-object_of "params" _) refl

  classify_notification_frame :
      (method : String) (params : Value)
      → classify_incoming (notification_frame method params)
        ≡ ok (IncomingClassified.notification method params (notification_frame method params))
  classify_notification_frame method params =
      classify_without_id _ (object_of _) (as_object-object _) (get-object_of "id" _)
      ∙ rw (method_of-text _ method refl, get-object_of "params" _) refl

  pub classify_result_frame :
      (id : RequestId) (result : Value)
      → classify_incoming (result_frame id result) ≡ ok (IncomingClassified.response id (ok result))
  classify_result_frame id result =
      classify_with_id _ (encode_request_id id) (object_of _) id (as_object-object _)
        (get-object_of "id" _) (request_id_round_trip id)
      ∙ rw (method_of-none _ refl) (response_with_result id _ result (get-object_of "result" _))

  pub classify_error_frame :
      (id : RequestId) (error : RpcError Value)
      → error.details ≢ some null
      → classify_incoming (error_frame id error) ≡ ok (IncomingClassified.response id (err error))
  classify_error_frame id error told =
      classify_with_id _ (encode_request_id id) (object_of _) id (as_object-object _)
        (get-object_of "id" _) (request_id_round_trip id)
      ∙ rw (method_of-none _ refl) (
          response_with_error id _ (encode_rpc_error error) error (get-object_of "result" _)
            (get-object_of "error" _) (rpc_error_round_trip error told))

  -- A frame that the client builds is classified, by the same rules, as what it was built for: a
  -- request with its id, method and parameters, a notification, and a response with the id that it
  -- answers and the result or the error, whose data must not be `null`.
  pub classify_incoming-frame :
      (id : RequestId) (method : String) (params : Value) (error : RpcError Value)
      → error.details ≢ some null
      → (classify_incoming (request_frame method id params)
          ≡ ok
              (IncomingClassified.server_request id method params (request_frame method id params)))
        × (classify_incoming (notification_frame method params)
            ≡ ok (IncomingClassified.notification method params (notification_frame method params)))
        × (classify_incoming (result_frame id params)
            ≡ ok (IncomingClassified.response id (ok params)))
        × (classify_incoming (error_frame id error)
            ≡ ok (IncomingClassified.response id (err error)))
  classify_incoming-frame id method params error told = (
    classify_request_frame id method params,
    classify_notification_frame method params,
    classify_result_frame id params,
    classify_error_frame id error told,
  )
