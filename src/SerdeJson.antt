-- ===== src/SerdeJson.antt =====
-- The interface of the JSON library (the crates serde and serde_json) as the SDK uses it: the type
-- `Value` with its views, `json!`, printing, and the decoders that are derived for the SDK's types.
-- The program's definitions take it as an instance argument; nothing of it is defined here.
use codex_sdk_rs.Prelude.{
  ℕ, ◌<◌, ◌≡◌, ◌≢◌, String, Bool, Option, none, some, List, [], ◌∷◌, or_else, ◌and_then◌,
  if◌then◌else◌, str_eq,
}
use codex_sdk_rs.Prelude.Int.{ℤ}
use codex_sdk_rs.Protocol.{RequestId, RpcError, Result}

-- In a list of fields the last one with a name counts.
abbrev pub field {ℓ} : {A : Type ℓ} → String → List (String × A) → Option A
field key [] = none
field key ((name, a) ∷ fields) =
    or_else (field key fields) (if str_eq name key then some a else none)

pub record SerdeJson : Type 1 where
  pub Value : Type 0
  pub Object : Type 0
  pub Number : Type 0
  -- `as_object`, `as_array`, `as_str`, `as_bool`, and the matches on a constructor of `Value`.
  pub as_object : Value → Option Object
  pub as_array : Value → Option (List Value)
  pub as_str : Value → Option String
  pub as_bool : Value → Option Bool
  pub as_number : Value → Option Number
  -- `Number::as_i64`, `Number::as_u64`.
  pub number_as_i64 : Number → Option ℤ
  pub number_as_u64 : Number → Option ℕ
  -- `Map::get`.
  pub get : String → Object → Option Value
  -- `Value::Null`, `Value::Bool`, `Value::Array`, `Value::String`, and `json!` of an object.
  pub null : Value
  pub array : List Value → Value
  pub text : String → Value
  pub boolean : Bool → Value
  pub integer : ℤ → Value
  pub object : List (String × Value) → Value
  -- `to_string(value).ok()`.
  pub to_string : Value → Option String
  -- `from_value::<RequestId>` and `from_value::<RpcError>`, with the error's text.
  pub decode_request_id : Value → Result RequestId String
  pub decode_rpc_error : Value → Result (RpcError Value) String
  pub encode_request_id : RequestId → Value
  pub encode_rpc_error : RpcError Value → Value
  -- The `Debug` text of an error of the server.
  pub debug_rpc_error : RpcError Value → String
  -- A value is a finite tree: what an object holds is nested less deeply.
  pub depth : Value → ℕ
  pub depth-get :
      (v w : Value) (o : Object) (key : String)
      → as_object v ≡ some o
      → get key o ≡ some w
      → depth w < depth v
  -- `json!` of an object has the fields that it was built from, and a text is read back.
  pub object_of : List (String × Value) → Object
  pub as_object-object :
      (fields : List (String × Value)) → as_object (object fields) ≡ some (object_of fields)
  pub get-object_of :
      (key : String) (fields : List (String × Value))
      → get key (object_of fields) ≡ field key fields
  pub as_str-text : (s : String) → as_str (text s) ≡ some s
  -- What `RequestId` and `RpcError` are serialised to is read back, if the error's data is not `null`
  -- (which is read as no data).
  pub request_id_round_trip :
      (id : RequestId) → decode_request_id (encode_request_id id) ≡ Result.ok id
  pub rpc_error_round_trip :
      (e : RpcError Value)
      → e.details ≢ some null
      → decode_rpc_error (encode_rpc_error e) ≡ Result.ok e

-- `Value::as_i64` and `Value::as_u64`.
module _ ⦃json : SerdeJson⦄ where
  open json use {Value, as_number, number_as_i64, number_as_u64}

  abbrev pub as_i64 : Value → Option ℤ
  as_i64 v = as_number v and_then number_as_i64

  abbrev pub as_u64 : Value → Option ℕ
  as_u64 v = as_number v and_then number_as_u64
