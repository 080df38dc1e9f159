-- ===== src/Tests/Json.antt =====
-- A small JSON library that meets the interface of `SerdeJson`.
use codex_sdk_rs.Prelude.{
  ℕ, suc, ◌+◌, ◌<◌, ◌≡◌, ◌≢◌, refl, ap, String, Bool, Option, none, some, List, [], ◌∷◌, or_else,
  ◌and_then◌, str_eq, if◌then◌else◌, Option-cases, inl, inr, arith,
}
use codex_sdk_rs.Prelude.Int.{ℤ, pos, negsuc}
use codex_sdk_rs.Protocol.{RequestId, RpcError, Result, ok, err}
use codex_sdk_rs.SerdeJson.{SerdeJson, field}

mutual
  pub data Json : Type 0 where
    null : Json
    bool : Bool → Json
    number : ℤ → Json
    text : String → Json
    array : Elements → Json
    object : Fields → Json

  pub data Elements : Type 0 where
    done : Elements
    more : Json → Elements → Elements

  pub data Fields : Type 0 where
    none_left : Fields
    entry : String → Json → Fields → Fields

unfoldable mutual
  pub depth : Json → ℕ
  depth (Json.object fields) = suc (depth_fields fields)
  depth _ = 0

  pub depth_fields : Fields → ℕ
  depth_fields Fields.none_left = 0
  depth_fields (Fields.entry key value fields) = depth value + depth_fields fields

unfoldable pub to_list : Elements → List Json
to_list Elements.done = []
to_list (Elements.more value rest) = value ∷ to_list rest

unfoldable pub from_list : List Json → Elements
from_list [] = Elements.done
from_list (value ∷ rest) = Elements.more value (from_list rest)

unfoldable pub get_field : String → Fields → Option Json
get_field key Fields.none_left = none
get_field key (Fields.entry name value fields) =
    or_else (get_field key fields) (if str_eq name key then some value else none)

unfoldable pub fields_of : List (String × Json) → Fields
fields_of [] = Fields.none_left
fields_of ((name, value) ∷ fields) = Fields.entry name value (fields_of fields)

pub get_field-fields_of :
    (key : String) (fields : List (String × Json))
    → get_field key (fields_of fields) ≡ field key fields
unfolding get_field fields_of
get_field-fields_of key [] = refl
get_field-fields_of key ((name, value) ∷ fields) =
    ap (λ o. or_else o (if str_eq name key then some value else none))
      (get_field-fields_of key fields)

abbrev pub as_object : Json → Option Fields
as_object (Json.object fields) = some fields
as_object _ = none

abbrev pub as_array : Json → Option (List Json)
as_array (Json.array elements) = some (to_list elements)
as_array _ = none

abbrev pub as_str : Json → Option String
as_str (Json.text s) = some s
as_str _ = none

abbrev pub as_bool : Json → Option Bool
as_bool (Json.bool b) = some b
as_bool _ = none

abbrev pub as_number : Json → Option ℤ
as_number (Json.number n) = some n
as_number _ = none

abbrev pub number_as_u64 : ℤ → Option ℕ
number_as_u64 (pos n) = some n
number_as_u64 (negsuc n) = none

found :
    (key name : String) (value w : Json) (fields : Fields)
    → get_field key (Fields.entry name value fields) ≡ some w
    → get_field key fields ≡ none
    → value ≡ w
unfolding get_field
found key name value w fields e f = ground (arith, e, f)

later :
    (key name : String) (value w v : Json) (fields : Fields)
    → get_field key (Fields.entry name value fields) ≡ some w
    → get_field key fields ≡ some v
    → get_field key fields ≡ some w
unfolding get_field
later key name value w v fields e f = ground (arith, e, f)

depth-get_field :
    (key : String) (w : Json) (fields : Fields)
    → get_field key fields ≡ some w
    → depth w < suc (depth_fields fields)
unfolding get_field depth_fields
depth-get_field key w Fields.none_left e = ground (arith, e)
depth-get_field key w (Fields.entry name value fields) e =
    elim (Option-cases (get_field key fields)) [
      | inl f ↦ omega (arith, ap depth (found key name value w fields e f))
      | inr (v, f) ↦
          omega (arith, depth-get_field key w fields (later key name value w v fields e f))
    ]

pub depth-get :
    (v w : Json) (o : Fields) (key : String)
    → as_object v ≡ some o
    → get_field key o ≡ some w
    → depth w < depth v
unfolding depth
depth-get (Json.object fields) w o key e f = depth-get_field key w fields (ground (arith, e, f))
depth-get _ w o key e f = ground (arith, e)

abbrev pub decode_request_id : Json → Result RequestId String
decode_request_id (Json.text s) = ok (RequestId.string s)
decode_request_id (Json.number n) = ok (RequestId.integer n)
decode_request_id _ = err "expected an id"

abbrev pub encode_request_id : RequestId → Json
encode_request_id (RequestId.string s) = Json.text s
encode_request_id (RequestId.integer n) = Json.number n

-- `null` is no data.
abbrev pub data_of : Option Json → Option Json
data_of (some Json.null) = none
data_of o = o

abbrev pub error_from : Option ℤ → Option String → Option Json → Result (RpcError Json) String
error_from (some code) (some message) details =
    ok (record { code = code; message = message; details = data_of details })
error_from _ _ details = err "expected an error"

abbrev pub decode_rpc_error : Json → Result (RpcError Json) String
decode_rpc_error (Json.object fields) =
    error_from (get_field "code" fields and_then as_number)
      (get_field "message" fields and_then as_str) (get_field "data" fields)
decode_rpc_error _ = err "expected an error"

abbrev pub data_field : Option Json → List (String × Json)
data_field none = []
data_field (some value) = ("data", value) ∷ []

abbrev pub encode_rpc_error : RpcError Json → Json
encode_rpc_error e = Json.object (
    fields_of
      (("code", Json.number e.code) ∷ ("message", Json.text e.message) ∷ data_field e.details))

pub request_id_round_trip : (id : RequestId) → decode_request_id (encode_request_id id) ≡ ok id
request_id_round_trip (RequestId.string s) = refl
request_id_round_trip (RequestId.integer n) = refl

read_back :
    (code : ℤ) (message : String) (details : Option Json)
    → details ≢ some Json.null
    → decode_rpc_error
        (encode_rpc_error (record { code = code; message = message; details = details }))
      ≡ ok (record { code = code; message = message; details = details })
unfolding fields_of get_field
read_back code message none told = refl
read_back code message (some Json.null) told = absurd (told refl)
read_back code message (some _) told = refl

pub rpc_error_round_trip :
    (e : RpcError Json) → e.details ≢ some Json.null → decode_rpc_error (encode_rpc_error e) ≡ ok e
rpc_error_round_trip e told = read_back e.code e.message e.details told

instance abbrev pub json : SerdeJson
json = record {
  Value = Json;
  Object = Fields;
  Number = ℤ;
  as_object = as_object;
  as_array = as_array;
  as_str = as_str;
  as_bool = as_bool;
  as_number = as_number;
  number_as_i64 = some;
  number_as_u64 = number_as_u64;
  get = get_field;
  null = Json.null;
  array = λ values. Json.array (from_list values);
  text = Json.text;
  boolean = Json.bool;
  integer = Json.number;
  object = λ fields. Json.object (fields_of fields);
  to_string = λ value. none;
  decode_request_id = decode_request_id;
  decode_rpc_error = decode_rpc_error;
  encode_request_id = encode_request_id;
  encode_rpc_error = encode_rpc_error;
  debug_rpc_error = λ e. e.message;
  depth = depth;
  depth-get = depth-get;
  object_of = fields_of;
  as_object-object = λ fields. refl;
  get-object_of = get_field-fields_of;
  as_str-text = λ s. refl;
  request_id_round_trip = request_id_round_trip;
  rpc_error_round_trip = rpc_error_round_trip;
}
