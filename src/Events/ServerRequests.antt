-- ===== src/Events/ServerRequests.antt =====
-- The table of server-initiated requests in crates/sdk/src/events/mod.rs with the parameter types of
-- crates/sdk/src/protocol/server_requests.rs: the enumeration and its parser.
use codex_sdk_rs.Prelude.{
  List, [], ◌∷◌, ◌≡◌, refl, String, true, Option, eq_iff, str_eq, if◌then◌else◌,
}
use codex_sdk_rs.Prelude.Dispatch.{Row, dispatch-elim}
use codex_sdk_rs.Protocol.{RequestId, Result, ok, err, ClientError}
use codex_sdk_rs.Events.Payloads.{OpaqueStruct}

pub record ChatgptAuthTokensRefreshParams (Value Object : Type 0) : Type 0 where
  pub reason : String
  pub previous_account_id : Option String
  pub extra : Object

pub data ServerRequestEvent (Value Object : Type 0) : Type 0 where
  chatgpt_auth_tokens_refresh :
      (id : RequestId) (params : ChatgptAuthTokensRefreshParams Value Object)
      → ServerRequestEvent Value Object
  apply_patch_approval :
      (id : RequestId) (params : OpaqueStruct Value Object) → ServerRequestEvent Value Object
  exec_command_approval :
      (id : RequestId) (params : OpaqueStruct Value Object) → ServerRequestEvent Value Object
  command_execution_request_approval :
      (id : RequestId) (params : OpaqueStruct Value Object) → ServerRequestEvent Value Object
  file_change_request_approval :
      (id : RequestId) (params : OpaqueStruct Value Object) → ServerRequestEvent Value Object
  tool_request_user_input :
      (id : RequestId) (params : OpaqueStruct Value Object) → ServerRequestEvent Value Object
  dynamic_tool_call :
      (id : RequestId) (params : OpaqueStruct Value Object) → ServerRequestEvent Value Object
  unknown : (id : RequestId) (method : String) (params : Value) → ServerRequestEvent Value Object

-- The derived decoders of the parameters; a failure is the error's text.
pub record ServerRequestDecoders (Value Object : Type 0) : Type 0 where
  pub decode_refresh : Value → Result (ChatgptAuthTokensRefreshParams Value Object) String
  pub decode_opaque : Value → Result (OpaqueStruct Value Object) String

-- `decode(params)?` under a constructor of the enumeration.
abbrev pub decoded : {Value A B : Type 0} → (A → B) → Result A String → Result B (ClientError Value)
decoded f (ok a) = ok (f a)
decoded f (err e) = err (ClientError.serialization e)

-- The wire method of a request.
unfoldable pub request_method : {Value Object : Type 0} → ServerRequestEvent Value Object → String
request_method (ServerRequestEvent.chatgpt_auth_tokens_refresh _ _) =
    "account/chatgptAuthTokens/refresh"
request_method (ServerRequestEvent.apply_patch_approval _ _) = "applyPatchApproval"
request_method (ServerRequestEvent.exec_command_approval _ _) = "execCommandApproval"
request_method (ServerRequestEvent.command_execution_request_approval _ _) =
    "item/commandExecution/requestApproval"
request_method (ServerRequestEvent.file_change_request_approval _ _) =
    "item/fileChange/requestApproval"
request_method (ServerRequestEvent.tool_request_user_input _ _) = "item/tool/requestUserInput"
request_method (ServerRequestEvent.dynamic_tool_call _ _) = "item/tool/call"
request_method (ServerRequestEvent.unknown id method params) = method

unfoldable pub request_id : {Value Object : Type 0} → ServerRequestEvent Value Object → RequestId
request_id (ServerRequestEvent.chatgpt_auth_tokens_refresh id _) = id
request_id (ServerRequestEvent.apply_patch_approval id _) = id
request_id (ServerRequestEvent.exec_command_approval id _) = id
request_id (ServerRequestEvent.command_execution_request_approval id _) = id
request_id (ServerRequestEvent.file_change_request_approval id _) = id
request_id (ServerRequestEvent.tool_request_user_input id _) = id
request_id (ServerRequestEvent.dynamic_tool_call id _) = id
request_id (ServerRequestEvent.unknown id method params) = id

-- What a result of parsing keeps: the id and the method; only decoding can fail.
abbrev pub Carries :
    {Value Object : Type 0}
    → RequestId
    → String
    → Result (ServerRequestEvent Value Object) (ClientError Value)
    → Type 0
Carries id method (ok r) = (request_id r ≡ id) × (request_method r ≡ method)
Carries id method (err e) = Unit

module _ {Value Object : Type 0} (decoders : ServerRequestDecoders Value Object) where
  open decoders use {decode_refresh, decode_opaque}

  unfoldable pub parse_server_request :
      RequestId → String → Value → Result (ServerRequestEvent Value Object) (ClientError Value)
  parse_server_request id method params =
      if str_eq method "account/chatgptAuthTokens/refresh"
      then decoded (ServerRequestEvent.chatgpt_auth_tokens_refresh id) (decode_refresh params)
      else if str_eq method "applyPatchApproval"
      then decoded (ServerRequestEvent.apply_patch_approval id) (decode_opaque params)
      else if str_eq method "execCommandApproval"
      then decoded (ServerRequestEvent.exec_command_approval id) (decode_opaque params)
      else if str_eq method "item/commandExecution/requestApproval"
      then decoded (ServerRequestEvent.command_execution_request_approval id) (decode_opaque params)
      else if str_eq method "item/fileChange/requestApproval"
      then decoded (ServerRequestEvent.file_change_request_approval id) (decode_opaque params)
      else if str_eq method "item/tool/requestUserInput"
      then decoded (ServerRequestEvent.tool_request_user_input id) (decode_opaque params)
      else if str_eq method "item/tool/call"
      then decoded (ServerRequestEvent.dynamic_tool_call id) (decode_opaque params)
      else ok (ServerRequestEvent.unknown id method params)

  module _ (id : RequestId) (method : String) (params : Value) where
    abbrev Good : Result (ServerRequestEvent Value Object) (ClientError Value) → Type 0
    Good r = Carries id method r

    hit :
        {A : Type 0} (literal : String) (build : A → ServerRequestEvent Value Object)
        → ((a : A) → (request_id (build a) ≡ id) × (request_method (build a) ≡ literal))
        → (r : Result A String) → str_eq method literal ≡ true
        → Good (decoded build r)
    hit literal build carries (ok a) e = rw ((eq_iff method literal).0 e) (carries a)
    hit literal build carries (err text) e = tt

    abbrev row :
        {A : Type 0} (literal : String) (build : A → ServerRequestEvent Value Object)
        → ((a : A) → (request_id (build a) ≡ id) × (request_method (build a) ≡ literal))
        → Result A String
        → Row Good method
    row literal build carries r = record {
      literal = literal;
      value = decoded build r;
      holds = hit literal build carries r;
    }

    abbrev rows : List (Row Good method)
    unfolding request_id request_method
    rows =
        row "account/chatgptAuthTokens/refresh" (ServerRequestEvent.chatgpt_auth_tokens_refresh id)
          (λ a. (refl, refl)) (decode_refresh params)
        ∷ row "applyPatchApproval" (ServerRequestEvent.apply_patch_approval id) (λ a. (refl, refl))
            (decode_opaque params)
        ∷ row "execCommandApproval" (ServerRequestEvent.exec_command_approval id)
            (λ a. (refl, refl)) (decode_opaque params)
        ∷ row "item/commandExecution/requestApproval"
            (ServerRequestEvent.command_execution_request_approval id) (λ a. (refl, refl))
            (decode_opaque params)
        ∷ row "item/fileChange/requestApproval" (ServerRequestEvent.file_change_request_approval id)
            (λ a. (refl, refl)) (decode_opaque params)
        ∷ row "item/tool/requestUserInput" (ServerRequestEvent.tool_request_user_input id)
            (λ a. (refl, refl)) (decode_opaque params)
        ∷ row "item/tool/call" (ServerRequestEvent.dynamic_tool_call id) (λ a. (refl, refl))
            (decode_opaque params)
        ∷ []

    pub parse_server_request-Carries : Carries id method (parse_server_request id method params)
    unfolding parse_server_request request_id request_method
    parse_server_request-Carries =
        dispatch-elim Good method rows (ok (ServerRequestEvent.unknown id method params))
          (λ missed. (refl, refl))
