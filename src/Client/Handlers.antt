-- ===== src/Client/Handlers.antt =====
-- The handlers of server requests: crates/sdk/src/client/server_requests.rs, and the texts that
-- `Display` gives the errors of crates/sdk/src/error.rs.
--
-- A handler is a function of its parameters; what it does besides is not modelled. Its response is
-- the value that it is serialised to.
use codex_sdk_rs.Prelude.{String, Option, none, some, [], ◌∷◌}
use codex_sdk_rs.Prelude.Text.{concat}
use codex_sdk_rs.Prelude.Decimal.{decimal_u64}
use codex_sdk_rs.Protocol.{RequestId, ClientError, Result, ok, err, rpc_error_code_handler_failed}
use codex_sdk_rs.SerdeJson.{SerdeJson}
use codex_sdk_rs.Incoming.{result_frame}
use codex_sdk_rs.Events.Payloads.{OpaqueStruct}
use codex_sdk_rs.Events.ServerRequests.{ServerRequestEvent, ChatgptAuthTokensRefreshParams}

abbrev pub Handler : (Params Value : Type 0) → Type 0
Handler Params Value = Params → Result Value (ClientError Value)

pub record ServerRequestHandlers (Value Object : Type 0) : Type 0 where
  pub chatgpt_auth_tokens_refresh :
      Option (Handler (ChatgptAuthTokensRefreshParams Value Object) Value)
  pub apply_patch_approval : Option (Handler (OpaqueStruct Value Object) Value)
  pub exec_command_approval : Option (Handler (OpaqueStruct Value Object) Value)
  pub command_execution_request_approval : Option (Handler (OpaqueStruct Value Object) Value)
  pub file_change_request_approval : Option (Handler (OpaqueStruct Value Object) Value)
  pub tool_request_user_input : Option (Handler (OpaqueStruct Value Object) Value)
  pub dynamic_tool_call : Option (Handler (OpaqueStruct Value Object) Value)

-- `ServerRequestHandlers::default`.
abbrev pub no_handlers : {Value Object : Type 0} → ServerRequestHandlers Value Object
no_handlers = record {
  chatgpt_auth_tokens_refresh = none;
  apply_patch_approval = none;
  exec_command_approval = none;
  command_execution_request_approval = none;
  file_change_request_approval = none;
  tool_request_user_input = none;
  dynamic_tool_call = none;
}

-- What the generated `$set` (with a handler) and `$clear` (without one) are called for.
pub data HandlerChange (Value Object : Type 0) : Type 0 where
  chatgpt_auth_tokens_refresh :
      Option (Handler (ChatgptAuthTokensRefreshParams Value Object) Value)
      → HandlerChange Value Object
  apply_patch_approval :
      Option (Handler (OpaqueStruct Value Object) Value) → HandlerChange Value Object
  exec_command_approval :
      Option (Handler (OpaqueStruct Value Object) Value) → HandlerChange Value Object
  command_execution_request_approval :
      Option (Handler (OpaqueStruct Value Object) Value) → HandlerChange Value Object
  file_change_request_approval :
      Option (Handler (OpaqueStruct Value Object) Value) → HandlerChange Value Object
  tool_request_user_input :
      Option (Handler (OpaqueStruct Value Object) Value) → HandlerChange Value Object
  dynamic_tool_call :
      Option (Handler (OpaqueStruct Value Object) Value) → HandlerChange Value Object

unfoldable pub change_handler :
    {Value Object : Type 0}
    → HandlerChange Value Object
    → ServerRequestHandlers Value Object
    → ServerRequestHandlers Value Object
change_handler (HandlerChange.chatgpt_auth_tokens_refresh handler) h = record h {
  chatgpt_auth_tokens_refresh = handler;
}
change_handler (HandlerChange.apply_patch_approval handler) h = record h {
  apply_patch_approval = handler;
}
change_handler (HandlerChange.exec_command_approval handler) h = record h {
  exec_command_approval = handler;
}
change_handler (HandlerChange.command_execution_request_approval handler) h = record h {
  command_execution_request_approval = handler;
}
change_handler (HandlerChange.file_change_request_approval handler) h = record h {
  file_change_request_approval = handler;
}
change_handler (HandlerChange.tool_request_user_input handler) h = record h {
  tool_request_user_input = handler;
}
change_handler (HandlerChange.dynamic_tool_call handler) h = record h {
  dynamic_tool_call = handler;
}

-- A handler's outcome with the context of its row.
pub record Handled (Value : Type 0) : Type 0 where
  pub context : String
  pub response : Result Value (ClientError Value)

abbrev pub called :
    {Params Value : Type 0}
    → String
    → Option (Handler Params Value)
    → Params
    → Option (Handled Value)
called context none params = none
called context (some handler) params =
    some (record { context = context; response = handler params })

-- The part of `try_auto_handle_server_request` before the result is sent: the outcome of the
-- registered handler, if there is one.
unfoldable pub run_handler :
    {Value Object : Type 0}
    → ServerRequestHandlers Value Object
    → ServerRequestEvent Value Object
    → Option (Handled Value)
run_handler h (ServerRequestEvent.chatgpt_auth_tokens_refresh id params) =
    called "chatgptAuthTokens refresh" h.chatgpt_auth_tokens_refresh params
run_handler h (ServerRequestEvent.apply_patch_approval id params) =
    called "applyPatchApproval" h.apply_patch_approval params
run_handler h (ServerRequestEvent.exec_command_approval id params) =
    called "execCommandApproval" h.exec_command_approval params
run_handler h (ServerRequestEvent.command_execution_request_approval id params) =
    called "item/commandExecution/requestApproval" h.command_execution_request_approval params
run_handler h (ServerRequestEvent.file_change_request_approval id params) =
    called "item/fileChange/requestApproval" h.file_change_request_approval params
run_handler h (ServerRequestEvent.tool_request_user_input id params) =
    called "item/tool/requestUserInput" h.tool_request_user_input params
run_handler h (ServerRequestEvent.dynamic_tool_call id params) =
    called "item/tool/call" h.dynamic_tool_call params
run_handler h (ServerRequestEvent.unknown id method params) = none

abbrev startup_log_suffix : Option String → String
startup_log_suffix none = ""
startup_log_suffix (some path) = concat ("; logs: " ∷ path ∷ [])

module _ ⦃json : SerdeJson⦄ where
  open json use {Value, debug_rpc_error, object, encode_request_id, integer, text}

  -- `Display` of `ClientError`.
  unfoldable pub display_error : ClientError Value → String
  display_error (ClientError.not_initialized method) =
      concat ("not initialized: call initialize() before invoking " ∷ method ∷ [])
  display_error (ClientError.not_ready method) =
      concat ("connection not ready: call initialized() before invoking " ∷ method ∷ [])
  display_error ClientError.already_initialized = "connection is already initialized"
  display_error (ClientError.timeout method timeout_ms) =
      concat ("request timed out after " ∷ decimal_u64 timeout_ms ∷ "ms for method " ∷ method ∷ [])
  display_error (ClientError.config message) = concat ("invalid configuration: " ∷ message ∷ [])
  display_error (ClientError.startup message log_path) =
      concat ("app-server startup failed: " ∷ message ∷ startup_log_suffix log_path ∷ [])
  display_error (ClientError.transport_send message) =
      concat ("transport send failed: " ∷ message ∷ [])
  display_error ClientError.transport_closed = "transport closed"
  display_error (ClientError.invalid_message message) =
      concat ("invalid message from server: " ∷ message ∷ [])
  display_error (ClientError.serialization message) =
      concat ("serialization error: " ∷ message ∷ [])
  display_error (ClientError.io message) = concat ("io error: " ∷ message ∷ [])
  display_error (ClientError.rpc error) = concat ("rpc error " ∷ debug_rpc_error error ∷ [])
  display_error (ClientError.unexpected_result method source) =
      concat ("unexpected result shape for method " ∷ method ∷ ": " ∷ source ∷ [])

  -- The payload of `send_server_request_handler_result`.
  unfoldable pub handler_payload : RequestId → Result Value (ClientError Value) → String → Value
  handler_payload id (ok result) context = result_frame id result
  handler_payload id (err e) context = object (
      ("id", encode_request_id id)
      ∷ (
        "error",
        object (
            ("code", integer rpc_error_code_handler_failed)
            ∷ ("message", text (concat (context ∷ " handler failed: " ∷ display_error e ∷ [])))
            ∷ []),
      )
      ∷ [])
