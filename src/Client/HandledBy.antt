-- ===== src/Client/HandledBy.antt =====
-- Which handler takes which server request: the table of crates/sdk/src/events/mod.rs and
-- crates/sdk/src/client/server_requests.rs, row by row.
use codex_sdk_rs.Prelude.{
  ◌≡◌, refl, String, true, false, Option, none, some, List, [], ◌∷◌, map_some, eq_iff, str_eq,
}
use codex_sdk_rs.Prelude.Dispatch.{Row, dispatch-elim, is_listed}
use codex_sdk_rs.Protocol.{RequestId, Result, ok, err, ClientError, ok_or}
use codex_sdk_rs.Events.Payloads.{OpaqueStruct}
use codex_sdk_rs.Events.ServerRequests.{
  ServerRequestDecoders, ServerRequestEvent, ChatgptAuthTokensRefreshParams, parse_server_request,
  decoded,
}
use codex_sdk_rs.Client.Handlers.{ServerRequestHandlers, Handler, Handled, run_handler, called}

-- The methods that have a handler and share a decoder.
abbrev pub opaque_methods : List String
opaque_methods =
    "applyPatchApproval" ∷ "execCommandApproval" ∷ "item/commandExecution/requestApproval"
    ∷ "item/fileChange/requestApproval" ∷ "item/tool/requestUserInput" ∷ "item/tool/call" ∷ []

module _ {Value Object : Type 0} (decoders : ServerRequestDecoders Value Object)
    (handlers : ServerRequestHandlers Value Object) (id : RequestId) (method : String)
    (params : Value) where
  open decoders use {decode_refresh, decode_opaque}

  -- What a handler, if there is one, gives for parameters, with the context of its row.
  abbrev pub given :
      {Params : Type 0} → String → Option (Handler Params Value) → Params → Option (Handled Value)
  given context handler decoded_params =
      map_some
        (λ (run : Handler _ Value). record { context = context; response = run decoded_params })
        handler

  -- The event that a server request is, and what its handler gives, if it has one. A request whose
  -- method is not listed or whose parameters cannot be decoded is unknown and has no handler.
  pub data HandledBy : ServerRequestEvent Value Object → Option (Handled Value) → Type 0 where
    chatgpt_auth_tokens_refresh :
        (p : ChatgptAuthTokensRefreshParams Value Object)
        → method ≡ "account/chatgptAuthTokens/refresh"
        → decode_refresh params ≡ ok p
        → HandledBy
            (ServerRequestEvent.chatgpt_auth_tokens_refresh id p)
            (given "chatgptAuthTokens refresh" handlers.chatgpt_auth_tokens_refresh p)
    apply_patch_approval :
        (p : OpaqueStruct Value Object)
        → method ≡ "applyPatchApproval"
        → decode_opaque params ≡ ok p
        → HandledBy
            (ServerRequestEvent.apply_patch_approval id p)
            (given "applyPatchApproval" handlers.apply_patch_approval p)
    exec_command_approval :
        (p : OpaqueStruct Value Object)
        → method ≡ "execCommandApproval"
        → decode_opaque params ≡ ok p
        → HandledBy
            (ServerRequestEvent.exec_command_approval id p)
            (given "execCommandApproval" handlers.exec_command_approval p)
    command_execution_request_approval :
        (p : OpaqueStruct Value Object)
        → method ≡ "item/commandExecution/requestApproval"
        → decode_opaque params ≡ ok p
        → HandledBy (ServerRequestEvent.command_execution_request_approval id p) (
            given "item/commandExecution/requestApproval"
              handlers.command_execution_request_approval p)
    file_change_request_approval :
        (p : OpaqueStruct Value Object)
        → method ≡ "item/fileChange/requestApproval"
        → decode_opaque params ≡ ok p
        → HandledBy
            (ServerRequestEvent.file_change_request_approval id p)
            (given "item/fileChange/requestApproval" handlers.file_change_request_approval p)
    tool_request_user_input :
        (p : OpaqueStruct Value Object)
        → method ≡ "item/tool/requestUserInput"
        → decode_opaque params ≡ ok p
        → HandledBy
            (ServerRequestEvent.tool_request_user_input id p)
            (given "item/tool/requestUserInput" handlers.tool_request_user_input p)
    dynamic_tool_call :
        (p : OpaqueStruct Value Object)
        → method ≡ "item/tool/call"
        → decode_opaque params ≡ ok p
        → HandledBy
            (ServerRequestEvent.dynamic_tool_call id p)
            (given "item/tool/call" handlers.dynamic_tool_call p)
    undecoded_refresh :
        (e : String)
        → method ≡ "account/chatgptAuthTokens/refresh"
        → decode_refresh params ≡ err e
        → HandledBy (ServerRequestEvent.unknown id method params) none
    undecoded :
        (e : String)
        → is_listed method opaque_methods ≡ true
        → decode_opaque params ≡ err e
        → HandledBy (ServerRequestEvent.unknown id method params) none
    unlisted :
        is_listed method ("account/chatgptAuthTokens/refresh" ∷ opaque_methods) ≡ false
        → HandledBy (ServerRequestEvent.unknown id method params) none

  called-given :
      {Params : Type 0} (context : String) (handler : Option (Handler Params Value)) (p : Params)
      → called context handler p ≡ given context handler p
  called-given context none p = refl
  called-given context (some run) p = refl

  -- The request that is handled for a result of parsing.
  abbrev pub request_of :
      Result (ServerRequestEvent Value Object) (ClientError Value) → ServerRequestEvent Value Object
  request_of r = ok_or (ServerRequestEvent.unknown id method params) r

  abbrev Good : Result (ServerRequestEvent Value Object) (ClientError Value) → Type 0
  Good r = HandledBy (request_of r) (run_handler handlers (request_of r))

  hit :
      {A : Type 0} (literal : String) (build : A → ServerRequestEvent Value Object)
      (r : Result A String)
      → ((a : A)
          → r ≡ ok a
          → method ≡ literal
          → HandledBy (build a) (run_handler handlers (build a)))
      → ((e : String)
          → r ≡ err e
          → method ≡ literal
          → HandledBy (ServerRequestEvent.unknown id method params) none)
      → str_eq method literal ≡ true
      → Good (decoded build r)
  unfolding run_handler
  hit literal build (ok a) good bad e = good a refl ((eq_iff method literal).0 e)
  hit literal build (err x) good bad e = bad x refl ((eq_iff method literal).0 e)

  abbrev rows : List (Row Good method)
  unfolding run_handler
  rows =
      record {
        literal = "account/chatgptAuthTokens/refresh";
        value = decoded (ServerRequestEvent.chatgpt_auth_tokens_refresh id) (decode_refresh params);
        holds =
            hit "account/chatgptAuthTokens/refresh"
              (ServerRequestEvent.chatgpt_auth_tokens_refresh id) (decode_refresh params)
              (λ p d s.
                rw (called-given "chatgptAuthTokens refresh" handlers.chatgpt_auth_tokens_refresh p)
                  (HandledBy.chatgpt_auth_tokens_refresh p s d))
              (λ x d s. HandledBy.undecoded_refresh x s d);
      }
      ∷ record {
        literal = "applyPatchApproval";
        value = decoded (ServerRequestEvent.apply_patch_approval id) (decode_opaque params);
        holds =
            hit "applyPatchApproval" (ServerRequestEvent.apply_patch_approval id)
              (decode_opaque params)
              (λ p d s.
                rw (called-given "applyPatchApproval" handlers.apply_patch_approval p)
                  (HandledBy.apply_patch_approval p s d))
              (λ x d s. HandledBy.undecoded x (rw s refl) d);
      }
      ∷ record {
        literal = "execCommandApproval";
        value = decoded (ServerRequestEvent.exec_command_approval id) (decode_opaque params);
        holds =
            hit "execCommandApproval" (ServerRequestEvent.exec_command_approval id)
              (decode_opaque params)
              (λ p d s.
                rw (called-given "execCommandApproval" handlers.exec_command_approval p)
                  (HandledBy.exec_command_approval p s d))
              (λ x d s. HandledBy.undecoded x (rw s refl) d);
      }
      ∷ record {
        literal = "item/commandExecution/requestApproval";
        value =
            decoded (ServerRequestEvent.command_execution_request_approval id)
              (decode_opaque params);
        holds =
            hit "item/commandExecution/requestApproval"
              (ServerRequestEvent.command_execution_request_approval id) (decode_opaque params)
              (λ p d s.
                rw
                  (called-given "item/commandExecution/requestApproval"
                    handlers.command_execution_request_approval p)
                  (HandledBy.command_execution_request_approval p s d))
              (λ x d s. HandledBy.undecoded x (rw s refl) d);
      }
      ∷ record {
        literal = "item/fileChange/requestApproval";
        value = decoded (ServerRequestEvent.file_change_request_approval id) (decode_opaque params);
        holds =
            hit "item/fileChange/requestApproval"
              (ServerRequestEvent.file_change_request_approval id) (decode_opaque params)
              (λ p d s.
                rw
                  (called-given "item/fileChange/requestApproval"
                    handlers.file_change_request_approval p)
                  (HandledBy.file_change_request_approval p s d))
              (λ x d s. HandledBy.undecoded x (rw s refl) d);
      }
      ∷ record {
        literal = "item/tool/requestUserInput";
        value = decoded (ServerRequestEvent.tool_request_user_input id) (decode_opaque params);
        holds =
            hit "item/tool/requestUserInput" (ServerRequestEvent.tool_request_user_input id)
              (decode_opaque params)
              (λ p d s.
                rw (called-given "item/tool/requestUserInput" handlers.tool_request_user_input p)
                  (HandledBy.tool_request_user_input p s d))
              (λ x d s. HandledBy.undecoded x (rw s refl) d);
      }
      ∷ record {
        literal = "item/tool/call";
        value = decoded (ServerRequestEvent.dynamic_tool_call id) (decode_opaque params);
        holds =
            hit "item/tool/call" (ServerRequestEvent.dynamic_tool_call id) (decode_opaque params)
              (λ p d s.
                rw (called-given "item/tool/call" handlers.dynamic_tool_call p)
                  (HandledBy.dynamic_tool_call p s d))
              (λ x d s. HandledBy.undecoded x (rw s refl) d);
      }
      ∷ []

  -- What parsing and then running the handlers does is what the table says.
  pub parse_server_request-HandledBy :
      HandledBy
        (request_of (parse_server_request decoders id method params))
        (run_handler handlers (request_of (parse_server_request decoders id method params)))
  unfolding parse_server_request run_handler
  parse_server_request-HandledBy =
      dispatch-elim Good method rows (ok (ServerRequestEvent.unknown id method params))
        (λ missed. HandledBy.unlisted missed)
