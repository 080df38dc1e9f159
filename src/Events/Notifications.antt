-- ===== src/Events/Notifications.antt =====
-- The table of server notifications in crates/sdk/src/events/mod.rs: the enumeration, its parser
-- and the accessor of the method's name, a row to a constructor.
use codex_sdk_rs.Prelude.{String, Option, none, some, str_eq, if◌then◌else◌}
use codex_sdk_rs.Protocol.{Result, ok, err, ClientError}
use codex_sdk_rs.Events.Payloads.{
  DeltaNotification, ErrorNotification, ItemLifecycleNotification, OpaqueStruct,
  ServerRequestResolvedNotification, ThreadLifecycleNotification, ThreadNameUpdatedNotification,
  ThreadStartedNotification, ThreadStatusChangedNotification, ThreadTokenUsageUpdatedNotification,
  TurnCompletedNotification, TurnDiffUpdatedNotification, TurnPlanUpdatedNotification,
  TurnStartedNotification,
}

pub data ServerNotification (Value Object : Type 0) : Type 0 where
  error : ErrorNotification Value Object → ServerNotification Value Object
  thread_started : ThreadStartedNotification Value Object → ServerNotification Value Object
  thread_archived : ThreadLifecycleNotification Value Object → ServerNotification Value Object
  thread_unarchived : ThreadLifecycleNotification Value Object → ServerNotification Value Object
  thread_closed : ThreadLifecycleNotification Value Object → ServerNotification Value Object
  thread_name_updated : ThreadNameUpdatedNotification Value Object → ServerNotification Value Object
  thread_status_changed :
      ThreadStatusChangedNotification Value Object → ServerNotification Value Object
  thread_token_usage_updated :
      ThreadTokenUsageUpdatedNotification Value Object → ServerNotification Value Object
  turn_started : TurnStartedNotification Value Object → ServerNotification Value Object
  turn_completed : TurnCompletedNotification Value Object → ServerNotification Value Object
  turn_diff_updated : TurnDiffUpdatedNotification Value Object → ServerNotification Value Object
  turn_plan_updated : TurnPlanUpdatedNotification Value Object → ServerNotification Value Object
  item_started : ItemLifecycleNotification Value Object → ServerNotification Value Object
  item_completed : ItemLifecycleNotification Value Object → ServerNotification Value Object
  raw_response_item_completed : OpaqueStruct Value Object → ServerNotification Value Object
  item_agent_message_delta : DeltaNotification Value Object → ServerNotification Value Object
  item_plan_delta : DeltaNotification Value Object → ServerNotification Value Object
  item_command_execution_output_delta :
      DeltaNotification Value Object → ServerNotification Value Object
  item_command_execution_terminal_interaction :
      DeltaNotification Value Object → ServerNotification Value Object
  item_file_change_output_delta : DeltaNotification Value Object → ServerNotification Value Object
  item_mcp_tool_call_progress : DeltaNotification Value Object → ServerNotification Value Object
  item_reasoning_summary_text_delta :
      DeltaNotification Value Object → ServerNotification Value Object
  item_reasoning_summary_part_added :
      DeltaNotification Value Object → ServerNotification Value Object
  item_reasoning_text_delta : DeltaNotification Value Object → ServerNotification Value Object
  mcp_server_oauth_login_completed : OpaqueStruct Value Object → ServerNotification Value Object
  account_updated : OpaqueStruct Value Object → ServerNotification Value Object
  account_rate_limits_updated : OpaqueStruct Value Object → ServerNotification Value Object
  app_list_updated : OpaqueStruct Value Object → ServerNotification Value Object
  context_compacted : DeltaNotification Value Object → ServerNotification Value Object
  deprecation_notice : OpaqueStruct Value Object → ServerNotification Value Object
  config_warning : OpaqueStruct Value Object → ServerNotification Value Object
  windows_world_writable_warning : OpaqueStruct Value Object → ServerNotification Value Object
  windows_sandbox_setup_completed : OpaqueStruct Value Object → ServerNotification Value Object
  account_login_completed : OpaqueStruct Value Object → ServerNotification Value Object
  auth_status_change : OpaqueStruct Value Object → ServerNotification Value Object
  login_chat_gpt_complete : OpaqueStruct Value Object → ServerNotification Value Object
  session_configured : OpaqueStruct Value Object → ServerNotification Value Object
  fuzzy_file_search_session_updated : OpaqueStruct Value Object → ServerNotification Value Object
  fuzzy_file_search_session_completed : OpaqueStruct Value Object → ServerNotification Value Object
  server_request_resolved :
      ServerRequestResolvedNotification Value Object → ServerNotification Value Object
  unknown : (method : String) (params : Value) → ServerNotification Value Object

-- The derived decoders of the payloads, `serde_json::from_value`; a failure is the error's text.
pub record NotificationDecoders (Value Object : Type 0) : Type 0 where
  pub decode_error : Value → Result (ErrorNotification Value Object) String
  pub decode_thread_started : Value → Result (ThreadStartedNotification Value Object) String
  pub decode_thread_lifecycle : Value → Result (ThreadLifecycleNotification Value Object) String
  pub decode_thread_name_updated :
      Value → Result (ThreadNameUpdatedNotification Value Object) String
  pub decode_thread_status_changed :
      Value → Result (ThreadStatusChangedNotification Value Object) String
  pub decode_thread_token_usage_updated :
      Value → Result (ThreadTokenUsageUpdatedNotification Value Object) String
  pub decode_turn_started : Value → Result (TurnStartedNotification Value Object) String
  pub decode_turn_completed : Value → Result (TurnCompletedNotification Value Object) String
  pub decode_turn_diff_updated : Value → Result (TurnDiffUpdatedNotification Value Object) String
  pub decode_turn_plan_updated : Value → Result (TurnPlanUpdatedNotification Value Object) String
  pub decode_item_lifecycle : Value → Result (ItemLifecycleNotification Value Object) String
  pub decode_opaque : Value → Result (OpaqueStruct Value Object) String
  pub decode_delta : Value → Result (DeltaNotification Value Object) String
  pub decode_server_request_resolved :
      Value → Result (ServerRequestResolvedNotification Value Object) String

-- `decode(params)?` under a constructor of the enumeration.
abbrev pub decoded : {Value A B : Type 0} → (A → B) → Result A String → Result B (ClientError Value)
decoded f (ok a) = ok (f a)
decoded f (err e) = err (ClientError.serialization e)

unfoldable pub method_name :
    {Value Object : Type 0} → ServerNotification Value Object → Option String
method_name (ServerNotification.error _) = some "error"
method_name (ServerNotification.thread_started _) = some "thread/started"
method_name (ServerNotification.thread_archived _) = some "thread/archived"
method_name (ServerNotification.thread_unarchived _) = some "thread/unarchived"
method_name (ServerNotification.thread_closed _) = some "thread/closed"
method_name (ServerNotification.thread_name_updated _) = some "thread/name/updated"
method_name (ServerNotification.thread_status_changed _) = some "thread/status/changed"
method_name (ServerNotification.thread_token_usage_updated _) = some "thread/tokenUsage/updated"
method_name (ServerNotification.turn_started _) = some "turn/started"
method_name (ServerNotification.turn_completed _) = some "turn/completed"
method_name (ServerNotification.turn_diff_updated _) = some "turn/diff/updated"
method_name (ServerNotification.turn_plan_updated _) = some "turn/plan/updated"
method_name (ServerNotification.item_started _) = some "item/started"
method_name (ServerNotification.item_completed _) = some "item/completed"
method_name (ServerNotification.raw_response_item_completed _) = some "rawResponseItem/completed"
method_name (ServerNotification.item_agent_message_delta _) = some "item/agentMessage/delta"
method_name (ServerNotification.item_plan_delta _) = some "item/plan/delta"
method_name (ServerNotification.item_command_execution_output_delta _) =
    some "item/commandExecution/outputDelta"
method_name (ServerNotification.item_command_execution_terminal_interaction _) =
    some "item/commandExecution/terminalInteraction"
method_name (ServerNotification.item_file_change_output_delta _) =
    some "item/fileChange/outputDelta"
method_name (ServerNotification.item_mcp_tool_call_progress _) = some "item/mcpToolCall/progress"
method_name (ServerNotification.item_reasoning_summary_text_delta _) =
    some "item/reasoning/summaryTextDelta"
method_name (ServerNotification.item_reasoning_summary_part_added _) =
    some "item/reasoning/summaryPartAdded"
method_name (ServerNotification.item_reasoning_text_delta _) = some "item/reasoning/textDelta"
method_name (ServerNotification.mcp_server_oauth_login_completed _) =
    some "mcpServer/oauthLogin/completed"
method_name (ServerNotification.account_updated _) = some "account/updated"
method_name (ServerNotification.account_rate_limits_updated _) = some "account/rateLimits/updated"
method_name (ServerNotification.app_list_updated _) = some "app/list/updated"
method_name (ServerNotification.context_compacted _) = some "thread/compacted"
method_name (ServerNotification.deprecation_notice _) = some "deprecationNotice"
method_name (ServerNotification.config_warning _) = some "configWarning"
method_name (ServerNotification.windows_world_writable_warning _) =
    some "windows/worldWritableWarning"
method_name (ServerNotification.windows_sandbox_setup_completed _) =
    some "windowsSandbox/setupCompleted"
method_name (ServerNotification.account_login_completed _) = some "account/login/completed"
method_name (ServerNotification.auth_status_change _) = some "authStatusChange"
method_name (ServerNotification.login_chat_gpt_complete _) = some "loginChatGptComplete"
method_name (ServerNotification.session_configured _) = some "sessionConfigured"
method_name (ServerNotification.fuzzy_file_search_session_updated _) =
    some "fuzzyFileSearch/sessionUpdated"
method_name (ServerNotification.fuzzy_file_search_session_completed _) =
    some "fuzzyFileSearch/sessionCompleted"
method_name (ServerNotification.server_request_resolved _) = some "serverRequest/resolved"
method_name (ServerNotification.unknown method params) = none

module _ {Value Object : Type 0} (decoders : NotificationDecoders Value Object) where
  open decoders use {
    decode_error, decode_thread_started, decode_thread_lifecycle, decode_thread_name_updated,
    decode_thread_status_changed, decode_thread_token_usage_updated, decode_turn_started,
    decode_turn_completed, decode_turn_diff_updated, decode_turn_plan_updated,
    decode_item_lifecycle, decode_opaque, decode_delta, decode_server_request_resolved,
  }

  unfoldable pub parse_notification :
      String → Value → Result (ServerNotification Value Object) (ClientError Value)
  parse_notification method params =
      if str_eq method "error"
      then decoded ServerNotification.error (decode_error params)
      else if str_eq method "thread/started"
      then decoded ServerNotification.thread_started (decode_thread_started params)
      else if str_eq method "thread/archived"
      then decoded ServerNotification.thread_archived (decode_thread_lifecycle params)
      else if str_eq method "thread/unarchived"
      then decoded ServerNotification.thread_unarchived (decode_thread_lifecycle params)
      else if str_eq method "thread/closed"
      then decoded ServerNotification.thread_closed (decode_thread_lifecycle params)
      else if str_eq method "thread/name/updated"
      then decoded ServerNotification.thread_name_updated (decode_thread_name_updated params)
      else if str_eq method "thread/status/changed"
      then decoded ServerNotification.thread_status_changed (decode_thread_status_changed params)
      else if str_eq method "thread/tokenUsage/updated"
      then decoded ServerNotification.thread_token_usage_updated
          (decode_thread_token_usage_updated params)
      else if str_eq method "turn/started"
      then decoded ServerNotification.turn_started (decode_turn_started params)
      else if str_eq method "turn/completed"
      then decoded ServerNotification.turn_completed (decode_turn_completed params)
      else if str_eq method "turn/diff/updated"
      then decoded ServerNotification.turn_diff_updated (decode_turn_diff_updated params)
      else if str_eq method "turn/plan/updated"
      then decoded ServerNotification.turn_plan_updated (decode_turn_plan_updated params)
      else if str_eq method "item/started"
      then decoded ServerNotification.item_started (decode_item_lifecycle params)
      else if str_eq method "item/completed"
      then decoded ServerNotification.item_completed (decode_item_lifecycle params)
      else if str_eq method "rawResponseItem/completed"
      then decoded ServerNotification.raw_response_item_completed (decode_opaque params)
      else if str_eq method "item/agentMessage/delta"
      then decoded ServerNotification.item_agent_message_delta (decode_delta params)
      else if str_eq method "item/plan/delta"
      then decoded ServerNotification.item_plan_delta (decode_delta params)
      else if str_eq method "item/commandExecution/outputDelta"
      then decoded ServerNotification.item_command_execution_output_delta (decode_delta params)
      else if str_eq method "item/commandExecution/terminalInteraction"
      then decoded ServerNotification.item_command_execution_terminal_interaction
          (decode_delta params)
      else if str_eq method "item/fileChange/outputDelta"
      then decoded ServerNotification.item_file_change_output_delta (decode_delta params)
      else if str_eq method "item/mcpToolCall/progress"
      then decoded ServerNotification.item_mcp_tool_call_progress (decode_delta params)
      else if str_eq method "item/reasoning/summaryTextDelta"
      then decoded ServerNotification.item_reasoning_summary_text_delta (decode_delta params)
      else if str_eq method "item/reasoning/summaryPartAdded"
      then decoded ServerNotification.item_reasoning_summary_part_added (decode_delta params)
      else if str_eq method "item/reasoning/textDelta"
      then decoded ServerNotification.item_reasoning_text_delta (decode_delta params)
      else if str_eq method "mcpServer/oauthLogin/completed"
      then decoded ServerNotification.mcp_server_oauth_login_completed (decode_opaque params)
      else if str_eq method "account/updated"
      then decoded ServerNotification.account_updated (decode_opaque params)
      else if str_eq method "account/rateLimits/updated"
      then decoded ServerNotification.account_rate_limits_updated (decode_opaque params)
      else if str_eq method "app/list/updated"
      then decoded ServerNotification.app_list_updated (decode_opaque params)
      else if str_eq method "thread/compacted"
      then decoded ServerNotification.context_compacted (decode_delta params)
      else if str_eq method "deprecationNotice"
      then decoded ServerNotification.deprecation_notice (decode_opaque params)
      else if str_eq method "configWarning"
      then decoded ServerNotification.config_warning (decode_opaque params)
      else if str_eq method "windows/worldWritableWarning"
      then decoded ServerNotification.windows_world_writable_warning (decode_opaque params)
      else if str_eq method "windowsSandbox/setupCompleted"
      then decoded ServerNotification.windows_sandbox_setup_completed (decode_opaque params)
      else if str_eq method "account/login/completed"
      then decoded ServerNotification.account_login_completed (decode_opaque params)
      else if str_eq method "authStatusChange"
      then decoded ServerNotification.auth_status_change (decode_opaque params)
      else if str_eq method "loginChatGptComplete"
      then decoded ServerNotification.login_chat_gpt_complete (decode_opaque params)
      else if str_eq method "sessionConfigured"
      then decoded ServerNotification.session_configured (decode_opaque params)
      else if str_eq method "fuzzyFileSearch/sessionUpdated"
      then decoded ServerNotification.fuzzy_file_search_session_updated (decode_opaque params)
      else if str_eq method "fuzzyFileSearch/sessionCompleted"
      then decoded ServerNotification.fuzzy_file_search_session_completed (decode_opaque params)
      else if str_eq method "serverRequest/resolved"
      then decoded ServerNotification.server_request_resolved
          (decode_server_request_resolved params)
      else ok (ServerNotification.unknown method params)
