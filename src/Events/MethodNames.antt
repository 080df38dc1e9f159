-- ===== src/Events/MethodNames.antt =====
-- The method names of notifications (crates/sdk/src/events/mod.rs) survive parsing.
use codex_sdk_rs.Prelude.{
  ◌≡◌, refl, String, true, some, List, [], ◌∷◌, eq_iff, str_eq, if◌then◌else◌,
}
use codex_sdk_rs.Prelude.Dispatch.{is_listed, Row}
use codex_sdk_rs.Protocol.{Result, ok, err, ClientError}
use codex_sdk_rs.Events.Notifications.{
  ServerNotification, NotificationDecoders, decoded, method_name,
}

-- The table's method names, in its order.
abbrev pub method_names : List String
method_names =
    "error" ∷ "thread/started" ∷ "thread/archived" ∷ "thread/unarchived" ∷ "thread/closed"
    ∷ "thread/name/updated" ∷ "thread/status/changed" ∷ "thread/tokenUsage/updated" ∷ "turn/started"
    ∷ "turn/completed" ∷ "turn/diff/updated" ∷ "turn/plan/updated" ∷ "item/started"
    ∷ "item/completed" ∷ "rawResponseItem/completed" ∷ "item/agentMessage/delta" ∷ "item/plan/delta"
    ∷ "item/commandExecution/outputDelta" ∷ "item/commandExecution/terminalInteraction"
    ∷ "item/fileChange/outputDelta" ∷ "item/mcpToolCall/progress"
    ∷ "item/reasoning/summaryTextDelta" ∷ "item/reasoning/summaryPartAdded"
    ∷ "item/reasoning/textDelta" ∷ "mcpServer/oauthLogin/completed" ∷ "account/updated"
    ∷ "account/rateLimits/updated" ∷ "app/list/updated" ∷ "thread/compacted" ∷ "deprecationNotice"
    ∷ "configWarning" ∷ "windows/worldWritableWarning" ∷ "windowsSandbox/setupCompleted"
    ∷ "account/login/completed" ∷ "authStatusChange" ∷ "loginChatGptComplete" ∷ "sessionConfigured"
    ∷ "fuzzyFileSearch/sessionUpdated" ∷ "fuzzyFileSearch/sessionCompleted"
    ∷ "serverRequest/resolved" ∷ []

-- What a result of parsing says of the method: a known method is decoded to its own row, an unknown
-- one is kept with its parameters, and only decoding can fail.
abbrev pub Names :
    {Value Object : Type 0}
    → String
    → Value
    → Result (ServerNotification Value Object) (ClientError Value)
    → Type 0
Names method params (ok n) =
    if is_listed method method_names
    then method_name n ≡ some method
    else n ≡ ServerNotification.unknown method params
Names method params (err e) = is_listed method method_names ≡ true

module _ {Value Object : Type 0} (decoders : NotificationDecoders Value Object) where
  open decoders use {
    decode_error, decode_thread_started, decode_thread_lifecycle, decode_thread_name_updated,
    decode_thread_status_changed, decode_thread_token_usage_updated, decode_turn_started,
    decode_turn_completed, decode_turn_diff_updated, decode_turn_plan_updated,
    decode_item_lifecycle, decode_opaque, decode_delta, decode_server_request_resolved,
  }

  module _ (method : String) (params : Value) where
    abbrev Good : Result (ServerNotification Value Object) (ClientError Value) → Type 0
    Good r = Names method params r

    hit :
        {A : Type 0} (literal : String) (build : A → ServerNotification Value Object)
        → is_listed literal method_names ≡ true
        → ((a : A) → method_name (build a) ≡ some literal)
        → (r : Result A String) → str_eq method literal ≡ true
        → Good (decoded build r)
    hit literal build listed name (ok a) e =
        let same = (eq_iff method literal).0 e in rw (same, listed) (name a)
    hit literal build listed name (err text) e = rw ((eq_iff method literal).0 e) listed

    -- A row of the table: its literal is listed and names what the row builds.
    abbrev row :
        {A : Type 0} (literal : String) (build : A → ServerNotification Value Object)
        → is_listed literal method_names ≡ true
        → ((a : A) → method_name (build a) ≡ some literal)
        → Result A String
        → Row Good method
    row literal build listed name r = record {
      literal = literal;
      value = decoded build r;
      holds = hit literal build listed name r;
    }

    abbrev rows : List (Row Good method)
    unfolding method_name
    rows =
        row "error" ServerNotification.error refl (λ a. refl) (decode_error params)
        ∷ row "thread/started" ServerNotification.thread_started refl (λ a. refl)
            (decode_thread_started params)
        ∷ row "thread/archived" ServerNotification.thread_archived refl (λ a. refl)
            (decode_thread_lifecycle params)
        ∷ row "thread/unarchived" ServerNotification.thread_unarchived refl (λ a. refl)
            (decode_thread_lifecycle params)
        ∷ row "thread/closed" ServerNotification.thread_closed refl (λ a. refl)
            (decode_thread_lifecycle params)
        ∷ row "thread/name/updated" ServerNotification.thread_name_updated refl (λ a. refl)
            (decode_thread_name_updated params)
        ∷ row "thread/status/changed" ServerNotification.thread_status_changed refl (λ a. refl)
            (decode_thread_status_changed params)
        ∷ row "thread/tokenUsage/updated" ServerNotification.thread_token_usage_updated refl
            (λ a. refl) (decode_thread_token_usage_updated params)
        ∷ row "turn/started" ServerNotification.turn_started refl (λ a. refl)
            (decode_turn_started params)
        ∷ row "turn/completed" ServerNotification.turn_completed refl (λ a. refl)
            (decode_turn_completed params)
        ∷ row "turn/diff/updated" ServerNotification.turn_diff_updated refl (λ a. refl)
            (decode_turn_diff_updated params)
        ∷ row "turn/plan/updated" ServerNotification.turn_plan_updated refl (λ a. refl)
            (decode_turn_plan_updated params)
        ∷ row "item/started" ServerNotification.item_started refl (λ a. refl)
            (decode_item_lifecycle params)
        ∷ row "item/completed" ServerNotification.item_completed refl (λ a. refl)
            (decode_item_lifecycle params)
        ∷ row "rawResponseItem/completed" ServerNotification.raw_response_item_completed refl
            (λ a. refl) (decode_opaque params)
        ∷ row "item/agentMessage/delta" ServerNotification.item_agent_message_delta refl (λ a. refl)
            (decode_delta params)
        ∷ row "item/plan/delta" ServerNotification.item_plan_delta refl (λ a. refl)
            (decode_delta params)
        ∷ row "item/commandExecution/outputDelta"
            ServerNotification.item_command_execution_output_delta refl (λ a. refl)
            (decode_delta params)
        ∷ row "item/commandExecution/terminalInteraction"
            ServerNotification.item_command_execution_terminal_interaction refl (λ a. refl)
            (decode_delta params)
        ∷ row "item/fileChange/outputDelta" ServerNotification.item_file_change_output_delta refl
            (λ a. refl) (decode_delta params)
        ∷ row "item/mcpToolCall/progress" ServerNotification.item_mcp_tool_call_progress refl
            (λ a. refl) (decode_delta params)
        ∷ row "item/reasoning/summaryTextDelta" ServerNotification.item_reasoning_summary_text_delta
            refl (λ a. refl) (decode_delta params)
        ∷ row "item/reasoning/summaryPartAdded" ServerNotification.item_reasoning_summary_part_added
            refl (λ a. refl) (decode_delta params)
        ∷ row "item/reasoning/textDelta" ServerNotification.item_reasoning_text_delta refl
            (λ a. refl) (decode_delta params)
        ∷ row "mcpServer/oauthLogin/completed" ServerNotification.mcp_server_oauth_login_completed
            refl (λ a. refl) (decode_opaque params)
        ∷ row "account/updated" ServerNotification.account_updated refl (λ a. refl)
            (decode_opaque params)
        ∷ row "account/rateLimits/updated" ServerNotification.account_rate_limits_updated refl
            (λ a. refl) (decode_opaque params)
        ∷ row "app/list/updated" ServerNotification.app_list_updated refl (λ a. refl)
            (decode_opaque params)
        ∷ row "thread/compacted" ServerNotification.context_compacted refl (λ a. refl)
            (decode_delta params)
        ∷ row "deprecationNotice" ServerNotification.deprecation_notice refl (λ a. refl)
            (decode_opaque params)
        ∷ row "configWarning" ServerNotification.config_warning refl (λ a. refl)
            (decode_opaque params)
        ∷ row "windows/worldWritableWarning" ServerNotification.windows_world_writable_warning refl
            (λ a. refl) (decode_opaque params)
        ∷ row "windowsSandbox/setupCompleted" ServerNotification.windows_sandbox_setup_completed
            refl (λ a. refl) (decode_opaque params)
        ∷ row "account/login/completed" ServerNotification.account_login_completed refl (λ a. refl)
            (decode_opaque params)
        ∷ row "authStatusChange" ServerNotification.auth_status_change refl (λ a. refl)
            (decode_opaque params)
        ∷ row "loginChatGptComplete" ServerNotification.login_chat_gpt_complete refl (λ a. refl)
            (decode_opaque params)
        ∷ row "sessionConfigured" ServerNotification.session_configured refl (λ a. refl)
            (decode_opaque params)
        ∷ row "fuzzyFileSearch/sessionUpdated" ServerNotification.fuzzy_file_search_session_updated
            refl (λ a. refl) (decode_opaque params)
        ∷ row "fuzzyFileSearch/sessionCompleted"
            ServerNotification.fuzzy_file_search_session_completed refl (λ a. refl)
            (decode_opaque params)
        ∷ row "serverRequest/resolved" ServerNotification.server_request_resolved refl (λ a. refl)
            (decode_server_request_resolved params)
        ∷ []
