-- ===== src/Luna/Output.antt =====
-- The JSON that luna prints for events and items: crates/luna/src/output/json.rs.
pub mod ReadBack
use codex_sdk_rs.Prelude.{String, Bool, Option, none, some, List, [], ◌∷◌, ◌++◌, map, map_some}
use codex_sdk_rs.Prelude.Int.{pos}
use codex_sdk_rs.SerdeJson.{SerdeJson}
use codex_sdk_rs.Status.{
  AgentMessagePhase, agent_message_phase_as_str, command_execution_status_as_str,
  patch_change_kind_as_str, patch_apply_status_as_str, mcp_tool_call_status_as_str,
}
use codex_sdk_rs.ThreadItem.{
  ThreadItem, ThreadEvent, UserMessageContentItem, FileUpdateChange, TodoItem, ThreadError, Usage,
}

module _ ⦃json : SerdeJson⦄ where
  open json use {Value, text, array, boolean, integer, null, object}

  -- `json!` of an optional value, a missing one as `null`.
  abbrev optional : {A : Type 0} → (A → Value) → Option A → Value
  optional f none = null
  optional f (some a) = f a

  abbrev phase_fields : Option AgentMessagePhase → List (String × Value)
  phase_fields none = []
  phase_fields (some phase) = ("phase", text (agent_message_phase_as_str phase)) ∷ []

  abbrev content_json : UserMessageContentItem Value → Value
  content_json (UserMessageContentItem.text t) =
      object (("type", text "text") ∷ ("text", text t) ∷ [])
  content_json (UserMessageContentItem.image url) =
      object (("type", text "image") ∷ ("url", text url) ∷ [])
  content_json (UserMessageContentItem.local_image path) =
      object (("type", text "localImage") ∷ ("path", text path) ∷ [])
  content_json (UserMessageContentItem.unknown raw) = raw

  abbrev change_json : FileUpdateChange → Value
  change_json change =
      object
        (("path", text change.path) ∷ ("kind", text (patch_change_kind_as_str change.kind)) ∷ [])

  abbrev todo_json : TodoItem → Value
  todo_json item = object (("text", text item.text) ∷ ("completed", boolean item.completed) ∷ [])

  -- The fields of `json!`, in their order.
  abbrev pub item_fields : ThreadItem Value → List (String × Value)
  item_fields (ThreadItem.agent_message msg) =
      ("type", text "agentMessage")
      ∷ ("id", text msg.id)
      ∷ ("text", text msg.text)
      ∷ phase_fields msg.phase
  item_fields (ThreadItem.user_message msg) =
      ("type", text "userMessage")
      ∷ ("id", text msg.id)
      ∷ ("content", array (map content_json msg.content))
      ∷ []
  item_fields (ThreadItem.plan plan) =
      ("type", text "plan") ∷ ("id", text plan.id) ∷ ("text", text plan.text) ∷ []
  item_fields (ThreadItem.reasoning reasoning) =
      ("type", text "reasoning") ∷ ("id", text reasoning.id) ∷ ("text", text reasoning.text) ∷ []
  item_fields (ThreadItem.command_execution command) =
      ("type", text "commandExecution")
      ∷ ("id", text command.id)
      ∷ ("command", text command.command)
      ∷ ("aggregatedOutput", text command.aggregated_output)
      ∷ ("exitCode", optional integer command.exit_code)
      ∷ ("status", text (command_execution_status_as_str command.status))
      ∷ []
  item_fields (ThreadItem.file_change file_change) =
      ("type", text "fileChange")
      ∷ ("id", text file_change.id)
      ∷ ("changes", array (map change_json file_change.changes))
      ∷ ("status", text (patch_apply_status_as_str file_change.status))
      ∷ []
  item_fields (ThreadItem.mcp_tool_call tool) =
      ("type", text "mcpToolCall")
      ∷ ("id", text tool.id)
      ∷ ("server", text tool.server)
      ∷ ("tool", text tool.tool)
      ∷ ("arguments", tool.arguments)
      ∷ ("result", optional (λ result. result) tool.result)
      ∷ ("error", optional (λ (error : ThreadError). text error.message) tool.error)
      ∷ ("status", text (mcp_tool_call_status_as_str tool.status))
      ∷ []
  item_fields (ThreadItem.dynamic_tool_call tool) =
      ("type", text "dynamicToolCall")
      ∷ ("id", text tool.id)
      ∷ ("tool", text tool.tool)
      ∷ ("arguments", tool.arguments)
      ∷ ("status", text tool.status)
      ∷ ("contentItems", array tool.content_items)
      ∷ ("success", optional boolean tool.success)
      ∷ ("durationMs", optional (λ n. integer (pos n)) tool.duration_ms)
      ∷ []
  item_fields (ThreadItem.collab_tool_call tool) =
      ("type", text "collabToolCall")
      ∷ ("id", text tool.id)
      ∷ ("tool", text tool.tool)
      ∷ ("status", text tool.status)
      ∷ ("senderThreadId", text tool.sender_thread_id)
      ∷ ("receiverThreadId", optional text tool.receiver_thread_id)
      ∷ ("newThreadId", optional text tool.new_thread_id)
      ∷ ("prompt", optional text tool.prompt)
      ∷ ("agentStatus", optional text tool.agent_status)
      ∷ []
  item_fields (ThreadItem.web_search search) =
      ("type", text "webSearch") ∷ ("id", text search.id) ∷ ("query", text search.query) ∷ []
  item_fields (ThreadItem.image_view image) =
      ("type", text "imageView") ∷ ("id", text image.id) ∷ ("path", text image.path) ∷ []
  item_fields (ThreadItem.entered_review_mode review) =
      ("type", text "enteredReviewMode")
      ∷ ("id", text review.id)
      ∷ ("review", text review.review)
      ∷ []
  item_fields (ThreadItem.exited_review_mode review) =
      ("type", text "exitedReviewMode")
      ∷ ("id", text review.id)
      ∷ ("review", text review.review)
      ∷ []
  item_fields (ThreadItem.context_compaction item) =
      ("type", text "contextCompaction") ∷ ("id", text item.id) ∷ []
  item_fields (ThreadItem.todo_list todo) =
      ("type", text "todoList")
      ∷ ("id", text todo.id)
      ∷ ("items", array (map todo_json todo.items))
      ∷ []
  item_fields (ThreadItem.error error) =
      ("type", text "error") ∷ ("id", text error.id) ∷ ("message", text error.message) ∷ []
  item_fields (ThreadItem.unknown unknown) =
      ("type", text "unknown")
      ∷ ("id", optional text unknown.id)
      ∷ ("itemType", optional text unknown.item_type)
      ∷ ("raw", unknown.raw)
      ∷ []

  unfoldable pub thread_item_to_json : ThreadItem Value → Value
  thread_item_to_json item = object (item_fields item)

  abbrev usage_fields : Option Usage → List (String × Value)
  usage_fields none = []
  usage_fields (some usage) =
      (
        "usage",
        object (
            ("inputTokens", integer usage.input_tokens)
            ∷ ("cachedInputTokens", integer usage.cached_input_tokens)
            ∷ ("outputTokens", integer usage.output_tokens)
            ∷ []),
      )
      ∷ []

  unfoldable pub thread_event_to_json : ThreadEvent Value → Value
  thread_event_to_json (ThreadEvent.thread_started thread_id) =
      object (("type", text "thread.started") ∷ ("threadId", text thread_id) ∷ [])
  thread_event_to_json ThreadEvent.turn_started = object (("type", text "turn.started") ∷ [])
  thread_event_to_json (ThreadEvent.turn_completed usage) =
      object (("type", text "turn.completed") ∷ usage_fields usage)
  thread_event_to_json (ThreadEvent.turn_failed error) =
      object (
        ("type", text "turn.failed")
        ∷ ("error", object (("message", text error.message) ∷ []))
        ∷ [])
  thread_event_to_json (ThreadEvent.item_started item) =
      object (("type", text "item.started") ∷ ("item", thread_item_to_json item) ∷ [])
  thread_event_to_json (ThreadEvent.item_updated item) =
      object (("type", text "item.updated") ∷ ("item", thread_item_to_json item) ∷ [])
  thread_event_to_json (ThreadEvent.item_completed item) =
      object (("type", text "item.completed") ∷ ("item", thread_item_to_json item) ∷ [])
  thread_event_to_json (ThreadEvent.error message) =
      object (("type", text "error") ∷ ("message", text message) ∷ [])
