-- ===== src/ThreadItem/Parse.antt =====
-- `parse_thread_item` in crates/sdk/src/api.rs.
use codex_sdk_rs.Prelude.{String, Option, none, some, str_eq, if◌then◌else◌}
use codex_sdk_rs.SerdeJson.{SerdeJson}
use codex_sdk_rs.ThreadItem.{ThreadItem}
use codex_sdk_rs.ThreadItem.Arms.{
  str_field, parse_agent_message, parse_user_message, parse_plan, parse_reasoning,
  parse_command_execution, parse_file_change, parse_mcp_tool_call, parse_dynamic_tool_call,
  parse_collab_tool_call, parse_web_search, parse_image_view, parse_entered_review_mode,
  parse_exited_review_mode, parse_context_compaction, parse_todo_list, parse_error,
}

module _ ⦃json : SerdeJson⦄ where
  open json use {Value, Object, as_object}

  abbrev pub unknown_item : Option String → Option String → Value → ThreadItem Value
  unknown_item id item_type item =
      ThreadItem.unknown (record { id = id; item_type = item_type; raw = item })

  -- The match on the item's type, given the item's id and the object.
  unfoldable pub parse_typed : String → Option String → Object → Value → ThreadItem Value
  parse_typed kind id object item =
      if str_eq kind "agentMessage"
      then parse_agent_message id object
      else if str_eq kind "userMessage"
      then parse_user_message id object
      else if str_eq kind "plan"
      then parse_plan id object
      else if str_eq kind "reasoning"
      then parse_reasoning id object
      else if str_eq kind "commandExecution"
      then parse_command_execution id object
      else if str_eq kind "fileChange"
      then parse_file_change id object
      else if str_eq kind "mcpToolCall"
      then parse_mcp_tool_call id object
      else if str_eq kind "dynamicToolCall"
      then parse_dynamic_tool_call id object
      else if str_eq kind "collabToolCall"
      then parse_collab_tool_call id object
      else if str_eq kind "webSearch"
      then parse_web_search id object
      else if str_eq kind "imageView"
      then parse_image_view id object
      else if str_eq kind "enteredReviewMode"
      then parse_entered_review_mode id object
      else if str_eq kind "exitedReviewMode"
      then parse_exited_review_mode id object
      else if str_eq kind "contextCompaction"
      then parse_context_compaction id object
      else if str_eq kind "todoList"
      then parse_todo_list id object
      else if str_eq kind "error"
      then parse_error id object
      else unknown_item id (some kind) item

  unfoldable pub parse_thread_item : Value → ThreadItem Value
  parse_thread_item item = elim (as_object item) [
    | none ↦ unknown_item none none item
    | some object ↦ elim (str_field "type" object) [
      | none ↦ unknown_item (str_field "id" object) none item
      | some kind ↦ parse_typed kind (str_field "id" object) object item
    ]
  ]
