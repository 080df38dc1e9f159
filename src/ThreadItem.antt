-- ===== src/ThreadItem.antt =====
-- Thread items, user input and thread events (crates/sdk/src/api.rs), over the type of JSON values.
pub mod Arms
pub mod Parse
pub mod Kinds
use codex_sdk_rs.Prelude.{ℕ, String, Bool, true, false, Option, none, some, List}
use codex_sdk_rs.Prelude.Int.{ℤ}
use codex_sdk_rs.Status.{
  AgentMessagePhase, CommandExecutionStatus, PatchChangeKind, PatchApplyStatus, McpToolCallStatus,
}

pub record ThreadError : Type 0 where
  pub message : String

pub record Usage : Type 0 where
  pub input_tokens : ℤ
  pub cached_input_tokens : ℤ
  pub output_tokens : ℤ

pub record AgentMessageItem : Type 0 where
  pub id : String
  pub text : String
  pub phase : Option AgentMessagePhase

abbrev is_final_phase : Option AgentMessagePhase → Bool
is_final_phase none = false
is_final_phase (some AgentMessagePhase.final_answer) = true
is_final_phase (some _) = false

-- `AgentMessageItem::is_final_answer`.
abbrev pub is_final_answer : AgentMessageItem → Bool
is_final_answer item = is_final_phase item.phase

pub data UserMessageContentItem (Value : Type 0) : Type 0 where
  text : String → UserMessageContentItem Value
  image : (url : String) → UserMessageContentItem Value
  local_image : (path : String) → UserMessageContentItem Value
  unknown : Value → UserMessageContentItem Value

pub record UserMessageItem (Value : Type 0) : Type 0 where
  pub id : String
  pub content : List (UserMessageContentItem Value)

pub record PlanItem : Type 0 where
  pub id : String
  pub text : String

pub record ReasoningItem : Type 0 where
  pub id : String
  pub text : String

pub record CommandExecutionItem : Type 0 where
  pub id : String
  pub command : String
  pub aggregated_output : String
  pub exit_code : Option ℤ
  pub status : CommandExecutionStatus

pub record FileUpdateChange : Type 0 where
  pub path : String
  pub kind : PatchChangeKind

pub record FileChangeItem : Type 0 where
  pub id : String
  pub changes : List FileUpdateChange
  pub status : PatchApplyStatus

pub record McpToolCallItem (Value : Type 0) : Type 0 where
  pub id : String
  pub server : String
  pub tool : String
  pub arguments : Value
  pub result : Option Value
  pub error : Option ThreadError
  pub status : McpToolCallStatus

pub record DynamicToolCallItem (Value : Type 0) : Type 0 where
  pub id : String
  pub tool : String
  pub arguments : Value
  pub status : String
  pub content_items : List Value
  pub success : Option Bool
  pub duration_ms : Option ℕ

pub record CollabToolCallItem : Type 0 where
  pub id : String
  pub tool : String
  pub status : String
  pub sender_thread_id : String
  pub receiver_thread_id : Option String
  pub new_thread_id : Option String
  pub prompt : Option String
  pub agent_status : Option String

pub record WebSearchItem : Type 0 where
  pub id : String
  pub query : String

pub record ImageViewItem : Type 0 where
  pub id : String
  pub path : String

pub record ReviewModeItem : Type 0 where
  pub id : String
  pub review : String

pub record ContextCompactionItem : Type 0 where
  pub id : String

pub record TodoItem : Type 0 where
  pub text : String
  pub completed : Bool

pub record TodoListItem : Type 0 where
  pub id : String
  pub items : List TodoItem

pub record ErrorItem : Type 0 where
  pub id : String
  pub message : String

pub record UnknownItem (Value : Type 0) : Type 0 where
  pub id : Option String
  pub item_type : Option String
  pub raw : Value

pub data ThreadItem (Value : Type 0) : Type 0 where
  agent_message : AgentMessageItem → ThreadItem Value
  user_message : UserMessageItem Value → ThreadItem Value
  plan : PlanItem → ThreadItem Value
  reasoning : ReasoningItem → ThreadItem Value
  command_execution : CommandExecutionItem → ThreadItem Value
  file_change : FileChangeItem → ThreadItem Value
  mcp_tool_call : McpToolCallItem Value → ThreadItem Value
  dynamic_tool_call : DynamicToolCallItem Value → ThreadItem Value
  collab_tool_call : CollabToolCallItem → ThreadItem Value
  web_search : WebSearchItem → ThreadItem Value
  image_view : ImageViewItem → ThreadItem Value
  entered_review_mode : ReviewModeItem → ThreadItem Value
  exited_review_mode : ReviewModeItem → ThreadItem Value
  context_compaction : ContextCompactionItem → ThreadItem Value
  todo_list : TodoListItem → ThreadItem Value
  error : ErrorItem → ThreadItem Value
  unknown : UnknownItem Value → ThreadItem Value

pub data ThreadEvent (Value : Type 0) : Type 0 where
  thread_started : (thread_id : String) → ThreadEvent Value
  turn_started : ThreadEvent Value
  turn_completed : (usage : Option Usage) → ThreadEvent Value
  turn_failed : ThreadError → ThreadEvent Value
  item_started : ThreadItem Value → ThreadEvent Value
  item_updated : ThreadItem Value → ThreadEvent Value
  item_completed : ThreadItem Value → ThreadEvent Value
  error : (message : String) → ThreadEvent Value
