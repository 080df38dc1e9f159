-- ===== src/Status.antt =====
-- The status enumerations of thread items (crates/sdk/src/api.rs) with their wire spellings.
pub mod RoundTrip
use codex_sdk_rs.Prelude.{String, ◌||◌, str_eq, if◌then◌else◌}

pub data AgentMessagePhase : Type 0 where
  commentary final_answer unknown : AgentMessagePhase

pub data CommandExecutionStatus : Type 0 where
  in_progress completed failed declined unknown : CommandExecutionStatus

pub data PatchChangeKind : Type 0 where
  add delete update unknown : PatchChangeKind

pub data PatchApplyStatus : Type 0 where
  in_progress completed failed declined unknown : PatchApplyStatus

pub data McpToolCallStatus : Type 0 where
  in_progress completed failed unknown : McpToolCallStatus

-- The four `as_str` of the enumerations, and that of the phase.
unfoldable pub agent_message_phase_as_str : AgentMessagePhase → String
agent_message_phase_as_str AgentMessagePhase.commentary = "commentary"
agent_message_phase_as_str AgentMessagePhase.final_answer = "final_answer"
agent_message_phase_as_str AgentMessagePhase.unknown = "unknown"

unfoldable pub command_execution_status_as_str : CommandExecutionStatus → String
command_execution_status_as_str CommandExecutionStatus.in_progress = "inProgress"
command_execution_status_as_str CommandExecutionStatus.completed = "completed"
command_execution_status_as_str CommandExecutionStatus.failed = "failed"
command_execution_status_as_str CommandExecutionStatus.declined = "declined"
command_execution_status_as_str CommandExecutionStatus.unknown = "unknown"

unfoldable pub patch_change_kind_as_str : PatchChangeKind → String
patch_change_kind_as_str PatchChangeKind.add = "add"
patch_change_kind_as_str PatchChangeKind.delete = "delete"
patch_change_kind_as_str PatchChangeKind.update = "update"
patch_change_kind_as_str PatchChangeKind.unknown = "unknown"

unfoldable pub patch_apply_status_as_str : PatchApplyStatus → String
patch_apply_status_as_str PatchApplyStatus.in_progress = "inProgress"
patch_apply_status_as_str PatchApplyStatus.completed = "completed"
patch_apply_status_as_str PatchApplyStatus.failed = "failed"
patch_apply_status_as_str PatchApplyStatus.declined = "declined"
patch_apply_status_as_str PatchApplyStatus.unknown = "unknown"

unfoldable pub mcp_tool_call_status_as_str : McpToolCallStatus → String
mcp_tool_call_status_as_str McpToolCallStatus.in_progress = "inProgress"
mcp_tool_call_status_as_str McpToolCallStatus.completed = "completed"
mcp_tool_call_status_as_str McpToolCallStatus.failed = "failed"
mcp_tool_call_status_as_str McpToolCallStatus.unknown = "unknown"

unfoldable pub parse_agent_message_phase : String → AgentMessagePhase
parse_agent_message_phase value =
    if str_eq value "commentary"
    then AgentMessagePhase.commentary
    else if str_eq value "final_answer"
    then AgentMessagePhase.final_answer
    else AgentMessagePhase.unknown

unfoldable pub parse_command_execution_status : String → CommandExecutionStatus
parse_command_execution_status status =
    if str_eq status "inProgress" || str_eq status "in_progress"
    then CommandExecutionStatus.in_progress
    else if str_eq status "completed"
    then CommandExecutionStatus.completed
    else if str_eq status "failed"
    then CommandExecutionStatus.failed
    else if str_eq status "declined"
    then CommandExecutionStatus.declined
    else CommandExecutionStatus.unknown

unfoldable pub parse_patch_change_kind : String → PatchChangeKind
parse_patch_change_kind kind =
    if str_eq kind "add"
    then PatchChangeKind.add
    else if str_eq kind "delete"
    then PatchChangeKind.delete
    else if str_eq kind "update"
    then PatchChangeKind.update
    else PatchChangeKind.unknown

unfoldable pub parse_patch_apply_status : String → PatchApplyStatus
parse_patch_apply_status status =
    if str_eq status "inProgress" || str_eq status "in_progress"
    then PatchApplyStatus.in_progress
    else if str_eq status "completed"
    then PatchApplyStatus.completed
    else if str_eq status "failed"
    then PatchApplyStatus.failed
    else if str_eq status "declined"
    then PatchApplyStatus.declined
    else PatchApplyStatus.unknown

unfoldable pub parse_mcp_tool_call_status : String → McpToolCallStatus
parse_mcp_tool_call_status status =
    if str_eq status "inProgress" || str_eq status "in_progress"
    then McpToolCallStatus.in_progress
    else if str_eq status "completed"
    then McpToolCallStatus.completed
    else if str_eq status "failed"
    then McpToolCallStatus.failed
    else McpToolCallStatus.unknown
