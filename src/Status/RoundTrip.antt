-- ===== src/Status/RoundTrip.antt =====
-- The wire spellings of the status enumerations (crates/sdk/src/api.rs) are read back.
use codex_sdk_rs.Prelude.{◌≡◌, refl}
use codex_sdk_rs.Status.{
  AgentMessagePhase, CommandExecutionStatus, PatchChangeKind, PatchApplyStatus, McpToolCallStatus,
  agent_message_phase_as_str, command_execution_status_as_str, patch_change_kind_as_str,
  patch_apply_status_as_str, mcp_tool_call_status_as_str, parse_agent_message_phase,
  parse_command_execution_status, parse_patch_change_kind, parse_patch_apply_status,
  parse_mcp_tool_call_status,
}

parse-as_str_phase :
    (p : AgentMessagePhase) → parse_agent_message_phase (agent_message_phase_as_str p) ≡ p
unfolding parse_agent_message_phase agent_message_phase_as_str
parse-as_str_phase AgentMessagePhase.commentary = refl
parse-as_str_phase p = refl

parse-as_str_command :
    (s : CommandExecutionStatus)
    → parse_command_execution_status (command_execution_status_as_str s) ≡ s
unfolding parse_command_execution_status command_execution_status_as_str
parse-as_str_command CommandExecutionStatus.in_progress = refl
parse-as_str_command s = refl

parse-as_str_change :
    (k : PatchChangeKind) → parse_patch_change_kind (patch_change_kind_as_str k) ≡ k
unfolding parse_patch_change_kind patch_change_kind_as_str
parse-as_str_change PatchChangeKind.add = refl
parse-as_str_change k = refl

parse-as_str_patch :
    (s : PatchApplyStatus) → parse_patch_apply_status (patch_apply_status_as_str s) ≡ s
unfolding parse_patch_apply_status patch_apply_status_as_str
parse-as_str_patch PatchApplyStatus.in_progress = refl
parse-as_str_patch s = refl

parse-as_str_mcp :
    (s : McpToolCallStatus) → parse_mcp_tool_call_status (mcp_tool_call_status_as_str s) ≡ s
unfolding parse_mcp_tool_call_status mcp_tool_call_status_as_str
parse-as_str_mcp McpToolCallStatus.in_progress = refl
parse-as_str_mcp s = refl

-- For each of the five status enumerations and each of its values, also `Unknown`, the parser reads
-- the value's wire spelling back to that value.
pub parse-as_str :
    ((p : AgentMessagePhase) → parse_agent_message_phase (agent_message_phase_as_str p) ≡ p)
    × ((s : CommandExecutionStatus)
        → parse_command_execution_status (command_execution_status_as_str s) ≡ s)
    × ((k : PatchChangeKind) → parse_patch_change_kind (patch_change_kind_as_str k) ≡ k)
    × ((s : PatchApplyStatus) → parse_patch_apply_status (patch_apply_status_as_str s) ≡ s)
    × ((s : McpToolCallStatus) → parse_mcp_tool_call_status (mcp_tool_call_status_as_str s) ≡ s)
parse-as_str = (
  parse-as_str_phase, parse-as_str_command, parse-as_str_change, parse-as_str_patch,
  parse-as_str_mcp,
)
