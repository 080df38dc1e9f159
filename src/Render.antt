-- ===== src/Render.antt =====
-- crates/sdk/src/events/render.rs: the fragments and the helpers on text. The children hold the
-- rendering of one item, the stateful renderer of events, and their properties.
pub mod Items
pub mod Renderer
pub mod Shape
pub mod Streaming
use codex_sdk_rs.Prelude.{
  ℕ, ◌≡◌, ◌↔◌, String, Bool, true, false, Option, none, some, [], ◌∷◌, ◌||◌, unwrap_or, eqb,
  if◌then◌else◌, arith,
}
use codex_sdk_rs.Prelude.Text.{concat, join, is_empty_str, replace, trim, lines}
use codex_sdk_rs.SerdeJson.{SerdeJson}
use codex_sdk_rs.Status.{
  CommandExecutionStatus, PatchChangeKind, PatchApplyStatus, McpToolCallStatus,
}

pub data RenderedItemKind : Type 0 where
  agent_message user_message reasoning plan tool_call : RenderedItemKind
  command_execution file_change status error unknown : RenderedItemKind

-- A constructor's position; the derived equality compares these.
abbrev pub kind_rank : RenderedItemKind → ℕ
kind_rank RenderedItemKind.agent_message = 0
kind_rank RenderedItemKind.user_message = 1
kind_rank RenderedItemKind.reasoning = 2
kind_rank RenderedItemKind.plan = 3
kind_rank RenderedItemKind.tool_call = 4
kind_rank RenderedItemKind.command_execution = 5
kind_rank RenderedItemKind.file_change = 6
kind_rank RenderedItemKind.status = 7
kind_rank RenderedItemKind.error = 8
kind_rank RenderedItemKind.unknown = 9

abbrev pub same_kind : RenderedItemKind → RenderedItemKind → Bool
same_kind a b = eqb (kind_rank a) (kind_rank b)

pub record RenderedItem : Type 0 where
  pub kind : RenderedItemKind
  pub item_id : Option String
  pub markdown : String
  pub continuation : Bool

-- `RenderedItem::new`.
abbrev pub new : RenderedItemKind → Option String → String → RenderedItem
new kind item_id markdown = record {
  kind = kind;
  item_id = item_id;
  markdown = markdown;
  continuation = false;
}

unfoldable pub quote_block : String → String → String
quote_block label text =
    if is_empty_str (trim text)
    then ""
    else concat ("> **" ∷ label ∷ "**\n> " ∷ join "\n> " (lines text) ∷ [])

unfoldable pub one_line : String → String
one_line value = replace (λ c. eqb c 13 || eqb c 10) " " value

abbrev pub display_or_unknown : String → String
display_or_unknown value = if is_empty_str value then "unknown" else value

unfoldable pub compact_json : ⦃json : SerdeJson⦄ → json.Value → String
compact_json ⦃json⦄ value = unwrap_or "<unserializable>" (json.to_string value)

unfoldable pub command_status : CommandExecutionStatus → String
command_status CommandExecutionStatus.in_progress = "running"
command_status CommandExecutionStatus.completed = "completed"
command_status CommandExecutionStatus.failed = "failed"
command_status CommandExecutionStatus.declined = "declined"
command_status CommandExecutionStatus.unknown = "unknown status"

unfoldable pub patch_status : PatchApplyStatus → String
patch_status PatchApplyStatus.in_progress = "applying"
patch_status PatchApplyStatus.completed = "applied"
patch_status PatchApplyStatus.failed = "failed"
patch_status PatchApplyStatus.declined = "declined"
patch_status PatchApplyStatus.unknown = "unknown status"

unfoldable pub patch_change_kind : PatchChangeKind → String
patch_change_kind PatchChangeKind.add = "added"
patch_change_kind PatchChangeKind.delete = "deleted"
patch_change_kind PatchChangeKind.update = "updated"
patch_change_kind PatchChangeKind.unknown = "changed"

unfoldable pub mcp_status : McpToolCallStatus → String
mcp_status McpToolCallStatus.in_progress = "running"
mcp_status McpToolCallStatus.completed = "completed"
mcp_status McpToolCallStatus.failed = "failed"
mcp_status McpToolCallStatus.unknown = "unknown status"
