-- ===== src/Render/Items.antt =====
-- `render_thread_item` in crates/sdk/src/events/render.rs, an arm to a function.
use codex_sdk_rs.Prelude.{
  String, Bool, true, false, Option, none, some, List, [], ◌∷◌, ◌++◌, map, unwrap_or, or_else,
  is_empty, eqb, if◌then◌else◌,
}
use codex_sdk_rs.Prelude.Text.{concat, join, is_empty_str, replace}
use codex_sdk_rs.Prelude.Decimal.{decimal_u64, decimal_i64}
use codex_sdk_rs.SerdeJson.{SerdeJson}
use codex_sdk_rs.ThreadItem.{
  ThreadItem, UserMessageContentItem, UserMessageItem, CommandExecutionItem, FileUpdateChange,
  FileChangeItem, McpToolCallItem, DynamicToolCallItem, CollabToolCallItem, TodoItem, TodoListItem,
  UnknownItem, ThreadError,
}
use codex_sdk_rs.Render.{
  RenderedItemKind, RenderedItem, new, quote_block, one_line, display_or_unknown, compact_json,
  command_status, patch_status, patch_change_kind, mcp_status,
}

-- The pieces that `markdown.push_str(&format!(…))` appends where an option is set.
abbrev pub push_some : {A : Type 0} → Option A → (A → List String) → List String
push_some none f = []
push_some (some a) f = f a

abbrev success_text : Bool → String
success_text true = "success: true"
success_text false = "success: false"

unfoldable pub command_markdown : CommandExecutionItem → String
command_markdown item = concat (
    "**Command** "
      ∷ one_line item.command
      ∷ " — "
      ∷ command_status item.status
      ∷ push_some item.exit_code (λ code. " (exit " ∷ decimal_i64 code ∷ ")" ∷ [])
    ++ (if is_empty_str item.aggregated_output
        then []
        else "\n\n    " ∷ replace (λ c. eqb c 10) "\n    " item.aggregated_output ∷ []))

unfoldable pub change_line : FileUpdateChange → String
change_line change = concat ("- " ∷ patch_change_kind change.kind ∷ " " ∷ one_line change.path ∷ [])

unfoldable pub file_change_markdown : FileChangeItem → String
unfolding change_line
file_change_markdown item =
    let changes =
      if is_empty item.changes
      then "no paths reported"
      else join "\n" (map change_line item.changes) in
    concat ("**File changes** — " ∷ patch_status item.status ∷ "\n\n" ∷ changes ∷ [])

unfoldable pub collab_markdown : CollabToolCallItem → String
collab_markdown item =
    let details =
      concat ("status: " ∷ display_or_unknown item.status ∷ [])
      ∷ push_some item.agent_status (λ agent. concat ("agent: " ∷ agent ∷ []) ∷ []) in
    concat (
      "**Collaboration** "
        ∷ one_line item.tool
        ∷ " — "
        ∷ join ", " details
        ∷ push_some item.prompt (λ prompt. "\n\nPrompt: " ∷ prompt ∷ [])
      ++ push_some (or_else item.new_thread_id item.receiver_thread_id)
          (λ thread_id. "\n\nThread: " ∷ one_line thread_id ∷ []))

unfoldable pub todo_line : TodoItem → String
todo_line todo = concat ("- [" ∷ (if todo.completed then "x" else " ") ∷ "] " ∷ todo.text ∷ [])

unfoldable pub todo_markdown : TodoListItem → String
unfolding todo_line
todo_markdown item =
    let items = if is_empty item.items then "- (empty)" else join "\n" (map todo_line item.items) in
    concat ("**Todo list**\n\n" ∷ items ∷ [])

module _ ⦃json : SerdeJson⦄ where
  open json use {Value, array}

  unfoldable pub content_text : UserMessageContentItem Value → String
  content_text (UserMessageContentItem.text text) = text
  content_text (UserMessageContentItem.image url) = concat ("[image](" ∷ url ∷ ")" ∷ [])
  content_text (UserMessageContentItem.local_image path) = concat ("local image: " ∷ path ∷ [])
  content_text (UserMessageContentItem.unknown value) =
      concat ("unknown content: " ∷ compact_json value ∷ [])

  unfoldable pub user_markdown : UserMessageItem Value → String
  unfolding content_text
  user_markdown item = concat ("**User**\n\n" ∷ join "\n" (map content_text item.content) ∷ [])

  unfoldable pub mcp_markdown : McpToolCallItem Value → String
  mcp_markdown item = concat (
      "**Tool** "
        ∷ one_line item.server
        ∷ "."
        ∷ one_line item.tool
        ∷ " — "
        ∷ mcp_status item.status
        ∷ "\n\nArguments: "
        ∷ compact_json item.arguments
        ∷ push_some item.result (λ result. "\n\nResult: " ∷ compact_json result ∷ [])
      ++ push_some item.error (λ (e : ThreadError). "\n\nError: " ∷ e.message ∷ []))

  unfoldable pub dynamic_markdown : DynamicToolCallItem Value → String
  dynamic_markdown item =
      let details =
        concat ("status: " ∷ display_or_unknown item.status ∷ [])
          ∷ push_some item.success (λ success. success_text success ∷ [])
        ++ push_some item.duration_ms (λ ms. concat (decimal_u64 ms ∷ " ms" ∷ []) ∷ []) in
      concat (
        "**Tool** "
        ∷ one_line item.tool
        ∷ " — "
        ∷ join ", " details
        ∷ "\n\nArguments: "
        ∷ compact_json item.arguments
        ∷ (if is_empty item.content_items
            then []
            else "\n\nResult: " ∷ compact_json (array item.content_items) ∷ []))

  unfoldable pub unknown_markdown : UnknownItem Value → String
  unknown_markdown item = concat (
      "**Unknown item** "
      ∷ one_line (unwrap_or "unknown" item.item_type)
      ∷ " — "
      ∷ compact_json item.raw
      ∷ [])

  unfoldable pub render_thread_item : ThreadItem Value → RenderedItem
  render_thread_item (ThreadItem.agent_message item) =
      new RenderedItemKind.agent_message (some item.id) item.text
  render_thread_item (ThreadItem.user_message item) =
      new RenderedItemKind.user_message (some item.id) (user_markdown item)
  render_thread_item (ThreadItem.plan item) =
      new RenderedItemKind.plan (some item.id) (concat ("**Plan**\n\n" ∷ item.text ∷ []))
  render_thread_item (ThreadItem.reasoning item) =
      new RenderedItemKind.reasoning (some item.id) (quote_block "Reasoning" item.text)
  render_thread_item (ThreadItem.command_execution item) =
      new RenderedItemKind.command_execution (some item.id) (command_markdown item)
  render_thread_item (ThreadItem.file_change item) =
      new RenderedItemKind.file_change (some item.id) (file_change_markdown item)
  render_thread_item (ThreadItem.mcp_tool_call item) =
      new RenderedItemKind.tool_call (some item.id) (mcp_markdown item)
  render_thread_item (ThreadItem.dynamic_tool_call item) =
      new RenderedItemKind.tool_call (some item.id) (dynamic_markdown item)
  render_thread_item (ThreadItem.collab_tool_call item) =
      new RenderedItemKind.tool_call (some item.id) (collab_markdown item)
  render_thread_item (ThreadItem.web_search item) =
      new RenderedItemKind.tool_call (some item.id)
        (concat ("**Web search** — " ∷ one_line item.query ∷ []))
  render_thread_item (ThreadItem.image_view item) =
      new RenderedItemKind.tool_call (some item.id)
        (concat ("**Viewed image** — " ∷ one_line item.path ∷ []))
  render_thread_item (ThreadItem.entered_review_mode item) =
      new RenderedItemKind.status (some item.id)
        (concat ("**Entered review mode** — " ∷ display_or_unknown item.review ∷ []))
  render_thread_item (ThreadItem.exited_review_mode item) =
      new RenderedItemKind.status (some item.id)
        (concat ("**Exited review mode** — " ∷ display_or_unknown item.review ∷ []))
  render_thread_item (ThreadItem.context_compaction item) =
      new RenderedItemKind.status (some item.id) "**Context compacted**"
  render_thread_item (ThreadItem.todo_list item) =
      new RenderedItemKind.plan (some item.id) (todo_markdown item)
  render_thread_item (ThreadItem.error item) =
      new RenderedItemKind.error (some item.id)
        (concat ("**Error:** " ∷ display_or_unknown item.message ∷ []))
  render_thread_item (ThreadItem.unknown item) =
      new RenderedItemKind.unknown item.id (unknown_markdown item)
