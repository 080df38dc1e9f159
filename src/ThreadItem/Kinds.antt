-- ===== src/ThreadItem/Kinds.antt =====
-- What `parse_thread_item` (crates/sdk/src/api.rs) keeps of the JSON value that it reads: the type,
-- the id, and the whole value of an item that it does not know.
use codex_sdk_rs.Prelude.{
  ◌≡◌, refl, String, false, Option, none, some, List, [], ◌∷◌, unwrap_or, eq_iff, if◌then◌else◌,
}
use codex_sdk_rs.Prelude.Dispatch.{is_listed, Row, dispatch-elim}
use codex_sdk_rs.SerdeJson.{SerdeJson}
use codex_sdk_rs.ThreadItem.{ThreadItem}
use codex_sdk_rs.ThreadItem.Arms.{
  str_field, parse_agent_message, parse_user_message, parse_plan, parse_reasoning,
  parse_command_execution, parse_file_change, parse_mcp_tool_call, parse_dynamic_tool_call,
  parse_collab_tool_call, parse_web_search, parse_image_view, parse_entered_review_mode,
  parse_exited_review_mode, parse_context_compaction, parse_todo_list, parse_error,
}
use codex_sdk_rs.ThreadItem.Parse.{unknown_item, parse_typed, parse_thread_item}

-- The wire type that an item stands for; an unknown item carries its own.
abbrev pub wire_type : {Value : Type 0} → ThreadItem Value → Option String
wire_type (ThreadItem.agent_message item) = some "agentMessage"
wire_type (ThreadItem.user_message item) = some "userMessage"
wire_type (ThreadItem.plan item) = some "plan"
wire_type (ThreadItem.reasoning item) = some "reasoning"
wire_type (ThreadItem.command_execution item) = some "commandExecution"
wire_type (ThreadItem.file_change item) = some "fileChange"
wire_type (ThreadItem.mcp_tool_call item) = some "mcpToolCall"
wire_type (ThreadItem.dynamic_tool_call item) = some "dynamicToolCall"
wire_type (ThreadItem.collab_tool_call item) = some "collabToolCall"
wire_type (ThreadItem.web_search item) = some "webSearch"
wire_type (ThreadItem.image_view item) = some "imageView"
wire_type (ThreadItem.entered_review_mode item) = some "enteredReviewMode"
wire_type (ThreadItem.exited_review_mode item) = some "exitedReviewMode"
wire_type (ThreadItem.context_compaction item) = some "contextCompaction"
wire_type (ThreadItem.todo_list item) = some "todoList"
wire_type (ThreadItem.error item) = some "error"
wire_type (ThreadItem.unknown item) = item.item_type

-- The id that an item carries; only an unknown item can have none.
abbrev pub item_id : {Value : Type 0} → ThreadItem Value → Option String
item_id (ThreadItem.agent_message item) = some item.id
item_id (ThreadItem.user_message item) = some item.id
item_id (ThreadItem.plan item) = some item.id
item_id (ThreadItem.reasoning item) = some item.id
item_id (ThreadItem.command_execution item) = some item.id
item_id (ThreadItem.file_change item) = some item.id
item_id (ThreadItem.mcp_tool_call item) = some item.id
item_id (ThreadItem.dynamic_tool_call item) = some item.id
item_id (ThreadItem.collab_tool_call item) = some item.id
item_id (ThreadItem.web_search item) = some item.id
item_id (ThreadItem.image_view item) = some item.id
item_id (ThreadItem.entered_review_mode item) = some item.id
item_id (ThreadItem.exited_review_mode item) = some item.id
item_id (ThreadItem.context_compaction item) = some item.id
item_id (ThreadItem.todo_list item) = some item.id
item_id (ThreadItem.error item) = some item.id
item_id (ThreadItem.unknown item) = item.id

-- The wire types that the SDK knows.
abbrev pub known_types : List String
known_types =
    "agentMessage" ∷ "userMessage" ∷ "plan" ∷ "reasoning" ∷ "commandExecution" ∷ "fileChange"
    ∷ "mcpToolCall" ∷ "dynamicToolCall" ∷ "collabToolCall" ∷ "webSearch" ∷ "imageView"
    ∷ "enteredReviewMode" ∷ "exitedReviewMode" ∷ "contextCompaction" ∷ "todoList" ∷ "error" ∷ []

arms : Unit {0}
unfolding parse_agent_message parse_user_message parse_plan parse_reasoning parse_command_execution
    parse_file_change parse_mcp_tool_call parse_dynamic_tool_call parse_collab_tool_call
    parse_web_search parse_image_view parse_entered_review_mode parse_exited_review_mode
    parse_context_compaction parse_todo_list parse_error
arms = tt

-- The value that an unknown item keeps.
abbrev pub raw_value : {Value : Type 0} → ThreadItem Value → Option Value
raw_value (ThreadItem.unknown item) = some item.raw
raw_value _ = none

-- What is kept of a value with a type, an id and the item that is read from it.
pub record Keeps {Value : Type 0} (kind : String) (id : Option String) (value : Value)
    (item : ThreadItem Value) : Type 0 where
  pub same_type : wire_type item ≡ some kind
  pub same_id : item_id item ≡ (if is_listed kind known_types then some (unwrap_or "" id) else id)
  pub same_raw : raw_value item ≡ (if is_listed kind known_types then none else some value)

module _ ⦃json : SerdeJson⦄ where
  open json use {Value, Object, as_object}

  module _ (kind : String) (id : Option String) (object : Object) (value : Value) where
    -- Where the type is a known literal, the arm for it settles every field.
    abbrev row :
        (literal : String) (item : ThreadItem Value)
        → Keeps literal id value item
        → Row (Keeps kind id value) kind
    row literal item k = record {
      literal = literal;
      value = item;
      holds = λ e. rw ((eq_iff kind literal).0 e) k;
    }

    abbrev rows : List (Row (Keeps kind id value) kind)
    unfolding arms
    rows =
        row "agentMessage" (parse_agent_message id object)
          (record { same_type = refl; same_id = refl; same_raw = refl })
        ∷ row "userMessage" (parse_user_message id object)
            (record { same_type = refl; same_id = refl; same_raw = refl })
        ∷ row "plan" (parse_plan id object)
            (record { same_type = refl; same_id = refl; same_raw = refl })
        ∷ row "reasoning" (parse_reasoning id object)
            (record { same_type = refl; same_id = refl; same_raw = refl })
        ∷ row "commandExecution" (parse_command_execution id object)
            (record { same_type = refl; same_id = refl; same_raw = refl })
        ∷ row "fileChange" (parse_file_change id object)
            (record { same_type = refl; same_id = refl; same_raw = refl })
        ∷ row "mcpToolCall" (parse_mcp_tool_call id object)
            (record { same_type = refl; same_id = refl; same_raw = refl })
        ∷ row "dynamicToolCall" (parse_dynamic_tool_call id object)
            (record { same_type = refl; same_id = refl; same_raw = refl })
        ∷ row "collabToolCall" (parse_collab_tool_call id object)
            (record { same_type = refl; same_id = refl; same_raw = refl })
        ∷ row "webSearch" (parse_web_search id object)
            (record { same_type = refl; same_id = refl; same_raw = refl })
        ∷ row "imageView" (parse_image_view id object)
            (record { same_type = refl; same_id = refl; same_raw = refl })
        ∷ row "enteredReviewMode" (parse_entered_review_mode id object)
            (record { same_type = refl; same_id = refl; same_raw = refl })
        ∷ row "exitedReviewMode" (parse_exited_review_mode id object)
            (record { same_type = refl; same_id = refl; same_raw = refl })
        ∷ row "contextCompaction" (parse_context_compaction id object)
            (record { same_type = refl; same_id = refl; same_raw = refl })
        ∷ row "todoList" (parse_todo_list id object)
            (record { same_type = refl; same_id = refl; same_raw = refl })
        ∷ row "error" (parse_error id object)
            (record { same_type = refl; same_id = refl; same_raw = refl })
        ∷ []

    pub parse_typed-Keeps : Keeps kind id value (parse_typed kind id object value)
    unfolding parse_typed arms
    parse_typed-Keeps =
        dispatch-elim (Keeps kind id value) kind rows (unknown_item id (some kind) value)
          (λ (missed : is_listed kind known_types ≡ false). record {
            same_type = refl;
            same_id = rw (missed) refl;
            same_raw = rw (missed) refl;
          })

  -- A value with a `type` is read to an item of that wire type. If the SDK knows the type, the item
  -- has the value's id, or the empty one; otherwise it is `Unknown` and keeps the id and the value.
  pub parse_thread_item-Keeps :
      (value : Value) (object : Object) (kind : String)
      → as_object value ≡ some object
      → str_field "type" object ≡ some kind
      → Keeps kind (str_field "id" object) value (parse_thread_item value)
  unfolding parse_thread_item
  parse_thread_item-Keeps value object kind o t =
      rw (o, parse_thread_item) (rw (t, parse_thread_item) (parse_typed-Keeps kind _ object value))
