-- ===== src/ThreadItem/Arms.antt =====
-- The arms of `parse_thread_item` in crates/sdk/src/api.rs, and the helpers that they call. Each arm
-- of the source's match is a function of its own.
use codex_sdk_rs.Prelude.{
  String, false, Option, none, some, List, [], ◌∷◌, map, ◌and_then◌, map_some, unwrap_or,
  collect_some, str_eq, if◌then◌else◌,
}
use codex_sdk_rs.Prelude.Int.{as_i32}
use codex_sdk_rs.Prelude.Text.{join, is_empty_str, concat}
use codex_sdk_rs.SerdeJson.{SerdeJson, as_i64, as_u64}
use codex_sdk_rs.Status.{
  PatchChangeKind, parse_agent_message_phase, parse_command_execution_status,
  parse_patch_change_kind, parse_patch_apply_status, parse_mcp_tool_call_status,
}
use codex_sdk_rs.ThreadItem.{
  ThreadItem, UserMessageContentItem, FileUpdateChange, TodoItem, ThreadError,
}

module _ ⦃json : SerdeJson⦄ where
  open json use {Value, Object, as_object, as_array, as_str, as_bool, get, null}

  -- `object.get(key).and_then(Value::as_str)`.
  abbrev pub str_field : String → Object → Option String
  str_field key object = get key object and_then as_str

  -- The same with `.unwrap_or_default().to_string()`.
  abbrev pub str_or_default : String → Object → String
  str_or_default key object = unwrap_or "" (str_field key object)

  abbrev pub array_field : String → Object → Option (List Value)
  array_field key object = get key object and_then as_array

  unfoldable pub parse_user_message_content_item : Value → UserMessageContentItem Value
  parse_user_message_content_item value = elim (as_object value) [
    | none ↦ UserMessageContentItem.unknown value
    | some object ↦ elim (str_field "type" object) [
      | none ↦ UserMessageContentItem.unknown value
      | some kind ↦
          if str_eq kind "text"
          then UserMessageContentItem.text (str_or_default "text" object)
          else if str_eq kind "image"
          then UserMessageContentItem.image (str_or_default "url" object)
          else if str_eq kind "localImage"
          then UserMessageContentItem.local_image (str_or_default "path" object)
          else UserMessageContentItem.unknown value
    ]
  ]

  -- The texts of an array field, one to a line.
  unfoldable pub joined_lines : String → Object → String
  joined_lines key object =
      unwrap_or ""
        (map_some (λ entries. join "\n" (collect_some as_str entries)) (array_field key object))

  unfoldable pub parse_reasoning_text : Object → String
  parse_reasoning_text object = elim (str_field "text" object) [
    | some text ↦ text
    | none ↦
        let summary = joined_lines "summary" object in
        let content = joined_lines "content" object in
        if is_empty_str summary
        then content
        else if is_empty_str content
        then summary
        else concat (summary ∷ "\n" ∷ content ∷ [])
  ]

  unfoldable pub change_kind : Option Value → PatchChangeKind
  change_kind none = PatchChangeKind.unknown
  change_kind (some value) = elim (as_str value) [
    | some kind ↦ parse_patch_change_kind kind
    | none ↦ elim (as_object value) [
      | some kind_object ↦
          unwrap_or PatchChangeKind.unknown
            (map_some parse_patch_change_kind (str_field "type" kind_object))
      | none ↦ PatchChangeKind.unknown
    ]
  ]

  unfoldable pub parse_file_update_change : Value → Option FileUpdateChange
  unfolding change_kind
  parse_file_update_change change = as_object change and_then λ object.
      some (record { path = str_or_default "path" object; kind = change_kind (get "kind" object) })

  unfoldable pub parse_todo_item : Value → Option TodoItem
  parse_todo_item value = as_object value and_then λ object. some (record {
    text = str_or_default "text" object;
    completed = unwrap_or false (get "completed" object and_then as_bool);
  })

  unfoldable pub mcp_error : Object → Option ThreadError
  mcp_error object =
      map_some (λ message. record { message = message })
        (get "error" object
          and_then as_object
          and_then (λ error. get "message" error)
          and_then as_str)

  module _ (id : Option String) (object : Object) where
    unfoldable pub parse_agent_message : ThreadItem Value
    parse_agent_message = ThreadItem.agent_message (record {
      id = unwrap_or "" id;
      text = str_or_default "text" object;
      phase = map_some parse_agent_message_phase (str_field "phase" object);
    })

    unfoldable pub parse_user_message : ThreadItem Value
    parse_user_message = ThreadItem.user_message (record {
      id = unwrap_or "" id;
      content =
          unwrap_or []
            (map_some (map parse_user_message_content_item) (array_field "content" object));
    })

    unfoldable pub parse_plan : ThreadItem Value
    parse_plan =
        ThreadItem.plan (record { id = unwrap_or "" id; text = str_or_default "text" object })

    unfoldable pub parse_reasoning : ThreadItem Value
    parse_reasoning =
        ThreadItem.reasoning (record { id = unwrap_or "" id; text = parse_reasoning_text object })

    unfoldable pub parse_command_execution : ThreadItem Value
    parse_command_execution = ThreadItem.command_execution (record {
      id = unwrap_or "" id;
      command = str_or_default "command" object;
      aggregated_output = str_or_default "aggregatedOutput" object;
      exit_code = map_some as_i32 (get "exitCode" object and_then as_i64);
      status = parse_command_execution_status (str_or_default "status" object);
    })

    unfoldable pub parse_file_change : ThreadItem Value
    parse_file_change = ThreadItem.file_change (record {
      id = unwrap_or "" id;
      changes =
          unwrap_or []
            (map_some (collect_some parse_file_update_change) (array_field "changes" object));
      status = parse_patch_apply_status (str_or_default "status" object);
    })

    unfoldable pub parse_mcp_tool_call : ThreadItem Value
    unfolding mcp_error
    parse_mcp_tool_call = ThreadItem.mcp_tool_call (record {
      id = unwrap_or "" id;
      server = str_or_default "server" object;
      tool = str_or_default "tool" object;
      arguments = unwrap_or null (get "arguments" object);
      result = get "result" object;
      error = mcp_error object;
      status = parse_mcp_tool_call_status (str_or_default "status" object);
    })

    unfoldable pub parse_dynamic_tool_call : ThreadItem Value
    parse_dynamic_tool_call = ThreadItem.dynamic_tool_call (record {
      id = unwrap_or "" id;
      tool = str_or_default "tool" object;
      arguments = unwrap_or null (get "arguments" object);
      status = str_or_default "status" object;
      content_items = unwrap_or [] (array_field "contentItems" object);
      success = get "success" object and_then as_bool;
      duration_ms = get "durationMs" object and_then as_u64;
    })

    unfoldable pub parse_collab_tool_call : ThreadItem Value
    parse_collab_tool_call = ThreadItem.collab_tool_call (record {
      id = unwrap_or "" id;
      tool = str_or_default "tool" object;
      status = str_or_default "status" object;
      sender_thread_id = str_or_default "senderThreadId" object;
      receiver_thread_id = str_field "receiverThreadId" object;
      new_thread_id = str_field "newThreadId" object;
      prompt = str_field "prompt" object;
      agent_status = str_field "agentStatus" object;
    })

    unfoldable pub parse_web_search : ThreadItem Value
    parse_web_search =
        ThreadItem.web_search
          (record { id = unwrap_or "" id; query = str_or_default "query" object })

    unfoldable pub parse_image_view : ThreadItem Value
    parse_image_view =
        ThreadItem.image_view (record { id = unwrap_or "" id; path = str_or_default "path" object })

    unfoldable pub parse_entered_review_mode : ThreadItem Value
    parse_entered_review_mode =
        ThreadItem.entered_review_mode
          (record { id = unwrap_or "" id; review = str_or_default "review" object })

    unfoldable pub parse_exited_review_mode : ThreadItem Value
    parse_exited_review_mode =
        ThreadItem.exited_review_mode
          (record { id = unwrap_or "" id; review = str_or_default "review" object })

    unfoldable pub parse_context_compaction : ThreadItem Value
    parse_context_compaction = ThreadItem.context_compaction (record { id = unwrap_or "" id })

    unfoldable pub parse_todo_list : ThreadItem Value
    parse_todo_list = ThreadItem.todo_list (record {
      id = unwrap_or "" id;
      items = unwrap_or [] (map_some (collect_some parse_todo_item) (array_field "items" object));
    })

    unfoldable pub parse_error : ThreadItem Value
    parse_error =
        ThreadItem.error
          (record { id = unwrap_or "" id; message = str_or_default "message" object })
