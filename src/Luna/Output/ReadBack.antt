-- ===== src/Luna/Output/ReadBack.antt =====
-- What luna prints for an item (crates/luna/src/output/json.rs) is read by the SDK's parser.
use codex_sdk_rs.Prelude.{
  ◌≡◌, refl, ◌∙◌, String, Bool, true, false, Option, none, some, List, arith,
}
use codex_sdk_rs.SerdeJson.{SerdeJson, field}
use codex_sdk_rs.Status.{AgentMessagePhase, agent_message_phase_as_str}
use codex_sdk_rs.Status.RoundTrip.{parse-as_str}
use codex_sdk_rs.ThreadItem.{ThreadItem}
use codex_sdk_rs.ThreadItem.Arms.{
  str_field, parse_agent_message, parse_plan, parse_reasoning, parse_reasoning_text,
  parse_web_search, parse_image_view, parse_entered_review_mode, parse_exited_review_mode,
  parse_context_compaction, parse_error,
}
use codex_sdk_rs.ThreadItem.Parse.{parse_typed, parse_thread_item}
use codex_sdk_rs.Luna.Output.{item_fields, thread_item_to_json}

-- The kinds whose fields are texts in both formats.
abbrev pub is_textual : {Value : Type 0} → ThreadItem Value → Bool
is_textual (ThreadItem.agent_message item) = true
is_textual (ThreadItem.plan item) = true
is_textual (ThreadItem.reasoning item) = true
is_textual (ThreadItem.web_search item) = true
is_textual (ThreadItem.image_view item) = true
is_textual (ThreadItem.entered_review_mode item) = true
is_textual (ThreadItem.exited_review_mode item) = true
is_textual (ThreadItem.context_compaction item) = true
is_textual (ThreadItem.error item) = true
is_textual item = false

module _ ⦃json : SerdeJson⦄ where
  open json use {
    Value, text, object, object_of, as_object-object, get-object_of, as_str-text, get, as_str,
  }

  str_field-text :
      (key s : String) (fields : List (String × Value))
      → field key fields ≡ some (text s)
      → str_field key (object_of fields) ≡ some s
  str_field-text key s fields e = rw (get-object_of key fields, e) (as_str-text s)

  str_field-missing :
      (key : String) (fields : List (String × Value))
      → field key fields ≡ none
      → str_field key (object_of fields) ≡ none
  str_field-missing key fields e = rw (get-object_of key fields, e) refl

  parse_thread_item-object :
      (kind id : String) (fields : List (String × Value))
      → field "type" fields ≡ some (text kind)
      → field "id" fields ≡ some (text id)
      → parse_thread_item (object fields)
        ≡ parse_typed kind (some id) (object_of fields) (object fields)
  unfolding parse_thread_item
  parse_thread_item-object kind id fields t i =
      rw
        (
          parse_thread_item,
          as_object-object fields,
          str_field-text "type" kind fields t,
          str_field-text "id" id fields i,
        )
        refl

  message_back :
      (id t : String) (phase : Option AgentMessagePhase)
      → let item = ThreadItem.agent_message (record { id = id; text = t; phase = phase }) in
        parse_thread_item (object (item_fields item)) ≡ item
  unfolding parse_typed parse_agent_message
  message_back id t none =
      let fields =
        item_fields (ThreadItem.agent_message (record { id = id; text = t; phase = none })) in
      parse_thread_item-object "agentMessage" id fields refl refl
      ∙ rw (str_field-text "text" t fields refl, str_field-missing "phase" fields refl) refl
  message_back id t (some phase) =
      let fields =
        item_fields (ThreadItem.agent_message (record { id = id; text = t; phase = some phase })) in
      parse_thread_item-object "agentMessage" id fields refl refl
      ∙ rw
          (
            str_field-text "text" t fields refl,
            str_field-text "phase" (agent_message_phase_as_str phase) fields refl,
            parse-as_str.0 phase,
          )
          refl

  -- For an item of the nine kinds that hold only texts (messages of the agent with any phase or none,
  -- plans, reasoning, searches, images, both review modes, compactions and errors), the SDK's parser
  -- reads what luna prints back as exactly that item.
  pub parse_thread_item-thread_item_to_json :
      (item : ThreadItem Value)
      → is_textual item ≡ true
      → parse_thread_item (thread_item_to_json item) ≡ item
  unfolding thread_item_to_json parse_typed parse_plan parse_reasoning parse_reasoning_text
      parse_web_search parse_image_view parse_entered_review_mode parse_exited_review_mode
      parse_context_compaction parse_error
  parse_thread_item-thread_item_to_json (ThreadItem.agent_message item) h =
      message_back item.id item.text item.phase
  parse_thread_item-thread_item_to_json (ThreadItem.plan item) h =
      parse_thread_item-object "plan" item.id _ refl refl
      ∙ rw (str_field-text "text" item.text (item_fields (ThreadItem.plan item)) refl) refl
  parse_thread_item-thread_item_to_json (ThreadItem.reasoning item) h =
      parse_thread_item-object "reasoning" item.id _ refl refl
      ∙ rw
          (
            parse_reasoning_text,
            str_field-text "text" item.text (item_fields (ThreadItem.reasoning item)) refl,
          )
          refl
  parse_thread_item-thread_item_to_json (ThreadItem.web_search item) h =
      parse_thread_item-object "webSearch" item.id _ refl refl
      ∙ rw (str_field-text "query" item.query (item_fields (ThreadItem.web_search item)) refl) refl
  parse_thread_item-thread_item_to_json (ThreadItem.image_view item) h =
      parse_thread_item-object "imageView" item.id _ refl refl
      ∙ rw (str_field-text "path" item.path (item_fields (ThreadItem.image_view item)) refl) refl
  parse_thread_item-thread_item_to_json (ThreadItem.entered_review_mode item) h =
      parse_thread_item-object "enteredReviewMode" item.id _ refl refl
      ∙ rw
          (str_field-text "review" item.review (item_fields (ThreadItem.entered_review_mode item))
            refl)
          refl
  parse_thread_item-thread_item_to_json (ThreadItem.exited_review_mode item) h =
      parse_thread_item-object "exitedReviewMode" item.id _ refl refl
      ∙ rw
          (str_field-text "review" item.review (item_fields (ThreadItem.exited_review_mode item))
            refl)
          refl
  parse_thread_item-thread_item_to_json (ThreadItem.context_compaction item) h =
      parse_thread_item-object "contextCompaction" item.id _ refl refl
  parse_thread_item-thread_item_to_json (ThreadItem.error item) h =
      parse_thread_item-object "error" item.id _ refl refl
      ∙ rw (str_field-text "message" item.message (item_fields (ThreadItem.error item)) refl) refl
  parse_thread_item-thread_item_to_json item h = absurd (ground (arith, h))
