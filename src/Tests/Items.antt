-- ===== src/Tests/Items.antt =====
-- Examples on thread items, their rendering and the parsers.
use codex_sdk_rs.Prelude.{
  ◌≡◌, refl, arith, false, not, none, some, [], ◌∷◌, ◌++◌, ◌&&◌, if◌then◌else◌, ◌↔◌,
}
use codex_sdk_rs.Prelude.Int.{pos}
use codex_sdk_rs.Prelude.Text.{is_empty_str}
use codex_sdk_rs.Protocol.{RequestId, RpcError, ok, err}
use codex_sdk_rs.Incoming.{
  IncomingClassified, classify_incoming, request_frame, notification_frame, result_frame,
  error_frame,
}
use codex_sdk_rs.Incoming.RoundTrip.{classify_incoming-frame}
use codex_sdk_rs.ThreadItem.{ThreadItem, ThreadEvent, Usage}
use codex_sdk_rs.ThreadItem.Parse.{parse_thread_item}
use codex_sdk_rs.ThreadItem.Kinds.{Keeps, parse_thread_item-Keeps}
use codex_sdk_rs.Render.Items.{render_thread_item}
use codex_sdk_rs.Render.Renderer.{render, render_all, render_update, empty_renderer}
use codex_sdk_rs.Render.Streaming.{shown_by, render-completed, render-no_repeat}
use codex_sdk_rs.Turn.{parse_usage_from_value}
use codex_sdk_rs.Turn.TokenUsage.{IsUsage, parse_usage_from_value_iff}
use codex_sdk_rs.Tests.Json.{Json, Fields, get_field, json}

-- `{"type": "plan", "id": "p1", "text": "go"}`.
abbrev plan_fields : Fields
plan_fields =
    Fields.entry "type" (Json.text "plan")
      (Fields.entry "id" (Json.text "p1") (Fields.entry "text" (Json.text "go") Fields.none_left))

abbrev plan : ThreadItem Json
plan = ThreadItem.plan (record { id = "p1"; text = "go" })

parse_thread_item-Keeps_example :
    Keeps "plan" (some "p1") (Json.object plan_fields) (parse_thread_item (Json.object plan_fields))
unfolding get_field
parse_thread_item-Keeps_example =
    parse_thread_item-Keeps (Json.object plan_fields) plan_fields "plan" refl refl

render-completed_example :
    (render
      (render_all empty_renderer (ThreadEvent.item_updated plan ∷ []))
      (ThreadEvent.item_completed plan)).1
    ≡ (if not (
            shown_by
              ((render_thread_item plan).kind, "p1")
              false
              (ThreadEvent.item_updated plan ∷ []))
          && not (is_empty_str (render_thread_item plan).markdown)
        then some (render_thread_item plan)
        else none)
unfolding render_thread_item
render-completed_example = render-completed (ThreadEvent.item_updated plan ∷ []) plan "p1" refl

render-no_repeat_example :
    (render
      (render_all empty_renderer ([] ++ ThreadEvent.item_updated plan ∷ []))
      (ThreadEvent.item_completed plan)).1
    ≡ none
unfolding render_thread_item render_update
render-no_repeat_example = render-no_repeat [] [] plan plan "p1" refl refl refl refl tt

abbrev refused : RpcError Json
refused = record { code = pos 7; message = "no"; details = none }

classify_incoming-frame_example :
    (classify_incoming (request_frame "turn/start" (RequestId.integer (pos 1)) (Json.text "x"))
      ≡ ok (
          IncomingClassified.server_request
            (RequestId.integer (pos 1))
            "turn/start"
            (Json.text "x")
            (request_frame "turn/start" (RequestId.integer (pos 1)) (Json.text "x"))))
    × (classify_incoming (notification_frame "turn/start" (Json.text "x"))
        ≡ ok (
            IncomingClassified.notification "turn/start"
              (Json.text "x")
              (notification_frame "turn/start" (Json.text "x"))))
    × (classify_incoming (result_frame (RequestId.integer (pos 1)) (Json.text "x"))
        ≡ ok (IncomingClassified.response (RequestId.integer (pos 1)) (ok (Json.text "x"))))
    × (classify_incoming (error_frame (RequestId.integer (pos 1)) refused)
        ≡ ok (IncomingClassified.response (RequestId.integer (pos 1)) (err refused)))
classify_incoming-frame_example =
    classify_incoming-frame (RequestId.integer (pos 1)) "turn/start" (Json.text "x") refused
      (λ e. ground (arith, e))

-- `{"last": {"inputTokens": 3, "outputTokens": 4}}`.
abbrev counted : Fields
counted =
    Fields.entry "inputTokens" (Json.number (pos 3))
      (Fields.entry "outputTokens" (Json.number (pos 4)) Fields.none_left)

abbrev counted_usage : Usage
counted_usage = record { input_tokens = pos 3; cached_input_tokens = pos 0; output_tokens = pos 4 }

abbrev counted_last : Json
counted_last = Json.object (Fields.entry "last" (Json.object counted) Fields.none_left)

parse_usage_from_value_iff_example :
    (parse_usage_from_value counted_last ≡ some counted_usage) ↔ IsUsage counted_usage counted_last
parse_usage_from_value_iff_example = parse_usage_from_value_iff counted_last counted_usage

counted_last-parsed : parse_usage_from_value counted_last ≡ some counted_usage
unfolding parse_usage_from_value get_field
counted_last-parsed = (parse_usage_from_value_iff counted_last counted_usage).1 (
    IsUsage.of_last _ (Json.object counted) refl refl
      (IsUsage.of_fields counted refl refl refl refl refl))
