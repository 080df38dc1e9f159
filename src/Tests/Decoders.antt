-- ===== src/Tests/Decoders.antt =====
-- Decoders for the examples: objects are kept whole, and what needs more fields is refused.
use codex_sdk_rs.Prelude.{String}
use codex_sdk_rs.Protocol.{Result, ok, err}
use codex_sdk_rs.Events.Payloads.{OpaqueStruct}
use codex_sdk_rs.Events.Notifications.{NotificationDecoders}
use codex_sdk_rs.Events.ServerRequests.{ServerRequestDecoders}
use codex_sdk_rs.Tests.Json.{Json, Fields}

abbrev pub refuse : {A : Type 0} → Json → Result A String
refuse value = err "not read"

abbrev pub decode_opaque : Json → Result (OpaqueStruct Json Fields) String
decode_opaque (Json.object fields) = ok (record { extra = fields })
decode_opaque _ = err "expected an object"

abbrev pub notifications : NotificationDecoders Json Fields
notifications = record {
  decode_error = refuse;
  decode_thread_started = refuse;
  decode_thread_lifecycle = refuse;
  decode_thread_name_updated = refuse;
  decode_thread_status_changed = refuse;
  decode_thread_token_usage_updated = refuse;
  decode_turn_started = refuse;
  decode_turn_completed = refuse;
  decode_turn_diff_updated = refuse;
  decode_turn_plan_updated = refuse;
  decode_item_lifecycle = refuse;
  decode_opaque = decode_opaque;
  decode_delta = refuse;
  decode_server_request_resolved = refuse;
}

abbrev pub requests : ServerRequestDecoders Json Fields
requests = record { decode_refresh = refuse; decode_opaque = decode_opaque }
