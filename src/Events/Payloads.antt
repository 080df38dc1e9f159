-- ===== src/Events/Payloads.antt =====
-- The payloads of server notifications: crates/sdk/src/protocol/notifications.rs, the structs of
-- crates/sdk/src/protocol/responses.rs that they hold, and `opaque_struct!`. `extra` is the map of
-- the fields that a struct does not name.
use codex_sdk_rs.Prelude.{ℕ, String, Bool, Option, List}
use codex_sdk_rs.Protocol.{RequestId}

pub record ThreadSummary (Value Object : Type 0) : Type 0 where
  pub id : String
  pub model : Option String
  pub title : Option String
  pub source_kind : Option String
  pub archived : Option Bool
  pub extra : Object

pub record TurnError (Value Object : Type 0) : Type 0 where
  pub message : String
  pub codex_error_info : Option Value
  pub additional_details : Option Value
  pub extra : Object

pub record Turn (Value Object : Type 0) : Type 0 where
  pub id : String
  pub status : Option String
  pub items : List Value
  pub error : Option (TurnError Value Object)
  pub extra : Object

pub record OpaqueStruct (Value Object : Type 0) : Type 0 where
  pub extra : Object

pub record ErrorNotification (Value Object : Type 0) : Type 0 where
  pub error : TurnError Value Object
  pub extra : Object

pub record ThreadStartedNotification (Value Object : Type 0) : Type 0 where
  pub thread : ThreadSummary Value Object
  pub extra : Object

pub record ThreadNameUpdatedNotification (Value Object : Type 0) : Type 0 where
  pub thread_id : String
  pub name : String
  pub extra : Object

pub record ThreadLifecycleNotification (Value Object : Type 0) : Type 0 where
  pub thread_id : String
  pub extra : Object

pub record ThreadStatusValue (Value Object : Type 0) : Type 0 where
  pub status_type : Option String
  pub active_flags : List String
  pub extra : Object

pub record ThreadStatusChangedNotification (Value Object : Type 0) : Type 0 where
  pub thread_id : String
  pub status : Option (ThreadStatusValue Value Object)
  pub extra : Object

pub record ThreadTokenUsageUpdatedNotification (Value Object : Type 0) : Type 0 where
  pub thread_id : Option String
  pub usage : Option Value
  pub extra : Object

pub record TurnStartedNotification (Value Object : Type 0) : Type 0 where
  pub turn : Turn Value Object
  pub extra : Object

pub record TurnCompletedNotification (Value Object : Type 0) : Type 0 where
  pub turn : Turn Value Object
  pub extra : Object

pub record TurnDiffUpdatedNotification (Value Object : Type 0) : Type 0 where
  pub thread_id : String
  pub turn_id : String
  pub diff : Option String
  pub extra : Object

pub record PlanStep (Value Object : Type 0) : Type 0 where
  pub step : String
  pub status : String
  pub extra : Object

pub record TurnPlanUpdatedNotification (Value Object : Type 0) : Type 0 where
  pub turn_id : String
  pub explanation : Option String
  pub plan : List (PlanStep Value Object)
  pub extra : Object

pub record ItemLifecycleNotification (Value Object : Type 0) : Type 0 where
  pub item : Value
  pub extra : Object

pub record DeltaNotification (Value Object : Type 0) : Type 0 where
  pub item_id : Option String
  pub delta : Option String
  pub text : Option String
  pub summary_index : Option ℕ
  pub extra : Object

pub record ServerRequestResolvedNotification (Value Object : Type 0) : Type 0 where
  pub thread_id : Option String
  pub request_id : RequestId
  pub extra : Object
