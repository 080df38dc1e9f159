-- ===== src/Options/Wire.antt =====
-- How the parameters of thread/start, thread/resume and turn/start are serialised, as the attributes
-- of crates/sdk/src/protocol/requests.rs say: names in camel case, no entry for `None`, and the
-- entries of `extra` after the others, where a repeated key replaces.
use codex_sdk_rs.Prelude.{String, Option, none, some, List, [], ◌∷◌, ◌++◌, map, map_some}
use codex_sdk_rs.SerdeJson.{SerdeJson}
use codex_sdk_rs.Thread.{TurnInputItem}
use codex_sdk_rs.Options.{Map}
use codex_sdk_rs.Options.Params.{ThreadStartParams, ThreadResumeParams, TurnStartParams}

-- `skip_serializing_if = "Option::is_none"`.
unfoldable pub present : {Value : Type 0} → List (String × Option Value) → Map Value
present [] = []
present ((key, none) ∷ slots) = present slots
present ((key, some value) ∷ slots) = (key, value) ∷ present slots

module _ ⦃json : SerdeJson⦄ where
  open json use {Value, text, boolean, array, object}

  abbrev pub item_value : TurnInputItem → Value
  item_value (TurnInputItem.text s) = object (("type", text "text") ∷ ("text", text s) ∷ [])
  item_value (TurnInputItem.local_image path) =
      object (("type", text "localImage") ∷ ("path", text path) ∷ [])

  abbrev pub thread_start_slots : ThreadStartParams Value → List (String × Option Value)
  thread_start_slots params =
      ("model", map_some text params.model)
      ∷ ("modelProvider", map_some text params.model_provider)
      ∷ ("cwd", map_some text params.cwd)
      ∷ ("approvalPolicy", map_some text params.approval_policy)
      ∷ ("sandbox", map_some text params.sandbox)
      ∷ ("sandboxPolicy", params.sandbox_policy)
      ∷ ("effort", map_some text params.effort)
      ∷ ("summary", map_some text params.summary)
      ∷ ("personality", map_some text params.personality)
      ∷ ("ephemeral", map_some boolean params.ephemeral)
      ∷ ("baseInstructions", map_some text params.base_instructions)
      ∷ ("developerInstructions", map_some text params.developer_instructions)
      ∷ []

  unfoldable pub thread_start_wire : ThreadStartParams Value → Map Value
  thread_start_wire params = present (thread_start_slots params) ++ params.extra

  abbrev pub thread_resume_slots : ThreadResumeParams Value → List (String × Option Value)
  thread_resume_slots params =
      ("threadId", some (text params.thread_id))
      ∷ ("history", map_some array params.history)
      ∷ ("path", map_some text params.path)
      ∷ ("model", map_some text params.model)
      ∷ ("modelProvider", map_some text params.model_provider)
      ∷ ("cwd", map_some text params.cwd)
      ∷ ("approvalPolicy", map_some text params.approval_policy)
      ∷ ("sandbox", map_some text params.sandbox)
      ∷ ("config", map_some object params.config)
      ∷ ("baseInstructions", map_some text params.base_instructions)
      ∷ ("developerInstructions", map_some text params.developer_instructions)
      ∷ ("personality", map_some text params.personality)
      ∷ ("persistExtendedHistory", map_some boolean params.persist_extended_history)
      ∷ []

  unfoldable pub thread_resume_wire : ThreadResumeParams Value → Map Value
  thread_resume_wire params = present (thread_resume_slots params) ++ params.extra

  abbrev pub turn_start_slots : TurnStartParams Value → List (String × Option Value)
  turn_start_slots params =
      ("threadId", some (text params.thread_id))
      ∷ ("input", some (array (map item_value params.input)))
      ∷ ("cwd", map_some text params.cwd)
      ∷ ("model", map_some text params.model)
      ∷ ("modelProvider", map_some text params.model_provider)
      ∷ ("effort", map_some text params.effort)
      ∷ ("summary", map_some text params.summary)
      ∷ ("personality", map_some text params.personality)
      ∷ ("outputSchema", params.output_schema)
      ∷ ("approvalPolicy", map_some text params.approval_policy)
      ∷ ("sandboxPolicy", params.sandbox_policy)
      ∷ []

  unfoldable pub turn_start_wire : TurnStartParams Value → Map Value
  turn_start_wire params = present (turn_start_slots params) ++ params.extra
