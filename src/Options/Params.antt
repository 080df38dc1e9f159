-- ===== src/Options/Params.antt =====
-- The parameters of thread/start, thread/resume and turn/start (crates/sdk/src/protocol/requests.rs)
-- and how crates/sdk/src/api.rs builds them from options.
use codex_sdk_rs.Prelude.{String, Bool, Option, none, some, List, [], ◌∷◌, map_some}
use codex_sdk_rs.SerdeJson.{SerdeJson}
use codex_sdk_rs.Thread.{Input, TurnInputItem, normalize_input}
use codex_sdk_rs.Options.{Map, ThreadOptions, TurnOptions, from_thread, merge}
use codex_sdk_rs.Options.Enums.{
  approval_mode_str, sandbox_mode_str, model_reasoning_effort_str, model_reasoning_summary_str,
  personality_str,
}
use codex_sdk_rs.Options.Values.{insert_each, insert_all, insert_common_extras, dynamic_tools_value}

pub record ThreadStartParams (Value : Type 0) : Type 0 where
  pub model : Option String
  pub model_provider : Option String
  pub cwd : Option String
  pub approval_policy : Option String
  pub sandbox : Option String
  pub sandbox_policy : Option Value
  pub effort : Option String
  pub summary : Option String
  pub personality : Option String
  pub ephemeral : Option Bool
  pub base_instructions : Option String
  pub developer_instructions : Option String
  pub extra : Map Value

pub record ThreadResumeParams (Value : Type 0) : Type 0 where
  pub thread_id : String
  pub history : Option (List Value)
  pub path : Option String
  pub model : Option String
  pub model_provider : Option String
  pub cwd : Option String
  pub approval_policy : Option String
  pub sandbox : Option String
  pub config : Option (Map Value)
  pub base_instructions : Option String
  pub developer_instructions : Option String
  pub personality : Option String
  pub persist_extended_history : Option Bool
  pub extra : Map Value

pub record TurnStartParams (Value : Type 0) : Type 0 where
  pub thread_id : String
  pub input : List TurnInputItem
  pub cwd : Option String
  pub model : Option String
  pub model_provider : Option String
  pub effort : Option String
  pub summary : Option String
  pub personality : Option String
  pub output_schema : Option Value
  pub approval_policy : Option String
  pub sandbox_policy : Option Value
  pub extra : Map Value

module _ ⦃json : SerdeJson⦄ where
  open json use {Value, text, boolean, object}

  unfoldable pub build_thread_start_params : ThreadOptions Value → ThreadStartParams Value
  build_thread_start_params options = record {
    model = options.model;
    model_provider = options.model_provider;
    cwd = options.working_directory;
    approval_policy = map_some approval_mode_str options.approval_policy;
    sandbox = map_some sandbox_mode_str options.sandbox_mode;
    sandbox_policy = options.sandbox_policy;
    effort = map_some model_reasoning_effort_str options.model_reasoning_effort;
    summary = map_some model_reasoning_summary_str options.model_reasoning_summary;
    personality = map_some personality_str options.personality;
    ephemeral = options.ephemeral;
    base_instructions = options.base_instructions;
    developer_instructions = options.developer_instructions;
    extra = insert_each (insert_common_extras [] (from_thread options)) (
        ("config", map_some object options.config)
        ∷ ("dynamicTools", map_some dynamic_tools_value options.dynamic_tools)
        ∷ ("experimentalRawEvents", map_some boolean options.experimental_raw_events)
        ∷ ("persistExtendedHistory", map_some boolean options.persist_extended_history)
        ∷ []);
  }

  unfoldable pub build_thread_resume_params :
      String → ThreadOptions Value → ThreadResumeParams Value
  build_thread_resume_params thread_id options = record {
    thread_id = thread_id;
    history = none;
    path = none;
    model = options.model;
    model_provider = options.model_provider;
    cwd = options.working_directory;
    approval_policy = map_some approval_mode_str options.approval_policy;
    sandbox = map_some sandbox_mode_str options.sandbox_mode;
    config = options.config;
    base_instructions = options.base_instructions;
    developer_instructions = options.developer_instructions;
    personality = map_some personality_str options.personality;
    persist_extended_history = options.persist_extended_history;
    extra = insert_each (insert_common_extras [] (from_thread options)) (
        ("sandboxPolicy", options.sandbox_policy)
        ∷ (
          "effort",
          map_some (λ effort. text (model_reasoning_effort_str effort))
              options.model_reasoning_effort,
        )
        ∷ (
          "summary",
          map_some (λ summary. text (model_reasoning_summary_str summary))
              options.model_reasoning_summary,
        )
        ∷ ("ephemeral", map_some boolean options.ephemeral)
        ∷ ("dynamicTools", map_some dynamic_tools_value options.dynamic_tools)
        ∷ ("experimentalRawEvents", map_some boolean options.experimental_raw_events)
        ∷ []);
  }

  abbrev pub with_overrides : Map Value → Option (Map Value) → Map Value
  with_overrides extra none = extra
  with_overrides extra (some overrides) = insert_all extra overrides

  unfoldable pub build_turn_start_params :
      String → Input → ThreadOptions Value → TurnOptions Value → TurnStartParams Value
  build_turn_start_params thread_id input options turn_options =
      let resolved = merge options turn_options in
      record {
        thread_id = thread_id;
        input = normalize_input input;
        cwd = resolved.working_directory;
        model = resolved.model;
        model_provider = resolved.model_provider;
        effort = map_some model_reasoning_effort_str resolved.model_reasoning_effort;
        summary = map_some model_reasoning_summary_str resolved.model_reasoning_summary;
        personality = map_some personality_str resolved.personality;
        output_schema = turn_options.output_schema;
        approval_policy = map_some approval_mode_str resolved.approval_policy;
        sandbox_policy = resolved.sandbox_policy;
        extra = with_overrides (insert_common_extras [] resolved) turn_options.extra;
      }
