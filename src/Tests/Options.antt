-- ===== src/Tests/Options.antt =====
-- Examples on options and on luna's configuration.
use codex_sdk_rs.Prelude.{
  ◌≡◌, refl, String, Bool, true, false, Option, none, some, List, [], ◌∷◌, or_else, str_eq,
  if◌then◌else◌,
}
use codex_sdk_rs.Prelude.Int.{pos}
use codex_sdk_rs.Prelude.Text.{is_empty_str}
use codex_sdk_rs.Protocol.{Result, ok, err}
use codex_sdk_rs.SerdeJson.{field}
use codex_sdk_rs.Thread.{Input}
use codex_sdk_rs.Options.{Map, ThreadOptions, TurnOptions, from_thread}
use codex_sdk_rs.Options.Enums.{
  ModelReasoningEffort, ServiceTier, WebSearchMode, from_str, model_reasoning_effort_table,
}
use codex_sdk_rs.Options.Params.{
  build_thread_start_params, build_thread_resume_params, build_turn_start_params,
}
use codex_sdk_rs.Options.Wire.{thread_start_wire, thread_resume_wire, turn_start_wire}
use codex_sdk_rs.Options.Lookup.{lookup}
use codex_sdk_rs.Options.Resume.{resume_wire-start}
use codex_sdk_rs.Options.Overrides.{own, override, identity, settings, turn_wire-layered}
use codex_sdk_rs.Luna.Config.Agents.{Files, LoadedAgent, load_agent_profile_from_config}
use codex_sdk_rs.Luna.Config.Agents.Instructions.{Found, load_agent_profile_from_config-Tells}
use codex_sdk_rs.Luna.Config.Agents.Tells.{Tells}
use codex_sdk_rs.Luna.Config.{ConfigFlags, build_thread_config}
use codex_sdk_rs.Luna.Config.Sources.{Sources, build_thread_config-Sources}
use codex_sdk_rs.Tests.Json.{Json, Fields, json}

abbrev thread_options : ThreadOptions Json
thread_options = record {
  model = some "gpt";
  model_provider = none;
  sandbox_mode = none;
  sandbox_policy = none;
  working_directory = some "/work";
  skip_git_repo_check = some true;
  model_reasoning_effort = some ModelReasoningEffort.high;
  model_reasoning_summary = none;
  service_tier = some ServiceTier.fast;
  network_access_enabled = none;
  web_search_mode = none;
  web_search_enabled = none;
  approval_policy = none;
  additional_directories = some ("/data" ∷ []);
  personality = none;
  base_instructions = none;
  developer_instructions = none;
  ephemeral = some false;
  collaboration_mode = none;
  config = some (("profile", Json.text "work") ∷ []);
  dynamic_tools = none;
  experimental_raw_events = none;
  persist_extended_history = none;
}

abbrev turn_options : TurnOptions Json
turn_options = record {
  output_schema = none;
  working_directory = none;
  model = some "small";
  model_provider = none;
  model_reasoning_effort = none;
  model_reasoning_summary = none;
  service_tier = none;
  personality = none;
  approval_policy = none;
  sandbox_policy = none;
  collaboration_mode = none;
  skip_git_repo_check = some false;
  web_search_mode = none;
  web_search_enabled = none;
  network_access_enabled = none;
  additional_directories = none;
  extra = some (("serviceTier", Json.text "default") ∷ []);
}

resume_wire-start_example :
    field "effort" (thread_resume_wire (build_thread_resume_params "t1" thread_options)) ≡ (
      if str_eq "threadId" "effort"
      then some (Json.text "t1")
      else field "effort" (thread_start_wire (build_thread_start_params thread_options)))
resume_wire-start_example = resume_wire-start "t1" thread_options "effort"

effort_sent :
    field "effort" (thread_resume_wire (build_thread_resume_params "t1" thread_options))
    ≡ some (Json.text "high")
unfolding thread_resume_wire build_thread_resume_params codex_sdk_rs.Options.Wire.present
    codex_sdk_rs.Options.Values.insert_common_extras codex_sdk_rs.Options.Values.insert_each
    from_thread
effort_sent = refl

turn_wire-layered_example :
    field "serviceTier"
      (turn_start_wire (build_turn_start_params "t1" (Input.text "go") thread_options turn_options))
    ≡ or_else (override "serviceTier" turn_options.extra) (
        or_else
          (lookup "serviceTier" (identity "t1" (Input.text "go") thread_options turn_options))
          (or_else
            (lookup "serviceTier" (settings (own turn_options) turn_options.output_schema))
            (lookup "serviceTier" (settings (from_thread thread_options) none))))
turn_wire-layered_example =
    turn_wire-layered "t1" (Input.text "go") thread_options turn_options "serviceTier"

effort_read :
    from_str "ModelReasoningEffort" model_reasoning_effort_table "xhigh"
    ≡ ok ModelReasoningEffort.x_high
unfolding from_str
effort_read = refl

abbrev parse_json : String → Result Json String
parse_json raw =
    if str_eq raw "7"
    then ok (Json.number (pos 7))
    else if str_eq raw "{}"
    then ok (Json.object Fields.none_left)
    else err "expected a value"

abbrev entries : Fields → Map Json
entries fields = []

abbrev same_value : Json → Json → Bool
same_value (Json.text s) (Json.text t) = str_eq s t
same_value _ _ = false

abbrev flags : ConfigFlags
flags = record {
  web_search_mode = some WebSearchMode.live;
  config_profile = none;
  model_verbosity = none;
  sandbox_network_access_enabled = none;
  sandbox_writable_roots = [];
}

-- The same value twice is no conflict.
build_thread_config-Sources_example :
    Sources parse_json entries same_value
      (some "{}")
      ("web_search = live" ∷ "depth=7" ∷ [])
      flags
      (some (("web_search", Json.text "live") ∷ ("depth", Json.number (pos 7)) ∷ []))
unfolding build_thread_config codex_sdk_rs.Luna.Config.parse_optional_json_object
    codex_sdk_rs.Luna.Config.parse_json_value codex_sdk_rs.Luna.Config.insert_entries
    codex_sdk_rs.Luna.Config.parse_entry codex_sdk_rs.Prelude.Split.split_once
    codex_sdk_rs.Prelude.Text.trim codex_sdk_rs.Luna.Config.insert_thread_config
    codex_sdk_rs.Luna.Config.insert_settings
build_thread_config-Sources_example =
    build_thread_config-Sources parse_json entries same_value (some "{}")
      ("web_search = live" ∷ "depth=7" ∷ []) flags
      (some (("web_search", Json.text "live") ∷ ("depth", Json.number (pos 7)) ∷ [])) refl

-- The configuration has an agent with a file beside it, in which the instructions are.
abbrev on_disk : String → Result String String
on_disk path =
    if str_eq path "/h/config.toml"
    then ok "[agents.review]"
    else if str_eq path "/h/review.toml"
    then ok "layer"
    else err "not found"

abbrev agent_files : Files
agent_files = record {
  RoleValue = String;
  read_to_string = on_disk;
  config_from_str = λ raw. ok (λ name. if str_eq name "review" then some "role" else none);
  role_try_into = λ value. ok (record { description = none; config_file = some " review.toml " });
  layer_from_str = λ raw.
      ok (record { developer_instructions = some "Be brief.\n"; model_instructions_file = none });
}

load_agent_profile_from_config-Tells_example :
    Tells
      (λ (agent : LoadedAgent).
        Found agent_files "review" "/h/config.toml" agent.instructions
        × (is_empty_str agent.instructions ≡ false))
      (load_agent_profile_from_config agent_files "review" "/h/config.toml")
load_agent_profile_from_config-Tells_example =
    load_agent_profile_from_config-Tells agent_files "review" "/h/config.toml"

loaded_agent :
    load_agent_profile_from_config agent_files "review" "/h/config.toml"
    ≡ ok (record { instructions = "Be brief." })
unfolding load_agent_profile_from_config codex_sdk_rs.Luna.Config.Agents.or_failed
    codex_sdk_rs.Luna.Config.Agents.or_toml codex_sdk_rs.Luna.Config.Agents.or_missing
    codex_sdk_rs.Prelude.Text.trim codex_sdk_rs.Luna.Config.Agents.resolve_path_from_file
    codex_sdk_rs.Prelude.Split.strip_prefix codex_sdk_rs.Prelude.Split.path_join
    codex_sdk_rs.Prelude.Split.parent codex_sdk_rs.Prelude.Split.without_tail
    codex_sdk_rs.Prelude.Split.rsplit_once
    codex_sdk_rs.Luna.Config.Agents.resolve_agent_instructions
loaded_agent = refl
