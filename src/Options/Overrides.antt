-- ===== src/Options/Overrides.antt =====
-- Which of a turn's and its thread's options the server gets: `build_turn_start_params` of
-- crates/sdk/src/api.rs, as it is serialised.
use codex_sdk_rs.Prelude.{
  ◌≡◌, refl, sym, ap, ◌∙◌, inl, inr, String, Option, none, some, List, [], ◌∷◌, ◌++◌, All, map,
  map_some, or_else, arith,
}
use codex_sdk_rs.SerdeJson.{SerdeJson, field}
use codex_sdk_rs.Thread.{Input, normalize_input}
use codex_sdk_rs.Options.{Map, ThreadOptions, TurnOptions, ResolvedOptions, from_thread, merge}
use codex_sdk_rs.Options.Enums.{
  approval_mode_str, model_reasoning_effort_str, model_reasoning_summary_str, personality_str,
  service_tier_str, web_search_mode_str,
}
use codex_sdk_rs.Options.Values.{
  insert_each, insert_common_extras, common_extras, collaboration_mode_value,
}
use codex_sdk_rs.Options.Params.{build_turn_start_params, with_overrides}
use codex_sdk_rs.Options.Wire.{item_value, present, turn_start_slots, turn_start_wire}
use codex_sdk_rs.Options.Lookup.{
  lookup, names, or_else_assoc, field-append, field-wire, insert_all-append, lookup-absent, at_name,
}

-- The options that a turn sets itself.
abbrev pub own : {Value : Type 0} → TurnOptions Value → ResolvedOptions Value
own turn_options = record {
  model = turn_options.model;
  model_provider = turn_options.model_provider;
  working_directory = turn_options.working_directory;
  model_reasoning_effort = turn_options.model_reasoning_effort;
  model_reasoning_summary = turn_options.model_reasoning_summary;
  service_tier = turn_options.service_tier;
  personality = turn_options.personality;
  approval_policy = turn_options.approval_policy;
  sandbox_policy = turn_options.sandbox_policy;
  skip_git_repo_check = turn_options.skip_git_repo_check;
  web_search_mode = turn_options.web_search_mode;
  web_search_enabled = turn_options.web_search_enabled;
  network_access_enabled = turn_options.network_access_enabled;
  additional_directories = turn_options.additional_directories;
  collaboration_mode = turn_options.collaboration_mode;
}

-- The last entry with the key in the `extra` of a turn.
abbrev pub override : {Value : Type 0} → String → Option (Map Value) → Option Value
override key none = none
override key (some extra) = field key extra

module _ ⦃json : SerdeJson⦄ where
  open json use {Value, text, array, boolean}

  -- What each option is sent as, if it is set.
  abbrev pub settings : ResolvedOptions Value → Option Value → List (String × Option Value)
  settings resolved output_schema =
      ("cwd", map_some text resolved.working_directory)
      ∷ ("model", map_some text resolved.model)
      ∷ ("modelProvider", map_some text resolved.model_provider)
      ∷ (
        "effort",
        map_some (λ effort. text (model_reasoning_effort_str effort))
            resolved.model_reasoning_effort,
      )
      ∷ (
        "summary",
        map_some (λ summary. text (model_reasoning_summary_str summary))
            resolved.model_reasoning_summary,
      )
      ∷ ("personality", map_some (λ p. text (personality_str p)) resolved.personality)
      ∷ ("outputSchema", output_schema)
      ∷ (
        "approvalPolicy",
        map_some (λ mode. text (approval_mode_str mode)) resolved.approval_policy,
      )
      ∷ ("sandboxPolicy", resolved.sandbox_policy)
      ∷ ("serviceTier", map_some (λ tier. text (service_tier_str tier)) resolved.service_tier)
      ∷ ("skipGitRepoCheck", map_some boolean resolved.skip_git_repo_check)
      ∷ (
        "webSearchMode",
        map_some (λ mode. text (web_search_mode_str mode)) resolved.web_search_mode,
      )
      ∷ ("webSearchEnabled", map_some boolean resolved.web_search_enabled)
      ∷ ("networkAccessEnabled", map_some boolean resolved.network_access_enabled)
      ∷ (
        "additionalDirectories",
        map_some (λ directories. array (map text directories)) resolved.additional_directories,
      )
      ∷ ("collaborationMode", map_some collaboration_mode_value resolved.collaboration_mode)
      ∷ []

  module _ (thread_id : String) (input : Input) (options : ThreadOptions Value)
      (turn_options : TurnOptions Value) where
    abbrev pub identity : List (String × Option Value)
    identity =
        ("threadId", some (text thread_id))
        ∷ ("input", some (array (map item_value (normalize_input input))))
        ∷ []

    abbrev all : List (String × Option Value)
    all =
        turn_start_slots (build_turn_start_params thread_id input options turn_options)
        ++ (common_extras (merge options turn_options) ++ [])

    -- The layers below the overrides.
    abbrev pub layered : String → Option Value
    layered key = or_else (lookup key identity) (
        or_else (lookup key (settings (own turn_options) turn_options.output_schema))
          (lookup key (settings (from_thread options) none)))

    all-layered : All (λ key. lookup key all ≡ layered key) (names all)
    unfolding build_turn_start_params merge from_thread
    all-layered = ground arith

    lookup-layered : (key : String) → lookup key all ≡ layered key
    unfolding build_turn_start_params merge from_thread
    lookup-layered key =
        elim (at_name (λ k. lookup k all ≡ layered k) key (names all) all-layered) [
          | inl same ↦ same
          | inr (a, (b, rest)) ↦
              lookup-absent key all (a, (b, rest))
              ∙ rw
                  (
                    lookup-absent key identity (a, (b, tt)),
                    lookup-absent key (settings (own turn_options) turn_options.output_schema) rest,
                    lookup-absent key (settings (from_thread options) none) rest,
                  )
                  refl
        ]

    field-overrides :
        (key : String) (extra : Map Value) (overrides : Option (Map Value))
        → field key (with_overrides extra overrides)
          ≡ or_else (override key overrides) (field key extra)
    field-overrides key extra none = refl
    field-overrides key extra (some overrides) =
        ap (field key) (insert_all-append extra overrides) ∙ field-append key extra overrides

    field-all :
        (key : String)
        → field key (
            present
              (turn_start_slots (build_turn_start_params thread_id input options turn_options))
            ++ insert_common_extras [] (merge options turn_options))
          ≡ layered key
    unfolding insert_common_extras insert_each
    field-all key =
        field-wire key
          (turn_start_slots (build_turn_start_params thread_id input options turn_options))
          (common_extras (merge options turn_options)) []
        ∙ lookup-layered key

    -- What a turn is started with, key by key: the entry of the turn's own `extra` if it has one;
    -- else the thread's id and the normalised input under their keys; else what the turn's options
    -- set; else what the thread's options set. The key of no option is not sent.
    pub turn_wire-layered :
        (key : String)
        → field key (turn_start_wire (build_turn_start_params thread_id input options turn_options))
          ≡ or_else (override key turn_options.extra) (
              or_else (lookup key identity) (
                or_else
                  (lookup key (settings (own turn_options) turn_options.output_schema))
                  (lookup key (settings (from_thread options) none))))
    unfolding turn_start_wire build_turn_start_params
    turn_wire-layered key =
        let slots =
          turn_start_slots (build_turn_start_params thread_id input options turn_options) in
        let common = insert_common_extras [] (merge options turn_options) in
        let shared = field key (present slots) in
        field-append key (present slots) (with_overrides common turn_options.extra)
        ∙ ap (λ o. or_else o shared) (field-overrides key common turn_options.extra)
        ∙ or_else_assoc (override key turn_options.extra) (field key common) shared
        ∙ ap (or_else (override key turn_options.extra))
            (sym (field-append key (present slots) common) ∙ field-all key)
