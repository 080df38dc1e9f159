-- ===== src/Options/Resume.antt =====
-- That resuming a thread sends what starting it does: `build_thread_start_params` and
-- `build_thread_resume_params` of crates/sdk/src/api.rs, as they are serialised.
use codex_sdk_rs.Prelude.{
  ◌≡◌, refl, sym, ◌∙◌, inl, inr, String, false, Option, some, List, [], ◌∷◌, ◌++◌, All, map_some,
  str_eq, arith, Bool-cases, eq_iff, if◌then◌else◌, subst,
}
use codex_sdk_rs.SerdeJson.{SerdeJson, field}
use codex_sdk_rs.Options.{ThreadOptions, from_thread}
use codex_sdk_rs.Options.Enums.{model_reasoning_effort_str, model_reasoning_summary_str}
use codex_sdk_rs.Options.Values.{insert_common_extras, common_extras, dynamic_tools_value}
use codex_sdk_rs.Options.Params.{build_thread_start_params, build_thread_resume_params}
use codex_sdk_rs.Options.Wire.{
  thread_start_slots, thread_start_wire, thread_resume_slots, thread_resume_wire,
}
use codex_sdk_rs.Options.Lookup.{lookup, names, field-wire, lookup-absent, at_name}

module _ ⦃json : SerdeJson⦄ (thread_id : String) (options : ThreadOptions json.Value) where
  open json use {Value, text, boolean, object}

  abbrev start_rest : List (String × Option Value)
  start_rest =
      ("config", map_some object options.config)
      ∷ ("dynamicTools", map_some dynamic_tools_value options.dynamic_tools)
      ∷ ("experimentalRawEvents", map_some boolean options.experimental_raw_events)
      ∷ ("persistExtendedHistory", map_some boolean options.persist_extended_history)
      ∷ []

  abbrev resume_rest : List (String × Option Value)
  resume_rest =
      ("sandboxPolicy", options.sandbox_policy)
      ∷ (
        "effort",
        map_some (λ effort. text (model_reasoning_effort_str effort))
            options.model_reasoning_effort,
      )
      ∷ (
        "summary",
        map_some (λ summary. text (model_reasoning_summary_str summary))
            options.model_reasoning_summary,
      )
      ∷ ("ephemeral", map_some boolean options.ephemeral)
      ∷ ("dynamicTools", map_some dynamic_tools_value options.dynamic_tools)
      ∷ ("experimentalRawEvents", map_some boolean options.experimental_raw_events)
      ∷ []

  abbrev start_all : List (String × Option Value)
  start_all =
      thread_start_slots (build_thread_start_params options)
      ++ (common_extras (from_thread options) ++ start_rest)

  abbrev resume_all : List (String × Option Value)
  resume_all =
      thread_resume_slots (build_thread_resume_params thread_id options)
      ++ (common_extras (from_thread options) ++ resume_rest)

  abbrev Same : String → Type 0
  Same key = lookup key resume_all ≡ lookup key start_all

  start-Same : All Same (names start_all)
  unfolding build_thread_start_params build_thread_resume_params from_thread
  start-Same = ground arith

  resume-Same : All (λ key. str_eq "threadId" key ≡ false → Same key) (names resume_all)
  unfolding build_thread_start_params build_thread_resume_params from_thread
  resume-Same = ground arith

  lookup-resume : (key : String) → str_eq "threadId" key ≡ false → Same key
  lookup-resume key other =
      elim (at_name (λ k. str_eq "threadId" k ≡ false → Same k) key (names resume_all)
        resume-Same) [
          | inl same ↦ same other
          | inr absent ↦ elim (at_name Same key (names start_all) start-Same) [
            | inl same ↦ same
            | inr missing ↦
                lookup-absent key resume_all absent ∙ sym (lookup-absent key start_all missing)
          ]
        ]

  field-start :
      (key : String)
      → field key (thread_start_wire (build_thread_start_params options)) ≡ lookup key start_all
  unfolding thread_start_wire build_thread_start_params insert_common_extras
  field-start key =
      field-wire key (thread_start_slots (build_thread_start_params options))
        (common_extras (from_thread options)) start_rest

  field-resume :
      (key : String)
      → field key (thread_resume_wire (build_thread_resume_params thread_id options))
        ≡ lookup key resume_all
  unfolding thread_resume_wire build_thread_resume_params insert_common_extras
  field-resume key =
      field-wire key (thread_resume_slots (build_thread_resume_params thread_id options))
        (common_extras (from_thread options)) resume_rest

  thread_id_sent : lookup "threadId" resume_all ≡ some (text thread_id)
  unfolding build_thread_resume_params from_thread
  thread_id_sent = refl

  -- Resuming a thread sends the server exactly the settings that starting one with the same options
  -- sends, key by key, whether a setting is a field of its own or an entry of `extra`; besides them
  -- it sends the thread's id, and nothing else.
  pub resume_wire-start :
      (key : String)
      → field key (thread_resume_wire (build_thread_resume_params thread_id options)) ≡ (
          if str_eq "threadId" key
          then some (text thread_id)
          else field key (thread_start_wire (build_thread_start_params options)))
  resume_wire-start key = elim (Bool-cases (str_eq "threadId" key)) [
    | inl same ↦ rw (same) (
        field-resume key
        ∙ subst (λ k. lookup k resume_all ≡ some (text thread_id)) ((eq_iff "threadId" key).0 same)
            thread_id_sent)
    | inr other ↦ rw (other) (field-resume key ∙ lookup-resume key other ∙ sym (field-start key))
  ]
