-- ===== src/Options/Values.antt =====
-- The values that options are sent as, and the shared entries of the `extra` maps
-- (crates/sdk/src/api.rs).
use codex_sdk_rs.Prelude.{String, Option, none, some, List, [], ◌∷◌, ◌++◌, map, map_some}
use codex_sdk_rs.SerdeJson.{SerdeJson}
use codex_sdk_rs.Options.{
  Map, CollaborationModeSettings, CollaborationMode, DynamicToolSpec, ResolvedOptions,
}
use codex_sdk_rs.Options.Enums.{
  model_reasoning_effort_str, collaboration_mode_kind_str, service_tier_str, web_search_mode_str,
}

-- `Map::insert`, of a value or of each of some.
abbrev pub insert : {Value : Type 0} → Map Value → String → Value → Map Value
insert map key value = map ++ (key, value) ∷ []

-- `if let Some(value) = … { map.insert(key, value); }`.
abbrev pub insert_some : {Value : Type 0} → Map Value → String × Option Value → Map Value
insert_some map (key, none) = map
insert_some map (key, some value) = insert map key value

-- A sequence of these.
unfoldable pub insert_each : {Value : Type 0} → Map Value → List (String × Option Value) → Map Value
insert_each map [] = map
insert_each map (slot ∷ slots) = insert_each (insert_some map slot) slots

-- `for (key, value) in entries { map.insert(key, value); }`.
unfoldable pub insert_all : {Value : Type 0} → Map Value → Map Value → Map Value
insert_all map [] = map
insert_all map ((key, value) ∷ entries) = insert_all (insert map key value) entries

module _ ⦃json : SerdeJson⦄ where
  open json use {Value, text, boolean, array, object}

  abbrev pub settings_value : CollaborationModeSettings → Value
  settings_value settings = object (
      insert_each (insert [] "model" (text settings.model)) (
        (
          "reasoning_effort",
          map_some (λ effort. text (model_reasoning_effort_str effort)) settings.reasoning_effort,
        )
        ∷ ("developer_instructions", map_some text settings.developer_instructions)
        ∷ []))

  -- `CollaborationMode::as_value`.
  unfoldable pub collaboration_mode_value : CollaborationMode → Value
  collaboration_mode_value collaboration = object (
      insert (insert [] "mode" (text (collaboration_mode_kind_str collaboration.mode))) "settings"
        (settings_value collaboration.settings))

  -- `DynamicToolSpec::as_value`.
  unfoldable pub dynamic_tool_value : DynamicToolSpec Value → Value
  dynamic_tool_value tool = object (
      insert (insert (insert [] "name" (text tool.name)) "description" (text tool.description))
        "inputSchema" tool.input_schema)

  unfoldable pub dynamic_tools_value : List (DynamicToolSpec Value) → Value
  dynamic_tools_value tools = array (map dynamic_tool_value tools)

  -- What `insert_common_extras` may insert.
  abbrev pub common_extras : ResolvedOptions Value → List (String × Option Value)
  common_extras resolved =
      ("serviceTier", map_some (λ tier. text (service_tier_str tier)) resolved.service_tier)
      ∷ ("skipGitRepoCheck", map_some boolean resolved.skip_git_repo_check)
      ∷ (
        "webSearchMode",
        map_some (λ mode. text (web_search_mode_str mode)) resolved.web_search_mode,
      )
      ∷ ("webSearchEnabled", map_some boolean resolved.web_search_enabled)
      ∷ ("networkAccessEnabled", map_some boolean resolved.network_access_enabled)
      ∷ (
        "additionalDirectories",
        map_some (λ entries. array (map text entries)) resolved.additional_directories,
      )
      ∷ ("collaborationMode", map_some collaboration_mode_value resolved.collaboration_mode)
      ∷ []

  unfoldable pub insert_common_extras : Map Value → ResolvedOptions Value → Map Value
  insert_common_extras extra resolved = insert_each extra (common_extras resolved)
