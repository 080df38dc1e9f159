-- ===== src/Luna/Config.antt =====
-- crates/luna/src/config.rs: how luna's configuration of a thread is put together from the flags
-- `--config-json` and `--config` and those of single settings.
--
-- The parser of JSON texts, the entries of an object and the equality of JSON values are the JSON
-- library's.
pub mod Home
pub mod Agents
pub mod Given
pub mod Sources
use codex_sdk_rs.Prelude.{
  String, Bool, Option, none, some, List, [], ◌∷◌, ◌++◌, unwrap_or, map, map_some, is_empty, eqb,
  if◌then◌else◌,
}
use codex_sdk_rs.Prelude.Text.{concat, trim, is_empty_str}
use codex_sdk_rs.Prelude.Split.{split_once}
use codex_sdk_rs.Protocol.{Result, ok, err, ◌>>=◌}
use codex_sdk_rs.SerdeJson.{SerdeJson, field}
use codex_sdk_rs.Options.{Map}
use codex_sdk_rs.Options.Enums.{
  WebSearchMode, ModelVerbosity, web_search_mode_str, model_verbosity_str,
}
use codex_sdk_rs.Options.Values.{insert}
use codex_sdk_rs.Luna.Errors.{LunaError}

-- The settings that have flags of their own.
pub record ConfigFlags : Type 0 where
  pub web_search_mode : Option WebSearchMode
  pub config_profile : Option String
  pub model_verbosity : Option ModelVerbosity
  pub sandbox_network_access_enabled : Option Bool
  pub sandbox_writable_roots : List String

-- A value for a key, and the flag that gives it.
pub record Setting (Value : Type 0) : Type 0 where
  pub key : String
  pub value : Value
  pub source : String

module _ ⦃json : SerdeJson⦄ (from_str : String → Result json.Value String)
    (entries : json.Object → Map json.Value) (same_value : json.Value → json.Value → Bool) where
  open json use {Value, Object, as_object, text, boolean, array}

  abbrev pub Luna : Type 0 → Type 0
  Luna A = Result A (LunaError Value)

  abbrev pub parsed_json : String → Result Value String → Luna Value
  parsed_json flag (ok value) = ok value
  parsed_json flag (err error) =
      err (LunaError.usage (concat ("failed to parse JSON for " ∷ flag ∷ ": " ∷ error ∷ [])))

  unfoldable pub parse_json_value : String → String → Luna Value
  parse_json_value raw flag = parsed_json flag (from_str raw)

  unfoldable pub parse_optional_json_value : Option String → String → Luna (Option Value)
  parse_optional_json_value none flag = ok none
  parse_optional_json_value (some raw) flag = parse_json_value raw flag >>= λ value. ok (some value)

  abbrev pub object_or : String → Option Object → Luna (Option (Map Value))
  object_or flag (some object) = ok (some (entries object))
  object_or flag none = err (LunaError.usage (concat (flag ∷ " must be a JSON object" ∷ [])))

  unfoldable pub parse_optional_json_object : Option String → String → Luna (Option (Map Value))
  parse_optional_json_object none flag = ok none
  parse_optional_json_object (some raw) flag =
      parse_json_value raw flag >>= λ value. object_or flag (as_object value)

  abbrev conflict : Setting Value → Luna (Map Value)
  conflict setting = err (
      LunaError.usage (
        concat (
          "conflicting configuration sources for '" ∷ setting.key ∷ "'; " ∷ setting.source
          ∷ " would replace an existing value" ∷ [])))

  abbrev pub insert_unless : Map Value → Setting Value → Option Value → Luna (Map Value)
  insert_unless config setting none = ok (insert config setting.key setting.value)
  insert_unless config setting (some existing) =
      if same_value existing setting.value then ok config else conflict setting

  unfoldable pub insert_thread_config : Map Value → Setting Value → Luna (Map Value)
  insert_thread_config config setting = insert_unless config setting (field setting.key config)

  -- A value that is no JSON is a text.
  abbrev pub value_or_text : String → Result Value String → Value
  value_or_text raw (ok value) = value
  value_or_text raw (err error) = text raw

  abbrev pub entry_of : String → String → Luna (Setting Value)
  entry_of key value =
      if is_empty_str key
      then err (LunaError.usage "invalid --config entry; key cannot be empty")
      else if is_empty_str value
      then err (
          LunaError.usage
            (concat ("invalid --config entry for key '" ∷ key ∷ "'; value cannot be empty" ∷ [])))
      else ok
          (record { key = key; value = value_or_text value (from_str value); source = "--config" })

  abbrev pub split_entry : Option (String × String) → Luna (Setting Value)
  split_entry none = err (LunaError.usage "invalid --config entry; expected KEY=VALUE")
  split_entry (some (raw_key, raw_value)) = entry_of (trim raw_key) (trim raw_value)

  -- One entry of `--config`.
  unfoldable pub parse_entry : String → Luna (Setting Value)
  parse_entry entry = split_entry (split_once (λ c. eqb c b'=') entry)

  -- The loop over the entries.
  unfoldable pub insert_entries : Map Value → List String → Luna (Map Value)
  insert_entries config [] = ok config
  insert_entries config (entry ∷ rest) = parse_entry entry >>= λ setting.
      insert_thread_config config setting >>= λ inserted. insert_entries inserted rest

  -- The settings of the other flags, in the order in which they are inserted.
  abbrev pub setting_of : String → String → Option Value → List (Setting Value)
  setting_of key source none = []
  setting_of key source (some value) = record { key = key; value = value; source = source } ∷ []

  abbrev pub roots_value : List String → Option Value
  roots_value [] = none
  roots_value (root ∷ roots) = some (array (map text (root ∷ roots)))

  abbrev pub flag_settings : ConfigFlags → List (Setting Value)
  flag_settings flags =
      setting_of "web_search" "--web-search-mode"
        (map_some (λ mode. text (web_search_mode_str mode)) flags.web_search_mode)
      ++ setting_of "profile" "--config-profile" (map_some text flags.config_profile)
      ++ setting_of "model_verbosity" "--model-verbosity"
          (map_some (λ verbosity. text (model_verbosity_str verbosity)) flags.model_verbosity)
      ++ setting_of "sandbox_workspace_write.network_access"
          "--sandbox-network-access-enabled/--sandbox-network-access-disabled"
          (map_some boolean flags.sandbox_network_access_enabled)
      ++ setting_of "sandbox_workspace_write.writable_roots" "--sandbox-writable-root"
          (roots_value flags.sandbox_writable_roots)

  unfoldable pub insert_settings : Map Value → List (Setting Value) → Luna (Map Value)
  insert_settings config [] = ok config
  insert_settings config (setting ∷ rest) =
      insert_thread_config config setting >>= λ inserted. insert_settings inserted rest

  abbrev pub unless_empty : Map Value → Luna (Option (Map Value))
  unless_empty [] = ok none
  unless_empty (entry ∷ rest) = ok (some (entry ∷ rest))

  unfoldable pub build_thread_config :
      Option String → List String → ConfigFlags → Luna (Option (Map Value))
  build_thread_config config_json config_entries flags =
      parse_optional_json_object config_json "--config-json" >>= λ given.
      insert_entries (unwrap_or [] given) config_entries >>= λ config.
      insert_settings config (flag_settings flags) >>= unless_empty
