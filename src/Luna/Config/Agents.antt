-- ===== src/Luna/Config/Agents.antt =====
-- The agents of luna's configuration: crates/luna/src/config.rs from `resolve_output_schema` on.
pub mod Tells
pub mod Instructions
use codex_sdk_rs.Prelude.{
  ℕ, List, [], ◌∷◌, ◌++◌, String, Bool, true, false, Option, none, some, ◌&&◌, ◌||◌, eqb, not,
  unwrap_or, str_eq, if◌then◌else◌, ◌and_then◌,
}
use codex_sdk_rs.Prelude.Text.{concat, trim, is_empty_str}
use codex_sdk_rs.Prelude.Split.{
  strip_suffix, contains, all_chars, is_ascii_alphanumeric, is_absolute, path_join, parent,
}
use codex_sdk_rs.Protocol.{Result, ok, err, ◌>>=◌}
use codex_sdk_rs.SerdeJson.{SerdeJson}
use codex_sdk_rs.Luna.Errors.{LunaError}
use codex_sdk_rs.Luna.Config.Home.{resolve_codex_home_dir}

pub record LoadedAgent : Type 0 where
  pub instructions : String

pub record AgentRoleConfig : Type 0 where
  pub description : Option String
  pub config_file : Option String

pub record AgentConfigLayer : Type 0 where
  pub developer_instructions : Option String
  pub model_instructions_file : Option String

-- `fs::read_to_string`, and what the crate toml reads: the table of agents, which `get` looks up, a
-- role, and a layer. An error is its text.
pub record Files : Type 1 where
  pub RoleValue : Type 0
  pub read_to_string : String → Result String String
  pub config_from_str : String → Result (String → Option RoleValue) String
  pub role_try_into : RoleValue → Result AgentRoleConfig String
  pub layer_from_str : String → Result AgentConfigLayer String

-- `as_deref().map(str::trim).filter(|value| !value.is_empty())`.
abbrev pub nonblank : Option String → Option String
nonblank none = none
nonblank (some value) = if is_empty_str (trim value) then none else some (trim value)

abbrev pub without_suffix : String → String → String
without_suffix suffix name = unwrap_or name (strip_suffix suffix name)

unfoldable pub resolve_path_from_file : (file_path raw_path : String) → String
resolve_path_from_file file_path raw_path =
    if is_absolute raw_path then raw_path else path_join (unwrap_or "." (parent file_path)) raw_path

abbrev is_name_character : ℕ → Bool
is_name_character c = is_ascii_alphanumeric c || eqb c b'-' || eqb c b'_' || eqb c b'.'

module _ ⦃json : SerdeJson⦄ where
  open json use {Value}

  abbrev pub Luna : Type 0 → Type 0
  Luna A = Result A (LunaError Value)

  abbrev checked_name : String → Luna String
  checked_name candidate =
      if is_empty_str candidate
      then err (LunaError.usage "agent name cannot be empty")
      else if str_eq candidate "." || str_eq candidate ".."
      then err (LunaError.usage "agent name cannot be '.' or '..'")
      else if contains b'/' candidate || contains 92 candidate
      then err (LunaError.usage "agent name cannot include path separators")
      else if not (all_chars is_name_character candidate)
      then err (LunaError.usage "agent name may only contain [A-Za-z0-9._-]")
      else ok candidate

  unfoldable pub normalize_agent_name : String → Luna String
  normalize_agent_name raw = checked_name (without_suffix ".md" (without_suffix ".toml" (trim raw)))

  module _ (files : Files) where
    open files use {RoleValue, read_to_string, config_from_str, role_try_into, layer_from_str}

    abbrev failed : {A : Type 0} → List String → Luna A
    failed pieces = err (LunaError.config (concat pieces))

    -- A result whose error is a text that follows these pieces.
    unfoldable pub or_failed : {A : Type 0} → List String → Result A String → Luna A
    or_failed pieces (ok a) = ok a
    or_failed pieces (err error) = err (LunaError.config (concat (pieces ++ error ∷ [])))

    unfoldable pub or_toml : {A : Type 0} → String → Result A String → Luna A
    or_toml path (ok a) = ok a
    or_toml path (err source) = err (LunaError.toml path source)

    unfoldable pub or_missing : {A : Type 0} → List String → Option A → Luna A
    or_missing pieces (some a) = ok a
    or_missing pieces none = failed pieces

    abbrev pub file_instructions : (agent_name path raw : String) → Luna String
    file_instructions agent_name path raw =
        if is_empty_str (trim raw)
        then failed
            ("model_instructions_file for '" ∷ agent_name ∷ "' at " ∷ path ∷ " is empty" ∷ [])
        else ok (trim raw)

    -- What is read from the file that a layer names for the instructions.
    abbrev pub file_text : (agent_name path : String) → Luna String
    file_text agent_name path =
        or_failed
          ("failed to read model_instructions_file for '" ∷ agent_name ∷ "' at " ∷ path ∷ ": " ∷ [])
          (read_to_string path)

    abbrev pub filed :
        (agent_name : String) → AgentRoleConfig → (path : String) → Option String → Luna String
    filed agent_name role path (some file) =
        let at = resolve_path_from_file path file in
        file_text agent_name at >>= file_instructions agent_name at
    filed agent_name role path none =
        or_missing
          ("agent '" ∷ agent_name ∷ "' config " ∷ path
            ∷ " must set `developer_instructions` or `model_instructions_file`" ∷ [])
          (nonblank role.description)

    abbrev pub developed :
        (agent_name : String)
        → AgentRoleConfig
        → AgentConfigLayer
        → (path : String) → Option String
        → Luna String
    developed agent_name role layer path (some instructions) = ok instructions
    developed agent_name role layer path none =
        filed agent_name role path (nonblank layer.model_instructions_file)

    unfoldable pub resolve_agent_instructions :
        (agent_name : String) → AgentRoleConfig → AgentConfigLayer → (path : String) → Luna String
    resolve_agent_instructions agent_name role layer path =
        developed agent_name role layer path (nonblank layer.developer_instructions)

    abbrev pub layer_text : (agent_name path : String) → Luna String
    layer_text agent_name path =
        or_failed
          ("failed to read agent config file for '" ∷ agent_name ∷ "' at " ∷ path ∷ ": " ∷ [])
          (read_to_string path)

    abbrev pub parse_layer : (path raw : String) → Luna AgentConfigLayer
    parse_layer path raw = or_toml path (layer_from_str raw)

    -- The instructions of a role, given the file that its configuration names.
    abbrev pub role_instructions :
        (agent_name config_path : String) → AgentRoleConfig → Option String → Luna String
    role_instructions agent_name config_path role (some config_file) =
        let at = resolve_path_from_file config_path config_file in
        layer_text agent_name at >>= parse_layer at >>= λ layer.
        resolve_agent_instructions agent_name role layer at
    role_instructions agent_name config_path role none =
        or_missing
          ("[agents." ∷ agent_name ∷ "] in " ∷ config_path ∷ " must set config_file or description"
            ∷ [])
          (nonblank role.description)

    abbrev pub config_text : (config_path : String) → Luna String
    config_text config_path =
        or_failed ("failed to read Codex config file " ∷ config_path ∷ ": " ∷ [])
          (read_to_string config_path)

    abbrev pub parse_config : (config_path raw : String) → Luna (String → Option RoleValue)
    parse_config config_path raw = or_toml config_path (config_from_str raw)

    abbrev pub listed_role :
        (agent_name config_path : String) → (String → Option RoleValue) → Luna RoleValue
    listed_role agent_name config_path agents =
        or_missing
          ("agent '" ∷ agent_name ∷ "' was not found in " ∷ config_path ∷ " under [agents."
            ∷ agent_name ∷ "]" ∷ [])
          (agents agent_name)

    abbrev pub parse_role : (agent_name config_path : String) → RoleValue → Luna AgentRoleConfig
    parse_role agent_name config_path value =
        or_failed ("invalid [agents." ∷ agent_name ∷ "] in " ∷ config_path ∷ ": " ∷ [])
          (role_try_into value)

    abbrev pub find_role : (agent_name config_path : String) → Luna AgentRoleConfig
    find_role agent_name config_path =
        config_text config_path
        >>= parse_config config_path
        >>= listed_role agent_name config_path
        >>= parse_role agent_name config_path

    abbrev pub loaded : String → Luna LoadedAgent
    loaded instructions = ok (record { instructions = instructions })

    unfoldable pub load_agent_profile_from_config :
        (agent_name config_path : String) → Luna LoadedAgent
    load_agent_profile_from_config agent_name config_path =
        find_role agent_name config_path
        >>= (λ role. role_instructions agent_name config_path role (nonblank role.config_file))
        >>= loaded

    unfoldable pub load_agent_profile :
        (variable : String → Option String) → String → Luna LoadedAgent
    load_agent_profile variable agent_name =
        or_missing
          ("unable to resolve Codex home directory (expected CODEX_HOME, HOME, USERPROFILE, or HOMEDRIVE+HOMEPATH)"
            ∷ [])
          (resolve_codex_home_dir variable)
        >>= λ home. load_agent_profile_from_config agent_name (path_join home "config.toml")

    -- `from_json` is serde_json's `from_str`.
    module _ (from_json : String → Result Value String) where
      abbrev or_usage : List String → Result Value String → Luna (Option Value)
      or_usage pieces (ok value) = ok (some value)
      or_usage pieces (err error) = err (LunaError.usage (concat (pieces ++ error ∷ [])))

      abbrev schema_file : String → Luna (Option Value)
      schema_file path =
          if is_empty_str path
          then err (LunaError.usage "value for --output-schema-file cannot be empty")
          else or_failed ("failed to read output schema file " ∷ path ∷ ": " ∷ [])
              (read_to_string path)
            >>= λ raw.
                or_usage ("failed to parse JSON in output schema file " ∷ path ∷ ": " ∷ [])
                  (from_json raw)

      unfoldable pub resolve_output_schema :
          (output_schema_json output_schema_file : Option String) → Luna (Option Value)
      resolve_output_schema (some raw) file =
          or_usage ("failed to parse JSON for --output-schema-json: " ∷ []) (from_json raw)
      resolve_output_schema none (some path) = schema_file (trim path)
      resolve_output_schema none none = ok none
