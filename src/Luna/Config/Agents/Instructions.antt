-- ===== src/Luna/Config/Agents/Instructions.antt =====
-- Where the instructions of an agent come from (crates/luna/src/config.rs).
use codex_sdk_rs.Prelude.{String, false, Option, none, some, ◌≡◌, refl, arith, Bool-cases, inl, inr}
use codex_sdk_rs.Prelude.Text.{trim, is_empty_str}
use codex_sdk_rs.Protocol.{ok, ◌>>=◌}
use codex_sdk_rs.SerdeJson.{SerdeJson}
use codex_sdk_rs.Luna.Errors.{code}
use codex_sdk_rs.Luna.Config.Agents.Tells.{
  Tells, bind-Tells, map-Tells, or_missing-Tells, or_failed-Tells, Parsed, Parsed-Tells,
}
use codex_sdk_rs.Luna.Config.Agents.{
  LoadedAgent, AgentRoleConfig, AgentConfigLayer, Files, nonblank, resolve_path_from_file, Luna,
  file_text, file_instructions, layer_text, parse_layer, config_text, parse_config, listed_role,
  parse_role, loaded, filed, developed, resolve_agent_instructions, role_instructions, find_role,
  load_agent_profile_from_config,
}

nonblank-some : (o : Option String) {i : String} → nonblank o ≡ some i → is_empty_str i ≡ false
nonblank-some none e = absurd (ground (arith, e))
nonblank-some (some value) e = elim (Bool-cases (is_empty_str (trim value))) [
  | inl t ↦ absurd (ground (arith, e, t))
  | inr f ↦ ground (arith, e, f)
]

module _ ⦃json : SerdeJson⦄ where
  open json use {Value}

  module _ (files : Files) where
    open files use {RoleValue, read_to_string, config_from_str, role_try_into, layer_from_str}

    -- The instructions of a role with a layer in the file at a path: the first that are not blank.
    pub data FromLayer (role : AgentRoleConfig) (layer : AgentConfigLayer)
        (path instructions : String) : Type 0 where
      developer :
          nonblank layer.developer_instructions ≡ some instructions
          → FromLayer role layer path instructions
      file :
          (name raw : String)
          → nonblank layer.developer_instructions ≡ none
          → nonblank layer.model_instructions_file ≡ some name
          → read_to_string (resolve_path_from_file path name) ≡ ok raw
          → nonblank (some raw) ≡ some instructions
          → FromLayer role layer path instructions
      description :
          nonblank layer.developer_instructions ≡ none
          → nonblank layer.model_instructions_file ≡ none
          → nonblank role.description ≡ some instructions
          → FromLayer role layer path instructions

    -- The instructions of a role of the configuration at a path.
    pub data FromRole (role : AgentRoleConfig) (config_path instructions : String) : Type 0 where
      described :
          nonblank role.config_file ≡ none
          → nonblank role.description ≡ some instructions
          → FromRole role config_path instructions
      layered :
          (name raw : String) (layer : AgentConfigLayer)
          → nonblank role.config_file ≡ some name
          → read_to_string (resolve_path_from_file config_path name) ≡ ok raw
          → layer_from_str raw ≡ ok layer
          → FromLayer role layer (resolve_path_from_file config_path name) instructions
          → FromRole role config_path instructions

    module _ (agent_name : String) where
      file_instructions-Tells :
          (path raw : String)
          → Tells (λ i. nonblank (some raw) ≡ some i) (file_instructions files agent_name path raw)
      unfolding code
      file_instructions-Tells path raw = elim (Bool-cases (is_empty_str (trim raw))) [
        | inl t ↦ rw (t) refl
        | inr f ↦ rw (f) refl
      ]

      filed-Tells :
          (role : AgentRoleConfig) (layer : AgentConfigLayer) (path : String) (name : Option String)
          → nonblank layer.developer_instructions ≡ none
          → nonblank layer.model_instructions_file ≡ name
          → Tells (FromLayer role layer path) (filed files agent_name role path name)
      filed-Tells role layer path (some name) d n =
          let at = resolve_path_from_file path name in
          bind-Tells (λ raw. read_to_string at ≡ ok raw) (FromLayer role layer path)
            (file_text files agent_name at) (file_instructions files agent_name at)
            (or_failed-Tells files _ (read_to_string at))
            (λ raw r.
              map-Tells (λ i. nonblank (some raw) ≡ some i) (FromLayer role layer path)
                (file_instructions files agent_name at raw) (file_instructions-Tells at raw)
                (λ i e. FromLayer.file name raw d n r e))
      filed-Tells role layer path none d n =
          map-Tells (λ i. nonblank role.description ≡ some i) (FromLayer role layer path) _
            (or_missing-Tells files _ (nonblank role.description))
            (λ i e. FromLayer.description d n e)

      developed-Tells :
          (role : AgentRoleConfig) (layer : AgentConfigLayer) (path : String)
          (given : Option String)
          → nonblank layer.developer_instructions ≡ given
          → Tells (FromLayer role layer path) (developed files agent_name role layer path given)
      developed-Tells role layer path (some instructions) d = FromLayer.developer d
      developed-Tells role layer path none d =
          filed-Tells role layer path (nonblank layer.model_instructions_file) d refl

      role_instructions-Tells :
          (role : AgentRoleConfig) (config_path : String) (name : Option String)
          → nonblank role.config_file ≡ name
          → Tells
              (FromRole role config_path)
              (role_instructions files agent_name config_path role name)
      unfolding resolve_agent_instructions
      role_instructions-Tells role config_path none n =
          map-Tells (λ i. nonblank role.description ≡ some i) (FromRole role config_path) _
            (or_missing-Tells files _ (nonblank role.description)) (λ i e. FromRole.described n e)
      role_instructions-Tells role config_path (some name) n =
          let at = resolve_path_from_file config_path name in
          bind-Tells (Parsed files at layer_from_str) (FromRole role config_path)
            (layer_text files agent_name at >>= parse_layer files at)
            (λ layer. resolve_agent_instructions files agent_name role layer at)
            (Parsed-Tells files _ at layer_from_str)
            (λ layer (raw, r, l).
              map-Tells (FromLayer role layer at) (FromRole role config_path)
                (resolve_agent_instructions files agent_name role layer at)
                (developed-Tells role layer at (nonblank layer.developer_instructions) refl)
                (λ i h. FromRole.layered name raw layer n r l h))

      -- The role that the configuration at a path has for the agent.
      pub record HasRole (config_path : String) (role : AgentRoleConfig) : Type 0 where
        pub raw : String
        pub agents : String → Option RoleValue
        pub value : RoleValue
        pub is_read : read_to_string config_path ≡ ok raw
        pub is_parsed : config_from_str raw ≡ ok agents
        pub is_listed : agents agent_name ≡ some value
        pub is_role : role_try_into value ≡ ok role

      -- The value that the configuration lists for the agent.
      abbrev Listed : String → RoleValue → Type 0
      Listed config_path value =
          (agents : String → Option RoleValue) × Parsed files config_path config_from_str agents
          × (agents agent_name ≡ some value)

      find_role-Tells :
          (config_path : String)
          → Tells (HasRole config_path) (find_role files agent_name config_path)
      find_role-Tells config_path =
          bind-Tells (Listed config_path) (HasRole config_path)
            (config_text files config_path
              >>= parse_config files config_path
              >>= listed_role files agent_name config_path)
            (parse_role files agent_name config_path)
            (bind-Tells (Parsed files config_path config_from_str) (Listed config_path)
              (config_text files config_path >>= parse_config files config_path)
              (listed_role files agent_name config_path)
              (Parsed-Tells files _ config_path config_from_str)
              (λ agents parsed.
                map-Tells (λ value. agents agent_name ≡ some value) (Listed config_path)
                  (listed_role files agent_name config_path agents)
                  (or_missing-Tells files _ (agents agent_name)) (λ value l. (agents, parsed, l))))
            (λ value (agents, (raw, r, p), l).
              map-Tells (λ role. role_try_into value ≡ ok role) (HasRole config_path)
                (parse_role files agent_name config_path value)
                (or_failed-Tells files _ (role_try_into value))
                (λ role t. record {
                  raw = raw;
                  agents = agents;
                  value = value;
                  is_read = r;
                  is_parsed = p;
                  is_listed = l;
                  is_role = t;
                }))

      FromRole-nonblank :
          (role : AgentRoleConfig) (config_path i : String)
          → FromRole role config_path i
          → is_empty_str i ≡ false
      FromRole-nonblank role config_path i (FromRole.described n e) =
          nonblank-some role.description e
      FromRole-nonblank role config_path i
            (FromRole.layered name raw layer n r l (FromLayer.developer d)) =
          nonblank-some layer.developer_instructions d
      FromRole-nonblank role config_path i
            (FromRole.layered name raw layer n r l (FromLayer.file other text d f t e)) =
          nonblank-some (some text) e
      FromRole-nonblank role config_path i
            (FromRole.layered name raw layer n r l (FromLayer.description d f e)) =
          nonblank-some role.description e

      -- The instructions are of the role that the configuration at a path has for the agent.
      abbrev pub Found : (config_path instructions : String) → Type 0
      Found config_path instructions =
          (role : AgentRoleConfig) × HasRole config_path role
          × FromRole role config_path instructions

      abbrev instructions_of : String → AgentRoleConfig → Luna String
      instructions_of config_path role =
          role_instructions files agent_name config_path role (nonblank role.config_file)

      -- Loading an agent from the configuration at a path gives instructions that are not blank, from
      -- the role that the configuration has for the agent: if the role names a file, from the layer
      -- in it (its developer instructions, else the file that it names for them, else the role's
      -- description), and otherwise the role's description, the first that is not blank, trimmed. A
      -- blank source counts as missing. Whatever else happens is an error of the configuration.
      pub load_agent_profile_from_config-Tells :
          (config_path : String)
          → Tells
              (λ (agent : LoadedAgent).
                Found config_path agent.instructions × (is_empty_str agent.instructions ≡ false))
              (load_agent_profile_from_config files agent_name config_path)
      unfolding load_agent_profile_from_config
      load_agent_profile_from_config-Tells config_path =
          bind-Tells (Found config_path)
            (λ (agent : LoadedAgent).
              Found config_path agent.instructions × (is_empty_str agent.instructions ≡ false))
            (find_role files agent_name config_path >>= instructions_of config_path) (loaded files)
            (bind-Tells (HasRole config_path) (Found config_path)
              (find_role files agent_name config_path) (instructions_of config_path)
              (find_role-Tells config_path)
              (λ role h.
                map-Tells (FromRole role config_path) (Found config_path)
                  (instructions_of config_path role)
                  (role_instructions-Tells role config_path (nonblank role.config_file) refl)
                  (λ i f. (role, h, f))))
            (λ i (role, h, f). ((role, h, f), FromRole-nonblank role config_path i f))
