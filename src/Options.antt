-- ===== src/Options.antt =====
-- The options of threads and turns in crates/sdk/src/api.rs, and their merging.
pub mod Enums
pub mod Values
pub mod Params
pub mod Wire
pub mod Lookup
pub mod Resume
pub mod Overrides
use codex_sdk_rs.Prelude.{String, Bool, Option, none, List, or_else}
use codex_sdk_rs.Options.Enums.{
  ApprovalMode, SandboxMode, ModelReasoningEffort, ModelReasoningSummary, ServiceTier, Personality,
  WebSearchMode, CollaborationModeKind,
}

pub record CollaborationModeSettings : Type 0 where
  pub model : String
  pub reasoning_effort : Option ModelReasoningEffort
  pub developer_instructions : Option String

pub record CollaborationMode : Type 0 where
  pub mode : CollaborationModeKind
  pub settings : CollaborationModeSettings

pub record DynamicToolSpec (Value : Type 0) : Type 0 where
  pub name : String
  pub description : String
  pub input_schema : Value

-- `Map<String, Value>`: its entries, of which the last with a key counts.
abbrev pub Map : Type 0 → Type 0
Map Value = List (String × Value)

pub record ThreadOptions (Value : Type 0) : Type 0 where
  pub model : Option String
  pub model_provider : Option String
  pub sandbox_mode : Option SandboxMode
  pub sandbox_policy : Option Value
  pub working_directory : Option String
  pub skip_git_repo_check : Option Bool
  pub model_reasoning_effort : Option ModelReasoningEffort
  pub model_reasoning_summary : Option ModelReasoningSummary
  pub service_tier : Option ServiceTier
  pub network_access_enabled : Option Bool
  pub web_search_mode : Option WebSearchMode
  pub web_search_enabled : Option Bool
  pub approval_policy : Option ApprovalMode
  pub additional_directories : Option (List String)
  pub personality : Option Personality
  pub base_instructions : Option String
  pub developer_instructions : Option String
  pub ephemeral : Option Bool
  pub collaboration_mode : Option CollaborationMode
  pub config : Option (Map Value)
  pub dynamic_tools : Option (List (DynamicToolSpec Value))
  pub experimental_raw_events : Option Bool
  pub persist_extended_history : Option Bool

pub record TurnOptions (Value : Type 0) : Type 0 where
  pub output_schema : Option Value
  pub working_directory : Option String
  pub model : Option String
  pub model_provider : Option String
  pub model_reasoning_effort : Option ModelReasoningEffort
  pub model_reasoning_summary : Option ModelReasoningSummary
  pub service_tier : Option ServiceTier
  pub personality : Option Personality
  pub approval_policy : Option ApprovalMode
  pub sandbox_policy : Option Value
  pub collaboration_mode : Option CollaborationMode
  pub skip_git_repo_check : Option Bool
  pub web_search_mode : Option WebSearchMode
  pub web_search_enabled : Option Bool
  pub network_access_enabled : Option Bool
  pub additional_directories : Option (List String)
  pub extra : Option (Map Value)

pub record ResolvedOptions (Value : Type 0) : Type 0 where
  pub model : Option String
  pub model_provider : Option String
  pub working_directory : Option String
  pub model_reasoning_effort : Option ModelReasoningEffort
  pub model_reasoning_summary : Option ModelReasoningSummary
  pub service_tier : Option ServiceTier
  pub personality : Option Personality
  pub approval_policy : Option ApprovalMode
  pub sandbox_policy : Option Value
  pub skip_git_repo_check : Option Bool
  pub web_search_mode : Option WebSearchMode
  pub web_search_enabled : Option Bool
  pub network_access_enabled : Option Bool
  pub additional_directories : Option (List String)
  pub collaboration_mode : Option CollaborationMode

unfoldable pub from_thread : {Value : Type 0} → ThreadOptions Value → ResolvedOptions Value
from_thread options = record {
  model = options.model;
  model_provider = options.model_provider;
  working_directory = options.working_directory;
  model_reasoning_effort = options.model_reasoning_effort;
  model_reasoning_summary = options.model_reasoning_summary;
  service_tier = options.service_tier;
  personality = options.personality;
  approval_policy = options.approval_policy;
  sandbox_policy = options.sandbox_policy;
  skip_git_repo_check = options.skip_git_repo_check;
  web_search_mode = options.web_search_mode;
  web_search_enabled = options.web_search_enabled;
  network_access_enabled = options.network_access_enabled;
  additional_directories = options.additional_directories;
  collaboration_mode = options.collaboration_mode;
}

unfoldable pub merge :
    {Value : Type 0} → ThreadOptions Value → TurnOptions Value → ResolvedOptions Value
merge options turn_options = record {
  model = or_else turn_options.model options.model;
  model_provider = or_else turn_options.model_provider options.model_provider;
  working_directory = or_else turn_options.working_directory options.working_directory;
  model_reasoning_effort =
      or_else turn_options.model_reasoning_effort options.model_reasoning_effort;
  model_reasoning_summary =
      or_else turn_options.model_reasoning_summary options.model_reasoning_summary;
  service_tier = or_else turn_options.service_tier options.service_tier;
  personality = or_else turn_options.personality options.personality;
  approval_policy = or_else turn_options.approval_policy options.approval_policy;
  sandbox_policy = or_else turn_options.sandbox_policy options.sandbox_policy;
  skip_git_repo_check = or_else turn_options.skip_git_repo_check options.skip_git_repo_check;
  web_search_mode = or_else turn_options.web_search_mode options.web_search_mode;
  web_search_enabled = or_else turn_options.web_search_enabled options.web_search_enabled;
  network_access_enabled =
      or_else turn_options.network_access_enabled options.network_access_enabled;
  additional_directories =
      or_else turn_options.additional_directories options.additional_directories;
  collaboration_mode = or_else turn_options.collaboration_mode options.collaboration_mode;
}
