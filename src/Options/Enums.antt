-- ===== src/Options/Enums.antt =====
-- The string enums of crates/sdk/src/api.rs that `wire_enum!` declares, and their spellings.
--
-- For each enum the macro makes `as_str` and `from_str`; the variants with their spellings are one
-- table, from which `from_str` takes the first entry with the text.
use codex_sdk_rs.Prelude.{String, List, [], ◌∷◌, str_eq, if◌then◌else◌}
use codex_sdk_rs.Prelude.Text.{concat, join}
use codex_sdk_rs.Protocol.{Result, ok, err}

-- The spellings of a table.
abbrev pub variants : {A : Type 0} → List (A × String) → List String
variants [] = []
variants ((a, wire) ∷ table) = wire ∷ variants table

abbrev invalid : String → List String → String → String
invalid name expected raw =
    concat ("invalid " ∷ name ∷ " value '" ∷ raw ∷ "'; expected one of: " ∷ join ", " expected ∷ [])

abbrev pub find_wire : {A : Type 0} → String → List (A × String) → String → Result A String
find_wire e [] raw = err e
find_wire e ((a, wire) ∷ table) raw = if str_eq wire raw then ok a else find_wire e table raw

-- `FromStr` of the enum with this name and table.
unfoldable pub from_str : {A : Type 0} → String → List (A × String) → String → Result A String
from_str name table raw = find_wire (invalid name (variants table) raw) table raw

pub data ApprovalMode : Type 0 where
  never on_request on_failure untrusted : ApprovalMode

abbrev pub approval_mode_str : ApprovalMode → String
approval_mode_str ApprovalMode.never = "never"
approval_mode_str ApprovalMode.on_request = "on-request"
approval_mode_str ApprovalMode.on_failure = "on-failure"
approval_mode_str ApprovalMode.untrusted = "untrusted"

abbrev pub approval_mode_table : List (ApprovalMode × String)
approval_mode_table =
    (ApprovalMode.never, "never")
    ∷ (ApprovalMode.on_request, "on-request")
    ∷ (ApprovalMode.on_failure, "on-failure")
    ∷ (ApprovalMode.untrusted, "untrusted")
    ∷ []

pub data SandboxMode : Type 0 where
  read_only workspace_write danger_full_access : SandboxMode

abbrev pub sandbox_mode_str : SandboxMode → String
sandbox_mode_str SandboxMode.read_only = "read-only"
sandbox_mode_str SandboxMode.workspace_write = "workspace-write"
sandbox_mode_str SandboxMode.danger_full_access = "danger-full-access"

abbrev pub sandbox_mode_table : List (SandboxMode × String)
sandbox_mode_table =
    (SandboxMode.read_only, "read-only")
    ∷ (SandboxMode.workspace_write, "workspace-write")
    ∷ (SandboxMode.danger_full_access, "danger-full-access")
    ∷ []

pub data ModelReasoningEffort : Type 0 where
  none minimal low medium high x_high max ultra : ModelReasoningEffort

abbrev pub model_reasoning_effort_str : ModelReasoningEffort → String
model_reasoning_effort_str ModelReasoningEffort.none = "none"
model_reasoning_effort_str ModelReasoningEffort.minimal = "minimal"
model_reasoning_effort_str ModelReasoningEffort.low = "low"
model_reasoning_effort_str ModelReasoningEffort.medium = "medium"
model_reasoning_effort_str ModelReasoningEffort.high = "high"
model_reasoning_effort_str ModelReasoningEffort.x_high = "xhigh"
model_reasoning_effort_str ModelReasoningEffort.max = "max"
model_reasoning_effort_str ModelReasoningEffort.ultra = "ultra"

abbrev pub model_reasoning_effort_table : List (ModelReasoningEffort × String)
model_reasoning_effort_table =
    (ModelReasoningEffort.none, "none")
    ∷ (ModelReasoningEffort.minimal, "minimal")
    ∷ (ModelReasoningEffort.low, "low")
    ∷ (ModelReasoningEffort.medium, "medium")
    ∷ (ModelReasoningEffort.high, "high")
    ∷ (ModelReasoningEffort.x_high, "xhigh")
    ∷ (ModelReasoningEffort.max, "max")
    ∷ (ModelReasoningEffort.ultra, "ultra")
    ∷ []

pub data ModelReasoningSummary : Type 0 where
  none auto concise detailed : ModelReasoningSummary

abbrev pub model_reasoning_summary_str : ModelReasoningSummary → String
model_reasoning_summary_str ModelReasoningSummary.none = "none"
model_reasoning_summary_str ModelReasoningSummary.auto = "auto"
model_reasoning_summary_str ModelReasoningSummary.concise = "concise"
model_reasoning_summary_str ModelReasoningSummary.detailed = "detailed"

abbrev pub model_reasoning_summary_table : List (ModelReasoningSummary × String)
model_reasoning_summary_table =
    (ModelReasoningSummary.none, "none")
    ∷ (ModelReasoningSummary.auto, "auto")
    ∷ (ModelReasoningSummary.concise, "concise")
    ∷ (ModelReasoningSummary.detailed, "detailed")
    ∷ []

pub data ModelVerbosity : Type 0 where
  low medium high : ModelVerbosity

abbrev pub model_verbosity_str : ModelVerbosity → String
model_verbosity_str ModelVerbosity.low = "low"
model_verbosity_str ModelVerbosity.medium = "medium"
model_verbosity_str ModelVerbosity.high = "high"

abbrev pub model_verbosity_table : List (ModelVerbosity × String)
model_verbosity_table =
    (ModelVerbosity.low, "low")
    ∷ (ModelVerbosity.medium, "medium")
    ∷ (ModelVerbosity.high, "high")
    ∷ []

pub data ServiceTier : Type 0 where
  default fast : ServiceTier

abbrev pub service_tier_str : ServiceTier → String
service_tier_str ServiceTier.default = "default"
service_tier_str ServiceTier.fast = "fast"

abbrev pub service_tier_table : List (ServiceTier × String)
service_tier_table = (ServiceTier.default, "default") ∷ (ServiceTier.fast, "fast") ∷ []

pub data Personality : Type 0 where
  none friendly pragmatic : Personality

abbrev pub personality_str : Personality → String
personality_str Personality.none = "none"
personality_str Personality.friendly = "friendly"
personality_str Personality.pragmatic = "pragmatic"

abbrev pub personality_table : List (Personality × String)
personality_table =
    (Personality.none, "none")
    ∷ (Personality.friendly, "friendly")
    ∷ (Personality.pragmatic, "pragmatic")
    ∷ []

pub data WebSearchMode : Type 0 where
  disabled cached live : WebSearchMode

abbrev pub web_search_mode_str : WebSearchMode → String
web_search_mode_str WebSearchMode.disabled = "disabled"
web_search_mode_str WebSearchMode.cached = "cached"
web_search_mode_str WebSearchMode.live = "live"

abbrev pub web_search_mode_table : List (WebSearchMode × String)
web_search_mode_table =
    (WebSearchMode.disabled, "disabled")
    ∷ (WebSearchMode.cached, "cached")
    ∷ (WebSearchMode.live, "live")
    ∷ []

pub data CollaborationModeKind : Type 0 where
  plan default : CollaborationModeKind

abbrev pub collaboration_mode_kind_str : CollaborationModeKind → String
collaboration_mode_kind_str CollaborationModeKind.plan = "plan"
collaboration_mode_kind_str CollaborationModeKind.default = "default"

abbrev pub collaboration_mode_kind_table : List (CollaborationModeKind × String)
collaboration_mode_kind_table =
    (CollaborationModeKind.plan, "plan") ∷ (CollaborationModeKind.default, "default") ∷ []
