-- ===== src/Luna/Commands.antt =====
-- The commands of luna's chat and their completion: `parse_input` and `suggestions_for` of
-- crates/luna/src/commands/chat.rs.
use codex_sdk_rs.Prelude.{
  String, Bool, Option, none, some, List, [], ◌∷◌, ◌||◌, collect_some, str_eq, if◌then◌else◌,
}
use codex_sdk_rs.Prelude.Text.{
  concat, trim, trim_start, is_empty_str, is_whitespace, to_ascii_lowercase,
}
use codex_sdk_rs.Prelude.Split.{strip_prefix, starts_with, split_once, all_chars}
use codex_sdk_rs.Protocol.{Result, ok, err}
use codex_sdk_rs.Options.Enums.{ModelReasoningEffort, model_reasoning_effort_table, from_str}

pub data ChatCommand : Type 0 where
  help compact show_effort skills clear quit : ChatCommand
  set_effort : ModelReasoningEffort → ChatCommand
  insert_skill : String → ChatCommand
  unknown : String → ChatCommand

pub data ParsedInput : Type 0 where
  empty : ParsedInput
  prompt : String → ParsedInput
  command : ChatCommand → ParsedInput

abbrev effort_or_unknown : String → Result ModelReasoningEffort String → ChatCommand
effort_or_unknown input (ok effort) = ChatCommand.set_effort effort
effort_or_unknown input (err text) = ChatCommand.unknown input

-- The match on the word in lower case; a guard that fails falls through to the last arm.
abbrev command_of : (input word argument : String) → ChatCommand
command_of input word argument =
    if str_eq word "/help"
    then ChatCommand.help
    else if str_eq word "/compact"
    then ChatCommand.compact
    else if str_eq word "/effort"
    then (if is_empty_str argument
        then ChatCommand.show_effort
        else effort_or_unknown input
            (from_str "ModelReasoningEffort" model_reasoning_effort_table argument))
    else if str_eq word "/skills"
    then ChatCommand.skills
    else if str_eq word "/skill"
    then (if is_empty_str argument
        then ChatCommand.unknown input
        else ChatCommand.insert_skill argument)
    else if str_eq word "/clear"
    then ChatCommand.clear
    else if str_eq word "/quit" || str_eq word "/exit"
    then ChatCommand.quit
    else ChatCommand.unknown input

abbrev split_command : String → Option (String × String) → String × String
split_command input none = (input, "")
split_command input (some (word, argument)) = (word, trim argument)

abbrev parse_slash : String → ChatCommand
parse_slash input =
    let (word, argument) = split_command input (split_once is_whitespace input) in
    command_of input (to_ascii_lowercase word) argument

abbrev literal_or : String → Option String → ParsedInput
literal_or input (some literal) = ParsedInput.prompt (concat ("/" ∷ literal ∷ []))
literal_or input none =
    if starts_with "/" input
    then ParsedInput.command (parse_slash input)
    else ParsedInput.prompt input

abbrev parse_trimmed : String → ParsedInput
parse_trimmed input =
    if is_empty_str input then ParsedInput.empty else literal_or input (strip_prefix "//" input)

unfoldable pub parse_input : String → ParsedInput
parse_input raw = parse_trimmed (trim raw)

pub record Suggestion : Type 0 where
  pub replacement : String
  pub display : String
  pub description : String

-- `COMMANDS` and `EFFORTS`.
abbrev commands : List (String × String)
commands =
    ("/help", "show chat commands and keys")
    ∷ ("/compact", "compact this conversation's context")
    ∷ ("/effort", "show or set reasoning effort")
    ∷ ("/skills", "list available Codex skills")
    ∷ ("/skill", "insert a skill mention")
    ∷ ("/clear", "clear the visible transcript")
    ∷ ("/quit", "leave Luna chat")
    ∷ []

abbrev pub efforts : List String
efforts = "none" ∷ "minimal" ∷ "low" ∷ "medium" ∷ "high" ∷ "xhigh" ∷ "max" ∷ "ultra" ∷ []

-- `filter` of the names with a prefix, and what each becomes.
abbrev if_prefixed : String → String → Suggestion → Option Suggestion
if_prefixed prefix name suggestion = if starts_with prefix name then some suggestion else none

abbrev mention : String → String → Option Suggestion
mention prefix skill = if_prefixed (to_ascii_lowercase prefix) (to_ascii_lowercase skill) (record {
  replacement = concat ("$" ∷ skill ∷ " " ∷ []);
  display = concat ("$" ∷ skill ∷ []);
  description = "mention skill";
})

abbrev completed_command : String → String × String → Option Suggestion
completed_command prefix (name, description) = if_prefixed prefix name (record {
  replacement =
      if str_eq name "/effort" || str_eq name "/skill" then concat (name ∷ " " ∷ []) else name;
  display = name;
  description = description;
})

abbrev completed_effort : String → String → Option Suggestion
completed_effort argument effort = if_prefixed (to_ascii_lowercase argument) effort (record {
  replacement = concat ("/effort " ∷ effort ∷ []);
  display = effort;
  description = "reasoning effort";
})

abbrev completed_skill : String → String → Option Suggestion
completed_skill argument skill =
    if_prefixed (to_ascii_lowercase argument) (to_ascii_lowercase skill) (record {
      replacement = concat ("/skill " ∷ skill ∷ []);
      display = skill;
      description = "insert skill mention";
    })

abbrev argument_suggestions : List String → String → String → List Suggestion
argument_suggestions known word argument =
    if str_eq word "/effort"
    then collect_some (completed_effort argument) efforts
    else if str_eq word "/skill"
    then collect_some (completed_skill argument) known
    else []

abbrev slash_suggestions : List String → String → Option (String × String) → List Suggestion
slash_suggestions known input none =
    collect_some (completed_command (to_ascii_lowercase input)) commands
slash_suggestions known input (some (word, argument)) =
    argument_suggestions known (to_ascii_lowercase word) (trim_start argument)

-- A skill is mentioned if no white space follows the `$`.
abbrev has_whitespace : String → Bool
has_whitespace text =
    if all_chars (λ c. if is_whitespace c then Bool.false else Bool.true) text
    then Bool.false
    else Bool.true

abbrev other_suggestions : List String → String → List Suggestion
other_suggestions known input =
    if starts_with "/" input
    then slash_suggestions known input (split_once is_whitespace input)
    else []

abbrev suggestions_after : List String → String → Option String → List Suggestion
suggestions_after known input none = other_suggestions known input
suggestions_after known input (some prefix) =
    if has_whitespace prefix
    then other_suggestions known input
    else collect_some (mention prefix) known

unfoldable pub suggestions_for : String → List String → List Suggestion
suggestions_for input known = suggestions_after known input (strip_prefix "$" input)
