-- ===== src/Luna/Chat/Execute.antt =====
-- The commands of luna's chat: `execute_command` of crates/luna/src/commands/chat.rs, with what it
-- adds to the transcript.
pub mod Sound
use codex_sdk_rs.Prelude.{
  String, Bool, true, false, not, none, List, [], ◌∷◌, ◌++◌, ◌&&◌, ◌||◌, is_empty, str_eq,
  if◌then◌else◌,
}
use codex_sdk_rs.Prelude.Text.{concat, join}
use codex_sdk_rs.Protocol.{Result, ok, err}
use codex_sdk_rs.Options.Enums.{model_reasoning_effort_str}
use codex_sdk_rs.Luna.Composer.{set}
use codex_sdk_rs.Luna.Commands.{ChatCommand, efforts}
use codex_sdk_rs.Luna.Chat.{ChatApp, TranscriptBlock, TranscriptKind, clear_transcript}

abbrev pub block : TranscriptKind → String → TranscriptBlock
block kind text = record { kind = kind; item_id = none; text = text }

unfoldable pub append_status : String → ChatApp → ChatApp
append_status message app = record app {
  transcript = app.transcript ++ block TranscriptKind.status message ∷ [];
  follow_tail = true;
}

unfoldable pub append_error : String → ChatApp → ChatApp
append_error message app = record app {
  transcript = app.transcript ++ block TranscriptKind.error message ∷ [];
  follow_tail = true;
}

abbrev help_text : String
help_text = concat (
    "/compact          compact conversation context\n" ∷ "/effort [level]    show or set effort\n"
    ∷ "/skills            list enabled skills\n"
    ∷ "/skill <name>      insert $name into the composer\n"
    ∷ "/clear             clear the visible transcript\n" ∷ "/quit              leave chat\n" ∷ "\n"
    ∷ "Tab accepts the ghost suggestion. Up/Down selects suggestions or history. PgUp/PgDn "
    ∷ "scrolls. Ctrl-C clears input or interrupts a running turn. Ctrl-D exits from an empty "
    ∷ "composer. Prefix a prompt with // to send a literal leading /." ∷ [])

-- `skills.iter().any(…)`.
abbrev is_known : String → List String → Bool
is_known skill [] = false
is_known skill (name ∷ names) = str_eq name skill || is_known skill names

abbrev with_status : String → ChatApp → ChatApp
with_status status app = record app { status = status }

abbrev note_compaction : Result Unit String → ChatApp → ChatApp
note_compaction (ok done) app = append_status "Compaction requested." app
note_compaction (err error) app = append_error (concat ("Compaction failed: " ∷ error ∷ [])) app

abbrev show_skills : ChatApp → ChatApp
show_skills app =
    append_status
      (if is_empty app.skills
        then "No enabled skills were reported for this working directory."
        else concat
            ("Enabled skills (type `$` or `/skill ` to complete):\n" ∷ join "\n" app.skills ∷ []))
      app

abbrev pub insert_mention : String → ChatApp → ChatApp
insert_mention skill app =
    append_status (concat ("Inserted skill mention `$" ∷ skill ∷ "`." ∷ []))
      (record app { input = set (concat ("$" ∷ skill ∷ " " ∷ [])) app.input })

abbrev run_command : Result Unit String → ChatCommand → ChatApp → ChatApp
run_command compacted ChatCommand.help app = append_status help_text app
run_command compacted ChatCommand.compact app =
    with_status "ready" (note_compaction compacted (with_status "requesting compaction" app))
run_command compacted ChatCommand.show_effort app =
    append_status
      (concat (
        "Current reasoning effort: "
        ∷ model_reasoning_effort_str app.effort
        ∷ "\nAvailable: "
        ∷ join ", " efforts
        ∷ []))
      app
run_command compacted (ChatCommand.set_effort effort) app =
    append_status
      (concat (
        "Reasoning effort set to "
        ∷ model_reasoning_effort_str effort
        ∷ " for subsequent turns."
        ∷ []))
      (record app { effort = effort })
run_command compacted ChatCommand.skills app = show_skills app
run_command compacted (ChatCommand.insert_skill skill) app =
    if not (is_empty app.skills) && not (is_known skill app.skills)
    then append_error (concat ("Unknown skill: " ∷ skill ∷ [])) app
    else insert_mention skill app
run_command compacted ChatCommand.clear app = clear_transcript app
run_command compacted ChatCommand.quit app = app
run_command compacted (ChatCommand.unknown command) app =
    append_error
      (concat (
        "Unknown chat command `" ∷ command ∷ "`. Type `/help` for available commands; "
        ∷ "use `//` to send a prompt beginning with `/`." ∷ []))
      app

-- Given what `Thread::compact_start` answers, the chat's state, and whether the chat is left.
unfoldable pub execute_command : Result Unit String → ChatCommand → ChatApp → ChatApp × Bool
execute_command compacted ChatCommand.quit app = (app, true)
execute_command compacted command app = (run_command compacted command app, false)
