-- ===== src/Luna/Chat/Execute/Sound.antt =====
-- That the commands of luna's chat keep its state sound (crates/luna/src/commands/chat.rs).
use codex_sdk_rs.Prelude.{String, ◌&&◌, not, is_empty, if_elim}
use codex_sdk_rs.Protocol.{Result, ok, err}
use codex_sdk_rs.Luna.Commands.{ChatCommand}
use codex_sdk_rs.Luna.Chat.{ChatApp}
use codex_sdk_rs.Luna.Chat.Execute.{
  append_status, append_error, is_known, with_status, insert_mention, run_command, execute_command,
  note_compaction,
}
use codex_sdk_rs.Luna.Chat.Sound.{IsSound, set_text-buffer_of, clear_transcript-Sound}

note_compaction-Sound :
    (compacted : Result Unit String) (app : ChatApp)
    → IsSound app
    → IsSound (note_compaction compacted app)
unfolding append_status append_error
note_compaction-Sound (ok done) app h = h
note_compaction-Sound (err error) app h = h

insert_mention-Sound :
    (skill : String) (app : ChatApp) → IsSound app → IsSound (insert_mention skill app)
unfolding append_status
insert_mention-Sound skill app h = record {
  zipper = record { before = _; after = "" };
  input_buffer = set_text-buffer_of _ app.input;
  in_history = h.in_history;
  in_transcript = h.in_transcript;
}

run_command-Sound :
    (compacted : Result Unit String) (command : ChatCommand) (app : ChatApp)
    → IsSound app
    → IsSound (run_command compacted command app)
unfolding append_status append_error
run_command-Sound compacted ChatCommand.compact app h =
    note_compaction-Sound compacted (with_status "requesting compaction" app) h
run_command-Sound compacted (ChatCommand.insert_skill skill) app h =
    if_elim IsSound (not (is_empty app.skills) && not (is_known skill app.skills)) (λ t. h)
      (λ f. insert_mention-Sound skill app h)
run_command-Sound compacted ChatCommand.clear app h = clear_transcript-Sound app h
run_command-Sound compacted _ app h = h

pub execute_command-Sound :
    (compacted : Result Unit String) (command : ChatCommand) (app : ChatApp)
    → IsSound app
    → IsSound (execute_command compacted command app).0
unfolding execute_command
execute_command-Sound compacted ChatCommand.quit app h = h
execute_command-Sound compacted command app h = run_command-Sound compacted command app h
