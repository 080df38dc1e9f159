-- ===== src/Tests/Chats.antt =====
-- Examples on luna's chat.
use codex_sdk_rs.Prelude.{
  ◌≡◌, refl, String, true, false, Option, none, some, List, [], ◌∷◌, ◌++◌, arith, ℕ,
}
use codex_sdk_rs.Options.Enums.{ModelReasoningEffort}
use codex_sdk_rs.Luna.Commands.{ParsedInput, ChatCommand, parse_input}
use codex_sdk_rs.Luna.Composer.{empty_buffer, Edit, edit_all}
use codex_sdk_rs.Luna.Composer.Zipper.{buffer_of, apply_all, edit_all-buffer_of}
use codex_sdk_rs.Protocol.{ok}
use codex_sdk_rs.Status.{AgentMessagePhase}
use codex_sdk_rs.ThreadItem.{ThreadItem, ThreadEvent}
use codex_sdk_rs.ThreadItem.Parse.{parse_thread_item}
use codex_sdk_rs.Tests.Json.{Json, json}
use codex_sdk_rs.Luna.Output.{thread_item_to_json}
use codex_sdk_rs.Luna.Output.ReadBack.{parse_thread_item-thread_item_to_json}
use codex_sdk_rs.Luna.Chat.Execute.{block}
use codex_sdk_rs.Luna.Chat.Turns.{TurnStep, run_turn, submit_user_message}
use codex_sdk_rs.Luna.Chat.Turns.Final.{Ends, done, run_turn-answers}
use codex_sdk_rs.Luna.Chat.{ChatApp, TranscriptKind, new_app}
use codex_sdk_rs.Luna.Chat.Keys.{KeyCode, KeyEventKind}
use codex_sdk_rs.Luna.Chat.Loop.{Answers, Event, run_chat_loop}
use codex_sdk_rs.Luna.Chat.Sound.{IsSound}
use codex_sdk_rs.Luna.Chat.Total.{run_chat_loop-Sound}
use codex_sdk_rs.Luna.Chat.Turns.Sound.{RunsSoundly}

-- A character of two bytes is passed and removed whole.
abbrev edits : List Edit
edits = Edit.insert_text "héy" ∷ Edit.left ∷ Edit.backspaced ∷ Edit.insert_character "o" ∷ []

edit_all-buffer_of_example :
    edit_all edits (buffer_of (record { before = ""; after = "" }))
    ≡ some (buffer_of (apply_all edits (record { before = ""; after = "" })))
edit_all-buffer_of_example = edit_all-buffer_of edits (record { before = ""; after = "" })

typed : edit_all edits empty_buffer ≡ some (record { text = "hoy"; cursor = 2 })
unfolding edit_all codex_sdk_rs.Luna.Composer.insert_str codex_sdk_rs.Prelude.Bytes.split_at
    codex_sdk_rs.Luna.Composer.move_left codex_sdk_rs.Prelude.Bytes.byte_len
    codex_sdk_rs.Luna.Composer.backspace codex_sdk_rs.Prelude.Bytes.unsnoc
    codex_sdk_rs.Luna.Composer.insert_char
typed = refl

abbrev idle : ChatApp
idle = new_app "gpt-5.6-luna" ModelReasoningEffort.high true false

idle-IsSound : IsSound idle
unfolding codex_sdk_rs.Prelude.Bytes.byte_len
idle-IsSound = record {
  zipper = record { before = ""; after = "" };
  input_buffer = refl;
  in_history = λ index p. ground (arith, p);
  in_transcript = omega arith;
}

parsed_command :
    parse_input "/effort xhigh"
    ≡ ParsedInput.command (ChatCommand.set_effort ModelReasoningEffort.x_high)
unfolding parse_input codex_sdk_rs.Prelude.Text.trim codex_sdk_rs.Prelude.Split.strip_prefix
    codex_sdk_rs.Prelude.Text.to_ascii_lowercase codex_sdk_rs.Prelude.Split.split_once
    codex_sdk_rs.Options.Enums.from_str
parsed_command = refl

abbrev agent_says : Option AgentMessagePhase → String → TurnStep Json
agent_says phase text = TurnStep.streamed (
    ok (
      ThreadEvent.item_completed
        (ThreadItem.agent_message (record { id = "m"; text = text; phase = phase }))))

-- A remark, a scrolling key, and the answer.
abbrev steps : List (TurnStep Json)
steps =
    agent_says (some AgentMessagePhase.commentary) "looking"
    ∷ TurnStep.drawn 3 10
    ∷ TurnStep.key (record { key = KeyCode.page_up; control = false; kind = KeyEventKind.press })
        (ok tt)
    ∷ agent_says (some AgentMessagePhase.final_answer) "42"
    ∷ []

run_turn-answers_example :
    Ends
      (block TranscriptKind.user "why" ∷ block TranscriptKind.agent "42" ∷ [])
      (run_turn (λ value. ok "") (steps ++ done none ∷ []) false (submit_user_message "why" idle))
run_turn-answers_example =
    run_turn-answers (λ value. ok "") none "why" steps idle (refl, refl) idle-IsSound
      (refl, (tt, (tt, (refl, tt))))

abbrev answers : Answers Json
answers = record {
  compacted = ok tt;
  height = 3;
  inner_height = 10;
  started = ok tt;
  steps = steps ++ done none ∷ [];
}

abbrev plain : KeyCode → Event Json
plain key = Event.pressed (record { key = key; control = false; kind = KeyEventKind.press }) answers

-- A prompt, its turn, a command, the history, and an edit beside a character of two bytes.
abbrev events : List (Event Json)
events =
    Event.drawn 3 10
    ∷ Event.pasted "é  why"
    ∷ plain KeyCode.enter
    ∷ Event.pasted "/effort low"
    ∷ plain KeyCode.enter
    ∷ plain KeyCode.up
    ∷ plain KeyCode.up
    ∷ plain KeyCode.home
    ∷ plain KeyCode.delete_key
    ∷ []

run_chat_loop-Sound_example : RunsSoundly (run_chat_loop (λ value. ok "") none events idle)
run_chat_loop-Sound_example = run_chat_loop-Sound (λ value. ok "") none events idle idle-IsSound

abbrev answer : ThreadItem Json
answer =
    ThreadItem.agent_message
      (record { id = "m"; text = "42"; phase = some AgentMessagePhase.final_answer })

parse_thread_item-thread_item_to_json_example :
    parse_thread_item (thread_item_to_json answer) ≡ answer
parse_thread_item-thread_item_to_json_example = parse_thread_item-thread_item_to_json answer refl
