-- ===== src/Luna/Chat/Loop.antt =====
-- The loop of luna's chat: `run_chat_loop` and `run_prompt` of crates/luna/src/commands/chat.rs.
use codex_sdk_rs.Prelude.{
  ℕ, ◌+◌, ◌%◌, ◌^◌, String, Bool, true, false, Option, none, some, List, [], ◌∷◌, if◌then◌else◌,
  ◌and_then◌,
}
use codex_sdk_rs.Prelude.Text.{concat, join, words, trim, is_empty_str}
use codex_sdk_rs.Protocol.{Result, ok, err}
use codex_sdk_rs.SerdeJson.{SerdeJson}
use codex_sdk_rs.Luna.Errors.{LunaError}
use codex_sdk_rs.Luna.Composer.{insert_str}
use codex_sdk_rs.Luna.Commands.{ParsedInput, parse_input}
use codex_sdk_rs.Luna.Chat.{ChatApp, render}
use codex_sdk_rs.Luna.Chat.Execute.{execute_command}
use codex_sdk_rs.Luna.Chat.Keys.{KeyEvent, accepts_key, IdleAction, Handled, handle_idle_key}
use codex_sdk_rs.Luna.Chat.Turns.{
  TurnStep, TurnOutcome, Outcome, drawn_then, submit_user_message, finish_turn_with_error, run_turn,
}

unfoldable pub single_line : String → String
single_line input = join " " (words input)

-- What happens while a submitted input is carried out: the answer of a compaction; and for a prompt
-- the heights of the drawing before it, the answer of `run_streamed`, and the steps of the turn. An
-- error is its text.
pub record Answers (Value : Type 0) : Type 0 where
  pub compacted : Result Unit String
  pub height : ℕ
  pub inner_height : ℕ
  pub started : Result Unit String
  pub steps : List (TurnStep Value)

-- What happens while no turn runs, in its order: the chat is drawn, a tick, an event of the terminal,
-- or the terminal fails or ends.
pub data Event (Value : Type 0) : Type 0 where
  drawn : (height inner_height : ℕ) → Event Value
  ticked : Event Value
  pressed : KeyEvent → Answers Value → Event Value
  pasted : String → Event Value
  ignored : Event Value
  terminal_failed : String → Event Value

module _ ⦃json : SerdeJson⦄ (to_string : json.Value → Result String String) where
  open json use {Value}

  abbrev pub started_then : Result Unit String → List (TurnStep Value) → ChatApp → Outcome
  started_then (ok streamed) steps app = run_turn to_string steps false app
  started_then (err error) steps app = ok (
      TurnOutcome.over
        (finish_turn_with_error (concat ("could not start turn: " ∷ error ∷ [])) app))

  unfoldable pub run_prompt : Answers Value → String → ChatApp → Outcome
  run_prompt answers prompt app =
      started_then answers.started answers.steps (submit_user_message prompt app)

  -- `run_prompt(…).await?`, and the rest of the loop where it returns.
  abbrev pub after_prompt : (ChatApp → Outcome) → Outcome → Outcome
  after_prompt rest (ok (TurnOutcome.over app)) = rest app
  after_prompt rest (ok (TurnOutcome.running app)) = ok (TurnOutcome.running app)
  after_prompt rest (ok TurnOutcome.panicked) = ok TurnOutcome.panicked
  after_prompt rest (err error) = err error

  -- The round of a pending prompt: the chat is drawn, and the prompt is run if it is not blank.
  abbrev pub prompted : (ChatApp → Outcome) → Answers Value → String → ChatApp → Outcome
  prompted rest answers prompt app =
      drawn_then
        (λ drawn.
          if is_empty_str (trim prompt)
          then rest drawn
          else after_prompt rest (run_prompt answers prompt drawn))
        (render answers.height answers.inner_height app)

  -- The loop is left where a command says so.
  abbrev pub after_command : (ChatApp → Outcome) → ChatApp × Bool → Outcome
  after_command rest (app, true) = ok (TurnOutcome.over app)
  after_command rest (app, false) = rest app

  abbrev pub submitted : (ChatApp → Outcome) → Answers Value → ParsedInput → ChatApp → Outcome
  submitted rest answers ParsedInput.empty app = rest app
  submitted rest answers (ParsedInput.prompt prompt) app = prompted rest answers prompt app
  submitted rest answers (ParsedInput.command command) app =
      after_command rest (execute_command answers.compacted command app)

  -- What follows a key: the loop ends at a quit.
  abbrev pub after_key : (ChatApp → Outcome) → Answers Value → Handled → Outcome
  after_key rest answers none = ok TurnOutcome.panicked
  after_key rest answers (some (app, IdleAction.nothing)) = rest app
  after_key rest answers (some (app, IdleAction.quit)) = ok (TurnOutcome.over app)
  after_key rest answers (some (app, IdleAction.submit input)) =
      submitted rest answers (parse_input input) app

  unfoldable pub run_events : List (Event Value) → ChatApp → Outcome
  run_events [] app = ok (TurnOutcome.running app)
  run_events (Event.drawn height inner_height ∷ events) app =
      drawn_then (run_events events) (render height inner_height app)
  run_events (Event.ticked ∷ events) app =
      run_events events (record app { tick = (app.tick + 1) % 2 ^ 64 })
  run_events (Event.pressed key answers ∷ events) app =
      let rest = run_events events in
      if accepts_key key then after_key rest answers (handle_idle_key app key) else rest app
  run_events (Event.pasted text ∷ events) app = drawn_then (run_events events) (
      insert_str (single_line text) app.input and_then λ input. some (record app { input = input }))
  run_events (Event.ignored ∷ events) app = run_events events app
  run_events (Event.terminal_failed error ∷ events) app = err (LunaError.io error)

  -- The loop, which runs the prompt first that it is given.
  unfoldable pub run_chat_loop :
      Option (String × Answers Value) → List (Event Value) → ChatApp → Outcome
  unfolding run_events
  run_chat_loop none events app = run_events events app
  run_chat_loop (some (prompt, answers)) events app =
      prompted (run_events events) answers prompt app
