-- ===== src/Luna/Chat/Total.antt =====
-- That luna's chat handles everything that happens (crates/luna/src/commands/chat.rs).
use codex_sdk_rs.Prelude.{
  ◌+◌, ◌%◌, ◌^◌, refl, String, Bool, true, false, Option, none, some, List, [], ◌∷◌, ◌and_then◌,
  if_elim,
}
use codex_sdk_rs.Prelude.Text.{trim, is_empty_str}
use codex_sdk_rs.Protocol.{Result, ok, err}
use codex_sdk_rs.SerdeJson.{SerdeJson}
use codex_sdk_rs.Luna.Composer.{Edit, insert_str}
use codex_sdk_rs.Luna.Composer.Zipper.{buffer_of, apply, edit-buffer_of}
use codex_sdk_rs.Luna.Commands.{ParsedInput, parse_input}
use codex_sdk_rs.Luna.Chat.{ChatApp}
use codex_sdk_rs.Luna.Chat.Execute.{execute_command, append_error}
use codex_sdk_rs.Luna.Chat.Execute.Sound.{execute_command-Sound}
use codex_sdk_rs.Luna.Chat.Keys.{IdleAction, Handled, accepts_key, handle_idle_key}
use codex_sdk_rs.Luna.Chat.Turns.{
  TurnStep, TurnOutcome, Outcome, drawn_then, submit_user_message, finish_turn_with_error,
}
use codex_sdk_rs.Luna.Chat.Loop.{
  single_line, Answers, Event, started_then, run_prompt, after_prompt, prompted, after_command,
  submitted, after_key, run_events, run_chat_loop,
}
use codex_sdk_rs.Luna.Chat.Sound.{IsSound, HandlesSoundly}
use codex_sdk_rs.Luna.Chat.Sound.Keys.{handle_idle_key-Sound}
use codex_sdk_rs.Luna.Chat.Turns.Sound.{RunsSoundly, drawn_then-Sound, run_turn-Sound}

module _ ⦃json : SerdeJson⦄ (to_string : json.Value → Result String String) where
  open json use {Value}

  -- What the rest of the loop does from every sound state.
  abbrev Goes : (ChatApp → Outcome) → Type 0
  Goes rest = (next : ChatApp) → IsSound next → RunsSoundly (rest next)

  started_then-Sound :
      (started : Result Unit String) (steps : List (TurnStep Value)) (app : ChatApp)
      → IsSound app
      → RunsSoundly (started_then to_string started steps app)
  unfolding finish_turn_with_error append_error
  started_then-Sound (ok streamed) steps app h = run_turn-Sound to_string steps false app h
  started_then-Sound (err error) steps app h = h

  run_prompt-Sound :
      (answers : Answers Value) (prompt : String) (app : ChatApp)
      → IsSound app
      → RunsSoundly (run_prompt to_string answers prompt app)
  unfolding run_prompt submit_user_message
  run_prompt-Sound answers prompt app h =
      started_then-Sound answers.started answers.steps (submit_user_message prompt app) h

  after_prompt-Sound :
      (rest : ChatApp → Outcome) (outcome : Outcome)
      → RunsSoundly outcome
      → Goes rest
      → RunsSoundly (after_prompt to_string rest outcome)
  after_prompt-Sound rest (ok (TurnOutcome.over app)) h k = k app h
  after_prompt-Sound rest (ok (TurnOutcome.running app)) h k = h
  after_prompt-Sound rest (ok TurnOutcome.panicked) h k = absurd h
  after_prompt-Sound rest (err error) h k = tt

  prompted-Sound :
      (rest : ChatApp → Outcome) (answers : Answers Value) (prompt : String) (app : ChatApp)
      → IsSound app
      → Goes rest
      → RunsSoundly (prompted to_string rest answers prompt app)
  prompted-Sound rest answers prompt app h k =
      drawn_then-Sound _ answers.height answers.inner_height app h (λ drawn g.
        if_elim (λ (outcome : Outcome). RunsSoundly outcome) (is_empty_str (trim prompt))
          (λ t. k drawn g)
          (λ f. after_prompt-Sound rest _ (run_prompt-Sound answers prompt drawn g) k))

  after_command-Sound :
      (rest : ChatApp → Outcome) (executed : ChatApp × Bool)
      → IsSound executed.0
      → Goes rest
      → RunsSoundly (after_command to_string rest executed)
  after_command-Sound rest (app, true) h k = h
  after_command-Sound rest (app, false) h k = k app h

  submitted-Sound :
      (rest : ChatApp → Outcome) (answers : Answers Value) (input : ParsedInput) (app : ChatApp)
      → IsSound app
      → Goes rest
      → RunsSoundly (submitted to_string rest answers input app)
  submitted-Sound rest answers ParsedInput.empty app h k = k app h
  submitted-Sound rest answers (ParsedInput.prompt prompt) app h k =
      prompted-Sound rest answers prompt app h k
  submitted-Sound rest answers (ParsedInput.command command) app h k =
      after_command-Sound rest (execute_command answers.compacted command app)
        (execute_command-Sound answers.compacted command app h) k

  after_key-Sound :
      (rest : ChatApp → Outcome) (answers : Answers Value) (handled : Handled)
      → HandlesSoundly handled
      → Goes rest
      → RunsSoundly (after_key to_string rest answers handled)
  after_key-Sound rest answers none h k = absurd h
  after_key-Sound rest answers (some (app, IdleAction.nothing)) h k = k app h
  after_key-Sound rest answers (some (app, IdleAction.quit)) h k = h
  after_key-Sound rest answers (some (app, IdleAction.submit input)) h k =
      submitted-Sound rest answers (parse_input input) app h k

  pasted-Sound :
      (rest : ChatApp → Outcome) (line : String) (app : ChatApp)
      → IsSound app
      → Goes rest
      → RunsSoundly (
          drawn_then rest
            (insert_str line app.input and_then λ input. some (record app { input = input })))
  pasted-Sound rest line app h k =
      rw (h.input_buffer, edit-buffer_of (Edit.insert_text line) h.zipper)
        (k (record app { input = buffer_of (apply (Edit.insert_text line) h.zipper) })
          (record {
            zipper = apply (Edit.insert_text line) h.zipper;
            input_buffer = refl;
            in_history = h.in_history;
            in_transcript = h.in_transcript;
          }))

  run_events-Sound :
      (events : List (Event Value)) (app : ChatApp)
      → IsSound app
      → RunsSoundly (run_events to_string events app)
  unfolding run_events
  run_events-Sound [] app h = h
  run_events-Sound (Event.drawn height inner_height ∷ events) app h =
      drawn_then-Sound (run_events to_string events) height inner_height app h
        (λ next k. run_events-Sound events next k)
  run_events-Sound (Event.ticked ∷ events) app h =
      run_events-Sound events (record app { tick = (app.tick + 1) % 2 ^ 64 }) h
  run_events-Sound (Event.pressed key answers ∷ events) app h =
      if_elim (λ (outcome : Outcome). RunsSoundly outcome) (accepts_key key)
        (λ t.
          after_key-Sound (run_events to_string events) answers (handle_idle_key app key)
            (handle_idle_key-Sound app key h) (λ next k. run_events-Sound events next k))
        (λ f. run_events-Sound events app h)
  run_events-Sound (Event.pasted text ∷ events) app h =
      pasted-Sound (run_events to_string events) (single_line text) app h
        (λ next k. run_events-Sound events next k)
  run_events-Sound (Event.ignored ∷ events) app h = run_events-Sound events app h
  run_events-Sound (Event.terminal_failed error ∷ events) app h = tt

  -- Nothing that happens makes the chat panic: whatever keys, pasted texts, drawings, events of the
  -- turns and failures follow each other, and whatever the server answers. From a sound state, every
  -- slice of the input is between two characters, every index into the history is in its range, and
  -- the state in which the loop waits or that it returns with is sound again.
  pub run_chat_loop-Sound :
      (first : Option (String × Answers Value)) (events : List (Event Value)) (app : ChatApp)
      → IsSound app
      → RunsSoundly (run_chat_loop to_string first events app)
  unfolding run_chat_loop
  run_chat_loop-Sound none events app h = run_events-Sound events app h
  run_chat_loop-Sound (some (prompt, answers)) events app h =
      prompted-Sound (run_events to_string events) answers prompt app h
        (λ next k. run_events-Sound events next k)
