-- ===== src/Luna/Chat/Turns.antt =====
-- A running turn in luna's chat: `run_prompt` and what `ChatApp` does with the events of a turn, in
-- crates/luna/src/commands/chat.rs.
pub mod Answers
pub mod Final
pub mod Kept
pub mod Sound
use codex_sdk_rs.Prelude.{
  ℕ, String, Bool, true, false, Option, none, some, List, [], ◌∷◌, ◌++◌, ◌&&◌, eqb, not, or_else,
  str_eq, if◌then◌else◌,
}
use codex_sdk_rs.Prelude.Text.{concat}
use Prim.Native.String
use codex_sdk_rs.Protocol.{Result, ok, err}
use codex_sdk_rs.SerdeJson.{SerdeJson}
use codex_sdk_rs.ThreadItem.{ThreadItem, ThreadEvent, AgentMessageItem, is_final_answer}
use codex_sdk_rs.Turn.Pump.{Item}
use codex_sdk_rs.Render.{RenderedItem, RenderedItemKind, same_kind}
use codex_sdk_rs.Render.Renderer.{render, empty_renderer}
use codex_sdk_rs.Luna.Errors.{LunaError}
use codex_sdk_rs.Luna.Output.{thread_event_to_json}
use codex_sdk_rs.Luna.Chat.{ChatApp, TranscriptBlock, TranscriptKind}
use codex_sdk_rs.Luna.Chat.Execute.{block, append_error}
use codex_sdk_rs.Luna.Chat.Transcript.{push, push_fragment}
use codex_sdk_rs.Luna.Chat.Keys.{KeyEvent, accepts_key, is_ctrl, handle_scrolling_key}

unfoldable pub submit_user_message : String → ChatApp → ChatApp
submit_user_message prompt app = record app {
  transcript = app.transcript ++ block TranscriptKind.user prompt ∷ [];
  renderer = empty_renderer;
  fallback_final_response = none;
  emitted_final_response = false;
  busy = true;
  turn_running = true;
  status = "thinking";
  follow_tail = true;
}

unfoldable pub push_final_response : String → ChatApp → ChatApp
push_final_response response app = record app {
  emitted_final_response = true;
  transcript = app.transcript ++ block TranscriptKind.agent response ∷ [];
}

unfoldable pub finish_turn : ChatApp → ChatApp
finish_turn app = record app { busy = false; turn_running = false; status = "ready" }

unfoldable pub finish_turn_with_error : String → ChatApp → ChatApp
unfolding append_error
finish_turn_with_error message app = record (append_error message app) {
  busy = false;
  turn_running = false;
  status = "ready";
}

-- What happens in a turn, in its order: the chat is drawn, the stream yields an event or its end, the
-- terminal yields a key, with the answer of the interrupt for when one is sent, or another event, or
-- it fails or ends.
pub data TurnStep (Value : Type 0) : Type 0 where
  drawn : (height inner_height : ℕ) → TurnStep Value
  streamed : Item Value → TurnStep Value
  closed : TurnStep Value
  key : KeyEvent → Result Unit String → TurnStep Value
  ignored : TurnStep Value
  terminal_failed : String → TurnStep Value

-- Where a loop stands: it waits for its next step, it has returned, or it has panicked.
pub data TurnOutcome : Type 0 where
  running over : ChatApp → TurnOutcome
  panicked : TurnOutcome

-- The branch for `Ctrl-C`.
unfoldable pub interrupt_key : Result Unit String → Bool → ChatApp → Bool × ChatApp
interrupt_key answer true app = (true, record app { status = "interrupt already requested" })
interrupt_key (ok done) false app = (true, record app { status = "interrupt requested" })
interrupt_key (err error) false app =
    (false, append_error (concat ("could not interrupt turn: " ∷ error ∷ [])) app)

module _ ⦃json : SerdeJson⦄ where
  open json use {Value}

  -- The agent's message that an event completes.
  abbrev pub completed_message : ThreadEvent Value → Option AgentMessageItem
  completed_message (ThreadEvent.item_completed (ThreadItem.agent_message message)) = some message
  completed_message event = none

  abbrev pub ends_turn : ThreadEvent Value → Bool
  ends_turn (ThreadEvent.turn_completed usage) = true
  ends_turn event = false

  abbrev pub note_message : Option AgentMessageItem → ChatApp → ChatApp
  note_message none app = app
  note_message (some message) app =
      if is_final_answer message
      then push_final_response message.text app
      else record app { fallback_final_response = some message.text }

  abbrev emit_fallback : Option String → ChatApp → ChatApp
  emit_fallback none app = app
  emit_fallback (some response) app =
      push_final_response response (record app { fallback_final_response = none })

  abbrev pub final_only : ThreadEvent Value → ChatApp → ChatApp
  final_only event app =
      let noted = note_message (completed_message event) app in
      if ends_turn event && not noted.emitted_final_response
      then emit_fallback noted.fallback_final_response noted
      else noted

  abbrev show_fragment : Option RenderedItem → ChatApp → ChatApp
  show_fragment none app = app
  show_fragment (some fragment) app =
      if same_kind fragment.kind RenderedItemKind.user_message
      then app
      else push_fragment fragment app

  abbrev rendered : ThreadEvent Value → ChatApp → ChatApp
  rendered event app =
      let (renderer, fragment) = render app.renderer event in
      show_fragment fragment (record app { renderer = renderer })

  abbrev push_raw : Result String String → ChatApp → Result ChatApp (LunaError Value)
  push_raw (ok line) app = ok (push (block TranscriptKind.raw line) app)
  push_raw (err error) app =
      err (LunaError.protocol (concat ("failed to serialize chat event: " ∷ error ∷ [])))

  -- `terminal_event`: how an event ends the turn.
  abbrev pub terminal_event : ThreadEvent Value → Option (Result Unit String)
  terminal_event (ThreadEvent.turn_completed usage) = some (ok tt)
  terminal_event (ThreadEvent.turn_failed error) =
      some (err (concat ("turn failed: " ∷ error.message ∷ [])))
  terminal_event (ThreadEvent.error message) = some (err (concat ("stream error: " ∷ message ∷ [])))
  terminal_event event = none

  abbrev pub Outcome : Type 0
  Outcome = Result TurnOutcome (LunaError Value)

  abbrev pub drawn_then : (ChatApp → Outcome) → Option ChatApp → Outcome
  drawn_then rest none = ok TurnOutcome.panicked
  drawn_then rest (some app) = rest app

  -- What follows an event that was consumed, `rest` being the loop.
  abbrev pub after_event : Option (Result Unit String) → (ChatApp → Outcome) → ChatApp → Outcome
  after_event none rest app = rest app
  after_event (some (ok done)) rest app = ok (TurnOutcome.over (finish_turn app))
  after_event (some (err message)) rest app =
      ok (TurnOutcome.over (finish_turn_with_error message app))

  abbrev pub consumed_then :
      Option (Result Unit String) → (ChatApp → Outcome) → Result ChatApp (LunaError Value) → Outcome
  consumed_then terminal rest (err error) = err error
  consumed_then terminal rest (ok app) = after_event terminal rest app

  -- `to_string` is that of the crate serde_json, with the text of its error.
  module _ (to_string : Value → Result String String) where
    unfoldable pub consume_thread_event :
        ThreadEvent Value → ChatApp → Result ChatApp (LunaError Value)
    consume_thread_event event app =
        if app.json_output
        then push_raw (to_string (thread_event_to_json event)) app
        else if app.final_response_only
        then ok (final_only event app)
        else ok (rendered event app)

    -- The loop of `run_prompt`; steps that end before the turn does leave it running.
    unfoldable pub run_turn :
        List (TurnStep Value) → (interrupt_requested : Bool) → ChatApp → Outcome
    run_turn [] requested app = ok (TurnOutcome.running app)
    run_turn (TurnStep.closed ∷ steps) requested app =
        ok (TurnOutcome.over (finish_turn_with_error "stream closed before turn completion" app))
    run_turn (TurnStep.streamed (err error) ∷ steps) requested app = err (LunaError.client error)
    run_turn (TurnStep.streamed (ok event) ∷ steps) requested app =
        consumed_then (terminal_event event) (run_turn steps requested)
          (consume_thread_event event app)
    run_turn (TurnStep.drawn height inner_height ∷ steps) requested app =
        drawn_then (run_turn steps requested)
          (codex_sdk_rs.Luna.Chat.render height inner_height app)
    run_turn (TurnStep.ignored ∷ steps) requested app = run_turn steps requested app
    run_turn (TurnStep.terminal_failed error ∷ steps) requested app = err (LunaError.io error)
    run_turn (TurnStep.key pressed answer ∷ steps) requested app =
        let (now_requested, interrupted) = interrupt_key answer requested app in
        let rest = run_turn steps in
        if accepts_key pressed && is_ctrl pressed b'c'
        then rest now_requested interrupted
        else if accepts_key pressed
        then rest requested (handle_scrolling_key app pressed)
        else rest requested app
