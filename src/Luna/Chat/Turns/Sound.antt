-- ===== src/Luna/Chat/Turns/Sound.antt =====
-- That a running turn keeps luna's chat sound (crates/luna/src/commands/chat.rs).
use codex_sdk_rs.Prelude.{
  ℕ, String, Bool, true, false, Option, none, some, List, [], ◌∷◌, ◌&&◌, not, if_elim,
}
use codex_sdk_rs.Protocol.{Result, ok, err}
use codex_sdk_rs.SerdeJson.{SerdeJson}
use codex_sdk_rs.ThreadItem.{ThreadEvent, AgentMessageItem, is_final_answer}
use codex_sdk_rs.Render.{RenderedItem, RenderedItemKind, same_kind}
use codex_sdk_rs.Render.Renderer.{ThreadEventRenderer}
use codex_sdk_rs.Luna.Errors.{LunaError}
use codex_sdk_rs.Luna.Output.{thread_event_to_json}
use codex_sdk_rs.Luna.Chat.{ChatApp, draw_transcript, keep_selection, render}
use codex_sdk_rs.Luna.Chat.Execute.{append_error}
use codex_sdk_rs.Luna.Chat.Keys.{is_ctrl, accepts_key, handle_scrolling_key}
use codex_sdk_rs.Luna.Chat.Turns.{
  push_final_response, finish_turn, finish_turn_with_error, TurnStep, TurnOutcome, interrupt_key,
  completed_message, ends_turn, note_message, emit_fallback, final_only, show_fragment, push_raw,
  terminal_event, Outcome, drawn_then, after_event, consumed_then, consume_thread_event, run_turn,
}
use codex_sdk_rs.Luna.Chat.Transcript.{push_fragment}
use codex_sdk_rs.Luna.Chat.Sound.{IsSound}
use codex_sdk_rs.Luna.Chat.Sound.Keys.{scrolled-Sound}
use codex_sdk_rs.Luna.Chat.Sound.Drawing.{render-drawn, drawn-Sound}

pub interrupt_key-Sound :
    (answer : Result Unit String) (requested : Bool) (app : ChatApp)
    → IsSound app
    → IsSound (interrupt_key answer requested app).1
unfolding interrupt_key append_error
interrupt_key-Sound answer true app h = h
interrupt_key-Sound (ok done) false app h = h
interrupt_key-Sound (err error) false app h = h

module _ ⦃json : SerdeJson⦄ where
  open json use {Value}

  -- There was no panic, and the state is sound that is waited in or returned with.
  abbrev pub RunsSoundly : Outcome → Type 0
  RunsSoundly (ok (TurnOutcome.running app)) = IsSound app
  RunsSoundly (ok (TurnOutcome.over app)) = IsSound app
  RunsSoundly (ok TurnOutcome.panicked) = ⊥
  RunsSoundly (err error) = Unit

  pub note_message-Sound :
      (message : Option AgentMessageItem) (app : ChatApp)
      → IsSound app
      → IsSound (note_message message app)
  unfolding push_final_response
  note_message-Sound none app h = h
  note_message-Sound (some message) app h =
      if_elim IsSound (is_final_answer message) (λ t. h) (λ f. h)

  emit_fallback-Sound :
      (fallback : Option String) (app : ChatApp)
      → IsSound app
      → IsSound (emit_fallback fallback app)
  unfolding push_final_response
  emit_fallback-Sound none app h = h
  emit_fallback-Sound (some response) app h = h

  final_only-Sound :
      (event : ThreadEvent Value) (app : ChatApp) → IsSound app → IsSound (final_only event app)
  final_only-Sound event app h =
      let noted = note_message (completed_message event) app in
      let k = note_message-Sound (completed_message event) app h in
      if_elim IsSound (ends_turn event && not noted.emitted_final_response)
        (λ t. emit_fallback-Sound noted.fallback_final_response noted k) (λ f. k)

  show_fragment-Sound :
      (fragment : Option RenderedItem) (app : ChatApp)
      → IsSound app
      → IsSound (show_fragment fragment app)
  unfolding push_fragment
  show_fragment-Sound none app h = h
  show_fragment-Sound (some fragment) app h =
      if_elim IsSound (same_kind fragment.kind RenderedItemKind.user_message) (λ t. h) (λ f. h)

  abbrev Consumes : Result ChatApp (LunaError Value) → Type 0
  Consumes (ok app) = IsSound app
  Consumes (err error) = Unit

  push_raw-Sound :
      (line : Result String String) (app : ChatApp) → IsSound app → Consumes (push_raw line app)
  push_raw-Sound (ok line) app h = h
  push_raw-Sound (err error) app h = tt

  pub drawn_then-Sound :
      (rest : ChatApp → Outcome) (height inner_height : ℕ) (app : ChatApp)
      → IsSound app
      → ((next : ChatApp) → IsSound next → RunsSoundly (rest next))
      → RunsSoundly (drawn_then rest (render height inner_height app))
  drawn_then-Sound rest height inner_height app h k = rw (render-drawn height inner_height app h) (
      k (draw_transcript height inner_height (keep_selection app))
        (drawn-Sound height inner_height app h))

  after_event-Sound :
      (ends : Option (Result Unit String)) (rest : ChatApp → Outcome) (app : ChatApp)
      → IsSound app
      → ((next : ChatApp) → IsSound next → RunsSoundly (rest next))
      → RunsSoundly (after_event ends rest app)
  unfolding finish_turn finish_turn_with_error append_error
  after_event-Sound none rest app h k = k app h
  after_event-Sound (some (ok done)) rest app h k = h
  after_event-Sound (some (err message)) rest app h k = h

  consumed_then-Sound :
      (ends : Option (Result Unit String)) (rest : ChatApp → Outcome)
      → (consumed : Result ChatApp (LunaError Value)) → Consumes consumed
      → ((next : ChatApp) → IsSound next → RunsSoundly (rest next))
      → RunsSoundly (consumed_then ends rest consumed)
  consumed_then-Sound ends rest (ok app) h k = after_event-Sound ends rest app h k
  consumed_then-Sound ends rest (err error) h k = tt

  module _ (to_string : Value → Result String String) where
    consume_thread_event-Sound :
        (event : ThreadEvent Value) (app : ChatApp)
        → IsSound app
        → Consumes (consume_thread_event to_string event app)
    unfolding consume_thread_event
    consume_thread_event-Sound event app h =
        if_elim Consumes app.json_output
          (λ t. push_raw-Sound (to_string (thread_event_to_json event)) app h)
          (λ f.
            if_elim Consumes app.final_response_only (λ t. final_only-Sound event app h)
              (λ g.
                let (renderer, fragment) = codex_sdk_rs.Render.Renderer.render app.renderer event in
                show_fragment-Sound fragment (record app { renderer = renderer }) h))

    pub run_turn-Sound :
        (steps : List (TurnStep Value)) (requested : Bool) (app : ChatApp)
        → IsSound app
        → RunsSoundly (run_turn to_string steps requested app)
    unfolding run_turn finish_turn_with_error append_error handle_scrolling_key
    run_turn-Sound [] requested app h = h
    run_turn-Sound (TurnStep.closed ∷ steps) requested app h = h
    run_turn-Sound (TurnStep.ignored ∷ steps) requested app h = run_turn-Sound steps requested app h
    run_turn-Sound (TurnStep.terminal_failed error ∷ steps) requested app h = tt
    run_turn-Sound (TurnStep.streamed (err error) ∷ steps) requested app h = tt
    run_turn-Sound (TurnStep.drawn height inner_height ∷ steps) requested app h =
        drawn_then-Sound (run_turn to_string steps requested) height inner_height app h
          (λ next k. run_turn-Sound steps requested next k)
    run_turn-Sound (TurnStep.streamed (ok event) ∷ steps) requested app h =
        consumed_then-Sound (terminal_event event) (run_turn to_string steps requested)
          (consume_thread_event to_string event app) (consume_thread_event-Sound event app h)
          (λ next k. run_turn-Sound steps requested next k)
    run_turn-Sound (TurnStep.key pressed answer ∷ steps) requested app h =
        let (asked, interrupted) = interrupt_key answer requested app in
        if_elim (λ (outcome : Outcome). RunsSoundly outcome)
          (accepts_key pressed && is_ctrl pressed b'c')
          (λ t. run_turn-Sound steps asked interrupted (interrupt_key-Sound answer requested app h))
          (λ f.
            if_elim (λ (outcome : Outcome). RunsSoundly outcome) (accepts_key pressed)
              (λ t.
                run_turn-Sound steps requested (handle_scrolling_key app pressed)
                  (scrolled-Sound app pressed.control pressed.key h))
              (λ g. run_turn-Sound steps requested app h))
