-- ===== src/Luna/Chat/Turns/Final.antt =====
-- What luna's chat shows of a turn when only the final response is wanted (crates/luna/src/commands/chat.rs).
use codex_sdk_rs.Prelude.{
  String, Bool, true, false, Option, none, some, List, [], ◌∷◌, ◌++◌, ◌≡◌, refl, sym, ap, ◌∙◌, ◌&&◌,
  All, map, arith, Option-cases, Bool-cases, inl, inr, if_elim, subst,
}
use mathlib.Core.List.{append-nil, append_assoc}
use codex_sdk_rs.Protocol.{Result, ok, err}
use codex_sdk_rs.SerdeJson.{SerdeJson}
use codex_sdk_rs.ThreadItem.{ThreadEvent, AgentMessageItem, Usage, is_final_answer}
use codex_sdk_rs.Luna.Chat.{
  ChatApp, TranscriptBlock, TranscriptKind, draw_transcript, keep_selection,
}
use codex_sdk_rs.Luna.Chat.Keys.{handle_scrolling_key, accepts_key, is_ctrl}
use codex_sdk_rs.Luna.Chat.Execute.{block}
use codex_sdk_rs.Luna.Chat.Sound.{IsSound}
use codex_sdk_rs.Luna.Chat.Sound.Keys.{scrolled-Sound}
use codex_sdk_rs.Luna.Chat.Sound.Drawing.{render-drawn, drawn-Sound}
use codex_sdk_rs.Luna.Chat.Turns.Sound.{interrupt_key-Sound}
use codex_sdk_rs.Luna.Chat.Turns.Kept.{
  Shown, shown_by, wanted, shown_by-scrolled, shown_by-interrupt_key, shown_by-drawn,
}
use codex_sdk_rs.Luna.Chat.Turns.Answers.{answers, answers_after, answers_lem}
use codex_sdk_rs.Luna.Chat.Turns.{
  submit_user_message, push_final_response, finish_turn, TurnStep, TurnOutcome, interrupt_key,
  completed_message, note_message, final_only, terminal_event, Outcome, consume_thread_event,
  run_turn,
}

abbrev pub add_message : Option AgentMessageItem → List AgentMessageItem → List AgentMessageItem
add_message none messages = messages
add_message (some message) messages = message ∷ messages

module _ ⦃json : SerdeJson⦄ where
  open json use {Value}

  -- A step that neither ends the turn nor adds an error: no failed interrupt or terminal.
  abbrev pub Undisturbed : TurnStep Value → Type 0
  Undisturbed (TurnStep.streamed (ok event)) = terminal_event event ≡ none
  Undisturbed (TurnStep.streamed (err error)) = ⊥
  Undisturbed TurnStep.closed = ⊥
  Undisturbed (TurnStep.drawn height inner_height) = Unit
  Undisturbed TurnStep.ignored = Unit
  Undisturbed (TurnStep.terminal_failed error) = ⊥
  Undisturbed (TurnStep.key pressed (ok done)) = Unit
  Undisturbed (TurnStep.key pressed (err error)) = ⊥

  abbrev message_of : TurnStep Value → Option AgentMessageItem
  message_of (TurnStep.streamed (ok event)) = completed_message event
  message_of step = none

  -- The agent's messages that are completed in a turn.
  abbrev pub messages : List (TurnStep Value) → List AgentMessageItem
  messages [] = []
  messages (step ∷ steps) = add_message (message_of step) (messages steps)

  abbrev pub Ends : List TranscriptBlock → Outcome → Type 0
  Ends blocks (ok (TurnOutcome.over next)) =
      (next.transcript ≡ blocks) × (next.turn_running ≡ false)
  Ends blocks _ = ⊥

  -- The turn's last event.
  abbrev pub done : Option Usage → TurnStep Value
  done usage = TurnStep.streamed (ok (ThreadEvent.turn_completed usage))

  final_only-running :
      (event : ThreadEvent Value) (app : ChatApp)
      → terminal_event event ≡ none
      → final_only event app ≡ note_message (completed_message event) app
  final_only-running (ThreadEvent.turn_completed usage) app h = absurd (ground (arith, h))
  final_only-running _ app h = refl

  final_only-done :
      (usage : Option Usage) (app : ChatApp)
      → (final_only (ThreadEvent.turn_completed usage) app).transcript ≡ wanted (shown_by app) []
  unfolding push_final_response
  final_only-done usage app = elim (Bool-cases app.emitted_final_response) [
    | inl e ↦ rw (e) (sym (append-nil app.transcript))
    | inr e ↦ elim (Option-cases app.fallback_final_response) [
      | inl f ↦ rw (e, f) (sym (append-nil app.transcript))
      | inr (text, f) ↦ rw (e, f) refl
    ]
  ]

  -- Where only the final response is shown, and as text.
  abbrev pub ShowsFinal : ChatApp → Type 0
  ShowsFinal app = (app.json_output ≡ false) × (app.final_response_only ≡ true)

  abbrev Goes : List AgentMessageItem → (ChatApp → Outcome) → Type 0
  Goes later rest =
      (next : ChatApp)
      → ShowsFinal next
      → IsSound next
      → Ends (wanted (shown_by next) later) (rest next)

  -- A step that keeps what decides the answers.
  kept-Ends :
      (app next : ChatApp) (later : List AgentMessageItem) (rest : ChatApp → Outcome)
      → shown_by next ≡ shown_by app
      → ShowsFinal app
      → IsSound next
      → Goes later rest
      → Ends (wanted (shown_by app) later) (rest next)
  kept-Ends app next later rest k o h goes =
      subst (λ (shown : Shown). Ends (wanted shown later) (rest next)) k
        (goes next
          (ap (λ (shown : Shown). shown.raw) k ∙ o.0, ap (λ (shown : Shown). shown.only) k ∙ o.1) h)

  noted-Ends :
      (noted : Option AgentMessageItem) (later : List AgentMessageItem) (app : ChatApp)
      → (rest : ChatApp → Outcome) → ShowsFinal app
      → IsSound app
      → Goes later rest
      → Ends (wanted (shown_by app) (add_message noted later)) (rest (note_message noted app))
  unfolding push_final_response
  noted-Ends none later app rest o h goes = goes app o h
  noted-Ends (some message) later app rest o h goes = elim (Bool-cases (is_final_answer message)) [
    | inl f ↦
        let next = push_final_response message.text app in
        rw (f) (
          subst (λ blocks. Ends blocks (rest next))
            (append_assoc app.transcript (block TranscriptKind.agent message.text ∷ []) (
              map (block TranscriptKind.agent)
                (answers_after true app.fallback_final_response later)))
            (goes next o h))
    | inr f ↦ rw (f) (goes (record app { fallback_final_response = some message.text }) o h)
  ]

  module _ (to_string : Value → Result String String) (usage : Option Usage) where
    abbrev runs : List (TurnStep Value) → Bool → ChatApp → Outcome
    runs steps requested app = run_turn to_string (steps ++ done usage ∷ []) requested app

    consume-final_only :
        (event : ThreadEvent Value) (app : ChatApp)
        → ShowsFinal app
        → consume_thread_event to_string event app ≡ ok (final_only event app)
    unfolding consume_thread_event
    consume-final_only event app o = simp (o.0, o.1) refl

    run_turn-Ends :
        (steps : List (TurnStep Value)) (requested : Bool) (app : ChatApp)
        → ShowsFinal app
        → IsSound app
        → All Undisturbed steps
        → Ends (wanted (shown_by app) (messages steps)) (runs steps requested app)
    unfolding run_turn push_final_response finish_turn handle_scrolling_key
    run_turn-Ends [] requested app o h u =
        rw (consume-final_only (ThreadEvent.turn_completed usage) app o)
          (final_only-done usage app, refl)
    run_turn-Ends (TurnStep.drawn height inner_height ∷ steps) requested app o h u =
        rw (render-drawn height inner_height app h) (
          kept-Ends app (draw_transcript height inner_height (keep_selection app)) (messages steps)
            (runs steps requested) (shown_by-drawn height inner_height app) o
            (drawn-Sound height inner_height app h)
            (λ next p k. run_turn-Ends steps requested next p k u.1))
    run_turn-Ends (TurnStep.ignored ∷ steps) requested app o h u =
        run_turn-Ends steps requested app o h u.1
    run_turn-Ends (TurnStep.key pressed (ok done) ∷ steps) requested app o h u =
        let (asked, interrupted) = interrupt_key (ok tt) requested app in
        if_elim (λ (outcome : Outcome). Ends (wanted (shown_by app) (messages steps)) outcome)
          (accepts_key pressed && is_ctrl pressed b'c')
          (λ t.
            kept-Ends app interrupted (messages steps) (runs steps asked)
              (shown_by-interrupt_key requested app) o (interrupt_key-Sound (ok tt) requested app h)
              (λ next p k. run_turn-Ends steps asked next p k u.1))
          (λ f.
            if_elim (λ (outcome : Outcome). Ends (wanted (shown_by app) (messages steps)) outcome)
              (accepts_key pressed)
              (λ t.
                kept-Ends app (handle_scrolling_key app pressed) (messages steps)
                  (runs steps requested) (shown_by-scrolled app pressed.control pressed.key) o
                  (scrolled-Sound app pressed.control pressed.key h)
                  (λ next p k. run_turn-Ends steps requested next p k u.1))
              (λ g. run_turn-Ends steps requested app o h u.1))
    run_turn-Ends (TurnStep.key pressed (err e) ∷ steps) requested app o h u = absurd u.0
    run_turn-Ends (TurnStep.closed ∷ steps) requested app o h u = absurd u.0
    run_turn-Ends (TurnStep.terminal_failed error ∷ steps) requested app o h u = absurd u.0
    run_turn-Ends (TurnStep.streamed (err e) ∷ steps) requested app o h u = absurd u.0
    run_turn-Ends (TurnStep.streamed (ok event) ∷ steps) requested app o h u =
        rw (consume-final_only event app o, u.0, final_only-running event app u.0)
          (noted-Ends (completed_message event) (messages steps) app (runs steps requested) o h
            (λ next p k. run_turn-Ends steps requested next p k u.1))

    -- Where luna shows only the final response, as text, a prompt whose turn completes adds to the
    -- transcript of a sound chat the prompt and then the final answers of the agent in their order or,
    -- if no message was marked final, the last message; whatever other events, drawings, scrolling keys
    -- and successful interrupts the turn has, nothing else is added, and the turn is over.
    pub run_turn-answers :
        (prompt : String) (steps : List (TurnStep Value)) (app : ChatApp)
        → ShowsFinal app
        → IsSound app
        → All Undisturbed steps
        → Ends
            (app.transcript
              ++ block TranscriptKind.user prompt
                ∷ map (block TranscriptKind.agent) (answers (messages steps)))
            (run_turn to_string (steps ++ done usage ∷ []) false (submit_user_message prompt app))
    unfolding submit_user_message
    run_turn-answers prompt steps app o h u =
        let asked = submit_user_message prompt app in
        subst (λ blocks. Ends blocks (runs steps false asked))
          (append_assoc app.transcript (block TranscriptKind.user prompt ∷ [])
              (map (block TranscriptKind.agent) (answers_after false none (messages steps)))
            ∙ ap
                (λ texts.
                  app.transcript
                  ++ block TranscriptKind.user prompt ∷ map (block TranscriptKind.agent) texts)
                (answers_lem (messages steps)))
          (run_turn-Ends steps false asked o h u)
