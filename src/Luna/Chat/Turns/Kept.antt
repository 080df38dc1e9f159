-- ===== src/Luna/Chat/Turns/Kept.antt =====
-- What keys and drawing leave as it was in a turn (crates/luna/src/commands/chat.rs).
use codex_sdk_rs.Prelude.{
  ℕ, String, Bool, true, false, Option, List, ◌++◌, ◌≡◌, refl, ◌∙◌, map, length, leb, if_elim,
  is_empty,
}
use codex_sdk_rs.Protocol.{ok}
use codex_sdk_rs.ThreadItem.{AgentMessageItem}
use codex_sdk_rs.Luna.Chat.{
  ChatApp, TranscriptBlock, TranscriptKind, suggestions, scroll_up, scroll_down, draw_transcript,
  keep_selection,
}
use codex_sdk_rs.Luna.Chat.Keys.{KeyCode, scrolled}
use codex_sdk_rs.Luna.Chat.Execute.{block}
use codex_sdk_rs.Luna.Chat.Turns.{interrupt_key}
use codex_sdk_rs.Luna.Chat.Turns.Answers.{answers_after}

-- What decides which answers are shown.
pub record Shown : Type 0 where
  pub transcript : List TranscriptBlock
  pub emitted : Bool
  pub fallback : Option String
  pub raw : Bool
  pub only : Bool

abbrev pub shown_by : ChatApp → Shown
shown_by app = record {
  transcript = app.transcript;
  emitted = app.emitted_final_response;
  fallback = app.fallback_final_response;
  raw = app.json_output;
  only = app.final_response_only;
}

-- The transcript with the answers that are still to come.
abbrev pub wanted : Shown → List AgentMessageItem → List TranscriptBlock
wanted shown messages =
    shown.transcript
    ++ map (block TranscriptKind.agent) (answers_after shown.emitted shown.fallback messages)

pub shown_by-scrolled :
    (app : ChatApp) (control : Bool) (key : KeyCode)
    → shown_by (scrolled app control key) ≡ shown_by app
unfolding scroll_up scroll_down
shown_by-scrolled app control KeyCode.page_up = refl
shown_by-scrolled app control KeyCode.page_down = refl
shown_by-scrolled app control KeyCode.up = refl
shown_by-scrolled app control KeyCode.down = refl
shown_by-scrolled app true KeyCode.home = refl
shown_by-scrolled app false KeyCode.home = refl
shown_by-scrolled app true KeyCode.end = refl
shown_by-scrolled app false KeyCode.end = refl
shown_by-scrolled app true _ = refl
shown_by-scrolled app false _ = refl

pub shown_by-interrupt_key :
    (requested : Bool) (app : ChatApp)
    → shown_by (interrupt_key (ok tt) requested app).1 ≡ shown_by app
unfolding interrupt_key
shown_by-interrupt_key true app = refl
shown_by-interrupt_key false app = refl

shown_by-keep_selection : (app : ChatApp) → shown_by (keep_selection app) ≡ shown_by app
shown_by-keep_selection app =
    if_elim (λ kept. shown_by kept ≡ shown_by app)
      (leb (length (suggestions app)) app.selected_suggestion) (λ t. refl) (λ f. refl)

shown_by-draw_transcript :
    (height inner_height : ℕ) (app : ChatApp)
    → shown_by (draw_transcript height inner_height app) ≡ shown_by app
unfolding draw_transcript
shown_by-draw_transcript height inner_height app =
    if_elim (λ drawn. shown_by drawn ≡ shown_by app) (is_empty app.transcript) (λ t. refl)
      (λ f. refl)

pub shown_by-drawn :
    (height inner_height : ℕ) (app : ChatApp)
    → shown_by (draw_transcript height inner_height (keep_selection app)) ≡ shown_by app
shown_by-drawn height inner_height app =
    shown_by-draw_transcript height inner_height (keep_selection app) ∙ shown_by-keep_selection app
