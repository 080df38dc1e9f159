-- ===== src/Luna/Chat/Sound.antt =====
-- That no key makes luna's chat panic (crates/luna/src/commands/chat.rs).
pub mod Drawing
pub mod Keys
use codex_sdk_rs.Prelude.{
  ℕ, zero, suc, ◌+◌, ◌-◌, ◌≤◌, ◌<◌, ◌≡◌, refl, String, false, Option, none, some, List, [], ◌∷◌,
  length, arith, ltb, ◌and_then◌, if_elim, is_empty, ltb→lt,
}
use codex_sdk_rs.Luna.Composer.{InputBuffer, Edit, edit, set, clear, take_input}
use codex_sdk_rs.Luna.Composer.Zipper.{Zipper, buffer_of, apply, edit-buffer_of}
use codex_sdk_rs.Prelude.Bytes.{byte_len}
use text.Mathlib.TextLemmas.{append-nil}
use codex_sdk_rs.Luna.Commands.{Suggestion}
use codex_sdk_rs.Luna.Chat.{
  ChatApp, get_elem?, suggestions, after_input_edit, accepted, accept_suggestion,
  select_previous_suggestion, select_next_suggestion, clear_transcript, scroll_up, scroll_down,
  show_entry, up_from, down_from, navigate_history_up, navigate_history_down,
}
use codex_sdk_rs.Luna.Chat.Keys.{Handled, stay, edited, moved, entered, cleared_input}

-- The cursor stands between two characters, the shown entry of the history is one, and the transcript
-- is not scrolled beyond its end.
pub record Sound (input : InputBuffer) (history : List String) (history_cursor : Option ℕ)
    (scroll max_scroll : ℕ) : Type 0 where
  pub zipper : Zipper
  pub input_buffer : input ≡ buffer_of zipper
  pub in_history : (index : ℕ) → history_cursor ≡ some index → index < length history
  pub in_transcript : scroll ≤ max_scroll

abbrev pub IsSound : ChatApp → Type 0
IsSound app = Sound app.input app.history app.history_cursor app.scroll app.max_scroll

-- The key was handled without a panic.
abbrev pub HandlesSoundly : Handled → Type 0
HandlesSoundly none = ⊥
HandlesSoundly (some (app, action)) = IsSound app

pub edited-Sound :
    (app : ChatApp) (e : Edit) → IsSound app → HandlesSoundly (edited app (edit e app.input))
unfolding after_input_edit
edited-Sound app e h =
    rw (h.input_buffer, edit-buffer_of e h.zipper)
      (record {
        zipper = apply e h.zipper;
        input_buffer = refl;
        in_history = λ index p. absurd (ground (arith, p));
        in_transcript = h.in_transcript;
      })

pub moved-Sound :
    (app : ChatApp) (e : Edit) → IsSound app → HandlesSoundly (moved app (edit e app.input))
moved-Sound app e h =
    rw (h.input_buffer, edit-buffer_of e h.zipper)
      (record {
        zipper = apply e h.zipper;
        input_buffer = refl;
        in_history = h.in_history;
        in_transcript = h.in_transcript;
      })

pub set_text-buffer_of :
    (text : String) (buffer : InputBuffer)
    → set text buffer ≡ buffer_of (record { before = text; after = "" })
unfolding set
set_text-buffer_of text buffer = rw (append-nil) refl

pub accept_suggestion-Sound : (app : ChatApp) → IsSound app → IsSound (accept_suggestion app)
unfolding accept_suggestion
accept_suggestion-Sound app h = go (get_elem? (suggestions app) app.selected_suggestion)
  where
    go : (found : Option Suggestion) → IsSound (accepted app found)
    go none = h
    go (some suggestion) = record {
      zipper = apply (Edit.set_text suggestion.replacement) h.zipper;
      input_buffer = set_text-buffer_of suggestion.replacement app.input;
      in_history = h.in_history;
      in_transcript = h.in_transcript;
    }

pub select_previous-Sound : (app : ChatApp) → IsSound app → IsSound (select_previous_suggestion app)
unfolding select_previous_suggestion
select_previous-Sound app h = if_elim IsSound (ltb 0 (length (suggestions app))) (λ t. h) (λ f. h)

pub select_next-Sound : (app : ChatApp) → IsSound app → IsSound (select_next_suggestion app)
unfolding select_next_suggestion
select_next-Sound app h = if_elim IsSound (ltb 0 (length (suggestions app))) (λ t. h) (λ f. h)

pub get_elem-some :
    {A : Type 0} (xs : List A) (i : ℕ) → i < length xs → (a : A) × (get_elem? xs i ≡ some a)
unfolding get_elem?
get_elem-some [] i h = absurd (omega arith)
get_elem-some (x ∷ xs) zero h = (x, refl)
get_elem-some (x ∷ xs) (suc i) h = get_elem-some xs i (omega arith)

pub show_entry-Sound :
    (app : ChatApp) (index : ℕ)
    → app.scroll ≤ app.max_scroll
    → index < length app.history
    → HandlesSoundly (show_entry app index and_then stay)
show_entry-Sound app index s l =
    let (entry, e) = get_elem-some app.history index l in
    rw (e) (record {
      zipper = record { before = entry; after = "" };
      input_buffer = set_text-buffer_of entry app.input;
      in_history = λ i p. ground (arith, p, l);
      in_transcript = s;
    })

pub is_empty-pos : {A : Type 0} (xs : List A) → is_empty xs ≡ false → 0 < length xs
is_empty-pos [] h = absurd (ground (arith, h))
is_empty-pos (x ∷ xs) h = omega arith

abbrev Goes : Option ChatApp → Type 0
Goes next = HandlesSoundly (next and_then stay)

pub navigate_up-Sound :
    (app : ChatApp) → IsSound app → HandlesSoundly (navigate_history_up app and_then stay)
unfolding navigate_history_up
navigate_up-Sound app h =
    if_elim Goes (is_empty app.history) (λ t. h)
      (λ f. go app.history_cursor h.in_history (is_empty-pos app.history f))
  where
    go :
        (cursor : Option ℕ)
        → ((index : ℕ) → cursor ≡ some index → index < length app.history)
        → 0 < length app.history
        → Goes (up_from app cursor)
    go none k l =
        show_entry-Sound (record app { history_draft = app.input.text }) (length app.history - 1)
          h.in_transcript (omega arith)
    go (some index) k l =
        show_entry-Sound app (index - 1) h.in_transcript (omega (arith, k index refl))

pub navigate_down-Sound :
    (app : ChatApp) → IsSound app → HandlesSoundly (navigate_history_down app and_then stay)
unfolding navigate_history_down
navigate_down-Sound app h = go app.history_cursor
  where
    go : (cursor : Option ℕ) → HandlesSoundly (down_from app cursor and_then stay)
    go none = h
    go (some index) =
        if_elim (λ (next : Option ChatApp). HandlesSoundly (next and_then stay))
          (ltb (index + 1) (length app.history))
          (λ t. show_entry-Sound app (index + 1) h.in_transcript (ltb→lt _ _ t))
          (λ f. record {
            zipper = record { before = app.history_draft; after = "" };
            input_buffer = set_text-buffer_of app.history_draft app.input;
            in_history = λ i p. absurd (ground (arith, p));
            in_transcript = h.in_transcript;
          })

pub entered-Sound : (app : ChatApp) → IsSound app → HandlesSoundly (entered app)
unfolding after_input_edit take_input byte_len
entered-Sound app h = record {
  zipper = record { before = ""; after = "" };
  input_buffer = refl;
  in_history = λ i p. absurd (ground (arith, p));
  in_transcript = h.in_transcript;
}

pub cleared_input-Sound : (app : ChatApp) → IsSound app → IsSound (cleared_input app)
unfolding after_input_edit clear byte_len
cleared_input-Sound app h = record {
  zipper = record { before = ""; after = "" };
  input_buffer = refl;
  in_history = λ i p. absurd (ground (arith, p));
  in_transcript = h.in_transcript;
}

pub clear_transcript-Sound : (app : ChatApp) → IsSound app → IsSound (clear_transcript app)
unfolding clear_transcript
clear_transcript-Sound app h = record {
  zipper = h.zipper;
  input_buffer = h.input_buffer;
  in_history = h.in_history;
  in_transcript = omega arith;
}

pub scroll_up-Sound : (n : ℕ) (app : ChatApp) → IsSound app → IsSound (scroll_up n app)
unfolding scroll_up
scroll_up-Sound n app h = record {
  zipper = h.zipper;
  input_buffer = h.input_buffer;
  in_history = h.in_history;
  in_transcript = omega (arith, h.in_transcript);
}

pub scroll_down-Sound : (n : ℕ) (app : ChatApp) → IsSound app → IsSound (scroll_down n app)
unfolding scroll_down
scroll_down-Sound n app h = record {
  zipper = h.zipper;
  input_buffer = h.input_buffer;
  in_history = h.in_history;
  in_transcript = ground arith;
}
