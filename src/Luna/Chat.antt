-- ===== src/Luna/Chat.antt =====
-- The state of luna's chat and its keys while no turn runs: `ChatApp` of
-- crates/luna/src/commands/chat.rs.
--
-- A handler that would panic (a slice inside a character, an index out of range) is `none` here.
pub mod Execute
pub mod Keys
pub mod Loop
pub mod Sound
pub mod Total
pub mod Transcript
pub mod Turns
use codex_sdk_rs.Prelude.{
  ℕ, zero, suc, ◌+◌, ◌-◌, ◌%◌, String, Bool, true, false, Option, none, some, List, [], ◌∷◌, ◌++◌,
  length, ltb, leb, eqb, is_empty, if◌then◌else◌, ◌and_then◌, map_some,
}
use codex_sdk_rs.Prelude.Text.{trim, is_empty_str}
use codex_sdk_rs.Options.Enums.{ModelReasoningEffort}
use codex_sdk_rs.Luna.Commands.{Suggestion, suggestions_for}
use codex_sdk_rs.Luna.Composer.{InputBuffer, empty_buffer, set, at_cursor}
use codex_sdk_rs.Render.Renderer.{ThreadEventRenderer, empty_renderer}

pub data TranscriptKind : Type 0 where
  user agent reasoning tool status error raw : TranscriptKind

pub record TranscriptBlock : Type 0 where
  pub kind : TranscriptKind
  pub item_id : Option String
  pub text : String

pub record ChatApp : Type 0 where
  pub transcript : List TranscriptBlock
  pub input : InputBuffer
  pub history : List String
  pub history_cursor : Option ℕ
  pub history_draft : String
  pub suggestions_dismissed : Bool
  pub selected_suggestion : ℕ
  pub skills : List String
  pub model : String
  pub effort : ModelReasoningEffort
  pub status : String
  pub metadata_warning : String
  pub busy : Bool
  pub turn_running : Bool
  pub tick : ℕ
  pub scroll : ℕ
  pub max_scroll : ℕ
  pub follow_tail : Bool
  pub transcript_page : ℕ
  pub renderer : ThreadEventRenderer
  pub final_response_only : Bool
  pub json_output : Bool
  pub fallback_final_response : Option String
  pub emitted_final_response : Bool

-- `ChatApp::new`.
abbrev pub new_app :
    (model : String) → ModelReasoningEffort → (final_response_only json_output : Bool) → ChatApp
new_app model effort final_response_only json_output = record {
  transcript = [];
  input = empty_buffer;
  history = [];
  history_cursor = none;
  history_draft = "";
  suggestions_dismissed = false;
  selected_suggestion = 0;
  skills = [];
  model = model;
  effort = effort;
  status = "starting";
  metadata_warning = "";
  busy = false;
  turn_running = false;
  tick = 0;
  scroll = 0;
  max_scroll = 0;
  follow_tail = true;
  transcript_page = 1;
  renderer = empty_renderer;
  final_response_only = final_response_only;
  json_output = json_output;
  fallback_final_response = none;
  emitted_final_response = false;
}

-- `list.get(i)`; `list[i]` panics where there is none.
unfoldable pub get_elem? {ℓ} : {A : Type ℓ} → List A → ℕ → Option A
get_elem? [] i = none
get_elem? (x ∷ xs) zero = some x
get_elem? (x ∷ xs) (suc i) = get_elem? xs i

unfoldable pub suggestions : ChatApp → List Suggestion
suggestions app =
    if app.suggestions_dismissed
    then []
    else if app.busy
    then []
    else suggestions_for app.input.text app.skills

unfoldable pub clear_transcript : ChatApp → ChatApp
clear_transcript app = record app {
  transcript = [];
  scroll = 0;
  max_scroll = 0;
  follow_tail = true;
}

unfoldable pub after_input_edit : ChatApp → ChatApp
after_input_edit app = record app {
  suggestions_dismissed = false;
  selected_suggestion = 0;
  history_cursor = none;
}

abbrev pub accepted : ChatApp → Option Suggestion → ChatApp
accepted app none = app
accepted app (some suggestion) = record app {
  input = set suggestion.replacement app.input;
  suggestions_dismissed = false;
  selected_suggestion = 0;
}

unfoldable pub accept_suggestion : ChatApp → ChatApp
accept_suggestion app = accepted app (get_elem? (suggestions app) app.selected_suggestion)

-- `checked_sub(1).unwrap_or(count - 1)`.
abbrev pub previous_of : ℕ → ℕ → ℕ
previous_of count zero = count - 1
previous_of count (suc n) = n

unfoldable pub select_previous_suggestion : ChatApp → ChatApp
select_previous_suggestion app =
    let count = length (suggestions app) in
    if ltb 0 count
    then record app { selected_suggestion = previous_of count app.selected_suggestion }
    else app

unfoldable pub select_next_suggestion : ChatApp → ChatApp
select_next_suggestion app =
    let count = length (suggestions app) in
    if ltb 0 count
    then record app { selected_suggestion = (app.selected_suggestion + 1) % count }
    else app

-- The entry of the history that is shown, with the draft that was kept.
abbrev pub show_entry : ChatApp → ℕ → Option ChatApp
show_entry app index = get_elem? app.history index and_then λ entry. some (record app {
  history_cursor = some index;
  input = set entry app.input;
  suggestions_dismissed = true;
})

abbrev pub up_from : ChatApp → Option ℕ → Option ChatApp
up_from app (some index) = show_entry app (index - 1)
up_from app none =
    show_entry (record app { history_draft = app.input.text }) (length app.history - 1)

unfoldable pub navigate_history_up : ChatApp → Option ChatApp
navigate_history_up app = if is_empty app.history then some app else up_from app app.history_cursor

abbrev pub down_from : ChatApp → Option ℕ → Option ChatApp
down_from app none = some app
down_from app (some index) =
    if ltb (index + 1) (length app.history)
    then show_entry app (index + 1)
    else some (record app {
      history_cursor = none;
      input = set app.history_draft app.input;
      history_draft = "";
      suggestions_dismissed = true;
    })

unfoldable pub navigate_history_down : ChatApp → Option ChatApp
navigate_history_down app = down_from app app.history_cursor

unfoldable pub scroll_up : ℕ → ChatApp → ChatApp
scroll_up amount app = record app { follow_tail = false; scroll = app.scroll - amount }

abbrev min : ℕ → ℕ → ℕ
min a b = if ltb a b then a else b

unfoldable pub scroll_down : ℕ → ChatApp → ChatApp
scroll_down amount app =
    let moved = min (app.scroll + amount) app.max_scroll in
    record app {
      scroll = moved;
      follow_tail = if eqb moved app.max_scroll then true else app.follow_tail;
    }

-- `transcript_page.saturating_sub(1).max(1)`.
abbrev pub page : ChatApp → ℕ
page app = if ltb (app.transcript_page - 1) 1 then 1 else app.transcript_page - 1

-- What drawing the transcript changes, given the height of the wrapped text and of the area.
abbrev max : ℕ → ℕ → ℕ
max a b = if ltb a b then b else a

unfoldable pub draw_transcript : (height inner_height : ℕ) → ChatApp → ChatApp
draw_transcript height inner_height app =
    let shown = max inner_height 1 in
    let end = height - shown in
    if is_empty app.transcript then record app { max_scroll = 0; scroll = 0 } else record app {
      transcript_page = shown;
      max_scroll = end;
      scroll = if app.follow_tail then end else min app.scroll end;
    }

-- A selection beyond the suggestions is dropped.
abbrev pub keep_selection : ChatApp → ChatApp
keep_selection app =
    if leb (length (suggestions app)) app.selected_suggestion
    then record app { selected_suggestion = 0 }
    else app

-- What drawing changes; it slices the input at the cursor to place it.
unfoldable pub render : (height inner_height : ℕ) → ChatApp → Option ChatApp
render height inner_height app =
    let drawn = draw_transcript height inner_height (keep_selection app) in
    at_cursor drawn.input and_then λ prefix. some drawn
