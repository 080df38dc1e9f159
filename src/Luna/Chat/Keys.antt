-- ===== src/Luna/Chat/Keys.antt =====
-- The keys of luna's chat: `handle_idle_key` and `handle_scrolling_key` of
-- crates/luna/src/commands/chat.rs.
use Prim.Native.Char.{Char, code}
use codex_sdk_rs.Prelude.{
  ℕ, String, Bool, true, false, Option, none, some, [], ◌∷◌, ◌++◌, ◌&&◌, eqb, is_empty,
  if◌then◌else◌, ◌and_then◌, not,
}
use codex_sdk_rs.Prelude.Text.{trim, is_empty_str}
use codex_sdk_rs.Luna.Composer.{
  InputBuffer, clear, take_input, insert_char, backspace, delete, move_left, move_right, move_home,
  move_end,
}
use codex_sdk_rs.Luna.Chat.{
  ChatApp, suggestions, clear_transcript, after_input_edit, accept_suggestion,
  select_previous_suggestion, select_next_suggestion, navigate_history_up, navigate_history_down,
  scroll_up, scroll_down, page,
}

-- The crate crossterm's `KeyEvent`: the key, whether the modifiers hold CONTROL, and the kind.
pub data KeyCode : Type 0 where
  enter backspace_key delete_key left right home end tab back_tab esc up down page_up page_down :
      KeyCode
  char : Char → KeyCode
  other : KeyCode

pub data KeyEventKind : Type 0 where
  press repeat release : KeyEventKind

pub record KeyEvent : Type 0 where
  pub key : KeyCode
  pub control : Bool
  pub kind : KeyEventKind

abbrev pub accepts_kind : KeyEventKind → Bool
accepts_kind KeyEventKind.press = true
accepts_kind KeyEventKind.repeat = true
accepts_kind KeyEventKind.release = false

abbrev pub accepts_key : KeyEvent → Bool
accepts_key event = accepts_kind event.kind

pub data IdleAction : Type 0 where
  nothing quit : IdleAction
  submit : String → IdleAction

abbrev is_char : KeyCode → ℕ → Bool
is_char (KeyCode.char c) character = eqb (code c) character
is_char _ character = false

abbrev pub is_ctrl : KeyEvent → ℕ → Bool
is_ctrl event character = is_char event.key character && event.control

abbrev pub Handled : Type 0
Handled = Option (ChatApp × IdleAction)

abbrev pub stay : ChatApp → Handled
stay app = some (app, IdleAction.nothing)

-- An edit of the input, with or without what follows one.
abbrev pub edited : ChatApp → Option InputBuffer → Handled
edited app buffer = buffer and_then λ input. stay (after_input_edit (record app { input = input }))

abbrev pub moved : ChatApp → Option InputBuffer → Handled
moved app buffer = buffer and_then λ input. stay (record app { input = input })

abbrev pub cleared_input : ChatApp → ChatApp
cleared_input app = after_input_edit (record app { input = clear input })
  where
    open app use {input}

-- The key Enter.
abbrev pub entered : ChatApp → Handled
entered app =
    let (text, input) = take_input app.input in
    let history = if is_empty_str (trim text) then app.history else app.history ++ text ∷ [] in
    some (
      after_input_edit (record app {
        input = input;
        history = history;
        history_cursor = none;
        history_draft = "";
      }),
      IdleAction.submit text,
    )

-- The match on the key's code.
abbrev pub by_code : ChatApp → Bool → KeyCode → Handled
by_code app control KeyCode.enter = entered app
by_code app control (KeyCode.char c) =
    if control then stay app else edited app (insert_char c app.input)
by_code app control KeyCode.backspace_key = edited app (backspace app.input)
by_code app control KeyCode.delete_key = edited app (delete app.input)
by_code app control KeyCode.left = moved app (move_left app.input)
by_code app control KeyCode.right = moved app (move_right app.input)
by_code app control KeyCode.home = stay (record app { input = move_home app.input })
by_code app control KeyCode.end = stay (record app { input = move_end app.input })
by_code app control KeyCode.tab = stay (accept_suggestion app)
by_code app control KeyCode.back_tab = stay (select_previous_suggestion app)
by_code app control KeyCode.esc =
    stay (record app { suggestions_dismissed = true; selected_suggestion = 0 })
by_code app control KeyCode.up =
    if not (is_empty (suggestions app))
    then stay (select_previous_suggestion app)
    else navigate_history_up app and_then stay
by_code app control KeyCode.down =
    if not (is_empty (suggestions app))
    then stay (select_next_suggestion app)
    else navigate_history_down app and_then stay
by_code app control KeyCode.page_up = stay (scroll_up (page app) app)
by_code app control KeyCode.page_down = stay (scroll_down (page app) app)
by_code app control KeyCode.other = stay app

unfoldable pub handle_idle_key : ChatApp → KeyEvent → Handled
handle_idle_key app event =
    let no_input = is_empty_str app.input.text in
    if is_ctrl event b'd' && no_input
    then some (app, IdleAction.quit)
    else if is_ctrl event b'c'
    then (if no_input then some (app, IdleAction.quit) else stay (cleared_input app))
    else if is_ctrl event b'l'
    then stay (clear_transcript app)
    else if is_ctrl event b'u'
    then stay (cleared_input app)
    else by_code app event.control event.key

abbrev pub scrolled : ChatApp → Bool → KeyCode → ChatApp
scrolled app control KeyCode.page_up = scroll_up (page app) app
scrolled app control KeyCode.up = scroll_up (page app) app
scrolled app control KeyCode.page_down = scroll_down (page app) app
scrolled app control KeyCode.down = scroll_down (page app) app
scrolled app true KeyCode.home = record app { follow_tail = false; scroll = 0 }
scrolled app true KeyCode.end = record app { follow_tail = true }
scrolled app control _ = app

unfoldable pub handle_scrolling_key : ChatApp → KeyEvent → ChatApp
handle_scrolling_key app event = scrolled app event.control event.key
