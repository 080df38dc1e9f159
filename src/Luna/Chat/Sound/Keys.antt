-- ===== src/Luna/Chat/Sound/Keys.antt =====
-- That no key makes luna's chat panic (crates/luna/src/commands/chat.rs).
use codex_sdk_rs.Prelude.{Bool, true, false, ◌&&◌, not, is_empty, if_elim, arith}
use codex_sdk_rs.Prelude.Text.{is_empty_str}
use codex_sdk_rs.Luna.Composer.{Edit, move_home, move_end}
use codex_sdk_rs.Luna.Chat.{ChatApp, suggestions, page}
use codex_sdk_rs.Luna.Chat.Keys.{KeyCode, KeyEvent, by_code, is_ctrl, handle_idle_key, scrolled}
use codex_sdk_rs.Luna.Chat.Sound.{
  IsSound, HandlesSoundly, edited-Sound, moved-Sound, accept_suggestion-Sound,
  select_previous-Sound, select_next-Sound, navigate_up-Sound, navigate_down-Sound, entered-Sound,
  cleared_input-Sound, clear_transcript-Sound, scroll_up-Sound, scroll_down-Sound,
}

by_code-Sound :
    (app : ChatApp) (control : Bool) (key : KeyCode)
    → IsSound app
    → HandlesSoundly (by_code app control key)
unfolding move_home move_end
by_code-Sound app control KeyCode.enter h = entered-Sound app h
by_code-Sound app true (KeyCode.char c) h = h
by_code-Sound app false (KeyCode.char c) h = edited-Sound app (Edit.insert_character c) h
by_code-Sound app control KeyCode.backspace_key h = edited-Sound app Edit.backspaced h
by_code-Sound app control KeyCode.delete_key h = edited-Sound app Edit.deleted h
by_code-Sound app control KeyCode.left h = moved-Sound app Edit.left h
by_code-Sound app control KeyCode.right h = moved-Sound app Edit.right h
by_code-Sound app control KeyCode.home h = moved-Sound app Edit.home h
by_code-Sound app control KeyCode.end h = moved-Sound app Edit.ended h
by_code-Sound app control KeyCode.tab h = accept_suggestion-Sound app h
by_code-Sound app control KeyCode.back_tab h = select_previous-Sound app h
by_code-Sound app control KeyCode.esc h = h
by_code-Sound app control KeyCode.up h =
    if_elim HandlesSoundly (not (is_empty (suggestions app))) (λ t. select_previous-Sound app h)
      (λ f. navigate_up-Sound app h)
by_code-Sound app control KeyCode.down h =
    if_elim HandlesSoundly (not (is_empty (suggestions app))) (λ t. select_next-Sound app h)
      (λ f. navigate_down-Sound app h)
by_code-Sound app control KeyCode.page_up h = scroll_up-Sound (page app) app h
by_code-Sound app control KeyCode.page_down h = scroll_down-Sound (page app) app h
by_code-Sound app control KeyCode.other h = h

pub handle_idle_key-Sound :
    (app : ChatApp) (event : KeyEvent) → IsSound app → HandlesSoundly (handle_idle_key app event)
unfolding handle_idle_key
handle_idle_key-Sound app event h =
    let no_input = is_empty_str app.input.text in
    if_elim HandlesSoundly (is_ctrl event b'd' && no_input) (λ t. h)
      (λ a.
        if_elim HandlesSoundly (is_ctrl event b'c')
          (λ t. if_elim HandlesSoundly no_input (λ empty. h) (λ other. cleared_input-Sound app h))
          (λ b.
            if_elim HandlesSoundly (is_ctrl event b'l') (λ t. clear_transcript-Sound app h)
              (λ c.
                if_elim HandlesSoundly (is_ctrl event b'u') (λ t. cleared_input-Sound app h)
                  (λ d. by_code-Sound app event.control event.key h))))

to_start-Sound :
    (app : ChatApp) → IsSound app → IsSound (record app { follow_tail = false; scroll = 0 })
to_start-Sound app h = record {
  zipper = h.zipper;
  input_buffer = h.input_buffer;
  in_history = h.in_history;
  in_transcript = omega arith;
}

pub scrolled-Sound :
    (app : ChatApp) (control : Bool) (key : KeyCode)
    → IsSound app
    → IsSound (scrolled app control key)
scrolled-Sound app control KeyCode.page_up h = scroll_up-Sound (page app) app h
scrolled-Sound app control KeyCode.up h = scroll_up-Sound (page app) app h
scrolled-Sound app control KeyCode.page_down h = scroll_down-Sound (page app) app h
scrolled-Sound app control KeyCode.down h = scroll_down-Sound (page app) app h
scrolled-Sound app true KeyCode.home h = to_start-Sound app h
scrolled-Sound app false KeyCode.home h = h
scrolled-Sound app true KeyCode.end h = h
scrolled-Sound app false KeyCode.end h = h
scrolled-Sound app true _ h = h
scrolled-Sound app false _ h = h
