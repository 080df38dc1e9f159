-- ===== src/Luna/Chat/Sound/Drawing.antt =====
-- That drawing luna's chat does not panic (crates/luna/src/commands/chat.rs).
use codex_sdk_rs.Prelude.{ℕ, ◌≡◌, refl, ap, ◌∙◌, some, length, arith, leb, if_elim, is_empty}
use codex_sdk_rs.Prelude.Bytes.{split_at, split_at-append}
use codex_sdk_rs.Luna.Composer.{InputBuffer}
use codex_sdk_rs.Luna.Chat.{ChatApp, suggestions, draw_transcript, keep_selection, render}
use codex_sdk_rs.Luna.Chat.Sound.{IsSound}

draw_transcript-Sound :
    (height inner_height : ℕ) (app : ChatApp)
    → IsSound app
    → IsSound (draw_transcript height inner_height app)
unfolding draw_transcript
draw_transcript-Sound height inner_height app h =
    if_elim IsSound (is_empty app.transcript)
      (λ t. record {
        zipper = h.zipper;
        input_buffer = h.input_buffer;
        in_history = h.in_history;
        in_transcript = omega arith;
      })
      (λ f. record {
        zipper = h.zipper;
        input_buffer = h.input_buffer;
        in_history = h.in_history;
        in_transcript = ground arith;
      })

keep_selection-Sound : (app : ChatApp) → IsSound app → IsSound (keep_selection app)
keep_selection-Sound app h =
    if_elim IsSound (leb (length (suggestions app)) app.selected_suggestion) (λ t. h) (λ f. h)

-- Drawing does not panic, and what it leaves is sound.
pub render-drawn :
    (height inner_height : ℕ) (app : ChatApp)
    → IsSound app
    → render height inner_height app
      ≡ some (draw_transcript height inner_height (keep_selection app))
unfolding render
render-drawn height inner_height app h =
    let k =
      draw_transcript-Sound height inner_height (keep_selection app) (keep_selection-Sound app h) in
    rw
      (ap (λ (input : InputBuffer). split_at input.text input.cursor) k.input_buffer
        ∙ split_at-append k.zipper.before k.zipper.after)
      refl

pub drawn-Sound :
    (height inner_height : ℕ) (app : ChatApp)
    → IsSound app
    → IsSound (draw_transcript height inner_height (keep_selection app))
drawn-Sound height inner_height app h =
    draw_transcript-Sound height inner_height (keep_selection app) (keep_selection-Sound app h)
