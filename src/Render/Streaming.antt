-- ===== src/Render/Streaming.antt =====
-- What the stateful renderer (`ThreadEventRenderer::render` in crates/sdk/src/events/render.rs)
-- remembers of a history of events, and what it therefore shows of a completed item.
use codex_sdk_rs.Render.Shape.{render_update-same_entry}
use codex_sdk_rs.Prelude.{
  All, ◌≡◌, refl, ◌∙◌, ap, String, Bool, true, false, not, Option, none, some, List, [], ◌∷◌, ◌++◌,
  ◌&&◌, ◌||◌, if◌then◌else◌, arith,
}
use codex_sdk_rs.Prelude.Text.{is_empty_str}
use codex_sdk_rs.SerdeJson.{SerdeJson}
use codex_sdk_rs.ThreadItem.{ThreadItem, ThreadEvent}
use codex_sdk_rs.Render.{RenderedItem}
use codex_sdk_rs.Render.Items.{render_thread_item}
use codex_sdk_rs.Render.Renderer.{
  Entry, same_entry, contains, ThreadEventRenderer, note_streamed, forget_streamed, empty_renderer,
  render_update, render, render_all, contains-insert, contains-remove, same_entry_iff,
}

-- Does a fragment belong to the entry?
abbrev pub names : Entry → RenderedItem → Bool
names e rendered = elim rendered.item_id [
  | none ↦ false
  | some id ↦ same_entry (rendered.kind, id) e
]

contains-note_streamed :
    (e : Entry) (rendered : RenderedItem) (r : ThreadEventRenderer)
    → contains e (note_streamed rendered r).streamed_items
      ≡ (names e rendered || contains e r.streamed_items)
contains-note_streamed e rendered r = by_id rendered.item_id
  where
    by_id :
        (o : Option String)
        → contains e (note_streamed (record rendered { item_id = o }) r).streamed_items
          ≡ (names e (record rendered { item_id = o }) || contains e r.streamed_items)
    by_id none = refl
    by_id (some id) = contains-insert e (rendered.kind, id) r.streamed_items

contains-forget_streamed :
    (e : Entry) (rendered : RenderedItem) (r : ThreadEventRenderer)
    → contains e (forget_streamed rendered r).streamed_items
      ≡ (not (names e rendered) && contains e r.streamed_items)
contains-forget_streamed e rendered r = by_id rendered.item_id
  where
    by_id :
        (o : Option String)
        → contains e (forget_streamed (record rendered { item_id = o }) r).streamed_items
          ≡ (not (names e (record rendered { item_id = o })) && contains e r.streamed_items)
    by_id none = refl
    by_id (some id) = contains-remove e (rendered.kind, id) r.streamed_items

module _ ⦃json : SerdeJson⦄ where
  open json use {Value}

  -- Is text of the entry on show after the event, if `shown` tells so before it? A visible update
  -- shows it, and the completed snapshot ends it.
  abbrev pub shown_after : Entry → Bool → ThreadEvent Value → Bool
  shown_after e shown (ThreadEvent.item_updated item) =
      if not (is_empty_str (render_update item).markdown) && names e (render_update item)
      then true
      else shown
  shown_after e shown (ThreadEvent.item_completed item) =
      if names e (render_thread_item item) then false else shown
  shown_after e shown _ = shown

  abbrev pub shown_by : Entry → Bool → List (ThreadEvent Value) → Bool
  shown_by e shown [] = shown
  shown_by e shown (event ∷ events) = shown_by e (shown_after e shown event) events

  contains-render :
      (e : Entry) (r : ThreadEventRenderer) (event : ThreadEvent Value)
      → contains e (render r event).0.streamed_items
        ≡ shown_after e (contains e r.streamed_items) event
  unfolding render
  contains-render e r (ThreadEvent.item_updated item) =
      ground (arith, contains-note_streamed e (render_update item) r)
  contains-render e r (ThreadEvent.item_completed item) =
      ground (arith, contains-forget_streamed e (render_thread_item item) r)
  contains-render e r (ThreadEvent.thread_started thread_id) = refl
  contains-render e r _ = refl

  contains-render_all :
      (e : Entry) (r : ThreadEventRenderer) (events : List (ThreadEvent Value))
      → contains e (render_all r events).streamed_items
        ≡ shown_by e (contains e r.streamed_items) events
  unfolding render_all
  contains-render_all e r [] = refl
  contains-render_all e r (event ∷ events) =
      contains-render_all e (render r event).0 events
      ∙ ap (λ b. shown_by e b events) (contains-render e r event)

  -- After any history of events, a completed item with an id is shown exactly if its rendering is
  -- not empty and no visible update of the same kind and id came after its last completion.
  pub render-completed :
      (events : List (ThreadEvent Value)) (item : ThreadItem Value) (id : String)
      → (render_thread_item item).item_id ≡ some id
      → (render (render_all empty_renderer events) (ThreadEvent.item_completed item)).1 ≡ (
          if not (shown_by ((render_thread_item item).kind, id) false events)
            && not (is_empty_str (render_thread_item item).markdown)
          then some (render_thread_item item)
          else none)
  unfolding render contains
  render-completed events item id named =
      ground (arith, contains-render_all ((render_thread_item item).kind, id) empty_renderer events)

  shown_by-append :
      (e : Entry) (shown : Bool) (before after : List (ThreadEvent Value))
      → shown_by e shown (before ++ after) ≡ shown_by e (shown_by e shown before) after
  shown_by-append e shown [] after = refl
  shown_by-append e shown (event ∷ before) after =
      shown_by-append e (shown_after e shown event) before after

  -- The event completes no item of the entry.
  abbrev pub LeavesOpen : Entry → ThreadEvent Value → Type 0
  LeavesOpen e (ThreadEvent.item_completed item) = names e (render_thread_item item) ≡ false
  LeavesOpen e _ = Unit

  shown_by-true :
      (e : Entry) (events : List (ThreadEvent Value))
      → All (LeavesOpen e) events
      → shown_by e true events ≡ true
  shown_by-true e [] h = refl
  shown_by-true e (ThreadEvent.item_completed item ∷ events) (h, hs) =
      rw h (shown_by-true e events hs)
  shown_by-true e (ThreadEvent.item_updated item ∷ events) (h, hs) =
      ground (arith, shown_by-true e events hs)
  shown_by-true e (ThreadEvent.thread_started thread_id ∷ events) (h, hs) =
      shown_by-true e events hs
  shown_by-true e (_ ∷ events) (h, hs) = shown_by-true e events hs

  names-update :
      (item : ThreadItem Value) (id : String)
      → (render_thread_item item).item_id ≡ some id
      → names ((render_thread_item item).kind, id) (render_update item) ≡ true
  names-update item id named =
      let (kind, item_id) = render_update-same_entry item in
      let entry : Entry = ((render_thread_item item).kind, id) in
      rw (kind, item_id, named) ((same_entry_iff entry entry).1 refl)

  shown_by-update :
      (e : Entry) (before after : List (ThreadEvent Value)) (item : ThreadItem Value)
      → is_empty_str (render_update item).markdown ≡ false
      → names e (render_update item) ≡ true
      → All (LeavesOpen e) after
      → shown_by e false (before ++ ThreadEvent.item_updated item ∷ after) ≡ true
  shown_by-update e before after item visible named open_still =
      shown_by-append e false before (ThreadEvent.item_updated item ∷ after)
      ∙ rw (visible, named) (shown_by-true e after open_still)

  -- Streamed text is never repeated: if an update with visible text was rendered and no item of its
  -- kind and id was completed since, then the completed snapshot of that kind and id shows nothing.
  pub render-no_repeat :
      (before after : List (ThreadEvent Value)) (item snapshot : ThreadItem Value) (id : String)
      → is_empty_str (render_update item).markdown ≡ false
      → (render_thread_item item).item_id ≡ some id
      → (render_thread_item snapshot).item_id ≡ some id
      → (render_thread_item snapshot).kind ≡ (render_thread_item item).kind
      → All (LeavesOpen ((render_thread_item item).kind, id)) after
      → (render
          (render_all empty_renderer (before ++ ThreadEvent.item_updated item ∷ after))
          (ThreadEvent.item_completed snapshot)).1
        ≡ none
  render-no_repeat before after item snapshot id visible named named' same open_still =
      let events = before ++ ThreadEvent.item_updated item ∷ after in
      let entry : Entry = ((render_thread_item item).kind, id) in
      let shown =
        shown_by-update entry before after item visible (names-update item id named) open_still in
      render-completed events snapshot id named' ∙ rw (same, shown) refl
