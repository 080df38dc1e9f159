-- ===== src/Render/Renderer.antt =====
-- `ThreadEventRenderer` in crates/sdk/src/events/render.rs. The hash set of streamed items is a list
-- of its entries; `HashSet::insert` and `remove` are written out on it.
use codex_sdk_rs.Prelude.{
  ◌≡◌, ◌↔◌, String, Bool, true, false, not, Option, none, some, List, [], ◌∷◌, ◌&&◌, ◌||◌, arith,
  ap, eq_iff, str_eq, if◌then◌else◌,
}
use codex_sdk_rs.Prelude.Text.{concat, is_empty_str}
use codex_sdk_rs.SerdeJson.{SerdeJson}
use codex_sdk_rs.ThreadItem.{ThreadItem, ThreadEvent}
use codex_sdk_rs.Render.{RenderedItemKind, same_kind, RenderedItem, new, display_or_unknown}
use codex_sdk_rs.Render.Items.{render_thread_item}

abbrev pub Entry : Type 0
Entry = RenderedItemKind × String

unfoldable pub same_entry : Entry → Entry → Bool
same_entry (kind, id) (kind', id') = same_kind kind kind' && str_eq id id'

unfoldable pub contains : Entry → List Entry → Bool
contains e [] = false
contains e (x ∷ xs) = same_entry x e || contains e xs

-- `HashSet::insert`.
unfoldable pub insert : Entry → List Entry → List Entry
insert e xs = if contains e xs then xs else e ∷ xs

-- What is left by `HashSet::remove`.
unfoldable pub remove : Entry → List Entry → List Entry
remove e [] = []
remove e (x ∷ xs) = if same_entry x e then remove e xs else x ∷ remove e xs

pub record ThreadEventRenderer : Type 0 where
  pub streamed_items : List Entry

abbrev pub empty_renderer : ThreadEventRenderer
empty_renderer = record { streamed_items = [] }

-- `insert` where the fragment has an id.
abbrev pub note_streamed : RenderedItem → ThreadEventRenderer → ThreadEventRenderer
note_streamed rendered r = elim rendered.item_id [
  | none ↦ r
  | some id ↦ record { streamed_items = insert (rendered.kind, id) r.streamed_items }
]

-- `is_some_and(|id| streamed_items.remove(…))`: what is removed, and whether it was there.
abbrev pub was_streamed : RenderedItem → ThreadEventRenderer → Bool
was_streamed rendered r = elim rendered.item_id [
  | none ↦ false
  | some id ↦ contains (rendered.kind, id) r.streamed_items
]

abbrev pub forget_streamed : RenderedItem → ThreadEventRenderer → ThreadEventRenderer
forget_streamed rendered r = elim rendered.item_id [
  | none ↦ r
  | some id ↦ record { streamed_items = remove (rendered.kind, id) r.streamed_items }
]

module _ ⦃json : SerdeJson⦄ where
  open json use {Value}

  -- The inner match of `ItemUpdated`: the three kinds whose text is streamed are shown bare.
  unfoldable pub render_update : ThreadItem Value → RenderedItem
  render_update (ThreadItem.agent_message item) =
      new RenderedItemKind.agent_message (some item.id) item.text
  render_update (ThreadItem.reasoning item) =
      new RenderedItemKind.reasoning (some item.id) item.text
  render_update (ThreadItem.plan item) = new RenderedItemKind.plan (some item.id) item.text
  render_update item = render_thread_item item

  unfoldable pub render :
      ThreadEventRenderer → ThreadEvent Value → ThreadEventRenderer × Option RenderedItem
  render r (ThreadEvent.item_updated item) =
      let rendered = render_update item in
      if is_empty_str rendered.markdown
      then (r, none)
      else (note_streamed rendered r, some (record rendered { continuation = true }))
  render r (ThreadEvent.item_completed item) =
      let rendered = render_thread_item item in
      (
        forget_streamed rendered r,
        (if not (was_streamed rendered r) && not (is_empty_str rendered.markdown)
            then some rendered
            else none),
      )
  render r (ThreadEvent.error message) = (
    r,
    some (
        new RenderedItemKind.error none (concat ("**Error:** " ∷ display_or_unknown message ∷ []))),
  )
  render r (ThreadEvent.turn_failed e) = (
    r,
    some (
        new RenderedItemKind.error none
          (concat ("**Turn failed:** " ∷ display_or_unknown e.message ∷ []))),
  )
  render r (ThreadEvent.thread_started thread_id) = (r, none)
  render r ThreadEvent.turn_started = (r, none)
  render r (ThreadEvent.turn_completed usage) = (r, none)
  render r (ThreadEvent.item_started item) = (r, none)

  -- The renderer after a run of events.
  unfoldable pub render_all : ThreadEventRenderer → List (ThreadEvent Value) → ThreadEventRenderer
  render_all r [] = r
  render_all r (event ∷ events) = render_all (render r event).0 events

pub same_kind_iff : (a b : RenderedItemKind) → (same_kind a b ≡ true) ↔ (a ≡ b)
same_kind_iff a b = ground arith

pub same_entry_iff : (x y : Entry) → (same_entry x y ≡ true) ↔ (x ≡ y)
unfolding same_entry
same_entry_iff (k, s) (l, t) = ground (arith, same_kind_iff k l, eq_iff s t)

pub contains_of_same : (x e : Entry) (xs : List Entry) → x ≡ e → contains x xs ≡ contains e xs
contains_of_same x e xs h = ap (λ z. contains z xs) h

pub contains-insert :
    (a e : Entry) (xs : List Entry) → contains a (insert e xs) ≡ (same_entry e a || contains a xs)
unfolding contains insert
contains-insert a e xs = ground (arith, same_entry_iff e a, contains_of_same e a xs)

pub contains-remove :
    (a e : Entry) (xs : List Entry)
    → contains a (remove e xs) ≡ (not (same_entry e a) && contains a xs)
unfolding contains remove
contains-remove a e [] = ground arith
contains-remove a e (x ∷ xs) =
    ground
      (arith, contains-remove a e xs, same_entry_iff x e, same_entry_iff x a, same_entry_iff e a)
