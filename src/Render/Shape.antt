-- ===== src/Render/Shape.antt =====
-- The shape of a rendered item (crates/sdk/src/events/render.rs).
use codex_sdk_rs.Prelude.{◌≡◌, refl}
use codex_sdk_rs.SerdeJson.{SerdeJson}
use codex_sdk_rs.ThreadItem.{ThreadItem}
use codex_sdk_rs.Render.Items.{render_thread_item}
use codex_sdk_rs.Render.Renderer.{render_update}

module _ ⦃json : SerdeJson⦄ where
  open json use {Value}

  -- An update and a snapshot of one item have the same kind and the same id.
  pub render_update-same_entry :
      (item : ThreadItem Value)
      → ((render_update item).kind ≡ (render_thread_item item).kind)
        × ((render_update item).item_id ≡ (render_thread_item item).item_id)
  unfolding render_update render_thread_item
  render_update-same_entry (ThreadItem.agent_message item) = (refl, refl)
  render_update-same_entry _ = (refl, refl)
