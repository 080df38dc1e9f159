-- ===== src/Client/Unrelated.antt =====
-- The operations of crates/sdk/src/client/mod.rs and crates/sdk/src/client/server_requests.rs that
-- leave the pending requests as they are.
use codex_sdk_rs.Prelude.{◌≡◌, refl, ◌∙◌, ℕ, String, Bool, Option, none, some, if_elim}
use codex_sdk_rs.Protocol.{RequestId, ClientError, Result}
use codex_sdk_rs.SerdeJson.{SerdeJson}
use codex_sdk_rs.Incoming.{notification_frame}
use codex_sdk_rs.Events.Notifications.{NotificationDecoders}
use codex_sdk_rs.Events.ServerRequests.{ServerRequestDecoders, ServerRequestEvent}
use codex_sdk_rs.Client.{Client, send_message}
use codex_sdk_rs.Client.Handlers.{Handled, run_handler}
use codex_sdk_rs.Client.Requests.{send_notification}
use codex_sdk_rs.Client.Inbound.{
  process_notification, process_server_request, handle_or_publish, after_response,
}
use codex_sdk_rs.Client.Registered.{Within}

module _ {Value Object : Type 0} where
  -- Only the other parts of the client differ.
  pub record SamePending (b c : Client Value Object) : Type 0 where
    pub same_pending : b.pending ≡ c.pending
    pub same_slots : b.slots ≡ c.slots
    pub same_next_slot : b.next_slot ≡ c.next_slot
    pub same_next_id : b.next_id ≡ c.next_id

  pub SamePending-Within :
      (n : ℕ) (b c : Client Value Object) → SamePending b c → Within n c → Within n b
  SamePending-Within n b c s h = record {
    next = h.next;
    is_next = s.same_next_id ∙ h.is_next;
    few = h.few;
    sound = rw (s.same_pending, s.same_slots, s.same_next_slot) h.sound;
  }

  pub SamePending-refl : (c : Client Value Object) → SamePending c c
  SamePending-refl c = record {
    same_pending = refl;
    same_slots = refl;
    same_next_slot = refl;
    same_next_id = refl;
  }

  pub send_message-SamePending :
      (frame : Value) (c : Client Value Object) → SamePending (send_message frame c).0 c
  send_message-SamePending frame c =
      if_elim
        (λ (r : Client Value Object × Result (Unit {0}) (ClientError Value)). SamePending r.0 c)
        c.outbound_open
        (λ e. record {
          same_pending = refl;
          same_slots = refl;
          same_next_slot = refl;
          same_next_id = refl;
        })
        λ e. SamePending-refl c

module _ ⦃json : SerdeJson⦄ (notifications : NotificationDecoders json.Value json.Object)
    (requests : ServerRequestDecoders json.Value json.Object) where
  open json use {Value, Object}

  pub send_notification-SamePending :
      (method : String) (params : Value) (requires_ready : Bool) (c : Client Value Object)
      → SamePending (send_notification method params requires_ready c).0 c
  unfolding send_notification
  send_notification-SamePending method params requires_ready c =
      if_elim
        (λ (r : Client Value Object × Result (Unit {0}) (ClientError Value)). SamePending r.0 c) _
        (λ e. SamePending-refl c) λ e. send_message-SamePending (notification_frame method params) c

  pub process_notification-SamePending :
      (method : String) (params : Value) (c : Client Value Object)
      → SamePending (process_notification notifications requests method params c) c
  unfolding process_notification
  process_notification-SamePending method params c = record {
    same_pending = refl;
    same_slots = refl;
    same_next_slot = refl;
    same_next_id = refl;
  }

  after_response-SamePending :
      (frame : Value) (c : Client Value Object)
      → SamePending (after_response notifications requests (send_message frame c)) c
  after_response-SamePending frame c =
      if_elim (λ r. SamePending (after_response notifications requests r) c) c.outbound_open
        (λ e. record {
          same_pending = refl;
          same_slots = refl;
          same_next_slot = refl;
          same_next_id = refl;
        })
        λ e. record {
          same_pending = refl;
          same_slots = refl;
          same_next_slot = refl;
          same_next_id = refl;
        }

  handle_or_publish-SamePending :
      (handled : Option (Handled Value)) (parsed : ServerRequestEvent Value Object)
      (c : Client Value Object)
      → SamePending (handle_or_publish notifications requests handled parsed c) c
  handle_or_publish-SamePending (some handled) parsed c = after_response-SamePending _ c
  handle_or_publish-SamePending none parsed c = record {
    same_pending = refl;
    same_slots = refl;
    same_next_slot = refl;
    same_next_id = refl;
  }

  pub process_server_request-SamePending :
      (id : RequestId) (method : String) (params : Value) (c : Client Value Object)
      → SamePending (process_server_request notifications requests id method params c) c
  unfolding process_server_request
  process_server_request-SamePending id method params c =
      handle_or_publish-SamePending (run_handler c.server_request_handlers _) _ c
