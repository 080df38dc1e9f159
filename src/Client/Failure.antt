-- ===== src/Client/Failure.antt =====
-- The end of the inbound loop of crates/sdk/src/client/mod.rs, with requests still pending.
use codex_sdk_rs.Prelude.{
  ℕ, ◌≤◌, ◌≡◌, ◌≢◌, refl, sym, ap, ◌∙◌, some, List, [], ◌∷◌, ◌++◌, String, arith, All, inl, inr,
  Bool-cases,
}
use codex_sdk_rs.Prelude.Text.{concat}
use codex_sdk_rs.Protocol.{RequestId, ClientError, Result, err, same_id}
use codex_sdk_rs.SerdeJson.{SerdeJson}
use codex_sdk_rs.Events.{ServerEvent}
use codex_sdk_rs.Events.Notifications.{NotificationDecoders}
use codex_sdk_rs.Events.ServerRequests.{ServerRequestDecoders}
use codex_sdk_rs.Client.{Client, Slot, set_slot}
use codex_sdk_rs.Client.Pending.{PendingMap, lookup}
use codex_sdk_rs.Client.Handlers.{display_error}
use codex_sdk_rs.Client.Requests.{Call, poll, received}
use codex_sdk_rs.Client.Inbound.{
  send_all, transport_failure, fail_all_pending, shut_down, run_inbound_loop,
}
use codex_sdk_rs.Client.Invariant.{
  Entry, Distinct, All-map, found-entry, set_slot-other, set_slot-same,
}
use codex_sdk_rs.Client.Registered.{Within, Waits}

module _ {Value : Type 0} (v : Slot Value) where
  send_all-other :
      (t : ℕ) (m : PendingMap) (slots : ℕ → Slot Value)
      → All (λ e. e.1 ≢ t) m
      → send_all v m slots t ≡ slots t
  send_all-other t [] slots h = refl
  send_all-other t ((k, s) ∷ m) slots h =
      send_all-other t m (set_slot s v slots) h.1 ∙ set_slot-other s t v slots h.0

  send_all-member :
      (id : RequestId) (s : ℕ) (m : PendingMap) (slots : ℕ → Slot Value)
      → lookup id m ≡ some s
      → Distinct m
      → send_all v m slots s ≡ v
  unfolding lookup
  send_all-member id s [] slots e h = ground (arith, e)
  send_all-member id s ((k, t) ∷ m) slots e h = elim (Bool-cases (same_id k id)) [
    | inl b ↦
        let same = ap (λ x. x.1) (found-entry id k s t m e b) in
        send_all-other s m (set_slot t v slots) (All-map _ _ m (λ f p q. p.1 (q ∙ sym same)) h.0)
        ∙ rw same (set_slot-same s v slots)
    | inr b ↦ send_all-member id s m (set_slot t v slots) (ground (arith, e, b)) h.1
  ]

unused-slot :
    {Value : Type 0} (next next_slot t : ℕ) (slots : ℕ → Slot Value) (e : RequestId × ℕ)
    → Entry next next_slot slots e
    → next_slot ≤ t
    → e.1 ≢ t
unused-slot next next_slot t slots e p le q = ground (arith, p.slot_used, le, q)

module _ ⦃json : SerdeJson⦄ (notifications : NotificationDecoders json.Value json.Object)
    (requests : ServerRequestDecoders json.Value json.Object) where
  open json use {Value, Object}

  pub shut_down-Within :
      (n : ℕ) (message : String) (c : Client Value Object)
      → Within n c
      → Within n (shut_down notifications requests message c)
  unfolding shut_down fail_all_pending
  shut_down-Within n message c h = record {
    next = h.next;
    is_next = h.is_next;
    few = h.few;
    sound = record {
      entries = tt;
      distinct = tt;
      unused = λ t le.
          send_all-other _ t c.pending c.slots
            (All-map _ _ c.pending (λ e p. unused-slot _ _ t c.slots e p le) h.sound.entries)
          ∙ h.sound.unused t le;
    };
  }

  -- When the transport of a client whose pending requests are sound reports an error, the inbound
  -- loop stops, whatever frames are left: a request that waits is answered by the error of a failed transport (its code is -32098) with the error's
  -- text, no request is pending, and the last event says that the transport is closed.
  pub run_inbound_loop-transport_error :
      (n : ℕ) (c : Client Value Object) (call : Call) (e : ClientError Value)
      (frames : List (Result Value (ClientError Value)))
      → Within n c
      → Waits call c
      → (poll call (run_inbound_loop notifications requests (err e ∷ frames) c)
          ≡ some (
              err (
                ClientError.rpc
                  (transport_failure (concat ("transport error: " ∷ display_error e ∷ []))))))
        × ((run_inbound_loop notifications requests (err e ∷ frames) c).pending ≡ [])
        × ((run_inbound_loop notifications requests (err e ∷ frames) c).events
            ≡ c.events ++ ServerEvent.transport_closed ∷ [])
  unfolding run_inbound_loop shut_down fail_all_pending poll
  run_inbound_loop-transport_error n c call e frames h w = (
    ap received (send_all-member _ call.id call.slot c.pending c.slots w h.sound.distinct),
    refl,
    refl,
  )
