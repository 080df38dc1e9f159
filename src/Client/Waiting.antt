-- ===== src/Client/Waiting.antt =====
-- What the operations of crates/sdk/src/client/mod.rs that change the pending requests leave of a
-- waiting one.
use codex_sdk_rs.Prelude.{
  ℕ, ◌≡◌, ◌≢◌, refl, true, false, none, some, [], ◌∷◌, ◌++◌, ◌∙◌, ap, arith, Option-cases, inl, inr,
}
use codex_sdk_rs.Protocol.{integer, RequestId, RpcError, Result, ok, same_id, same_id_iff}
use codex_sdk_rs.Client.{Client, Slot, send_message}
use codex_sdk_rs.Client.Pending.{lookup, remove, lookup-remove, lookup-insert}
use codex_sdk_rs.Client.Requests.{Call, remove_pending, register, poll, received}
use codex_sdk_rs.Client.Inbound.{deliver}
use codex_sdk_rs.Client.Invariant.{All-lookup, set_slot-same}
use codex_sdk_rs.Client.Registered.{Within, Waits}

pub other_id : (a b : RequestId) → a ≢ b → same_id a b ≡ false
other_id a b n = ground (arith, n, same_id_iff a b)

module _ {Value Object : Type 0} where
  -- A registered call's id is not the next one.
  pub fresh-call :
      (n : ℕ) (c : Client Value Object) (call : Call)
      → Within n c
      → Waits call c
      → same_id (integer c.next_id) call.id ≡ false
  fresh-call n c call h w =
      let p = All-lookup _ call.id call.slot c.pending w h.sound.entries in
      other_id (integer c.next_id) call.id
        (λ q. ground (arith, q ∙ p.is_id, h.is_next, p.given_out))

  pub register-Waits :
      (n : ℕ) (c : Client Value Object) (call : Call)
      → Within n c
      → Waits call c
      → Waits call (register c).0
  unfolding register
  register-Waits n c call h w =
      lookup-insert (integer c.next_id) call.id c.next_slot c.pending
      ∙ rw (fresh-call n c call h w) w

  -- Another entry is removed.
  pub remove-Waits :
      (id : RequestId) (call : Call) (c : Client Value Object)
      → same_id id call.id ≡ false
      → Waits call c
      → lookup call.id (remove id c.pending) ≡ some call.slot
  remove-Waits id call c other w = lookup-remove id call.id c.pending ∙ rw other w

  pub remove_pending-Waits :
      (id : RequestId) (call : Call) (c : Client Value Object)
      → same_id id call.id ≡ false
      → Waits call c
      → Waits call (remove_pending id c)
  unfolding remove_pending
  remove_pending-Waits id call c other w = remove-Waits id call c other w

  pub deliver-Waits :
      (id : RequestId) (result : Result Value (RpcError Value)) (call : Call)
      (c : Client Value Object)
      → same_id id call.id ≡ false
      → Waits call c
      → Waits call (deliver id result c)
  unfolding deliver
  deliver-Waits id result call c other w = elim (Option-cases (lookup id c.pending)) [
    | inl e ↦ rw (e, deliver) w
    | inr (s, e) ↦ rw (e, deliver) (remove-Waits id call c other w)
  ]

  -- A call that waits is not answered yet.
  pub poll-Waits :
      (n : ℕ) (call : Call) (c : Client Value Object)
      → Within n c
      → Waits call c
      → poll call c ≡ none
  unfolding poll
  poll-Waits n call c h w =
      ap received (All-lookup _ call.id call.slot c.pending w h.sound.entries).waits

  -- Its answer is what its caller gets.
  pub poll-deliver :
      (result : Result Value (RpcError Value)) (call : Call) (c : Client Value Object)
      → Waits call c
      → poll call (deliver call.id result c) ≡ received (Slot.delivered result)
  unfolding poll deliver
  poll-deliver result call c w =
      rw (w, deliver) (ap received (set_slot-same call.slot (Slot.delivered result) c.slots))

  pub deliver-missing :
      (id : RequestId) (result : Result Value (RpcError Value)) (c : Client Value Object)
      → lookup id c.pending ≡ none
      → deliver id result c ≡ c
  unfolding deliver
  deliver-missing id result c e = rw (e, deliver) refl

  pub removed :
      (id : RequestId) (c : Client Value Object) → lookup id (remove_pending id c).pending ≡ none
  unfolding remove_pending
  removed id c = lookup-remove id id c.pending ∙ rw ((same_id_iff id id).1 refl) refl

  pub send_message-open :
      (frame : Value) (c : Client Value Object)
      → c.outbound_open ≡ true
      → send_message frame c ≡ (record c { outbound = c.outbound ++ frame ∷ [] }, ok tt)
  send_message-open frame c o = rw o refl

  pub register-registered : (c : Client Value Object) → Waits (register c).1 (register c).0
  unfolding register
  register-registered c =
      lookup-insert (integer c.next_id) (integer c.next_id) c.next_slot c.pending
      ∙ rw ((same_id_iff (integer c.next_id) (integer c.next_id)).1 refl) refl
