-- ===== src/Client/Registered.antt =====
-- The invariant of a client (crates/sdk/src/client/mod.rs), the operations that keep it, and the ways
-- in which a request may begin.
use codex_sdk_rs.Prelude.{
  ℕ, ◌+◌, ◌<◌, ◌≤◌, ◌^◌, ◌≡◌, refl, Bool, none, some, List, String, arith, inl, inr, if_elim,
  Option-cases,
}
use codex_sdk_rs.Prelude.Int.{pos}
use codex_sdk_rs.Protocol.{RequestId, RpcError, Result}
use codex_sdk_rs.SerdeJson.{SerdeJson}
use codex_sdk_rs.Client.{Client}
use codex_sdk_rs.Client.Pending.{lookup, remove}
use codex_sdk_rs.Client.Requests.{
  Call, begin_request, after_send, after_gate, remove_pending, register, drop_sender, gate,
}
use codex_sdk_rs.Client.Inbound.{deliver}
use codex_sdk_rs.Client.Invariant.{Sound, settle-Sound, remove-Sound, insert-Sound, lookup-fresh}

module _ {Value Object : Type 0} where
  -- The client's pending requests are sound, and fewer than `n` ids were given out.
  pub record Within (n : ℕ) (c : Client Value Object) : Type 0 where
    pub next : ℕ
    pub is_next : c.next_id ≡ pos next
    pub few : next ≤ n
    pub sound : Sound c.pending c.slots c.next_slot next

  -- The call is registered.
  abbrev pub Waits : Call → Client Value Object → Type 0
  Waits call c = lookup call.id c.pending ≡ some call.slot

  pub remove_pending-Within :
      (n : ℕ) (id : RequestId) (c : Client Value Object)
      → Within n c
      → Within n (remove_pending id c)
  unfolding remove_pending
  remove_pending-Within n id c h =
      elim (lookup id c.pending)
          as (λ o.
            lookup id c.pending ≡ o
            → Within n
                (record c { pending = remove id c.pending; slots = drop_sender o c.slots })) [
                  | none ↦ λ e. record {
                    next = h.next;
                    is_next = h.is_next;
                    few = h.few;
                    sound = remove-Sound id _ _ c.pending c.slots h.sound;
                  }
                  | some s ↦ λ e. record {
                    next = h.next;
                    is_next = h.is_next;
                    few = h.few;
                    sound = settle-Sound id s _ _ c.pending c.slots h.next e h.sound;
                  }
                ]
        refl

  pub deliver-Within :
      (n : ℕ) (id : RequestId) (result : Result Value (RpcError Value)) (c : Client Value Object)
      → Within n c
      → Within n (deliver id result c)
  unfolding deliver
  deliver-Within n id result c h = elim (Option-cases (lookup id c.pending)) [
    | inl e ↦ rw (e, deliver) h
    | inr (s, e) ↦
        rw (e, deliver)
          (record {
            next = h.next;
            is_next = h.is_next;
            few = h.few;
            sound = settle-Sound id s _ _ c.pending c.slots h.next e h.sound;
          })
  ]

  pub register-Within :
      (n : ℕ) (c : Client Value Object)
      → Within n c
      → n + 1 < 2 ^ 63
      → Within (n + 1) (register c).0
  unfolding register
  register-Within n c h bound = rw h.is_next (
      rw (lookup-fresh h.next c.next_slot c.slots c.pending h.sound.entries) (record {
        next = h.next + 1;
        is_next = ground (arith, h.few, bound);
        few = ground (arith, h.few);
        sound = insert-Sound h.next c.next_slot c.pending c.slots h.sound;
      }))

module _ ⦃json : SerdeJson⦄ where
  open json use {Value, Object}

  -- A request is begun in one of three ways.
  pub begin_request_elim {ℓ} :
      (P : Client Value Object → Type ℓ) (method : String) (params : Value) (requires_ready : Bool)
      (c : Client Value Object)
      → P c
      → ((outbound : List Value) → P (record (register c).0 { outbound = outbound }))
      → P (remove_pending (register c).1.id (register c).0)
      → P (begin_request method params requires_ready c).0
  unfolding begin_request register
  begin_request_elim P method params requires_ready c refused sent failed =
      elim (gate method requires_ready c) as (λ g. P (after_gate g method params c).0) [
        | some e ↦ refused
        | none ↦
            if_elim (λ r. P (after_send (register c).1 r).0) c.outbound_open (λ e. sent _)
              λ e. failed
      ]
