-- ===== src/Client/Ready.antt =====
-- What the handshake of crates/sdk/src/client/mod.rs does to the connection.
use codex_sdk_rs.Prelude.{
  ℕ, ◌<◌, ◌≤◌, ◌≡◌, refl, ap, true, false, [], ◌∷◌, ◌++◌, eqb, ltb, lt→ltb, arith, if_elim,
}
use codex_sdk_rs.Protocol.{integer, ClientError, Result, ok, err}
use codex_sdk_rs.SerdeJson.{SerdeJson}
use codex_sdk_rs.Incoming.{request_frame, notification_frame}
use codex_sdk_rs.Client.{Client, handshake_initializing, handshake_initialized, handshake_ready}
use codex_sdk_rs.Client.Requests.{
  begin_request, gate, register, send_notification, after_send, remove_pending,
}
use codex_sdk_rs.Client.Registered.{begin_request_elim}
use codex_sdk_rs.Client.Waiting.{send_message-open}
use codex_sdk_rs.Client.Handshake.{
  Progress, fetch_max, store, empty_params, initialize_begin, initialize_end, initialized,
  finish_with, announce, after_begin, ensure_ready_enter,
}

fetch_max-le : (a b : ℕ) → a ≤ fetch_max a b
fetch_max-le a b = ground arith

not-ready : (a : ℕ) → a < handshake_initialized → eqb a handshake_ready ≡ false
not-ready a h = ground (arith, h)

module _ ⦃json : SerdeJson⦄ where
  open json use {Value, Object}

  initialize_end-monotone :
      (r : Result (Unit {0}) (ClientError Value)) (c : Client Value Object)
      → c.handshake_state ≤ (initialize_end r c).0.handshake_state
  unfolding initialize_end
  initialize_end-monotone (ok result) c = fetch_max-le c.handshake_state handshake_initialized
  initialize_end-monotone (err e) c = ground arith

  initialized-monotone :
      (c : Client Value Object) → c.handshake_state ≤ (initialized c).0.handshake_state
  unfolding initialized send_notification
  initialized-monotone c =
      if_elim
        (λ (r : Client Value Object × Result (Unit {0}) (ClientError Value)).
          c.handshake_state ≤ r.0.handshake_state)
        (ltb c.handshake_state handshake_initialized) (λ e. ground arith)
        λ e.
          if_elim
            (λ r.
              c.handshake_state
              ≤ (finish_with (λ state. fetch_max state handshake_ready) r).0.handshake_state)
            c.outbound_open (λ o. fetch_max-le c.handshake_state handshake_ready) λ o. ground arith

  initialize_begin-same :
      (params : Value) (c : Client Value Object)
      → (initialize_begin params c).0.handshake_state ≡ c.handshake_state
  unfolding initialize_begin register remove_pending
  initialize_begin-same params c =
      begin_request_elim (λ after. after.handshake_state ≡ c.handshake_state) "initialize" params
        false c refl (λ outbound. refl) refl

  -- `initialize` and `initialized`, called by the user, never lower the state of the handshake,
  -- whatever happens between the request and its answer: not when they are refused, not when a frame
  -- is not sent, and not when the answer is an error.
  pub explicit_handshake-monotone :
      (params : Value) (r : Result (Unit {0}) (ClientError Value)) (c : Client Value Object)
      → (c.handshake_state ≤ (initialize_begin params c).0.handshake_state)
        × (c.handshake_state ≤ (initialize_end r c).0.handshake_state)
        × (c.handshake_state ≤ (initialized c).0.handshake_state)
  explicit_handshake-monotone params r c = (
    ground (arith, initialize_begin-same params c),
    initialize_end-monotone r c,
    initialized-monotone c,
  )

  pub announce-open :
      (c : Client Value Object)
      → c.outbound_open ≡ true
      → announce c ≡ (
        record c {
          outbound = c.outbound ++ notification_frame "initialized" empty_params ∷ [];
          handshake_state = handshake_ready;
        },
        ok tt,
      )
  unfolding announce send_notification
  announce-open c o =
      ap (finish_with (λ state. handshake_ready))
        (send_message-open (notification_frame "initialized" empty_params) c o)

  pub enter-new :
      (params : Value) (c : Client Value Object)
      → c.handshake_state < handshake_initialized
      → c.outbound_open ≡ true
      → ensure_ready_enter params c ≡ (
        record (register c).0 {
          outbound = c.outbound ++ request_frame "initialize" (integer c.next_id) params ∷ [];
          handshake_state = handshake_initializing;
        },
        Progress.waits (register c).1,
      )
  unfolding ensure_ready_enter begin_request register gate
  enter-new params c new o =
      rw (not-ready c.handshake_state new, ensure_ready_enter)
        (rw (lt→ltb c.handshake_state handshake_initialized new, ensure_ready_enter)
          (ap (λ r. after_begin (after_send (register c).1 r))
            (send_message-open (request_frame "initialize" (integer c.next_id) params)
              (register (store handshake_initializing c)).0 o)))
