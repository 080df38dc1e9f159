-- ===== src/Client/EnsureReady.antt =====
-- `ensure_ready` of crates/sdk/src/client/mod.rs from its request to its end, with what happens in
-- between.
use codex_sdk_rs.Prelude.{
  ℕ, ◌+◌, ◌<◌, ◌^◌, ◌≡◌, refl, ap, true, false, none, some, List, [], ◌∷◌, ◌++◌, subst, String,
  arith, length, All, map_some,
}
use codex_sdk_rs.Protocol.{integer, RpcError, ClientError, Result, ok, err}
use codex_sdk_rs.SerdeJson.{SerdeJson}
use codex_sdk_rs.Incoming.{request_frame, notification_frame}
use codex_sdk_rs.Events.Notifications.{NotificationDecoders}
use codex_sdk_rs.Events.ServerRequests.{ServerRequestDecoders}
use codex_sdk_rs.Client.{
  Client, handshake_new, handshake_initializing, handshake_initialized, handshake_ready,
}
use codex_sdk_rs.Client.Requests.{Call, register, gate}
use codex_sdk_rs.Client.Operations.{Operation, Spares, apply_operation, run_operations}
use codex_sdk_rs.Client.Registered.{Within, Waits}
use codex_sdk_rs.Client.Delivery.{
  answer_frame, outcome, IsReadable, run_operations-answered, begin_request-sent,
}
use codex_sdk_rs.Client.Typed.{read_result, poll_typed}
use codex_sdk_rs.Client.Handshake.{
  Progress, store, empty_params, ensure_ready_enter, ensure_ready_resume,
}
use codex_sdk_rs.Client.Ready.{enter-new, announce-open}

module _ {Value Object : Type 0} where
  store-Within : (n state : ℕ) (c : Client Value Object) → Within n c → Within n (store state c)
  store-Within n state c h = record {
    next = h.next;
    is_next = h.is_next;
    few = h.few;
    sound = h.sound;
  }

module _ ⦃json : SerdeJson⦄ where
  open json use {Value, Object}

  -- How the handshake ends for the client on which the answer was read: `initialized` is sent, the
  -- state is READY, and a further `ensure_ready` succeeds without doing anything; or nothing is sent
  -- and the state is NEW again.
  abbrev pub Ends :
      Result (Unit {0}) (ClientError Value)
      → Client Value Object
      → Client Value Object × Result (Unit {0}) (ClientError Value)
      → Type 0
  Ends (ok done) c (after, result) =
      (after ≡ record c {
        outbound = c.outbound ++ notification_frame "initialized" empty_params ∷ [];
        handshake_state = handshake_ready;
      })
      × (result ≡ ok tt)
      × ((params : Value) → ensure_ready_enter params after ≡ (after, Progress.returned (ok tt)))
  Ends (err e) c (after, result) =
      (after ≡ record c { handshake_state = handshake_new }) × (result ≡ err e)

  resume-Ends :
      (r : Result (Unit {0}) (ClientError Value)) (c : Client Value Object)
      → c.outbound_open ≡ true
      → Ends r c (ensure_ready_resume r c)
  unfolding ensure_ready_resume ensure_ready_enter
  resume-Ends (ok done) c o =
      rw (announce-open (store handshake_initialized c) o) (refl, refl, λ params. refl)
  resume-Ends (err e) c o = (refl, refl)

module _ ⦃json : SerdeJson⦄ (notifications : NotificationDecoders json.Value json.Object)
    (requests : ServerRequestDecoders json.Value json.Object) where
  open json use {Value, Object}

  -- What the client is when the answer to the call arrives after other operations.
  abbrev pub answered :
      List Operation
      → Call
      → Result Value (RpcError Value)
      → Client Value Object
      → Client Value Object
  answered operations call result c =
      apply_operation notifications requests (Operation.receive (answer_frame call.id result))
        (run_operations notifications requests operations c)

  -- On an open connection that is not initialised and whose pending requests are sound, `ensure_ready`
  -- sends one `initialize` request with the next id and waits, and it goes on waiting through any
  -- sequence of other operations, until the frame that answers that id arrives. Then, if the
  -- transport is still open: a result that can be read is followed by one `initialized` notification,
  -- the state is READY, and a further `ensure_ready` succeeds and does nothing; otherwise nothing is
  -- sent, the state is NEW again, and the error is returned. Fewer than 2^63 ids are given out, and
  -- the error's data is not `null`.
  pub ensure_ready-handshake :
      (from_value : Value → Result (Unit {0}) String) (params : Value) (n : ℕ)
      (c : Client Value Object) (operations : List Operation)
      (result : Result Value (RpcError Value))
      → Within n c
      → n + 1 + length operations < 2 ^ 63
      → c.handshake_state < handshake_initialized
      → c.outbound_open ≡ true
      → All (Spares (register c).1) operations
      → IsReadable result
      → (answered operations (register c).1 result (ensure_ready_enter params c).0).outbound_open
        ≡ true
      → let call = (register c).1 in
        let (begun, progress) = ensure_ready_enter params c in
        let later = answered operations call result begun in
        let read = read_result from_value "initialize" (outcome result) in
        (progress ≡ Progress.waits call)
        × (begun.outbound
            ≡ c.outbound ++ request_frame "initialize" (integer c.next_id) params ∷ [])
        × (begun.handshake_state ≡ handshake_initializing)
        × (poll_typed from_value "initialize" call
              (run_operations notifications requests operations begun)
            ≡ none)
        × (poll_typed from_value "initialize" call later ≡ some read)
        × Ends read later (ensure_ready_resume read later)
  unfolding poll_typed register gate
  ensure_ready-handshake from_value params n c operations result h bound new o spares told p =
      let call = (register c).1 in
      let e = enter-new params c new o in
      let (sent, waits, sound) =
        begin_request-sent notifications requests n "initialize" params false
          (store handshake_initializing c) (store-Within n handshake_initializing c h)
          (ground (arith, bound)) refl o in
      let (quiet, given) =
        run_operations-answered notifications requests operations (n + 1) call
          (ensure_ready_enter params c).0 result (rw e (subst (λ b. Within (n + 1) b.0) sent sound))
          bound spares (rw e (subst (λ b. Waits call b.0) sent waits)) told in
      (
        ap (λ b. b.1) e,
        ap (λ b. b.0.outbound) e,
        ap (λ b. b.0.handshake_state) e,
        ap (map_some (read_result from_value "initialize")) quiet,
        ap (map_some (read_result from_value "initialize")) given,
        resume-Ends _ _ p,
      )
