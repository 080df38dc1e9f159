-- ===== src/Websocket/Server/Released.antt =====
-- When the shutdown of a server succeeds: `WsServerHandle::shutdown` of
-- crates/sdk/src/transport/ws_daemon.rs.
use codex_sdk_rs.Prelude.{
  ℕ, zero, suc, ◌+◌, ◌≤◌, ◌<◌, ◌≡◌, ◌⊎◌, inl, inr, refl, ◌∙◌, subst, Bool, true, false, ◌&&◌,
  Option, none, some, arith, Bool-cases,
}
use codex_sdk_rs.Protocol.{ok, err}
use codex_sdk_rs.SerdeJson.{SerdeJson}
use codex_sdk_rs.Websocket.Probe.{Network}
use codex_sdk_rs.Websocket.Server.{
  WsServerHandle, Child, Process, Polled, exited_at, poll_exit, poll_released, not_released, force,
  shutdown, connect_target_released, shutdown_child,
}

start_or_later : (start attempt : ℕ) → start ≤ attempt → (attempt ≡ start) ⊎ (suc start ≤ attempt)
start_or_later start attempt h = omega arith

module _ ⦃json : SerdeJson⦄ (network : Network) (process : Process) (handle : WsServerHandle) where
  open json use {Value}
  open process use {try_wait}

  -- Nothing answers on the connect URL at this attempt.
  abbrev pub IsReleased : ℕ → Type 0
  IsReleased attempt = connect_target_released network process handle attempt ≡ true

  -- The child was seen to have exited, before or from the start on up to this attempt.
  abbrev pub HasExited : Bool → (start attempt : ℕ) → Type 0
  HasExited before start attempt =
      (before ≡ true) ⊎ ((m : ℕ) × (start ≤ m) × (m ≤ attempt) × (try_wait m ≡ ok true))

  abbrev pub Polls : Bool → (rounds start : ℕ) → Type 0
  Polls before rounds start =
      (attempt : ℕ) × (start ≤ attempt)
      × (attempt < start + rounds)
      × HasExited before start attempt
      × IsReleased attempt

  abbrev pub Releases : (rounds start : ℕ) → Type 0
  Releases rounds start =
      (attempt : ℕ) × (start ≤ attempt) × (attempt < start + rounds) × IsReleased attempt

  -- Some round of the second loop finds the target released, or the loop ends with the error.
  poll_released-answer :
      (rounds start : ℕ)
      → (((poll_released network process handle rounds start).answer ≡ ok tt)
          × Releases rounds start)
        ⊎ (((poll_released network process handle rounds start).answer
              ≡ err (not_released network process handle))
            × ¬ Releases rounds start)
  unfolding poll_released
  poll_released-answer zero start = inr (refl, λ r. absurd (omega (arith, r.1, r.2)))
  poll_released-answer (suc rounds) start =
      elim (Bool-cases (connect_target_released network process handle start)) [
        | inl t ↦ inl (rw (t) refl, (start, omega arith, omega arith, t))
        | inr f ↦ elim (poll_released-answer rounds (suc start)) [
          | inl (e, (attempt, l, h, t)) ↦ inl (rw (f) e, (attempt, omega arith, omega arith, t))
          | inr (e, never) ↦ inr (
            rw (f) e,
            λ (attempt, l, h, t). elim (start_or_later start attempt l) [
              | inl same ↦ absurd (ground (arith, same, t, f))
              | inr later ↦ never (attempt, later, omega arith, t)
            ],
          )
        ]
      ]

  -- What one poll finds is whether the child has exited up to it.
  found-HasExited :
      (before : Bool) (start : ℕ)
      → exited_at network process start before ≡ ok true
      → HasExited before start start
  found-HasExited true start e = inl refl
  found-HasExited false start e = inr (start, omega arith, omega arith, e)

  later-HasExited :
      (before found : Bool) (start attempt : ℕ)
      → exited_at network process start before ≡ ok found
      → suc start ≤ attempt
      → HasExited found (suc start) attempt
      → HasExited before start attempt
  later-HasExited true found start attempt e l h = inl refl
  later-HasExited false true start attempt e l h = inr (start, omega arith, omega arith, e)
  later-HasExited false false start attempt e l (inl p) = absurd (ground (arith, p))
  later-HasExited false false start attempt e l (inr (m, a, b, x)) = inr (m, omega arith, b, x)

  HasExited-later :
      (before found : Bool) (start attempt : ℕ)
      → exited_at network process start before ≡ ok found
      → HasExited before start attempt
      → HasExited found (suc start) attempt
  HasExited-later before true start attempt e h = inl refl
  HasExited-later true false start attempt e h = absurd (ground (arith, e))
  HasExited-later false false start attempt e (inl p) = absurd (ground (arith, p))
  HasExited-later false false start attempt e (inr (m, a, b, x)) = elim (start_or_later start m a) [
    | inl same ↦ absurd (ground (arith, e, subst (λ k. try_wait k ≡ ok true) same x))
    | inr later ↦ inr (m, later, b, x)
  ]

  HasExited-found :
      (before found : Bool) (start : ℕ)
      → exited_at network process start before ≡ ok found
      → HasExited before start start
      → found ≡ true
  HasExited-found before found start e h = elim (HasExited-later before found start start e h) [
    | inl p ↦ p
    | inr (m, a, b, x) ↦ absurd (omega (arith, a, b))
  ]

  -- The rounds of the first loop after one that does not return.
  later-Polls :
      (before found : Bool) (rounds start : ℕ)
      → exited_at network process start before ≡ ok found
      → Polls found rounds (suc start)
      → Polls before (suc rounds) start
  later-Polls before found rounds start e (attempt, l, h, x, t) =
      (attempt, omega arith, omega arith, later-HasExited before found start attempt e l x, t)

  Polls-later :
      (before found : Bool) (rounds start : ℕ)
      → exited_at network process start before ≡ ok found
      → (found && connect_target_released network process handle start) ≡ false
      → Polls before (suc rounds) start
      → Polls found rounds (suc start)
  Polls-later before found rounds start e f (attempt, l, h, x, t) =
      elim (start_or_later start attempt l) [
        | inl same ↦ absurd (
            ground (
              arith,
              f,
              HasExited-found before found start e (subst (λ k. HasExited before start k) same x),
              subst IsReleased same t,
            ))
        | inr later ↦
            (attempt, later, omega arith, HasExited-later before found start attempt e x, t)
      ]

  now-Polls :
      (before found : Bool) (rounds start : ℕ)
      → exited_at network process start before ≡ ok found
      → (found && connect_target_released network process handle start) ≡ true
      → Polls before (suc rounds) start
  now-Polls before true rounds start e t =
      (start, omega arith, omega arith, found-HasExited before start e, t)
  now-Polls before false rounds start e t = absurd (ground (arith, t))

  module _ (asked : (n : ℕ) → (b : Bool) × (try_wait n ≡ ok b)) where
    asked_at :
        (start : ℕ) (before : Bool) → (b : Bool) × (exited_at network process start before ≡ ok b)
    asked_at start true = (true, refl)
    asked_at start false = asked start

    poll_exit-answer :
        (group : Option ℕ) (rounds start : ℕ) (before : Bool)
        → (((poll_exit network process handle group rounds start before).answer
              ≡ Polled.returned (ok tt))
            × Polls before rounds start)
          ⊎ ((b : Bool) × ((poll_exit network process handle group rounds start before).answer
                ≡ Polled.still b)
              × ¬ Polls before rounds start)
    unfolding poll_exit
    poll_exit-answer group zero start before =
        inr (before, refl, λ r. absurd (omega (arith, r.1, r.2)))
    poll_exit-answer group (suc rounds) start before =
        let (found, e) = asked_at start before in
        elim (Bool-cases (found && connect_target_released network process handle start)) [
          | inl t ↦ inl (rw (e, t) refl, now-Polls before found rounds start e t)
          | inr f ↦ elim (poll_exit-answer group rounds (suc start) found) [
            | inl (q, polls) ↦ inl (rw (e, f) q, later-Polls before found rounds start e polls)
            | inr (b, q, never) ↦
                inr
                  (b, rw (e, f) q, λ polls. never (Polls-later before found rounds start e f polls))
          ]
        ]

    shutdown_child-answer :
        (group : Option ℕ) (child : Child)
        → process.wait_child ≡ ok tt
        → let answer = (shutdown_child network process handle group (some child)).answer in
          ((answer ≡ ok tt) × (Polls false 20 0 ⊎ Releases 20 20))
          ⊎ ((answer ≡ err (not_released network process handle))
              × ¬ Polls false 20 0
              × ¬ Releases 20 20)
    shutdown_child-answer group child waited = elim (poll_exit-answer group 20 0 false) [
      | inl (e, polls) ↦ inl (rw (e) refl, inl polls)
      | inr (b, e, never) ↦ elim (poll_released-answer 20 20) [
        | inl (q, r) ↦ inl (rw (e) (forced b ∙ q), inr r)
        | inr (q, r) ↦ inr (rw (e) (forced b ∙ q), never, r)
      ]
    ]
      where
        forced :
            (b : Bool)
            → (force network process handle group child (Polled.still b)).answer
              ≡ (poll_released network process handle 20 20).answer
        forced true = refl
        forced false = rw (waited) refl

module _ ⦃json : SerdeJson⦄ (network : Network) (process : Process) (handle : WsServerHandle) where
  -- Shutting down an owned server, whose process always answers, succeeds in exactly two cases: in
  -- one of the first twenty polls its child has been seen to exit and nothing answers on the
  -- connect URL, or nothing answers there in one of the twenty polls after the process group was
  -- killed and the child reaped. In every other case it is the startup error that names the URL and
  -- the log.
  pub shutdown-answer :
      (child : Child)
      → handle.child ≡ some child
      → ((n : ℕ) → (b : Bool) × (process.try_wait n ≡ ok b))
      → process.wait_child ≡ ok tt
      → let answer = (shutdown network process handle).1.answer in
        ((answer ≡ ok tt)
          × (Polls network process handle false 20 0 ⊎ Releases network process handle 20 20))
        ⊎ ((answer ≡ err (not_released network process handle))
            × ¬ Polls network process handle false 20 0
            × ¬ Releases network process handle 20 20)
  unfolding shutdown
  shutdown-answer child owned asked waited = rw (owned) (
      shutdown_child-answer network process
        (record handle { process_group_id = none; child = none }) asked handle.process_group_id
        child waited)
