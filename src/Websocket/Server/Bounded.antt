-- ===== src/Websocket/Server/Bounded.antt =====
-- What the shutdown of a server costs: `WsServerHandle::shutdown` of
-- crates/sdk/src/transport/ws_daemon.rs.
use codex_sdk_rs.Prelude.{
  ℕ, zero, suc, ◌+◌, ◌≤◌, ◌≡◌, refl, String, Bool, true, false, ◌&&◌, Option, none, some, List, [],
  ◌∷◌, ◌++◌, All, All-append, arith, eqb, leb, if◌then◌else◌, if_elim,
}
use codex_sdk_rs.Protocol.{ClientError, Result, ok, err}
use codex_sdk_rs.SerdeJson.{SerdeJson}
use codex_sdk_rs.Websocket.Probe.{Network}
use codex_sdk_rs.Websocket.Server.{
  WsServerHandle, Child, Action, Process, Did, Polled, terminate_process_group, kill_process_group,
  again, poll_round, exited_at, poll_exit, poll_released, reaped, force, shutdown_child, shutdown,
  connect_target_released,
}

abbrev pub count : (Action → Bool) → List Action → ℕ
count test [] = 0
count test (a ∷ rest) = if test a then suc (count test rest) else count test rest

abbrev pub is_sleep : Action → Bool
is_sleep Action.sleep = true
is_sleep _ = false

abbrev pub is_signal : ℕ → Action → Bool
is_signal n (Action.signal group m) = eqb m n
is_signal n _ = false

count-append :
    (test : Action → Bool) (xs ys : List Action)
    → count test (xs ++ ys) ≡ count test xs + count test ys
count-append test [] ys = omega arith
count-append test (x ∷ xs) ys = ground (arith, count-append test xs ys)

-- The action concerns nothing but this process group and this child.
abbrev pub Concerns : Option ℕ → Option Child → Action → Type 0
Concerns group child (Action.signal g n) = group ≡ some g
Concerns group child (Action.kill c) = child ≡ some c
Concerns group child (Action.wait c) = child ≡ some c
Concerns group child Action.sleep = Unit

-- At most these many sleeps, SIGTERMs and SIGKILLs, and no other process is touched.
pub record Costs (group : Option ℕ) (child : Option Child) (sleeps terms kills : ℕ)
    (actions : List Action) : Type 0 where
  pub slept : count is_sleep actions ≤ sleeps
  pub termed : count (is_signal 15) actions ≤ terms
  pub killed : count (is_signal 9) actions ≤ kills
  pub own : All (Concerns group child) actions

-- How many of the rounds from this attempt on are the one that signals again.
abbrev resends : ℕ → ℕ
resends attempt = if leb attempt 5 then 1 else 0

module _ {group : Option ℕ} {child : Option Child} where
  Costs-append :
      {s t k s' t' k' : ℕ} (xs ys : List Action)
      → Costs group child s t k xs
      → Costs group child s' t' k' ys
      → Costs group child (s + s') (t + t') (k + k') (xs ++ ys)
  Costs-append xs ys h h' = record {
    slept = omega (arith, count-append is_sleep xs ys, h.slept, h'.slept);
    termed = omega (arith, count-append (is_signal 15) xs ys, h.termed, h'.termed);
    killed = omega (arith, count-append (is_signal 9) xs ys, h.killed, h'.killed);
    own = All-append (Concerns group child) xs ys h.own h'.own;
  }

  Costs-le :
      {s t k s' t' k' : ℕ} {xs : List Action}
      → Costs group child s t k xs
      → s ≤ s'
      → t ≤ t'
      → k ≤ k'
      → Costs group child s' t' k' xs
  Costs-le h p q r = record {
    slept = omega (arith, h.slept);
    termed = omega (arith, h.termed);
    killed = omega (arith, h.killed);
    own = h.own;
  }

  nothing-Costs : Costs group child 0 0 0 []
  nothing-Costs = record {
    slept = omega arith;
    termed = omega arith;
    killed = omega arith;
    own = tt;
  }

  sleep-Costs : Costs group child 1 0 0 (Action.sleep ∷ [])
  sleep-Costs = record {
    slept = omega arith;
    termed = omega arith;
    killed = omega arith;
    own = (tt, tt);
  }

module _ (group : Option ℕ) (child : Option Child) where
  terminate-Costs : Costs group child 0 1 0 (terminate_process_group group)
  terminate-Costs = elim group as (λ g. Costs g child 0 1 0 (terminate_process_group g)) [
    | none ↦ Costs-le nothing-Costs (omega arith) (omega arith) (omega arith)
    | some g ↦ ground arith
  ]

  kill-Costs : Costs group child 0 0 1 (kill_process_group group)
  kill-Costs = elim group as (λ g. Costs g child 0 0 1 (kill_process_group g)) [
    | none ↦ Costs-le nothing-Costs (omega arith) (omega arith) (omega arith)
    | some g ↦ ground arith
  ]

  again-Costs :
      (attempt : ℕ) → Costs group child 1 (if eqb attempt 5 then 1 else 0) 0 (again group attempt)
  again-Costs attempt =
      elim (eqb attempt 5)
        as (λ b.
          Costs group child 1 (if b then 1 else 0) 0
            ((if b then terminate_process_group group else []) ++ Action.sleep ∷ [])) [
              | true ↦ Costs-append (terminate_process_group group) _ terminate-Costs sleep-Costs
              | false ↦ sleep-Costs
            ]

module _ ⦃json : SerdeJson⦄ (network : Network) (process : Process) (handle : WsServerHandle)
    (group : Option ℕ) where
  module _ (child : Option Child) where
    poll_round-Costs :
        (attempt rounds : ℕ) (exited : Result Bool String) (rest : Bool → Did (Polled json.Value))
        → ((b : Bool) → Costs group child rounds (resends (suc attempt)) 0 (rest b).actions)
        → Costs group child
            (suc rounds)
            (resends attempt)
            0
            (poll_round network process handle group attempt exited rest).actions
    poll_round-Costs attempt rounds (err text) rest h =
        Costs-le nothing-Costs (omega arith) (ground arith) (omega arith)
    poll_round-Costs attempt rounds (ok b) rest h =
        if_elim
          (λ (d : Did (Polled json.Value)).
            Costs group child (suc rounds) (resends attempt) 0 d.actions)
          (b && connect_target_released network process handle attempt)
          (λ t. Costs-le nothing-Costs (omega arith) (ground arith) (omega arith))
          (λ f.
            Costs-le
              (Costs-append (again group attempt) (rest b).actions (again-Costs group child attempt)
                (h b))
              (omega arith) (ground arith) (omega arith))

    poll_exit-Costs :
        (rounds attempt : ℕ) (b : Bool)
        → Costs group child rounds
            (resends attempt)
            0
            (poll_exit network process handle group rounds attempt b).actions
    unfolding poll_exit
    poll_exit-Costs zero attempt b =
        Costs-le nothing-Costs (omega arith) (ground arith) (omega arith)
    poll_exit-Costs (suc rounds) attempt b =
        poll_round-Costs attempt rounds (exited_at network process attempt b) _
          (λ c. poll_exit-Costs rounds (suc attempt) c)

    poll_released-Costs :
        (rounds attempt : ℕ)
        → Costs group child rounds 0 0 (poll_released network process handle rounds attempt).actions
    unfolding poll_released
    poll_released-Costs zero attempt = nothing-Costs
    poll_released-Costs (suc rounds) attempt =
        if_elim
          (λ (d : Did (Result (Unit {0}) (ClientError json.Value))).
            Costs group child (suc rounds) 0 0 d.actions)
          (connect_target_released network process handle attempt)
          (λ t. Costs-le nothing-Costs (omega arith) (omega arith) (omega arith))
          (λ f.
            Costs-le (Costs-append _ _ sleep-Costs (poll_released-Costs rounds (suc attempt)))
              (omega arith) (omega arith) (omega arith))

  module _ (child : Child) where
    reaped-Costs :
        (waited : Result (Unit {0}) String)
        (rest : Did (Result (Unit {0}) (ClientError json.Value)))
        → Costs group (some child) 20 0 0 rest.actions
        → Costs group (some child) 20 0 0 (reaped network process child waited rest).actions
    reaped-Costs (ok done) rest h = record {
      slept = h.slept;
      termed = h.termed;
      killed = h.killed;
      own = (refl, (refl, h.own));
    }
    reaped-Costs (err text) rest h = record {
      slept = omega arith;
      termed = omega arith;
      killed = omega arith;
      own = (refl, (refl, tt));
    }

    force-Costs :
        (polled : Polled json.Value)
        → Costs group (some child) 20 0 1 (force network process handle group child polled).actions
    force-Costs (Polled.returned result) =
        Costs-le nothing-Costs (omega arith) (omega arith) (omega arith)
    force-Costs (Polled.still b) =
        Costs-append (kill_process_group group) _ (kill-Costs group (some child)) (
          if_elim
            (λ (d : Did (Result (Unit {0}) (ClientError json.Value))).
              Costs group (some child) 20 0 0 d.actions)
            b (λ t. poll_released-Costs (some child) 20 20)
            (λ f. reaped-Costs process.wait_child _ (poll_released-Costs (some child) 20 20)))

  shutdown_child-Costs :
      (child : Option Child)
      → Costs group child 40 2 1 (shutdown_child network process handle group child).actions
  shutdown_child-Costs none = Costs-le nothing-Costs (omega arith) (omega arith) (omega arith)
  shutdown_child-Costs (some child) =
      Costs-append (terminate_process_group group) _ (terminate-Costs group (some child))
        (Costs-append _ _ (poll_exit-Costs (some child) 20 0 false) (force-Costs child _))

module _ ⦃json : SerdeJson⦄ (network : Network) (process : Process) (handle : WsServerHandle) where
  -- A shutdown ends after at most 40 sleeps of a poll's interval, and sends at most two SIGTERMs
  -- and one SIGKILL; it signals no process group and kills and waits for no child but those of the
  -- handle. Whatever it answers, the handle owns no process afterwards, and a further shutdown does
  -- nothing and succeeds.
  pub shutdown-Costs :
      Costs handle.process_group_id handle.child 40 2 1 (shutdown network process handle).1.actions
      × (let h = (shutdown network process handle).0 in
          shutdown network process h ≡ (h, record { actions = []; answer = ok tt }))
  unfolding shutdown
  shutdown-Costs =
      (shutdown_child-Costs network process _ handle.process_group_id handle.child, refl)
