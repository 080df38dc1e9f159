-- ===== src/Websocket/Ready/Waiting.antt =====
-- How long the wait for a started server takes (crates/sdk/src/transport/ws_daemon.rs).
use codex_sdk_rs.Prelude.{
  ℕ, zero, suc, ◌+◌, ◌*◌, ◌≤◌, ◌<◌, ◌≡◌, refl, Bool, String, Option, none, some, arith, leb, inl,
  inr, ◌⊎◌, if◌then◌else◌,
}
use codex_sdk_rs.Protocol.{ClientError, Result, ok, err}
use codex_sdk_rs.SerdeJson.{SerdeJson}
use codex_sdk_rs.Websocket.Probe.{Network, ProbeState}
use codex_sdk_rs.Websocket.Server.{Child}
use codex_sdk_rs.Websocket.Target.{WsStartTarget}
use codex_sdk_rs.Websocket.Ready.{
  Watch, probe, probe_interval, startup_timeout, child_alive, after_probe, timed_out, wait_round,
  wait_for_ready,
}

-- Time does not run backwards, and a sleep lasts no less than was asked for.
pub record Ticks (watch : Watch) : Type 0 where
  pub begins : watch.started_at ≤ watch.now 0
  pub sleeps : (round : ℕ) → watch.now round + probe_interval ≤ watch.now (suc round)

elapsed :
    {watch : Watch} → Ticks watch → (round : ℕ) → watch.started_at + 150 * round ≤ watch.now round
elapsed ticks zero = omega (arith, ticks.begins)
elapsed ticks (suc round) = omega (arith, elapsed ticks round, ticks.sleeps round)

-- The rounds that the timeout and the interval allow.
abbrev pub ready_rounds : ℕ
ready_rounds = 68

module _ ⦃json : SerdeJson⦄ (network : Network) (watch : Watch) (auth_token : Option String)
    (target : WsStartTarget) (child : Option Child) where
  -- An answer, which is `Ok(())` only if a probe of some round reached the server.
  abbrev pub Answered : Option (Result (Unit {0}) (ClientError json.Value)) → Type 0
  Answered waited =
      (answer : Result (Unit {0}) (ClientError json.Value)) × (waited ≡ some answer)
      × (answer ≡ ok tt
          → (round : ℕ) × (round < ready_rounds)
            × (probe network watch auth_token target (2 + round) ≡ ok ProbeState.reachable))

  failed : (e : ClientError json.Value) → Answered (some (err e))
  failed e = (err e, refl, λ p. absurd (ground (arith, p)))

  after_probe-Answered :
      (round : ℕ) (rest : Option (Result (Unit {0}) (ClientError json.Value)))
      (found : Result ProbeState String)
      → probe network watch auth_token target (2 + round) ≡ found
      → round < ready_rounds
      → (leb (watch.started_at + startup_timeout) (watch.now round) ≡ Bool.true) ⊎ Answered rest
      → Answered (after_probe network watch auth_token target round found rest)
  after_probe-Answered round rest (ok ProbeState.reachable) e l h =
      (ok tt, refl, λ p. (round, l, e))
  after_probe-Answered round rest (err text) e l h = failed _
  after_probe-Answered round rest (ok ProbeState.unavailable) e l (inl late) = rw (late) (failed _)
  after_probe-Answered round rest (ok ProbeState.unavailable) e l (inr h) =
      elim (leb (watch.started_at + startup_timeout) (watch.now round))
        as (λ b. Answered (if b then some (timed_out network watch auth_token target) else rest)) [
          | Bool.true ↦ failed _
          | Bool.false ↦ h
        ]

  wait_round-Answered :
      (round : ℕ) (rest : Option (Result (Unit {0}) (ClientError json.Value)))
      (alive : Result (Unit {0}) (ClientError json.Value))
      → round < ready_rounds
      → (leb (watch.started_at + startup_timeout) (watch.now round) ≡ Bool.true) ⊎ Answered rest
      → Answered (wait_round network watch auth_token target round alive rest)
  wait_round-Answered round rest (err e) l h = failed e
  wait_round-Answered round rest (ok tt) l h =
      after_probe-Answered round rest (probe network watch auth_token target (2 + round)) refl l h

  wait_from-Answered :
      (rounds round : ℕ)
      → Ticks watch
      → suc rounds + round ≡ ready_rounds
      → Answered (wait_for_ready network watch auth_token target child (suc rounds) round)
  unfolding wait_for_ready
  wait_from-Answered zero round ticks e =
      wait_round-Answered round none (child_alive network watch auth_token target child round)
        (omega arith) (inl (ground (arith, elapsed ticks round)))
  wait_from-Answered (suc rounds) round ticks e =
      wait_round-Answered round _ (child_alive network watch auth_token target child round)
        (omega arith) (inr (wait_from-Answered rounds (suc round) ticks (omega arith)))

  -- The wait for a started server ends within 68 rounds of probing, whatever the server, its process
  -- and the network do, if sleeping for an interval takes no less time than that; and it succeeds
  -- only if a probe of one of these rounds reached the server.
  pub wait_for_ready-Answered :
      Ticks watch → Answered (wait_for_ready network watch auth_token target child ready_rounds 0)
  wait_for_ready-Answered ticks = wait_from-Answered 67 0 ticks refl
