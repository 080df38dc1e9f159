-- ===== src/Websocket/Ready.antt =====
-- The wait for a started server: `wait_for_ready` of crates/sdk/src/transport/ws_daemon.rs.
--
-- The clock is read in milliseconds, once before the rounds and once in each. The probe of the n-th
-- round is the attempt `2 + n`. The rounds are on fuel; a wait without an answer ran out of it.
pub mod Waiting
use codex_sdk_rs.Prelude.{
  ℕ, zero, suc, ◌+◌, String, Bool, true, false, Option, none, some, List, [], ◌∷◌, leb,
  if◌then◌else◌,
}
use codex_sdk_rs.Prelude.Text.{concat}
use codex_sdk_rs.Protocol.{ClientError, Result, ok, err}
use codex_sdk_rs.SerdeJson.{SerdeJson}
use codex_sdk_rs.Websocket.Probe.{Network, ProbeState, probe_app_server}
use codex_sdk_rs.Websocket.Server.{Child}
use codex_sdk_rs.Websocket.Target.{WsStartTarget}

-- The clock and the owned child while a start waits.
pub record Watch : Type 0 where
  pub started_at : ℕ
  pub now : ℕ → ℕ
  pub exit_status : ℕ → Result (Option String) String

-- `STARTUP_TIMEOUT` and `PROBE_INTERVAL` in milliseconds.
abbrev pub startup_timeout : ℕ
startup_timeout = 10000

abbrev pub probe_interval : ℕ
probe_interval = 150

module _ ⦃json : SerdeJson⦄ (network : Network) (watch : Watch) (auth_token : Option String) where
  open json use {Value}
  open watch use {started_at, now, exit_status}

  abbrev pub Answer : Type 0 → Type 0
  Answer A = Result A (ClientError Value)

  abbrev pub probe : WsStartTarget → ℕ → Result ProbeState String
  probe target attempt = probe_app_server network attempt target.connect_url auth_token

  -- The look at an owned child that begins a round: `Ok(())` goes on.
  abbrev pub exited : WsStartTarget → Result (Option String) String → Answer (Unit {0})
  exited target (err text) = err (ClientError.io text)
  exited target (ok none) = ok tt
  exited target (ok (some status)) = err (
      ClientError.startup
        (concat (
          "websocket app-server for `" ∷ target.connect_url
          ∷ "` exited before becoming ready with status " ∷ status ∷ []))
        none)

  abbrev pub child_alive : WsStartTarget → Option Child → ℕ → Answer (Unit {0})
  child_alive target none round = ok tt
  child_alive target (some child) round = exited target (exit_status round)

  abbrev pub timed_out : WsStartTarget → Answer (Unit {0})
  timed_out target = err (
      ClientError.startup
        (concat ("timed out waiting for websocket app-server at `" ∷ target.connect_url ∷ "`" ∷ []))
        (some target.log_path))

  -- The rest of a round, given the rounds that follow it.
  abbrev pub after_probe :
      WsStartTarget
      → ℕ
      → Result ProbeState String
      → Option (Answer (Unit {0}))
      → Option (Answer (Unit {0}))
  after_probe target round (ok ProbeState.reachable) rest = some (ok tt)
  after_probe target round (ok ProbeState.unavailable) rest =
      if leb (started_at + startup_timeout) (now round) then some (timed_out target) else rest
  after_probe target round (err probe_failure) rest = some (
      err (
        ClientError.startup
          (concat (
            "websocket app-server readiness probe failed for `" ∷ target.connect_url ∷ "`: "
            ∷ probe_failure ∷ []))
          (some target.log_path)))

  abbrev pub wait_round :
      WsStartTarget
      → ℕ
      → Answer (Unit {0})
      → Option (Answer (Unit {0}))
      → Option (Answer (Unit {0}))
  wait_round target round (err e) rest = some (err e)
  wait_round target round (ok alive) rest = after_probe target round (probe target (2 + round)) rest

  unfoldable pub wait_for_ready :
      WsStartTarget → Option Child → (rounds round : ℕ) → Option (Answer (Unit {0}))
  wait_for_ready target child zero round = none
  wait_for_ready target child (suc rounds) round =
      let rest = wait_for_ready target child rounds (suc round) in
      wait_round target round (child_alive target child round) rest
