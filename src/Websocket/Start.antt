-- ===== src/Websocket/Start.antt =====
-- Starting a websocket server: `ensure_local_ws_app_server`, `start_ws_server` and what they call
-- (crates/sdk/src/transport/ws_daemon.rs).
--
-- The probes are counted: 0 and 1 look for a server that runs, before and under the lock of its
-- endpoint. The rounds of waiting are on fuel; a start without an answer ran out of it.
pub mod Outcome
pub mod Managed
use codex_sdk_rs.Prelude.{
  ℕ, zero, suc, ◌+◌, String, Bool, true, false, Option, none, some, List, [], ◌∷◌, leb, map_some,
  if◌then◌else◌,
}
use codex_sdk_rs.Prelude.Text.{concat}
use codex_sdk_rs.Protocol.{ClientError, Result, ok, err, ◌>>=◌}
use codex_sdk_rs.SerdeJson.{SerdeJson}
use codex_sdk_rs.Websocket.Probe.{Network, ProbeState, probe_app_server}
use codex_sdk_rs.Websocket.Ready.{Watch, probe, wait_for_ready}
use codex_sdk_rs.Websocket.Server.{
  WsServerHandle, WsStartMode, Child, from_reused_existing, daemon_started, blocking_started,
}
use codex_sdk_rs.Websocket.Target.{WsStartTarget, Url, parse_managed_ws_target, build_start_target}
use codex_sdk_rs.Websocket.Spawn.{System, Command, Spawned, spawn_daemon, spawn_owned_process}

pub record WsStartConfig : Type 0 where
  pub listen_url : String
  pub connect_url : String
  pub env : List (String × String)
  pub reuse_existing : Bool

module _ ⦃json : SerdeJson⦄ (network : Network) (system : System) (watch : Watch)
    (auth_token : Option String) where
  open json use {Value}

  abbrev pub Answer : Type 0 → Type 0
  Answer A = Result A (ClientError Value)

  -- The match of `existing_server_handle`.
  abbrev pub existing :
      WsStartTarget → Bool → WsStartMode → Result ProbeState String → Answer (Option WsServerHandle)
  existing target reuse_existing mode (ok ProbeState.reachable) =
      if reuse_existing
      then ok (
          some
            (from_reused_existing target.listen_url target.connect_url mode (some target.log_path)))
      else err (
          ClientError.startup
            (concat (
              "websocket app-server already running at `" ∷ target.connect_url
              ∷ "` and reuse_existing is disabled" ∷ []))
            (some target.log_path))
  existing target reuse_existing mode (ok ProbeState.unavailable) = ok none
  existing target reuse_existing mode (err probe_failure) = err (
      ClientError.startup
        (concat
          ("websocket startup conflict at `" ∷ target.connect_url ∷ "`: " ∷ probe_failure ∷ []))
        (some target.log_path))

  unfoldable pub existing_server_handle :
      WsStartTarget → Bool → WsStartMode → (attempt : ℕ) → Answer (Option WsServerHandle)
  existing_server_handle target reuse_existing mode attempt =
      existing target reuse_existing mode (probe network watch auth_token target attempt)

  abbrev pub Start : Type 0
  Start = Spawned (Option (Answer WsServerHandle))

  abbrev pub ready_daemon : WsStartTarget → Answer (Unit {0}) → Answer WsServerHandle
  ready_daemon target waited =
      waited >>= λ done. ok (daemon_started target.listen_url target.connect_url target.log_path)

  abbrev pub wait_daemon : WsStartTarget → ℕ → Spawned (Answer (Unit {0})) → Start
  wait_daemon target rounds (command, err e) = (command, some (err e))
  wait_daemon target rounds (command, ok done) = (
    command,
    map_some (ready_daemon target) (wait_for_ready network watch auth_token target none rounds 0),
  )

  abbrev pub ready_owned : WsStartTarget → Child → Answer (Unit {0}) → Answer WsServerHandle
  ready_owned target child waited =
      waited >>= λ done. ok (blocking_started target.listen_url target.connect_url child)

  abbrev pub wait_owned : WsStartTarget → ℕ → Spawned (Result Child String) → Start
  wait_owned target rounds (command, err text) = (command, some (err (ClientError.io text)))
  wait_owned target rounds (command, ok child) = (
    command,
    map_some (ready_owned target child)
        (wait_for_ready network watch auth_token target (some child) rounds 0),
  )

  abbrev pub start_new : WsStartTarget → List (String × String) → ℕ → WsStartMode → Start
  start_new target env rounds WsStartMode.daemon =
      wait_daemon target rounds (spawn_daemon system target env)
  start_new target env rounds WsStartMode.blocking =
      wait_owned target rounds (spawn_owned_process system target env)

  -- What follows a look for a server that runs.
  abbrev pub unless_found : Answer (Option WsServerHandle) → Start → Start
  unless_found (err e) rest = (none, some (err e))
  unless_found (ok (some handle)) rest = (none, some (ok handle))
  unless_found (ok none) rest = rest

  unfoldable pub start_ws_server_internal :
      WsStartTarget → List (String × String) → Bool → WsStartMode → ℕ → Start
  start_ws_server_internal target env reuse_existing mode rounds =
      unless_found (existing_server_handle target reuse_existing mode 0) (
        unless_found (existing_server_handle target reuse_existing mode 1)
          (start_new target env rounds mode))

-- The start of a configured server.
module _ ⦃json : SerdeJson⦄ (network : Network) (system : System) (watch : Watch)
    (parse_url : String → Result Url String) where
  open json use {Value}
  open system use {temp_dir}

  abbrev pub start_at :
      WsStartConfig
      → WsStartMode
      → ℕ
      → Result WsStartTarget (ClientError Value)
      → Spawned (Option (Result WsServerHandle (ClientError Value)))
  start_at config mode rounds (err e) = (none, some (err e))
  start_at config mode rounds (ok target) =
      start_ws_server_internal network system watch none target config.env config.reuse_existing
        mode rounds

  unfoldable pub start_ws_server :
      WsStartConfig → WsStartMode → ℕ → Spawned (Option (Result WsServerHandle (ClientError Value)))
  start_ws_server config mode rounds =
      start_at config mode rounds
        (build_start_target temp_dir parse_url config.listen_url config.connect_url)

  abbrev pub ensure_at :
      List (String × String)
      → Option String
      → ℕ
      → Result (Option WsStartTarget) (ClientError Value)
      → Spawned (Option (Result (Unit {0}) (ClientError Value)))
  ensure_at env auth_token rounds (err e) = (none, some (err e))
  ensure_at env auth_token rounds (ok none) = (none, some (ok tt))
  ensure_at env auth_token rounds (ok (some target)) =
      let (command, answer) =
        start_ws_server_internal network system watch auth_token target env true WsStartMode.daemon
          rounds in
      (command, map_some (λ result. result >>= λ handle. ok tt) answer)

  unfoldable pub ensure_local_ws_app_server :
      String
      → List (String × String)
      → Option String
      → ℕ
      → Spawned (Option (Result (Unit {0}) (ClientError Value)))
  ensure_local_ws_app_server url env auth_token rounds =
      ensure_at env auth_token rounds (parse_managed_ws_target temp_dir parse_url url)
