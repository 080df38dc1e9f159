-- ===== src/Websocket/Start/Outcome.antt =====
-- How a start of a websocket server ends (crates/sdk/src/transport/ws_daemon.rs).
use codex_sdk_rs.Prelude.{
  ℕ, ◌+◌, ◌≤◌, ◌<◌, ◌≡◌, refl, String, Bool, true, false, Option, none, some, List, arith, map_some,
}
use codex_sdk_rs.Protocol.{ClientError, Result, ok, err}
use codex_sdk_rs.SerdeJson.{SerdeJson}
use codex_sdk_rs.Websocket.Probe.{Network, ProbeState}
use codex_sdk_rs.Websocket.Server.{
  WsServerHandle, WsStartMode, Child, from_reused_existing, daemon_started, blocking_started,
}
use codex_sdk_rs.Websocket.Target.{WsStartTarget}
use codex_sdk_rs.Websocket.Spawn.{
  System, Command, Spawned, daemon_command, owned_command, spawn_daemon, spawn_owned_process,
}
use codex_sdk_rs.Websocket.Spawn.Once.{MaySpawn, did_not, did, spawn_daemon-MaySpawn}
use codex_sdk_rs.Websocket.Ready.{Watch, probe}
use codex_sdk_rs.Websocket.Ready.Waiting.{Ticks, Answered, ready_rounds, wait_for_ready-Answered}
use codex_sdk_rs.Websocket.Start.{
  Start, existing, existing_server_handle, wait_daemon, wait_owned, ready_daemon, ready_owned,
  start_new, unless_found, start_ws_server_internal,
}

module _ ⦃json : SerdeJson⦄ (network : Network) (system : System) (watch : Watch)
    (auth_token : Option String) (target : WsStartTarget) (env : List (String × String)) where
  abbrev pub Finds : ℕ → ProbeState → Type 0
  Finds attempt state = probe network watch auth_token target attempt ≡ ok state

  -- Nothing was listening before and under the lock.
  abbrev pub IsFree : Type 0
  IsFree = Finds 0 ProbeState.unavailable × Finds 1 ProbeState.unavailable

  abbrev pub command_for : WsStartMode → Command
  command_for WsStartMode.daemon = daemon_command system target env
  command_for WsStartMode.blocking = owned_command system target env

  -- The ends of a start, with the command that was spawned and the answer.
  pub data Outcome (reuse_existing : Bool)
      : WsStartMode
        → Option Command × Option (Result WsServerHandle (ClientError json.Value))
        → Type 0 where
    reused :
        (mode : WsStartMode) (attempt : ℕ)
        → attempt ≤ 1
        → Finds attempt ProbeState.reachable
        → reuse_existing ≡ true
        → Outcome reuse_existing mode (
          none,
          some (
              ok (
                from_reused_existing target.listen_url target.connect_url mode
                  (some target.log_path))),
        )
    started_daemon :
        (round : ℕ)
        → IsFree
        → round < ready_rounds
        → Finds (2 + round) ProbeState.reachable
        → Outcome reuse_existing WsStartMode.daemon (
          some (daemon_command system target env),
          some (ok (daemon_started target.listen_url target.connect_url target.log_path)),
        )
    started_blocking :
        (round : ℕ) (child : Child)
        → IsFree
        → round < ready_rounds
        → Finds (2 + round) ProbeState.reachable
        → system.spawn (owned_command system target env) ≡ ok child
        → Outcome reuse_existing WsStartMode.blocking (
          some (owned_command system target env),
          some (ok (blocking_started target.listen_url target.connect_url child)),
        )
    refused :
        (mode : WsStartMode) (e : ClientError json.Value)
        → Outcome reuse_existing mode (none, some (err e))
    failed :
        (mode : WsStartMode) (e : ClientError json.Value)
        → IsFree
        → Outcome reuse_existing mode (some (command_for mode), some (err e))

  module _ (ticks : Ticks watch) (reuse_existing : Bool) where
    -- A wait, after a process was started.
    daemon_waited :
        IsFree
        → (waited : Option (Result (Unit {0}) (ClientError json.Value)))
        → Answered network watch auth_token target none waited
        → Outcome reuse_existing WsStartMode.daemon (
          some (daemon_command system target env),
          map_some (ready_daemon network system watch auth_token target) waited,
        )
    daemon_waited free waited (ok tt, e, h) =
        let (round, l, found) = h refl in rw (e) (started_daemon round free l found)
    daemon_waited free waited (err x, e, h) = rw (e) (failed WsStartMode.daemon x free)

    owned_waited :
        (child : Child)
        → system.spawn (owned_command system target env) ≡ ok child
        → IsFree
        → (waited : Option (Result (Unit {0}) (ClientError json.Value)))
        → Answered network watch auth_token target (some child) waited
        → Outcome reuse_existing WsStartMode.blocking (
          some (owned_command system target env),
          map_some (ready_owned network system watch auth_token target child) waited,
        )
    owned_waited child s free waited (ok tt, e, h) =
        let (round, l, found) = h refl in rw (e) (started_blocking round child free l found s)
    owned_waited child s free waited (err x, e, h) = rw (e) (failed WsStartMode.blocking x free)

    daemon_spawned :
        (r : Spawned (Result (Unit {0}) (ClientError json.Value)))
        → MaySpawn system target env r
        → IsFree
        → Outcome reuse_existing WsStartMode.daemon
            (wait_daemon network system watch auth_token target ready_rounds r)
    daemon_spawned r (did_not x) free = refused WsStartMode.daemon x
    daemon_spawned r (did (err x)) free = failed WsStartMode.daemon x free
    daemon_spawned r (did (ok tt)) free =
        daemon_waited free _ (wait_for_ready-Answered network watch auth_token target none ticks)

    owned_spawned :
        (r : Result Child String)
        → system.spawn (owned_command system target env) ≡ r
        → IsFree
        → Outcome reuse_existing WsStartMode.blocking (
            wait_owned network system watch auth_token target ready_rounds
              (some (owned_command system target env), r))
    owned_spawned (err text) s free = failed WsStartMode.blocking (ClientError.io text) free
    owned_spawned (ok child) s free =
        owned_waited child s free _
          (wait_for_ready-Answered network watch auth_token target (some child) ticks)

    start_new-Outcome :
        (mode : WsStartMode)
        → IsFree
        → Outcome reuse_existing mode
            (start_new network system watch auth_token target env ready_rounds mode)
    unfolding spawn_owned_process
    start_new-Outcome WsStartMode.daemon free =
        daemon_spawned (spawn_daemon system target env) (spawn_daemon-MaySpawn system target env)
          free
    start_new-Outcome WsStartMode.blocking free =
        owned_spawned (system.spawn (owned_command system target env)) refl free

    -- A look for a server that runs, and what follows it.
    look-Outcome :
        (mode : WsStartMode) (attempt : ℕ) (rest : Start network system watch auth_token)
        (found : Result ProbeState String)
        → attempt ≤ 1
        → probe network watch auth_token target attempt ≡ found
        → (Finds attempt ProbeState.unavailable → Outcome reuse_existing mode rest)
        → Outcome reuse_existing mode (
            unless_found network system watch auth_token
              (existing network system watch auth_token target reuse_existing mode found)
              rest)
    look-Outcome mode attempt rest (err text) l e next = refused mode _
    look-Outcome mode attempt rest (ok ProbeState.unavailable) l e next = next e
    look-Outcome mode attempt rest (ok ProbeState.reachable) l e next =
        elim reuse_existing
          as (λ r. Outcome r mode (
            unless_found network system watch auth_token
              (existing network system watch auth_token target r mode (ok ProbeState.reachable))
              rest)) [ true ↦ reused mode attempt l e refl | false ↦ refused mode _ ]

  -- A start ends in one of five ways, if sleeping for an interval takes no less time than that: a
  -- server that answered one of the two first probes is reused, if that is allowed; a daemon or an
  -- owned child was spawned once, with the command for its mode, while both first probes found
  -- nothing, and a later probe reached it; the start is refused with an error and nothing was
  -- spawned; or it failed after a spawn.
  pub start_ws_server_internal-Outcome :
      Ticks watch
      → (reuse_existing : Bool) (mode : WsStartMode)
      → Outcome reuse_existing mode (
          start_ws_server_internal network system watch auth_token target env reuse_existing mode
            ready_rounds)
  unfolding start_ws_server_internal existing_server_handle
  start_ws_server_internal-Outcome ticks reuse_existing mode =
      look-Outcome ticks reuse_existing mode 0 _ (probe network watch auth_token target 0)
        (omega arith) refl
        λ first.
          look-Outcome ticks reuse_existing mode 1 _ (probe network watch auth_token target 1)
            (omega arith) refl λ second. start_new-Outcome ticks reuse_existing mode (first, second)
