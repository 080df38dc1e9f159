-- ===== src/Websocket/Start/Managed.antt =====
-- The server that `ensure_local_ws_app_server` may start
-- (crates/sdk/src/transport/ws_daemon.rs).
use codex_sdk_rs.Prelude.{◌≡◌, refl, String, true, Option, none, some, List, [], ◌∷◌}
use codex_sdk_rs.Protocol.{ClientError, Result, ok, err}
use codex_sdk_rs.SerdeJson.{SerdeJson}
use codex_sdk_rs.Websocket.Probe.{Network}
use codex_sdk_rs.Websocket.Server.{WsServerHandle, WsStartMode}
use codex_sdk_rs.Websocket.Target.{WsStartTarget, Url}
use codex_sdk_rs.Websocket.Target.Managed.{
  IsManaged, AllManaged, parse_managed_ws_target-AllManaged,
}
use codex_sdk_rs.Websocket.Spawn.{System, Command, Spawned, daemon_command}
use codex_sdk_rs.Websocket.Ready.{Watch}
use codex_sdk_rs.Websocket.Ready.Waiting.{Ticks, ready_rounds}
use codex_sdk_rs.Websocket.Start.{ensure_at, ensure_local_ws_app_server}
use codex_sdk_rs.Websocket.Start.Outcome.{
  IsFree, Outcome, reused, started_daemon, refused, failed, start_ws_server_internal-Outcome,
}

module _ ⦃json : SerdeJson⦄ (network : Network) (system : System) (watch : Watch)
    (parse_url : String → Result Url String) (url : String) (env : List (String × String))
    (auth_token : Option String) where
  open json use {Value}

  -- A command that starts the server of the URL's target, while nothing answered the URL.
  abbrev pub Serves : Command → Type 0
  Serves command =
      (target : WsStartTarget) × IsManaged url target
      × (command.args ≡ "app-server" ∷ "--listen" ∷ target.listen_url ∷ [])
      × IsFree network system watch auth_token target env

  abbrev pub Local : Spawned (Option (Result (Unit {0}) (ClientError Value))) → Type 0
  Local (none, answer) = Unit
  Local (some command, answer) = Serves command

  outcome-Local :
      (target : WsStartTarget)
      → IsManaged url target
      → (r : Spawned (Option (Result WsServerHandle (ClientError Value))))
      → Outcome network system watch auth_token target env true WsStartMode.daemon r
      → (answer : Option (Result (Unit {0}) (ClientError Value))) → Local (r.0, answer)
  unfolding daemon_command
  outcome-Local target managed r (reused mode attempt l f t) answer = tt
  outcome-Local target managed r (started_daemon round free l f) answer =
      (target, managed, refl, free)
  outcome-Local target managed r (refused mode e) answer = tt
  outcome-Local target managed r (failed mode e free) answer = (target, managed, refl, free)

  ensure_at-Local :
      Ticks watch
      → (parsed : Result (Option WsStartTarget) (ClientError Value)) → AllManaged url parsed
      → Local (ensure_at network system watch parse_url env auth_token ready_rounds parsed)
  ensure_at-Local ticks (err e) h = tt
  ensure_at-Local ticks (ok none) h = tt
  ensure_at-Local ticks (ok (some target)) h =
      outcome-Local target h _
        (start_ws_server_internal-Outcome network system watch auth_token target env ticks true
          WsStartMode.daemon)
        _

  -- Ensuring a local server spawns no process, or one server that listens on a loopback address (an
  -- address, not a name) for the URL, while both first probes of the URL found nothing there; in
  -- particular none is spawned for a URL of another host or scheme. Sleeping for an interval takes
  -- no less time than that.
  pub ensure_local_ws_app_server-Local :
      Ticks watch
      → Local (
          ensure_local_ws_app_server network system watch parse_url url env auth_token ready_rounds)
  unfolding ensure_local_ws_app_server
  ensure_local_ws_app_server-Local ticks =
      ensure_at-Local ticks _
        (parse_managed_ws_target-AllManaged Value system.temp_dir parse_url url)
