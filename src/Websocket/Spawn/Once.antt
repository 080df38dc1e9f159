-- ===== src/Websocket/Spawn/Once.antt =====
-- That a daemon is spawned at most once, with its own command
-- (crates/sdk/src/transport/ws_daemon.rs).
use codex_sdk_rs.Prelude.{String, Option, none, some, List}
use codex_sdk_rs.Protocol.{ClientError, Result, ok, err}
use codex_sdk_rs.Websocket.Target.{WsStartTarget}
use codex_sdk_rs.Websocket.Spawn.{
  System, Command, daemon_command, joined, ready_log, spawn_daemon, spawn_daemon_process,
  spawn_with_log,
}

module _ (system : System) (target : WsStartTarget) (env : List (String × String)) where
  -- Nothing reached `spawn` and there is an error, or the command did.
  pub data MaySpawn {Value : Type 0}
      : Option Command × Result (Unit {0}) (ClientError Value) → Type 0 where
    did_not : (e : ClientError Value) → MaySpawn (none, err e)
    did :
        (answer : Result (Unit {0}) (ClientError Value))
        → MaySpawn (some (daemon_command system target env), answer)

  joined-MaySpawn :
      {Value : Type 0} (task : Option String) (file : Result (Unit {0}) String)
      → MaySpawn {Value = Value} (
          joined system target task (spawn_with_log system (daemon_command system target env) file))
  joined-MaySpawn (some text) file = did_not _
  joined-MaySpawn none (err text) = did_not _
  joined-MaySpawn none (ok tt) = did _

  pub spawn_daemon-MaySpawn :
      {Value : Type 0} → MaySpawn {Value = Value} (spawn_daemon system target env)
  unfolding spawn_daemon spawn_daemon_process
  spawn_daemon-MaySpawn = joined-MaySpawn system.join_error (ready_log system target)
