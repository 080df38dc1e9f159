-- ===== src/Websocket/Spawn.antt =====
-- How crates/sdk/src/transport/ws_daemon.rs spawns a server on unix: its log, its command, and the
-- detached or owned process.
--
-- A file system call's answer is a parameter, as is what `spawn` answers to a command; an error of
-- these is its text. The commands that reach `spawn` are recorded.
pub mod Once
use codex_sdk_rs.Prelude.{
  ℕ, ◌*◌, String, Bool, true, false, not, Option, none, some, List, [], ◌∷◌, unwrap_or, or_else,
  ◌and_then◌, leb, if◌then◌else◌,
}
use codex_sdk_rs.Prelude.Text.{concat, is_empty_str}
use codex_sdk_rs.Protocol.{ClientError, Result, ok, err, ◌>>=◌}
use codex_sdk_rs.SerdeJson.{field}
use codex_sdk_rs.Websocket.Server.{Child}
use codex_sdk_rs.Websocket.Target.{WsStartTarget, daemon_log_dir}

pub data FileKind : Type 0 where
  symlink folder other_file : FileKind

-- `MAX_DAEMON_LOG_BYTES`.
abbrev pub max_daemon_log_bytes : ℕ
max_daemon_log_bytes = 10 * 1024 * 1024

pub data Output : Type 0 where
  inherited : Output
  log : Output

pub record Command : Type 0 where
  pub program : String
  pub args : List String
  pub env : List (String × String)
  pub output : Output
  pub own_process_group : Bool

-- The system: its variables, its temporary directory, its files and its processes.
pub record System : Type 0 where
  pub var : String → Option String
  pub temp_dir : String
  pub symlink_metadata : String → Option FileKind
  pub file_len : String → Option ℕ
  pub create_dir_all : String → Result (Unit {0}) String
  pub set_permissions : String → (mode : ℕ) → Result (Unit {0}) String
  pub open_file : String → (append truncate : Bool) → Result (Unit {0}) String
  pub try_clone : String → Result (Unit {0}) String
  pub join_error : Option String
  pub spawn : Command → Result Child String

-- The command that reached `spawn`, if one did, and the answer.
abbrev pub Spawned : Type 0 → Type 0
Spawned A = Option Command × A

abbrev non_empty : Option String → Option String
non_empty value = value and_then λ s. if is_empty_str s then none else some s

module _ (system : System) where
  open system use {
    var, temp_dir, symlink_metadata, file_len, create_dir_all, set_permissions, open_file,
    try_clone, join_error, spawn,
  }

  abbrev pub prepared : String → Option FileKind → Result (Unit {0}) String
  prepared directory none = create_dir_all directory
  prepared directory (some FileKind.folder) = ok tt
  prepared directory (some FileKind.symlink) =
      err (concat ("refusing symlinked app-server log directory `" ∷ directory ∷ "`" ∷ []))
  prepared directory (some FileKind.other_file) =
      err (concat ("app-server log path is not a directory: `" ∷ directory ∷ "`" ∷ []))

  unfoldable pub prepare_daemon_log_dir : Result String String
  prepare_daemon_log_dir =
      let directory = daemon_log_dir temp_dir in
      prepared directory (symlink_metadata directory) >>= λ done.
      set_permissions directory 0x1C0 >>= λ done. ok directory

  abbrev pub needs_rotation : Option ℕ → Bool
  needs_rotation none = false
  needs_rotation (some len) = leb max_daemon_log_bytes len

  abbrev pub opened : String → Option FileKind → Result (Unit {0}) String
  opened path (some FileKind.symlink) =
      err (concat ("refusing symlinked app-server log file `" ∷ path ∷ "`" ∷ []))
  opened path _ =
      let rotate = needs_rotation (file_len path) in
      open_file path (not rotate) rotate >>= λ done. set_permissions path 0x180

  unfoldable pub open_daemon_log : String → Result (Unit {0}) String
  open_daemon_log path = opened path (symlink_metadata path)

  unfoldable pub codex_binary : List (String × String) → String
  codex_binary env =
      unwrap_or "codex"
        (or_else (non_empty (field "CODEX_BINARY" env)) (non_empty (var "CODEX_BINARY")))

  abbrev app_server_args : WsStartTarget → List String
  app_server_args target = "app-server" ∷ "--listen" ∷ target.listen_url ∷ []

  unfoldable pub daemon_command : WsStartTarget → List (String × String) → Command
  unfolding codex_binary
  daemon_command target env = record {
    program = codex_binary env;
    args = app_server_args target;
    env = env;
    output = Output.log;
    own_process_group = false;
  }

  unfoldable pub owned_command : WsStartTarget → List (String × String) → Command
  unfolding codex_binary
  owned_command target env = record {
    program = codex_binary env;
    args = app_server_args target;
    env = env;
    output = Output.inherited;
    own_process_group = true;
  }

  abbrev pub ready_log : WsStartTarget → Result (Unit {0}) String
  ready_log target = prepare_daemon_log_dir >>= λ directory.
      open_daemon_log target.log_path >>= λ file. try_clone target.log_path

  abbrev pub spawn_with_log :
      Command → Result (Unit {0}) String → Spawned (Result (Unit {0}) String)
  spawn_with_log command (err text) = (none, err text)
  spawn_with_log command (ok file) = (some command, spawn command >>= λ child. ok tt)

  unfoldable pub spawn_daemon_process :
      WsStartTarget → List (String × String) → Spawned (Result (Unit {0}) String)
  unfolding prepare_daemon_log_dir open_daemon_log
  spawn_daemon_process target env = spawn_with_log (daemon_command target env) (ready_log target)

  unfoldable pub spawn_owned_process :
      WsStartTarget → List (String × String) → Spawned (Result Child String)
  spawn_owned_process target env =
      let command = owned_command target env in (some command, spawn command)

  -- The errors of `spawn_daemon`.
  abbrev pub daemon_error :
      {Value : Type 0} → WsStartTarget → String → Result (Unit {0}) (ClientError Value)
  daemon_error target detail = err (
      ClientError.startup
        (concat (
          "failed to start websocket app-server daemon for `" ∷ target.connect_url ∷ "`: " ∷ detail
          ∷ []))
        (some target.log_path))

  abbrev pub daemon_answer :
      {Value : Type 0}
      → WsStartTarget
      → Result (Unit {0}) String
      → Result (Unit {0}) (ClientError Value)
  daemon_answer target (ok done) = ok tt
  daemon_answer target (err text) = daemon_error target text

  -- A task that cannot be joined counts as one that did not run.
  abbrev pub joined :
      {Value : Type 0}
      → WsStartTarget
      → Option String
      → Spawned (Result (Unit {0}) String)
      → Spawned (Result (Unit {0}) (ClientError Value))
  joined target (some join_error) result = (none, daemon_error target join_error)
  joined target none (command, result) = (command, daemon_answer target result)

  unfoldable pub spawn_daemon :
      {Value : Type 0}
      → WsStartTarget
      → List (String × String)
      → Spawned (Result (Unit {0}) (ClientError Value))
  spawn_daemon target env = joined target join_error (spawn_daemon_process target env)
