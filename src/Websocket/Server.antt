-- ===== src/Websocket/Server.antt =====
-- `WsServerHandle` of crates/sdk/src/transport/ws_daemon.rs and its shutdown, on unix.
--
-- What the operating system is asked to do is a list of actions. A poll's answers depend on its
-- number, counted from 0 through both loops of the shutdown; the time of a sleep is `sleep`.
pub mod Bounded
pub mod Released
use codex_sdk_rs.Prelude.{
  ℕ, zero, suc, ◌+◌, ◌^◌, ◌&&◌, String, Bool, true, false, not, Option, none, some, List, [], ◌∷◌,
  ◌++◌, ltb, eqb, is_some, if◌then◌else◌,
}
use codex_sdk_rs.Prelude.Text.{concat}
use codex_sdk_rs.Protocol.{ClientError, Result, ok, err}
use codex_sdk_rs.SerdeJson.{SerdeJson}
use codex_sdk_rs.Websocket.Probe.{Network, ProbeState, probe_app_server}

pub data WsStartMode : Type 0 where
  daemon blocking : WsStartMode

-- `std::process::Child`.
pub record Child : Type 0 where
  pub id : ℕ

pub record WsServerHandle : Type 0 where
  pub listen_url : String
  pub connect_url : String
  pub mode : WsStartMode
  pub reused_existing : Bool
  pub log_path : Option String
  pub process_group_id : Option ℕ
  pub child : Option Child

abbrev pub started_new_process : WsServerHandle → Bool
started_new_process handle = not handle.reused_existing

abbrev pub owns_process : WsServerHandle → Bool
owns_process handle = is_some handle.child

unfoldable pub from_reused_existing :
    (listen_url connect_url : String) → WsStartMode → Option String → WsServerHandle
from_reused_existing listen_url connect_url mode log_path = record {
  listen_url = listen_url;
  connect_url = connect_url;
  mode = mode;
  reused_existing = true;
  log_path = log_path;
  process_group_id = none;
  child = none;
}

unfoldable pub daemon_started : (listen_url connect_url log_path : String) → WsServerHandle
daemon_started listen_url connect_url log_path = record {
  listen_url = listen_url;
  connect_url = connect_url;
  mode = WsStartMode.daemon;
  reused_existing = false;
  log_path = some log_path;
  process_group_id = none;
  child = none;
}

unfoldable pub blocking_started : (listen_url connect_url : String) → Child → WsServerHandle
blocking_started listen_url connect_url child = record {
  listen_url = listen_url;
  connect_url = connect_url;
  mode = WsStartMode.blocking;
  reused_existing = false;
  log_path = none;
  process_group_id = some child.id;
  child = some child;
}

pub data Action : Type 0 where
  signal : (process_group_id : ℕ) (number : ℕ) → Action
  kill : Child → Action
  wait : Child → Action
  sleep : Action

-- A group id that is no `i32` is not signalled; what `kill` answers is ignored.
abbrev pub signal_process_group : ℕ → ℕ → List Action
signal_process_group process_group_id number =
    if ltb process_group_id (2 ^ 31) then Action.signal process_group_id number ∷ [] else []

abbrev pub terminate_process_group : Option ℕ → List Action
terminate_process_group none = []
terminate_process_group (some process_group_id) = signal_process_group process_group_id 15

abbrev pub kill_process_group : Option ℕ → List Action
kill_process_group none = []
kill_process_group (some process_group_id) = signal_process_group process_group_id 9

-- `SHUTDOWN_POLL_ATTEMPTS`.
abbrev pub shutdown_poll_attempts : ℕ
shutdown_poll_attempts = 20

-- What the child's process answers: whether it has exited at a poll, and the end of waiting for it.
pub record Process : Type 0 where
  pub try_wait : ℕ → Result Bool String
  pub wait_child : Result (Unit {0}) String

-- What was done, and the answer.
pub record Did (A : Type 0) : Type 0 where
  pub actions : List Action
  pub answer : A

abbrev pub after : {A : Type 0} → List Action → Did A → Did A
after actions d = record d { actions = actions ++ d.actions }

-- The first loop returns, or leaves whether the child has exited.
pub data Polled (Value : Type 0) : Type 0 where
  returned : Result (Unit {0}) (ClientError Value) → Polled Value
  still : (child_exited : Bool) → Polled Value

-- The end of a round that does not return.
abbrev pub again : Option ℕ → ℕ → List Action
again process_group_id attempt =
    (if eqb attempt 5 then terminate_process_group process_group_id else []) ++ Action.sleep ∷ []

module _ ⦃json : SerdeJson⦄ (network : Network) (process : Process) where
  open json use {Value}
  open process use {try_wait, wait_child}

  abbrev pub is_released : Result ProbeState String → Bool
  is_released (ok ProbeState.reachable) = false
  is_released _ = true

  abbrev pub connect_target_released : WsServerHandle → ℕ → Bool
  connect_target_released handle attempt =
      is_released (probe_app_server network attempt handle.connect_url none)

  -- `!child_exited && child.try_wait()?.is_some()`.
  abbrev pub exited_at : ℕ → Bool → Result Bool String
  exited_at attempt child_exited = if child_exited then ok true else try_wait attempt

  -- A round, given the rounds that follow it.
  abbrev pub poll_round :
      WsServerHandle
      → Option ℕ
      → ℕ
      → Result Bool String
      → (Bool → Did (Polled Value))
      → Did (Polled Value)
  poll_round handle process_group_id attempt (err text) rest = record {
    actions = [];
    answer = Polled.returned (err (ClientError.io text));
  }
  poll_round handle process_group_id attempt (ok child_exited) rest =
      if child_exited && connect_target_released handle attempt
      then record { actions = []; answer = Polled.returned (ok tt) }
      else after (again process_group_id attempt) (rest child_exited)

  unfoldable pub poll_exit :
      WsServerHandle → Option ℕ → (rounds attempt : ℕ) → Bool → Did (Polled Value)
  poll_exit handle process_group_id zero attempt child_exited = record {
    actions = [];
    answer = Polled.still child_exited;
  }
  poll_exit handle process_group_id (suc rounds) attempt child_exited =
      poll_round handle process_group_id attempt (exited_at attempt child_exited)
        (poll_exit handle process_group_id rounds (suc attempt))

  abbrev pub not_released : WsServerHandle → ClientError Value
  not_released handle =
      ClientError.startup
        (concat (
          "websocket app-server did not release `" ∷ handle.connect_url ∷ "` during shutdown" ∷ []))
        handle.log_path

  -- The second loop.
  unfoldable pub poll_released :
      WsServerHandle → (rounds attempt : ℕ) → Did (Result (Unit {0}) (ClientError Value))
  poll_released handle zero attempt = record { actions = []; answer = err (not_released handle) }
  poll_released handle (suc rounds) attempt =
      let rest = poll_released handle rounds (suc attempt) in
      if connect_target_released handle attempt
      then record { actions = []; answer = ok tt }
      else after (Action.sleep ∷ []) rest

  abbrev pub reaped :
      Child
      → Result (Unit {0}) String
      → Did (Result (Unit {0}) (ClientError Value))
      → Did (Result (Unit {0}) (ClientError Value))
  reaped child (ok done) rest = after (Action.kill child ∷ Action.wait child ∷ []) rest
  reaped child (err text) rest = record {
    actions = Action.kill child ∷ Action.wait child ∷ [];
    answer = err (ClientError.io text);
  }

  -- What follows the first loop.
  abbrev pub force :
      WsServerHandle → Option ℕ → Child → Polled Value → Did (Result (Unit {0}) (ClientError Value))
  force handle process_group_id child (Polled.returned result) = record {
    actions = [];
    answer = result;
  }
  force handle process_group_id child (Polled.still child_exited) =
      let rest = poll_released handle shutdown_poll_attempts shutdown_poll_attempts in
      after (kill_process_group process_group_id)
        (if child_exited then rest else reaped child wait_child rest)

  abbrev pub shutdown_child :
      WsServerHandle → Option ℕ → Option Child → Did (Result (Unit {0}) (ClientError Value))
  shutdown_child handle process_group_id none = record { actions = []; answer = ok tt }
  shutdown_child handle process_group_id (some child) =
      let polled = poll_exit handle process_group_id shutdown_poll_attempts 0 false in
      after (terminate_process_group process_group_id)
        (after polled.actions (force handle process_group_id child polled.answer))

  -- The handle has given up its process whatever the answer is.
  unfoldable pub shutdown :
      WsServerHandle → WsServerHandle × Did (Result (Unit {0}) (ClientError Value))
  shutdown handle =
      let given_up = record handle { process_group_id = none; child = none } in
      (given_up, shutdown_child given_up handle.process_group_id handle.child)

-- `drop` of a handle never waits.
unfoldable pub drop_handle : WsServerHandle → List Action
drop_handle handle = terminate_process_group handle.process_group_id
