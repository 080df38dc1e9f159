-- ===== src/Tests/Servers.antt =====
-- Examples on websocket servers.
use codex_sdk_rs.Prelude.{
  ℕ, ◌+◌, ◌*◌, ◌≡◌, refl, String, Bool, true, false, Option, none, some, List, [], ◌∷◌, ltb, eqb,
  str_eq, if◌then◌else◌, arith, inl, inr, ◌⊎◌, suc, ◌≤◌,
}
use codex_sdk_rs.Prelude.Text.{trim, trim_start, trim_end, to_ascii_lowercase}
use codex_sdk_rs.Protocol.{Result, ok, err}
use codex_sdk_rs.Websocket.Auth.{is_loopback_name, build_allowed, refused, build_ws_request}
use codex_sdk_rs.Websocket.Auth.Host.{Names, build_ws_request-host}
use codex_sdk_rs.Websocket.Address.{Host, ipv6_text}
use codex_sdk_rs.Websocket.Target.{Url, WsTarget, WsStartTarget, log_path}
use codex_sdk_rs.Websocket.Probe.{Network, Handshake, WsError, ErrorKind}
use codex_sdk_rs.Websocket.Server.{
  WsServerHandle, WsStartMode, Child, Process, Action, shutdown, blocking_started, not_released,
}
use codex_sdk_rs.Websocket.Server.Bounded.{Costs, shutdown-Costs}
use codex_sdk_rs.Websocket.Server.Released.{Polls, Releases, shutdown-answer}
use codex_sdk_rs.Websocket.Spawn.{System}
use codex_sdk_rs.Websocket.Ready.{Watch}
use codex_sdk_rs.Websocket.Ready.Waiting.{Ticks, ready_rounds}
use codex_sdk_rs.Websocket.Start.{start_ws_server_internal, ensure_local_ws_app_server}
use codex_sdk_rs.Websocket.Start.Outcome.{Outcome, start_ws_server_internal-Outcome}
use codex_sdk_rs.Websocket.Start.Managed.{Local, ensure_local_ws_app_server-Local}
use codex_sdk_rs.Tests.Json.{Json, json}

-- A request is its URL and its headers.
abbrev Request : Type 0
Request = String × List String

abbrev into_client_request : String → Result Request String
into_client_request url = ok (url, [])

abbrev from_str : String → Result String String
from_str text = ok text

abbrev insert_authorization : String → Request → Request
insert_authorization value (url, headers) = (url, value ∷ headers)

-- A user part that looks like a loopback host.
build_ws_request-host_example :
    build_ws_request {Value = Json} into_client_request from_str insert_authorization
      " ws://LOCALHOST@evil.example:80/localhost"
      (some "secret")
    ≡ (if is_loopback_name "evil.example"
        then build_allowed into_client_request from_str insert_authorization
            " ws://LOCALHOST@evil.example:80/localhost"
            (some "secret")
        else err (refused into_client_request from_str insert_authorization))
unfolding trim trim_start trim_end to_ascii_lowercase
build_ws_request-host_example =
    build_ws_request-host into_client_request from_str insert_authorization
      " ws://LOCALHOST@evil.example:80/localhost" "secret" (some "localhost")
      {host = "evil.example"} {host_port = "evil.example:80"} "/localhost" refl (ground arith) refl
      (ground arith) (Names.plain "e" "vil.example" ":80" refl (ground arith) refl)

six : ipv6_text 0x2001 0xdb8 0 0 1 0 0 0 ≡ "2001:db8:0:0:1::"
unfolding ipv6_text codex_sdk_rs.Prelude.Text.join codex_sdk_rs.Websocket.Address.hex_u16
    codex_sdk_rs.Prelude.Decimal.decimal_u64
six = refl

-- The n-th handshake of the test network: the server is there from the attempt `up` until the attempt
-- `down`, and refuses connections otherwise.
abbrev network : (up down : ℕ) → Network
network up down = record {
  Request = Request;
  HeaderValue = String;
  into_client_request = into_client_request;
  from_str = from_str;
  insert_authorization = insert_authorization;
  connect_async = λ attempt request.
      if ltb attempt up
      then Handshake.failed (WsError.io ErrorKind.connection_refused "connection refused")
      else if ltb attempt down
      then Handshake.accepted
      else Handshake.failed (WsError.io ErrorKind.connection_refused "connection refused");
}

abbrev handle : WsServerHandle
handle = blocking_started "ws://127.0.0.1:4222" "ws://127.0.0.1:4222" (record { id = 77 })

-- A child that has exited by the third poll.
abbrev process : Process
process = record { try_wait = λ n. ok (if ltb n 2 then false else true); wait_child = ok tt }

shutdown-Costs_example :
    Costs handle.process_group_id handle.child 40 2 1
      (shutdown (network 0 3) process handle).1.actions
    × (let h = (shutdown (network 0 3) process handle).0 in
        shutdown (network 0 3) process h ≡ (h, record { actions = []; answer = ok tt }))
shutdown-Costs_example = shutdown-Costs (network 0 3) process handle

shutdown-answer_example :
    let answer = (shutdown (network 0 3) process handle).1.answer in
    ((answer ≡ ok tt)
      × (Polls (network 0 3) process handle false 20 0
          ⊎ Releases (network 0 3) process handle 20 20))
    ⊎ ((answer ≡ err (not_released (network 0 3) process handle))
        × ¬ Polls (network 0 3) process handle false 20 0
        × ¬ Releases (network 0 3) process handle 20 20)
unfolding blocking_started
shutdown-answer_example =
    shutdown-answer (network 0 3) process handle (record { id = 77 }) refl
      (λ n. (if ltb n 2 then false else true, refl)) refl

graceful : (shutdown (network 0 3) process handle).1 ≡ record {
  actions = Action.signal 77 15 ∷ Action.sleep ∷ Action.sleep ∷ Action.sleep ∷ [];
  answer = ok tt;
}
unfolding shutdown blocking_started codex_sdk_rs.Websocket.Server.poll_exit
    codex_sdk_rs.Websocket.Probe.probe_app_server build_ws_request
    codex_sdk_rs.Websocket.Probe.classify_probe_error
graceful = refl

abbrev system : System
system = record {
  var = λ name. none;
  temp_dir = "/tmp";
  symlink_metadata = λ path. none;
  file_len = λ path. none;
  create_dir_all = λ path. ok tt;
  set_permissions = λ path mode. ok tt;
  open_file = λ path append truncate. ok tt;
  try_clone = λ path. ok tt;
  join_error = none;
  spawn = λ command. ok (record { id = 77 });
}

abbrev watch : Watch
watch = record { started_at = 5; now = λ round. 6 + 160 * round; exit_status = λ round. ok none }

abbrev ticks : Ticks watch
ticks = record { begins = omega arith; sleeps = λ round. omega arith }

abbrev localhost : WsTarget
localhost = record { host = Host.domain "LocalHost"; port = 4222 }

abbrev target : WsStartTarget
target = record {
  connect_url = "ws://LocalHost:4222";
  listen_url = "ws://127.0.0.1:4222";
  listen = record { host = Host.ipv4 127 0 0 1; port = 4222 };
  log_path = "/tmp/codex-app-server-sdk/app-server-localhost-4222.log";
}

start_ws_server_internal-Outcome_example :
    Outcome (network 4 90) system watch none target [] false WsStartMode.blocking (
      start_ws_server_internal
        (network 4 90)
        system
        watch
        none
        target
        []
        false
        WsStartMode.blocking
        ready_rounds)
start_ws_server_internal-Outcome_example =
    start_ws_server_internal-Outcome (network 4 90) system watch none target [] ticks false
      WsStartMode.blocking

abbrev parse_url : String → Result Url String
parse_url url =
    ok (record { scheme = "ws"; host = some (Host.domain "LocalHost"); port = some 4222 })

ensure_local_ws_app_server-Local_example :
    Local (network 4 90) system watch parse_url "ws://LocalHost:4222" [] none (
      ensure_local_ws_app_server
        (network 4 90)
        system
        watch
        parse_url
        "ws://LocalHost:4222"
        []
        none
        ready_rounds)
ensure_local_ws_app_server-Local_example =
    ensure_local_ws_app_server-Local (network 4 90) system watch parse_url "ws://LocalHost:4222" []
      none ticks

named : log_path "/tmp" localhost ≡ "/tmp/codex-app-server-sdk/app-server-localhost-4222.log"
unfolding log_path codex_sdk_rs.Prelude.Split.path_join to_ascii_lowercase
    codex_sdk_rs.Prelude.Text.replace codex_sdk_rs.Prelude.Decimal.decimal_u64
named = refl
