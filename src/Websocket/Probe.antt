-- ===== src/Websocket/Probe.antt =====
-- The probe of crates/sdk/src/transport/ws_daemon.rs: one websocket handshake, and what its outcome
-- says of the server.
use codex_sdk_rs.Prelude.{String, Bool, true, false, Option, [], ◌∷◌, if◌then◌else◌, ℕ}
use codex_sdk_rs.Prelude.Text.{concat}
use codex_sdk_rs.Protocol.{Result, ok, err, ClientError}
use codex_sdk_rs.SerdeJson.{SerdeJson}
use codex_sdk_rs.Client.Handlers.{display_error}
use codex_sdk_rs.Websocket.Auth.{build_ws_request}

pub data ProbeState : Type 0 where
  reachable unavailable : ProbeState

-- `std::io::ErrorKind`, as far as it is told apart.
pub data ErrorKind : Type 0 where
  connection_refused connection_aborted connection_reset not_connected timed_out : ErrorKind
  addr_not_available broken_pipe another_kind : ErrorKind

-- tungstenite's `Error`; the texts are the displays of the error or of the HTTP status.
pub data WsError : Type 0 where
  io : ErrorKind → String → WsError
  connection_closed already_closed : WsError
  http : (status : String) → WsError
  another : String → WsError

-- How a handshake ends within the time for a probe.
pub data Handshake : Type 0 where
  accepted : Handshake
  failed : WsError → Handshake
  elapsed : Handshake

-- The crates http and tungstenite: requests, and how the n-th attempt of a handshake ends.
pub record Network : Type 1 where
  pub Request : Type 0
  pub HeaderValue : Type 0
  pub into_client_request : String → Result Request String
  pub from_str : String → Result HeaderValue String
  pub insert_authorization : HeaderValue → Request → Request
  pub connect_async : ℕ → Request → Handshake

abbrev pub is_retryable_connect_error : ErrorKind → Bool
is_retryable_connect_error ErrorKind.another_kind = false
is_retryable_connect_error _ = true

abbrev probe_failed : String → String → Result ProbeState String
probe_failed url detail = err (concat ("websocket probe failed for `" ∷ url ∷ "`: " ∷ detail ∷ []))

unfoldable pub classify_probe_error : String → WsError → Result ProbeState String
classify_probe_error url (WsError.io kind text) =
    if is_retryable_connect_error kind then ok ProbeState.unavailable else probe_failed url text
classify_probe_error url WsError.connection_closed = ok ProbeState.unavailable
classify_probe_error url WsError.already_closed = ok ProbeState.unavailable
classify_probe_error url (WsError.http status) =
    probe_failed url (concat ("unexpected HTTP status " ∷ status ∷ []))
classify_probe_error url (WsError.another text) = probe_failed url text

abbrev pub shaken : String → Handshake → Result ProbeState String
shaken url Handshake.accepted = ok ProbeState.reachable
shaken url (Handshake.failed e) = classify_probe_error url e
shaken url Handshake.elapsed = ok ProbeState.unavailable

module _ ⦃json : SerdeJson⦄ (network : Network) where
  open json use {Value}
  open network use {Request, into_client_request, from_str, insert_authorization, connect_async}

  abbrev pub probed : ℕ → String → Result Request (ClientError Value) → Result ProbeState String
  probed attempt url (ok request) = shaken url (connect_async attempt request)
  probed attempt url (err e) = err (display_error e)

  -- The probe at the n-th attempt.
  unfoldable pub probe_app_server : ℕ → String → Option String → Result ProbeState String
  probe_app_server attempt url auth_token =
      probed attempt url
        (build_ws_request into_client_request from_str insert_authorization url auth_token)
