-- ===== src/Websocket/Auth.antt =====
-- Which websocket URLs may carry a bearer token: `build_ws_request` and
-- `websocket_url_allows_auth_token` of crates/sdk/src/transport/ws.rs.
pub mod Host
use codex_sdk_rs.Prelude.{
  ℕ, ◌||◌, String, Bool, Option, none, some, List, [], ◌∷◌, unwrap_or, str_eq, eqb, if◌then◌else◌,
}
use codex_sdk_rs.Prelude.Text.{concat, trim, to_ascii_lowercase}
use codex_sdk_rs.Prelude.Split.{strip_prefix, starts_with, slice_from, first_piece, rsplit_once}
use codex_sdk_rs.Protocol.{ClientError, Result, ok, err}

-- `['/', '?', '#']`.
abbrev pub ends_authority : ℕ → Bool
ends_authority c = eqb c b'/' || eqb c b'?' || eqb c b'#'

-- `matches!(host, "127.0.0.1" | "localhost" | "::1")`.
abbrev pub is_loopback_name : String → Bool
is_loopback_name host = str_eq host "127.0.0.1" || str_eq host "localhost" || str_eq host "::1"

abbrev pub host_port_of : String → Option (String × String) → String
host_port_of authority none = authority
host_port_of authority (some (user, host_port)) = host_port

abbrev pub host_in : String → Option String → String
host_in host_port (some rest) = first_piece (λ c. eqb c b']') rest
host_in host_port none = first_piece (λ c. eqb c b':') host_port

abbrev pub host_of : String → String
host_of authority =
    let host_port = host_port_of authority (rsplit_once b'@' authority) in
    host_in host_port (strip_prefix "[" host_port)

abbrev pub lower_allows : String → Bool
lower_allows lower =
    if starts_with "wss://" lower
    then Bool.true
    else if starts_with "ws://" lower
    then is_loopback_name (host_of (first_piece ends_authority (slice_from 5 lower)))
    else Bool.false

unfoldable pub websocket_url_allows_auth_token : String → Bool
websocket_url_allows_auth_token url = lower_allows (to_ascii_lowercase (trim url))

-- The requests of the crates http and tungstenite, with the text of their errors.
module _ {Value Request HeaderValue : Type 0} (into_client_request : String → Result Request String)
    (from_str : String → Result HeaderValue String)
    (insert_authorization : HeaderValue → Request → Request) where
  abbrev pub refused : ClientError Value
  refused = ClientError.config "websocket auth tokens require `wss://` or a loopback `ws://` URL"

  abbrev with_header : Request → Result HeaderValue String → Result Request (ClientError Value)
  with_header request (ok value) = ok (insert_authorization value request)
  with_header request (err text) =
      err (ClientError.config (concat ("invalid websocket auth token: " ∷ text ∷ [])))

  abbrev with_token : Request → Option String → Result Request (ClientError Value)
  with_token request none = ok request
  with_token request (some token) = with_header request (from_str (concat ("Bearer " ∷ token ∷ [])))

  abbrev pub build_allowed : String → Option String → Result Request (ClientError Value)
  build_allowed url auth_token = elim (into_client_request url) [
    | ok request ↦ with_token request auth_token
    | err text ↦
        err (
          ClientError.config (concat ("invalid websocket request for `" ∷ url ∷ "`: " ∷ text ∷ [])))
  ]

  unfoldable pub build_ws_request : String → Option String → Result Request (ClientError Value)
  build_ws_request url none = build_allowed url none
  build_ws_request url (some token) =
      if websocket_url_allows_auth_token url then build_allowed url (some token) else err refused
