-- ===== src/Websocket/Target.antt =====
-- The endpoints of a managed server: `WsTarget`, `parse_managed_ws_target` and `build_start_target`
-- of crates/sdk/src/transport/ws_daemon.rs.
pub mod Managed
use codex_sdk_rs.Prelude.{
  ℕ, String, Bool, Option, none, some, List, [], ◌∷◌, str_eq, eqb, if◌then◌else◌,
}
use codex_sdk_rs.Prelude.Text.{concat, replace, to_ascii_lowercase}
use codex_sdk_rs.Prelude.Split.{all_chars, is_ascii_alphanumeric, path_join}
use codex_sdk_rs.Prelude.Decimal.{decimal_u64}
use codex_sdk_rs.Protocol.{ClientError, Result, ok, err, ◌>>=◌}
use codex_sdk_rs.Websocket.Address.{Host, ipv4_text, ipv6_text, ipv6_is_loopback, is_localhost}

pub record WsTarget : Type 0 where
  pub host : Host
  pub port : ℕ  -- u16

-- What the crate url makes of a text.
pub record Url : Type 0 where
  pub scheme : String
  pub host : Option Host
  pub port : Option ℕ

abbrev pub host_is_loopback : Host → Bool
host_is_loopback (Host.ipv4 a b c d) = eqb a 127
host_is_loopback (Host.ipv6 a b c d e f g h) = ipv6_is_loopback a b c d e f g h
host_is_loopback (Host.domain name) = is_localhost name

abbrev pub is_loopback : WsTarget → Bool
is_loopback target = host_is_loopback target.host

-- An IPv6 address stands in brackets.
abbrev pub host_text : Host → String
host_text (Host.ipv4 a b c d) = ipv4_text a b c d
host_text (Host.ipv6 a b c d e f g h) = concat ("[" ∷ ipv6_text a b c d e f g h ∷ "]" ∷ [])
host_text (Host.domain name) = name

abbrev pub host_authority : WsTarget → String
host_authority target = host_text target.host

unfoldable pub target_url : WsTarget → String
target_url target = concat ("ws://" ∷ host_authority target ∷ ":" ∷ decimal_u64 target.port ∷ [])

abbrev pub loopback_host : Host
loopback_host = Host.ipv4 127 0 0 1

abbrev pub normalized_host : Host → Host
normalized_host (Host.domain name) = if is_localhost name then loopback_host else Host.domain name
normalized_host host = host

unfoldable pub normalized : WsTarget → WsTarget
normalized target = record target { host = normalized_host host }
  where
    open target use {host}

-- The host of a log file's name; the lower case of a name is taken of its ASCII letters, which are
-- all the letters that a host of a URL has.
abbrev host_label : Host → String
host_label (Host.ipv4 a b c d) = ipv4_text a b c d
host_label (Host.ipv6 a b c d e f g h) = ipv6_text a b c d e f g h
host_label (Host.domain name) = to_ascii_lowercase name

abbrev daemon_log_dir_name : String
daemon_log_dir_name = "codex-app-server-sdk"

-- The directory for temporary files is the system's.
abbrev pub daemon_log_dir : String → String
daemon_log_dir temp_dir = path_join temp_dir daemon_log_dir_name

unfoldable pub log_path : String → WsTarget → String
log_path temp_dir target = path_join (daemon_log_dir temp_dir) (
    concat (
      "app-server-"
      ∷ replace (λ c. if is_ascii_alphanumeric c then Bool.false else Bool.true) "_"
          (host_label target.host)
      ∷ "-"
      ∷ decimal_u64 target.port
      ∷ ".log"
      ∷ []))

unfoldable pub lock_key : WsTarget → String × ℕ
unfolding normalized
lock_key target = let n = normalized target in (to_ascii_lowercase (host_authority n), n.port)

pub record WsStartTarget : Type 0 where
  pub connect_url : String
  pub listen_url : String
  pub listen : WsTarget
  pub log_path : String

-- The target for a loopback endpoint.
unfoldable pub managed_at : String → String → WsTarget → WsStartTarget
unfolding normalized target_url log_path
managed_at temp_dir url connect =
    let listen = normalized connect in
    record {
      connect_url = url;
      listen_url = target_url listen;
      listen = listen;
      log_path = log_path temp_dir connect;
    }

abbrev pub missing_host : String → List String
missing_host url = "invalid websocket URL: missing host in `" ∷ url ∷ "`" ∷ []

abbrev pub missing_port : String → List String
missing_port url = "loopback websocket URL must include explicit port: `" ∷ url ∷ "`" ∷ []

module _ {Value : Type 0} (temp_dir : String) (parse_url : String → Result Url String) where
  abbrev pub config_error : List String → {A : Type 0} → Result A (ClientError Value)
  config_error pieces = err (ClientError.config (concat pieces))

  abbrev pub host_or : List String → Option Host → Result Host (ClientError Value)
  host_or pieces none = config_error pieces
  host_or pieces (some host) = ok host

  abbrev pub port_or : List String → Option ℕ → Result ℕ (ClientError Value)
  port_or pieces none = config_error pieces
  port_or pieces (some port) = ok port

  abbrev pub url_or : String → Result Url String → Result Url (ClientError Value)
  url_or context (ok url) = ok url
  url_or context (err text) = config_error ("invalid websocket " ∷ context ∷ ": " ∷ text ∷ [])

  unfoldable pub parse : String → String → Result WsTarget (ClientError Value)
  parse label url = url_or label (parse_url url) >>= λ parsed.
      if str_eq parsed.scheme "ws"
      then (host_or ("invalid websocket " ∷ label ∷ ": missing host in `" ∷ url ∷ "`" ∷ [])
            parsed.host
          >>= λ host.
              port_or ("websocket " ∷ label ∷ " must include explicit port: `" ∷ url ∷ "`" ∷ [])
                parsed.port
              >>= λ port. ok (record { host = host; port = port }))
      else config_error ("websocket " ∷ label ∷ " must use the `ws` scheme: `" ∷ url ∷ "`" ∷ [])

  abbrev pub managed_port : String → Host → ℕ → Result (Option WsStartTarget) (ClientError Value)
  managed_port url host port =
      ok (some (managed_at temp_dir url (record { host = host; port = port })))

  abbrev pub managed_host : String → Url → Host → Result (Option WsStartTarget) (ClientError Value)
  managed_host url parsed host =
      if host_is_loopback host
      then port_or (missing_port url) parsed.port >>= managed_port url host
      else ok none

  abbrev pub managed_url : String → Url → Result (Option WsStartTarget) (ClientError Value)
  managed_url url parsed =
      if str_eq parsed.scheme "ws"
      then host_or (missing_host url) parsed.host >>= managed_host url parsed
      else ok none

  unfoldable pub parse_managed_ws_target :
      String → Result (Option WsStartTarget) (ClientError Value)
  parse_managed_ws_target url = url_or "URL" (parse_url url) >>= managed_url url

  unfoldable pub build_start_target :
      (listen_url connect_url : String) → Result WsStartTarget (ClientError Value)
  build_start_target listen_url connect_url = parse "listen_url" listen_url >>= λ listen.
      parse "connect_url" connect_url >>= λ connect. ok (record {
        connect_url = connect_url;
        listen_url = listen_url;
        listen = listen;
        log_path = log_path temp_dir listen;
      })
