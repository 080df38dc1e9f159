-- ===== src/Websocket/Target/Managed.antt =====
-- Which URLs get a managed server, and where it listens (`parse_managed_ws_target` of
-- crates/sdk/src/transport/ws_daemon.rs).
use codex_sdk_rs.Prelude.{ℕ, ◌≡◌, refl, String, true, Option, some, str_eq, Bool-cases, inl, inr}
use codex_sdk_rs.Protocol.{ClientError, Result, ok, err, ◌>>=◌}
use codex_sdk_rs.Websocket.Address.{Host}
use codex_sdk_rs.Websocket.Target.{
  WsStartTarget, Url, is_loopback, host_is_loopback, normalized_host, normalized, target_url,
  managed_at, parse_managed_ws_target, managed_url, managed_host, managed_port, missing_host,
  missing_port, url_or, host_or, port_or,
}

abbrev pub IsAddress : Host → Type 0
IsAddress (Host.domain name) = ⊥
IsAddress _ = Unit

-- The server listens on a loopback address, which its listen URL spells, and is reached by the URL.
pub record IsManaged (url : String) (target : WsStartTarget) : Type 0 where
  pub connects : target.connect_url ≡ url
  pub listens : target.listen_url ≡ target_url target.listen
  pub is_local : is_loopback target.listen ≡ true
  pub is_address : IsAddress target.listen.host

abbrev pub AllManaged :
    {Value : Type 0} → String → Result (Option WsStartTarget) (ClientError Value) → Type 0
AllManaged url (ok (some target)) = IsManaged url target
AllManaged url _ = Unit

normalized_host-local :
    (host : Host)
    → host_is_loopback host ≡ true
    → (host_is_loopback (normalized_host host) ≡ true) × IsAddress (normalized_host host)
normalized_host-local (Host.ipv4 a b c d) h = (h, tt)
normalized_host-local (Host.ipv6 a b c d e f g i) h = (h, tt)
normalized_host-local (Host.domain name) h = rw (h) (refl, tt)

managed_at-IsManaged :
    (temp_dir url : String) (host : Host) (port : ℕ)
    → host_is_loopback host ≡ true
    → IsManaged url (managed_at temp_dir url (record { host = host; port = port }))
unfolding managed_at normalized
managed_at-IsManaged temp_dir url host port h = record {
  connects = refl;
  listens = refl;
  is_local = (normalized_host-local host h).0;
  is_address = (normalized_host-local host h).1;
}

bind-AllManaged :
    {A Value : Type 0} (url : String) (r : Result A (ClientError Value))
    (next : A → Result (Option WsStartTarget) (ClientError Value))
    → ((a : A) → AllManaged url (next a))
    → AllManaged url (r >>= next)
bind-AllManaged url (ok a) next h = h a
bind-AllManaged url (err e) next h = tt

module _ (Value : Type 0) (temp_dir : String) (parse_url : String → Result Url String)
    (url : String) where
  host-AllManaged :
      (parsed : Url) (host : Host)
      → AllManaged {Value = Value} url (managed_host temp_dir parse_url url parsed host)
  host-AllManaged parsed host = elim (Bool-cases (host_is_loopback host)) [
    | inl local ↦ rw (local) (
        bind-AllManaged url (port_or temp_dir parse_url (missing_port url) parsed.port)
          (managed_port temp_dir parse_url url host)
          (λ port. managed_at-IsManaged temp_dir url host port local))
    | inr remote ↦ rw (remote) tt
  ]

  url-AllManaged :
      (parsed : Url) → AllManaged {Value = Value} url (managed_url temp_dir parse_url url parsed)
  url-AllManaged parsed = elim (Bool-cases (str_eq parsed.scheme "ws")) [
    | inl ws ↦ rw (ws) (
        bind-AllManaged url (host_or temp_dir parse_url (missing_host url) parsed.host)
          (managed_host temp_dir parse_url url parsed) (host-AllManaged parsed))
    | inr other ↦ rw (other) tt
  ]

pub parse_managed_ws_target-AllManaged :
    (Value : Type 0) (temp_dir : String) (parse_url : String → Result Url String) (url : String)
    → AllManaged url (parse_managed_ws_target {Value = Value} temp_dir parse_url url)
unfolding parse_managed_ws_target
parse_managed_ws_target-AllManaged Value temp_dir parse_url url =
    bind-AllManaged url (url_or temp_dir parse_url "URL" (parse_url url))
      (managed_url temp_dir parse_url url) (url-AllManaged Value temp_dir parse_url url)
