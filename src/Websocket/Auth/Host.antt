-- ===== src/Websocket/Auth/Host.antt =====
-- The host that decides in `websocket_url_allows_auth_token` (crates/sdk/src/transport/ws.rs).
use Prim.Native.Char.{Char, code}
use Prim.Native.String
use Prim.Native.String.{[], ◌∷◌}
use text.Mathlib.TextLemmas.{cons-append, nil-append}
use codex_sdk_rs.Prelude.{◌≡◌, refl, ap, ◌∙◌, String, false, Option, none, some, eqb, if◌then◌else◌}
use codex_sdk_rs.Prelude.Text.{trim, to_ascii_lowercase}
use codex_sdk_rs.Prelude.Split.{
  strip_prefix, slice_from, Lacks, IsTail, first_piece-append, rsplit_once-append,
  rsplit_once-Lacks,
}
use codex_sdk_rs.Protocol.{Result, err}
use codex_sdk_rs.Websocket.Auth.{
  ends_authority, is_loopback_name, host_of, host_in, lower_allows, websocket_url_allows_auth_token,
  refused, build_allowed, build_ws_request,
}

-- `Names host host_port`: the text is the host with a port or nothing after it; a host in brackets
-- may hold colons.
pub data Names : String → String → Type 0 where
  plain :
      (c : Char) (host port : String)
      → eqb b'[' (code c) ≡ false
      → Lacks (λ d. eqb d b':') (c ∷ host)
      → IsTail (λ d. eqb d b':') port
      → Names (c ∷ host) (String.◌++◌ (c ∷ host) port)
  bracketed :
      (host port : String)
      → Lacks (λ d. eqb d b']') host
      → Names host ("[" ∷ String.◌++◌ host ("]" ∷ port))

-- An authority with or without a user part.
abbrev pub authority : Option String → String → String
authority none host_port = host_port
authority (some user) host_port = String.◌++◌ user ("@" ∷ host_port)

strip_prefix-other :
    (c : Char) (s : String) → eqb b'[' (code c) ≡ false → strip_prefix "[" (c ∷ s) ≡ none
unfolding strip_prefix
strip_prefix-other c s b = rw (b) refl

host_in-Names :
    {host host_port : String}
    → Names host host_port
    → host_in host_port (strip_prefix "[" host_port) ≡ host
unfolding strip_prefix
host_in-Names (Names.plain c host port b h t) =
    rw (cons-append, strip_prefix-other c _ b, ← cons-append)
      (first_piece-append (λ d. eqb d b':') (c ∷ host) port h t)
host_in-Names (Names.bracketed host port h) =
    first_piece-append (λ d. eqb d b']') host ("]" ∷ port) h refl

host_of-authority :
    (user : Option String) {host host_port : String}
    → Lacks (λ d. eqb d b'@') host_port
    → Names host host_port
    → host_of (authority user host_port) ≡ host
host_of-authority none h n = rw (rsplit_once-Lacks b'@' _ h) (host_in-Names n)
host_of-authority (some user) h n = rw (rsplit_once-append "@" user _ h) (host_in-Names n)

ws_conses : (s : String) → String.◌++◌ "ws://" s ≡ "w" ∷ "s" ∷ ":" ∷ "/" ∷ "/" ∷ s
ws_conses s =
    cons-append "w" "s://" s
    ∙ ap (λ r. "w" ∷ r)
        (cons-append "s" "://" s
          ∙ ap (λ r. "s" ∷ r)
              (cons-append ":" "//" s
                ∙ ap (λ r. ":" ∷ r)
                    (cons-append "/" "/" s
                      ∙ ap (λ r. "/" ∷ r)
                          (cons-append "/" "" s ∙ ap (λ r. "/" ∷ r) (nil-append s)))))

lower_allows-ws :
    (user : Option String) {host host_port : String} (tail : String)
    → Lacks ends_authority (authority user host_port)
    → IsTail ends_authority tail
    → Lacks (λ d. eqb d b'@') host_port
    → Names host host_port
    → lower_allows (String.◌++◌ "ws://" (String.◌++◌ (authority user host_port) tail))
      ≡ is_loopback_name host
unfolding strip_prefix slice_from
lower_allows-ws user tail l t h n =
    rw (ws_conses, first_piece-append ends_authority (authority user _) tail l t)
      (ap is_loopback_name (host_of-authority user h n))

module _ {Value Request HeaderValue : Type 0} (into_client_request : String → Result Request String)
    (from_str : String → Result HeaderValue String)
    (insert_authorization : HeaderValue → Request → Request) where
  -- Whether a token is sent to a `ws://` URL is decided by its host alone: for a URL that is, up to
  -- white space around it and the case of its letters, `ws://`, an optional user part with `@`, a
  -- host with an optional port, and then nothing or what starts with `/`, `?` or `#`, the request
  -- is built with the token if the host is `127.0.0.1`, `localhost` or `::1`, and refused if it is
  -- any other. No other text of the URL (a loopback name in the user part, the path or the query)
  -- changes that.
  pub build_ws_request-host :
      (url token : String) (user : Option String) {host host_port : String} (tail : String)
      → to_ascii_lowercase (trim url)
        ≡ String.◌++◌ "ws://" (String.◌++◌ (authority user host_port) tail)
      → Lacks ends_authority (authority user host_port)
      → IsTail ends_authority tail
      → Lacks (λ d. eqb d b'@') host_port
      → Names host host_port
      → build_ws_request {Value = Value} into_client_request from_str insert_authorization url
          (some token)
        ≡ (if is_loopback_name host
            then build_allowed into_client_request from_str insert_authorization url (some token)
            else err (refused into_client_request from_str insert_authorization))
  unfolding build_ws_request websocket_url_allows_auth_token
  build_ws_request-host url token user tail e l t h n =
      ap
        (λ allowed.
          if allowed
          then build_allowed into_client_request from_str insert_authorization url (some token)
          else err (refused into_client_request from_str insert_authorization))
        (ap lower_allows e ∙ lower_allows-ws user tail l t h n)
