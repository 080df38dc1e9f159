-- ===== src/Websocket/Address.antt =====
-- The addresses of `std::net` that crates/sdk/src/transport/ws_daemon.rs prints and tests, and the
-- host of a URL.
use codex_sdk_rs.Prelude.{
  ℕ, zero, suc, ◌+◌, ◌/◌, ◌%◌, ◌&&◌, String, Bool, List, [], ◌∷◌, ltb, eqb, str_eq, if◌then◌else◌,
  take,
}
use codex_sdk_rs.Prelude.Text.{concat, join, to_ascii_lowercase}
use codex_sdk_rs.Prelude.Decimal.{decimal_u64}

-- `url::Host<String>`: four octets, eight segments, or a name.
pub data Host : Type 0 where
  ipv4 : (a b c d : ℕ) → Host
  ipv6 : (a b c d e f g h : ℕ) → Host
  domain : String → Host

-- `Display` of `Ipv4Addr`.
unfoldable pub ipv4_text : ℕ → ℕ → ℕ → ℕ → String
ipv4_text a b c d = join "." (decimal_u64 a ∷ decimal_u64 b ∷ decimal_u64 c ∷ decimal_u64 d ∷ [])

abbrev hex_digit : ℕ → String
hex_digit d =
    if ltb d 10
    then decimal_u64 d
    else if eqb d 10
    then "a"
    else if eqb d 11
    then "b"
    else if eqb d 12
    then "c"
    else if eqb d 13
    then "d"
    else if eqb d 14
    then "e"
    else "f"

-- `{:x}` of a `u16`.
unfoldable pub hex_u16 : ℕ → String
hex_u16 n =
    if ltb n 16
    then hex_digit n
    else if ltb n 256
    then concat (hex_digit (n / 16) ∷ hex_digit (n % 16) ∷ [])
    else if ltb n 4096
    then concat (hex_digit (n / 256) ∷ hex_digit (n / 16 % 16) ∷ hex_digit (n % 16) ∷ [])
    else concat (
        hex_digit (n / 4096)
        ∷ hex_digit (n / 256 % 16)
        ∷ hex_digit (n / 16 % 16)
        ∷ hex_digit (n % 16)
        ∷ [])

-- A run of zero segments.
record Span : Type 0 where
  start : ℕ
  len : ℕ

abbrev no_span : Span
no_span = record { start = 0; len = 0 }

abbrev extend : ℕ → Span → Span
extend i s = record { start = if eqb s.len 0 then i else s.start; len = s.len + 1 }

-- The first of the longest runs.
longest_from : ℕ → Span → Span → List ℕ → Span
longest_from i longest current [] = longest
longest_from i longest current (segment ∷ rest) =
    let current' = if eqb segment 0 then extend i current else no_span in
    longest_from (i + 1) (if ltb longest.len current'.len then current' else longest) current' rest

drop : ℕ → List ℕ → List ℕ
drop zero xs = xs
drop (suc n) [] = []
drop (suc n) (x ∷ xs) = drop n xs

hex_all : List ℕ → List String
hex_all [] = []
hex_all (x ∷ xs) = hex_u16 x ∷ hex_all xs

abbrev segments_text : List ℕ → String
segments_text segments = join ":" (hex_all segments)

abbrev compressed : List ℕ → Span → String
compressed segments zeroes =
    if ltb 1 zeroes.len
    then concat (
        segments_text (take zeroes.start segments)
        ∷ "::"
        ∷ segments_text (drop (zeroes.start + zeroes.len) segments)
        ∷ [])
    else segments_text segments

-- `Display` of `Ipv6Addr`; an IPv4-mapped address shows its octets.
unfoldable pub ipv6_text : ℕ → ℕ → ℕ → ℕ → ℕ → ℕ → ℕ → ℕ → String
unfolding longest_from drop hex_all
ipv6_text a b c d e f g h =
    if eqb a 0 && eqb b 0 && eqb c 0 && eqb d 0 && eqb e 0 && eqb f 0xFFFF
    then concat ("::ffff:" ∷ ipv4_text (g / 256) (g % 256) (h / 256) (h % 256) ∷ [])
    else (let segments = a ∷ b ∷ c ∷ d ∷ e ∷ f ∷ g ∷ h ∷ [] in
        compressed segments (longest_from 0 no_span no_span segments))

-- `is_loopback` of the addresses.
abbrev pub ipv6_is_loopback : ℕ → ℕ → ℕ → ℕ → ℕ → ℕ → ℕ → ℕ → Bool
ipv6_is_loopback a b c d e f g h =
    eqb a 0 && eqb b 0 && eqb c 0 && eqb d 0 && eqb e 0 && eqb f 0 && eqb g 0 && eqb h 1

-- `eq_ignore_ascii_case("localhost")`.
abbrev pub is_localhost : String → Bool
is_localhost name = str_eq (to_ascii_lowercase name) "localhost"
