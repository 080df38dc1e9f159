-- ===== src/Prelude/Decimal.antt =====
-- Rust's `Display` of integers, and `parse` of an `i64`.
use Prim.Native.Nat.{ℕ, zero, suc, ◌+◌, ◌-◌, ◌*◌, ◌/◌, ◌%◌, ◌^◌}
use Prim.Native.Char.{Char, code}
use Prim.Native.String
use Prim.Native.String.{String, [], ◌∷◌}
use mathlib.Core.Bool.{◌&&◌}
use mathlib.Core.Option.{Option, none, some}
use codex_sdk_rs.Prelude.Tests.{leb, ltb, eqb, if◌then◌else◌}
use codex_sdk_rs.Prelude.Int.{ℤ, pos, negsuc}

abbrev digit_char : ℕ → Char
digit_char d =
    if eqb d 0
    then "0"
    else if eqb d 1
    then "1"
    else if eqb d 2
    then "2"
    else if eqb d 3
    then "3"
    else if eqb d 4
    then "4"
    else if eqb d 5
    then "5"
    else if eqb d 6
    then "6"
    else if eqb d 7
    then "7"
    else if eqb d 8
    then "8"
    else "9"

-- One round for each digit; a `u64` has at most twenty.
digits : ℕ → ℕ → String → String
digits zero n done = done
digits (suc rounds) n done =
    let rest = digits rounds (n / 10) (digit_char (n % 10) ∷ done) in
    if ltb n 10 then digit_char n ∷ done else rest

unfoldable pub decimal_u64 : ℕ → String
unfolding digits
decimal_u64 n = digits 20 n ""

unfoldable pub decimal_i64 : ℤ → String
unfolding decimal_u64
decimal_i64 (pos n) = decimal_u64 n
decimal_i64 (negsuc n) = String.◌++◌ "-" (decimal_u64 (suc n))

-- `str::parse::<i64>`: an optional sign and at least one digit, in range.
parse_digits : ℕ → String → Option ℕ
parse_digits n [] = some n
parse_digits n (c ∷ s) =
    let rest = parse_digits (n * 10 + (code c - b'0')) s in
    if leb b'0' (code c) && leb (code c) b'9' then rest else none

parse_u : String → Option ℕ
unfolding parse_digits
parse_u [] = none
parse_u (c ∷ s) = parse_digits 0 (c ∷ s)

abbrev in_range_pos : Option ℕ → Option ℤ
in_range_pos none = none
in_range_pos (some n) = if ltb n (2 ^ 63) then some (pos n) else none

abbrev in_range_neg : Option ℕ → Option ℤ
in_range_neg none = none
in_range_neg (some zero) = some (pos 0)
in_range_neg (some (suc n)) = if ltb n (2 ^ 63) then some (negsuc n) else none

unfoldable pub parse_i64 : String → Option ℤ
unfolding parse_digits parse_u
parse_i64 [] = none
parse_i64 (c ∷ s) =
    if eqb (code c) b'-'
    then in_range_neg (parse_u s)
    else if eqb (code c) b'+'
    then in_range_pos (parse_u s)
    else in_range_pos (parse_u (c ∷ s))
