-- ===== src/Prelude/Text.antt =====
-- Rust's operations on `str`, over native texts.
use Prim.Native.Nat.{zero, suc, ◌-◌, ℕ}
use Prim.Native.Char.{Char, code}
use Prim.Native.String.{String, [], ◌∷◌}
use Prim.Native.String
use mathlib.Core.Bool.{Bool, ◌&&◌, ◌||◌}
use mathlib.Core.List.{List}
use codex_sdk_rs.Prelude.Tests.{leb, eqb, str_eq, if◌then◌else◌}

-- The pieces of a `format!`.
abbrev pub concat : List String → String
concat List.[] = ""
concat (List.◌∷◌ s ss) = String.◌++◌ s (concat ss)

abbrev pub push : String → Char → String
push s c = String.◌++◌ s (c ∷ [])

-- `slice.join(separator)`.
abbrev join_after : String → List String → String
join_after sep List.[] = ""
join_after sep (List.◌∷◌ s ss) = String.◌++◌ sep (String.◌++◌ s (join_after sep ss))

unfoldable pub join : String → List String → String
join sep List.[] = ""
join sep (List.◌∷◌ s ss) = String.◌++◌ s (join_after sep ss)

abbrev pub is_empty_str : String → Bool
is_empty_str s = str_eq s ""

-- `str::replace` of a character by a text.
unfoldable pub replace : (ℕ → Bool) → String → String → String
replace hit to [] = ""
replace hit to (c ∷ s) = String.◌++◌ (if hit (code c) then to else c ∷ []) (replace hit to s)

-- `char::is_whitespace`: the property White_Space.
abbrev pub is_whitespace : ℕ → Bool
is_whitespace c =
    (leb 9 c && leb c 13)
    || eqb c 0x20
    || eqb c 0x85
    || eqb c 0xA0
    || eqb c 0x1680
    || (leb 0x2000 c && leb c 0x200A)
    || eqb c 0x2028
    || eqb c 0x2029
    || eqb c 0x202F
    || eqb c 0x205F
    || eqb c 0x3000

unfoldable pub trim_start : String → String
trim_start [] = ""
trim_start (c ∷ s) = let rest = trim_start s in if is_whitespace (code c) then rest else c ∷ s

unfoldable pub trim_end : String → String
trim_end [] = ""
trim_end (c ∷ s) =
    let rest = trim_end s in if is_empty_str rest && is_whitespace (code c) then "" else c ∷ rest

unfoldable pub trim : String → String
unfolding trim_start trim_end
trim s = trim_end (trim_start s)

-- A line loses one `\r` before its `\n`.
strip_cr : String → String
strip_cr [] = ""
strip_cr (c ∷ []) = if eqb (code c) 13 then "" else c ∷ []
strip_cr (c ∷ d ∷ s) = c ∷ strip_cr (d ∷ s)

lines_from : String → String → List String
lines_from cur [] = if is_empty_str cur then List.[] else List.◌∷◌ cur List.[]
lines_from cur (c ∷ s) =
    let closed = lines_from "" s in
    let longer = lines_from (push cur c) s in
    if eqb (code c) 10 then List.◌∷◌ (strip_cr cur) closed else longer

-- `str::lines`.
unfoldable pub lines : String → List String
unfolding lines_from strip_cr
lines s = lines_from "" s

nth : String → ℕ → Char → Char
nth [] i d = d
nth (c ∷ s) zero d = c
nth (c ∷ s) (suc i) d = nth s i d

lower_char : Char → Char
lower_char c =
    if leb b'A' (code c) && leb (code c) b'Z'
    then nth "abcdefghijklmnopqrstuvwxyz" (code c - b'A') c
    else c

-- `str::to_ascii_lowercase`.
unfoldable pub to_ascii_lowercase : String → String
unfolding nth lower_char
to_ascii_lowercase [] = ""
to_ascii_lowercase (c ∷ s) = lower_char c ∷ to_ascii_lowercase s

words_from : String → String → List String
words_from cur [] = if is_empty_str cur then List.[] else List.◌∷◌ cur List.[]
words_from cur (c ∷ s) =
    let next = words_from "" s in
    let longer = words_from (push cur c) s in
    if is_whitespace (code c)
    then (if is_empty_str cur then next else List.◌∷◌ cur next)
    else longer

-- `str::split_whitespace`.
unfoldable pub words : String → List String
unfolding words_from
words s = words_from "" s
