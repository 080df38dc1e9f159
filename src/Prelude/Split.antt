-- ===== src/Prelude/Split.antt =====
-- Rust's prefixes, suffixes and splits of `str`, and the joining of paths on unix.
use Prim.Native.Nat.{ℕ, zero, suc}
use Prim.Native.Char.{Char, code}
use Prim.Native.String.{String, [], ◌∷◌}
use Prim.Native.String
use mathlib.Core.Path.{◌≡◌, refl}
use mathlib.Core.Bool.{Bool, true, false, ◌&&◌, ◌||◌}
use mathlib.Core.Option.{Option, none, some}
use native.Mathlib.Omega.{arith}
use text.Mathlib.TextLemmas.{nil-append, cons-append}
use codex_sdk_rs.Prelude.Tests.{leb, eqb, str_eq, if◌then◌else◌, map_some, is_some}
use codex_sdk_rs.Prelude.Text.{is_empty_str}

-- `strip_prefix` and `starts_with`.
unfoldable pub strip_prefix : String → String → Option String
strip_prefix [] s = some s
strip_prefix (p ∷ ps) [] = none
strip_prefix (p ∷ ps) (c ∷ s) =
    let rest = strip_prefix ps s in if eqb (code p) (code c) then rest else none

abbrev pub starts_with : String → String → Bool
starts_with prefix s = is_some (strip_prefix prefix s)

abbrev pub prepend_char : Char → Option String → Option String
prepend_char c = map_some (λ s. c ∷ s)

unfoldable pub strip_suffix : String → String → Option String
strip_suffix suffix [] = if str_eq "" suffix then some "" else none
strip_suffix suffix (c ∷ s) =
    let rest = prepend_char c (strip_suffix suffix s) in
    if str_eq (c ∷ s) suffix then some "" else rest

-- `&s[n..]` after `n` ASCII characters.
unfoldable pub slice_from : ℕ → String → String
slice_from zero s = s
slice_from (suc n) [] = ""
slice_from (suc n) (c ∷ s) = slice_from n s

-- `chars().all`, `contains` of a character.
unfoldable pub all_chars : (ℕ → Bool) → String → Bool
all_chars test [] = true
all_chars test (c ∷ s) = test (code c) && all_chars test s

unfoldable pub contains : ℕ → String → Bool
contains at [] = false
contains at (c ∷ s) = eqb (code c) at || contains at s

abbrev pub is_ascii_alphanumeric : ℕ → Bool
is_ascii_alphanumeric c =
    (leb b'0' c && leb c b'9') || (leb b'A' c && leb c b'Z') || (leb b'a' c && leb c b'z')

-- `s.split(separators).next().unwrap_or_default()`.
unfoldable pub first_piece : (ℕ → Bool) → String → String
first_piece hit [] = ""
first_piece hit (c ∷ s) = let rest = first_piece hit s in if hit (code c) then "" else c ∷ rest

-- `split_once` at what is hit, and `rsplit_once` at a character.
abbrev pub cons_first : Char → Option (String × String) → Option (String × String)
cons_first c none = none
cons_first c (some (before, after)) = some (c ∷ before, after)

unfoldable pub split_once : (ℕ → Bool) → String → Option (String × String)
split_once hit [] = none
split_once hit (c ∷ s) =
    let rest = cons_first c (split_once hit s) in if hit (code c) then some ("", s) else rest

abbrev pub or_here : ℕ → Char → String → Option (String × String) → Option (String × String)
or_here at c s (some (before, after)) = some (c ∷ before, after)
or_here at c s none = if eqb (code c) at then some ("", s) else none

unfoldable pub rsplit_once : ℕ → String → Option (String × String)
rsplit_once at [] = none
rsplit_once at (c ∷ s) = or_here at c s (rsplit_once at s)

unfoldable pub ends_with_slash : String → Bool
ends_with_slash [] = false
ends_with_slash (c ∷ s) = if is_empty_str s then eqb (code c) b'/' else ends_with_slash s

-- `Path::is_absolute` on unix.
abbrev pub is_absolute : String → Bool
is_absolute path = starts_with "/" path

-- `Path::join`: an absolute path replaces the base.
unfoldable pub path_join : String → String → String
unfolding ends_with_slash strip_prefix
path_join base path =
    if starts_with "/" path
    then path
    else if is_empty_str base || ends_with_slash base
    then String.◌++◌ base path
    else String.◌++◌ base (String.◌++◌ "/" path)

-- A path without what ends it and is no component: slashes, and single dots after a slash.
unfoldable pub without_tail : String → String
without_tail [] = ""
without_tail (c ∷ s) =
    let rest = without_tail s in
    if eqb (code c) b'/' && (is_empty_str rest || str_eq rest ".") then "" else c ∷ rest

abbrev or_root : String → String → String
or_root path before = if is_empty_str before && starts_with "/" path then "/" else before

abbrev before_last : String → Option (String × String) → String
before_last path none = ""
before_last path (some (before, last)) = or_root path (without_tail before)

-- `Path::parent` on unix.
unfoldable pub parent : String → Option String
parent path =
    let components = without_tail path in
    if is_empty_str components then none else some (before_last path (rsplit_once b'/' components))

-- No character of the text is hit.
abbrev pub Lacks : (ℕ → Bool) → String → Type 0
Lacks hit [] = Unit
Lacks hit (c ∷ s) = (hit (code c) ≡ false) × Lacks hit s

-- The text is empty or starts with a hit.
abbrev pub IsTail : (ℕ → Bool) → String → Type 0
IsTail hit [] = Unit
IsTail hit (c ∷ s) = hit (code c) ≡ true

pub first_piece-append :
    (hit : ℕ → Bool) (s t : String)
    → Lacks hit s
    → IsTail hit t
    → first_piece hit (String.◌++◌ s t) ≡ s
unfolding first_piece
first_piece-append hit [] [] h k = refl
first_piece-append hit [] (c ∷ t) h k = rw (nil-append, k) refl
first_piece-append hit (c ∷ s) t (h, hs) k =
    rw (cons-append, h, first_piece-append hit s t hs k) refl

pub rsplit_once-Lacks : (at : ℕ) (s : String) → Lacks (λ c. eqb c at) s → rsplit_once at s ≡ none
unfolding rsplit_once
rsplit_once-Lacks at [] h = refl
rsplit_once-Lacks at (c ∷ s) (h, hs) = rw (rsplit_once-Lacks at s hs, h) refl

pub rsplit_once-append :
    (at : Char) (u s : String)
    → Lacks (λ c. eqb c (code at)) s
    → rsplit_once (code at) (String.◌++◌ u (at ∷ s)) ≡ some (u, s)
unfolding rsplit_once
rsplit_once-append at [] s h = rw (nil-append, rsplit_once-Lacks (code at) s h) (ground arith)
rsplit_once-append at (c ∷ u) s h = rw (cons-append, rsplit_once-append at u s h) refl
