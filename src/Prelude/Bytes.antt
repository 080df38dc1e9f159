-- ===== src/Prelude/Bytes.antt =====
-- Rust's byte offsets into `str`: the length of a text in UTF-8, and the split at an offset, which
-- panics inside a character.
use Prim.Native.Nat.{ℕ, ◌+◌, ◌-◌, ◌<◌}
use Prim.Native.Char.{Char, code}
use Prim.Native.String.{String, [], ◌∷◌}
use Prim.Native.String
use mathlib.Core.Path.{◌≡◌, refl, ap, ◌∙◌}
use mathlib.Core.Logic.{◌⊎◌, inl, inr}
use mathlib.Core.Bool.{false}
use mathlib.Core.Option.{Option, none, some}
use native.Mathlib.Omega.{arith}
use text.Mathlib.TextLemmas.{nil-append, cons-append}
use codex_sdk_rs.Prelude.Tests.{ltb, eqb, if◌then◌else◌}
use codex_sdk_rs.Prelude.Split.{cons_first}

-- `char::len_utf8`.
abbrev pub len_utf8 : Char → ℕ
len_utf8 c =
    if ltb (code c) 0x80
    then 1
    else if ltb (code c) 0x800
    then 2
    else if ltb (code c) 0x10000
    then 3
    else 4

-- `str::len`.
unfoldable pub byte_len : String → ℕ
byte_len [] = 0
byte_len (c ∷ s) = len_utf8 c + byte_len s

-- `(&s[..n], &s[n..])`.
unfoldable pub split_at : String → ℕ → Option (String × String)
split_at [] n = if eqb n 0 then some ("", "") else none
split_at (c ∷ s) n =
    let rest = cons_first c (split_at s (n - len_utf8 c)) in
    if eqb n 0 then some ("", c ∷ s) else if ltb n (len_utf8 c) then none else rest

-- `chars().next_back()` and what stands before it.
abbrev pub or_only : Char → Option (String × Char) → Option (String × Char)
or_only c none = some ("", c)
or_only c (some (start, last)) = some (c ∷ start, last)

unfoldable pub unsnoc : String → Option (String × Char)
unsnoc [] = none
unsnoc (c ∷ s) = or_only c (unsnoc s)

pub byte_len-append : (s t : String) → byte_len (String.◌++◌ s t) ≡ byte_len s + byte_len t
unfolding byte_len
byte_len-append [] t = rw (nil-append) (omega arith)
byte_len-append (c ∷ s) t = rw (cons-append, byte_len-append s t) (omega arith)

pub len_utf8-pos : (c : Char) → 0 < len_utf8 c
len_utf8-pos c = ground arith

split_at_zero : (s : String) → split_at s 0 ≡ some ("", s)
unfolding split_at
split_at_zero [] = refl
split_at_zero (c ∷ s) = refl

pub eqb_add : (k m : ℕ) → 0 < k → eqb (k + m) 0 ≡ false
eqb_add k m h = ground arith

pub ltb_add : (k m : ℕ) → ltb (k + m) k ≡ false
ltb_add k m = ground arith

pub sub_add : (k m : ℕ) → k + m - k ≡ m
sub_add k m = omega arith

pub split_at-append : (s t : String) → split_at (String.◌++◌ s t) (byte_len s) ≡ some (s, t)
unfolding split_at byte_len
split_at-append [] t = rw (nil-append) (split_at_zero t)
split_at-append (c ∷ s) t =
    rw
      (
        cons-append,
        eqb_add (len_utf8 c) (byte_len s) (len_utf8-pos c),
        ltb_add (len_utf8 c) (byte_len s),
        sub_add (len_utf8 c) (byte_len s),
        split_at-append s t,
      )
      refl

-- A text is empty, or it ends with its last character.
pub unsnoc-view :
    (s : String)
    → (s ≡ "")
      ⊎ ((start : String) × (last : Char) × (unsnoc s ≡ some (start, last))
          × (String.◌++◌ start (last ∷ []) ≡ s))
unfolding unsnoc
unsnoc-view [] = inl refl
unsnoc-view (c ∷ s) = elim (unsnoc-view s) [
  | inl p ↦ inr ("", c, rw (p) refl, rw (p) (nil-append (c ∷ [])))
  | inr (start, last, e, p) ↦
      inr (c ∷ start, last, rw (e) refl, cons-append c start (last ∷ []) ∙ ap (λ r. c ∷ r) p)
]
