-- ===== src/Prelude/SplitOnce.antt =====
-- What `split_once` finds.
use codex_sdk_rs.Prelude.{
  ℕ, ◌≡◌, ap, ◌∙◌, sym, String, Bool, true, false, Option, none, some, if_elim,
}
use Prim.Native.Char.{Char, code}
use Prim.Native.String.{[], ◌∷◌}
use Prim.Native.String
use text.Mathlib.TextLemmas.{nil-append, cons-append}
use codex_sdk_rs.Prelude.Split.{split_once, cons_first, Lacks}

module _ (hit : ℕ → Bool) where
  -- The text is the two parts around a hit, and the first part has none.
  abbrev pub IsSplit : String → String × String → Type 0
  IsSplit s (before, after) =
      (at : Char) × (s ≡ String.◌++◌ before (at ∷ after))
      × (hit (code at) ≡ true)
      × Lacks hit before

  abbrev pub SplitAll : String → Option (String × String) → Type 0
  SplitAll s none = Unit
  SplitAll s (some parts) = IsSplit s parts

  cons-SplitAll :
      (c : Char) (s : String) (o : Option (String × String))
      → hit (code c) ≡ false
      → SplitAll s o
      → SplitAll (c ∷ s) (cons_first c o)
  cons-SplitAll c s none e h = tt
  cons-SplitAll c s (some (before, after)) e (at, same, is_hit, lacks) =
      (at, ap (λ t. c ∷ t) same ∙ sym (cons-append c before (at ∷ after)), is_hit, (e, lacks))

  pub split_once-SplitAll : (s : String) → SplitAll s (split_once hit s)
  unfolding split_once
  split_once-SplitAll [] = tt
  split_once-SplitAll (c ∷ s) =
      if_elim (SplitAll (c ∷ s)) (hit (code c)) (λ e. (c, sym (nil-append (c ∷ s)), e, tt))
        (λ e. cons-SplitAll c s (split_once hit s) e (split_once-SplitAll s))
