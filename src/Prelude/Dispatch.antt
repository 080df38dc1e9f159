-- ===== src/Prelude/Dispatch.antt =====
-- A match on a text against literals, as a list of its rows.
use mathlib.Core.Bool.{Bool, true, false, ◌||◌}
use mathlib.Core.List.{List, [], ◌∷◌}
use mathlib.Core.Path.{◌≡◌, refl}
use Prim.Native.String.{String}
use codex_sdk_rs.Prelude.Tests.{str_eq, if◌then◌else◌, if_elim}

abbrev pub is_listed : String → List String → Bool
is_listed s [] = false
is_listed s (t ∷ ts) = str_eq s t || is_listed s ts

module _ {ℓ κ} {A : Type ℓ} (P : A → Type κ) (key : String) where
  -- A row, with what holds of its value where the key is its literal.
  pub record Row : Type (ℓ ⊔ κ) where
    pub literal : String
    pub value : A
    pub holds : str_eq key literal ≡ true → P value

  abbrev pub literals : List Row → List String
  literals [] = []
  literals (row ∷ rows) = row.literal ∷ literals rows

  abbrev pub dispatch : List Row → A → A
  dispatch [] last = last
  dispatch (row ∷ rows) last = if str_eq key row.literal then row.value else dispatch rows last

  -- A property that holds of every row that is hit, and of the last arm where none is.
  pub dispatch-elim :
      (rows : List Row) (last : A)
      → (is_listed key (literals rows) ≡ false → P last)
      → P (dispatch rows last)
  dispatch-elim [] last h = h refl
  dispatch-elim (row ∷ rows) last h =
      if_elim P (str_eq key row.literal) row.holds
        (λ missed. dispatch-elim rows last (λ later. h (rw (missed) later)))
