-- ===== src/Options/Lookup.antt =====
-- What a key is sent with, for the maps of parameters that crates/sdk/src/api.rs builds.
use codex_sdk_rs.Prelude.{
  ◌≡◌, refl, sym, ap, ◌∙◌, subst, ◌⊎◌, inl, inr, String, true, false, Option, none, some, List, [],
  ◌∷◌, ◌++◌, All, or_else, str_eq, if◌then◌else◌, Bool-cases, eq_iff,
}
use mathlib.Core.List.{append-nil, append_assoc}
use codex_sdk_rs.SerdeJson.{field}
use codex_sdk_rs.Options.{Map}
use codex_sdk_rs.Options.Values.{insert, insert_each, insert_all}
use codex_sdk_rs.Options.Wire.{present}

module _ {A : Type 0} where
  pub or_else_none : (a : Option A) → or_else a none ≡ a
  or_else_none none = refl
  or_else_none (some x) = refl

  pub or_else_assoc : (a b c : Option A) → or_else (or_else a b) c ≡ or_else a (or_else b c)
  or_else_assoc none b c = refl
  or_else_assoc (some x) b c = refl

module _ {Value : Type 0} where
  -- The last slot of a key counts, if it holds a value.
  abbrev pub lookup : String → List (String × Option Value) → Option Value
  lookup key [] = none
  lookup key ((name, value) ∷ slots) =
      let rest = lookup key slots in if str_eq name key then or_else rest value else rest

  abbrev pub names : List (String × Option Value) → List String
  names [] = []
  names ((name, value) ∷ slots) = name ∷ names slots

  pub field-append :
      (key : String) (xs ys : Map Value)
      → field key (xs ++ ys) ≡ or_else (field key ys) (field key xs)
  field-append key [] ys = sym (or_else_none _)
  field-append key ((name, value) ∷ xs) ys =
      rw (field-append key xs ys)
        (or_else_assoc (field key ys) (field key xs) (if str_eq name key then some value else none))

  pub field-present :
      (key : String) (slots : List (String × Option Value))
      → field key (present slots) ≡ lookup key slots
  unfolding present
  field-present key [] = refl
  field-present key ((name, none) ∷ slots) =
      field-present key slots
      ∙ elim (str_eq name key)
          as (λ b.
            lookup key slots ≡ (if b then or_else (lookup key slots) none else lookup key slots)) [
              | true ↦ sym (or_else_none _)
              | false ↦ refl
            ]
  field-present key ((name, some value) ∷ slots) =
      rw (field-present key slots)
        (elim (str_eq name key)
          as (λ b.
            or_else (lookup key slots) (if b then some value else none)
            ≡ (if b then or_else (lookup key slots) (some value) else lookup key slots)) [
              | true ↦ refl
              | false ↦ or_else_none _
            ])

  pub present-append :
      (xs ys : List (String × Option Value)) → present (xs ++ ys) ≡ present xs ++ present ys
  unfolding present
  present-append [] ys = refl
  present-append ((name, none) ∷ xs) ys = present-append xs ys
  present-append ((name, some value) ∷ xs) ys = ap (λ r. (name, value) ∷ r) (present-append xs ys)

  pub insert_each-present :
      (map : Map Value) (slots : List (String × Option Value))
      → insert_each map slots ≡ map ++ present slots
  unfolding insert_each present
  insert_each-present map [] = sym (append-nil map)
  insert_each-present map ((name, none) ∷ slots) = insert_each-present map slots
  insert_each-present map ((name, some value) ∷ slots) =
      insert_each-present (insert map name value) slots
      ∙ append_assoc map ((name, value) ∷ []) (present slots)

  -- A struct's slots, with two runs of insertions as its `extra`.
  pub field-wire :
      (key : String) (slots common rest : List (String × Option Value))
      → field key (present slots ++ insert_each (insert_each [] common) rest)
        ≡ lookup key (slots ++ (common ++ rest))
  field-wire key slots common rest =
      ap (λ extra. field key (present slots ++ extra))
        (insert_each-present (insert_each [] common) rest
          ∙ ap (λ m. m ++ present rest) (insert_each-present [] common)
          ∙ sym (present-append common rest))
      ∙ ap (field key) (sym (present-append slots (common ++ rest)))
      ∙ field-present key (slots ++ (common ++ rest))

  pub insert_all-append : (map entries : Map Value) → insert_all map entries ≡ map ++ entries
  unfolding insert_all
  insert_all-append map [] = sym (append-nil map)
  insert_all-append map ((name, value) ∷ entries) =
      insert_all-append (insert map name value) entries
      ∙ append_assoc map ((name, value) ∷ []) entries

  pub lookup-absent :
      (key : String) (slots : List (String × Option Value))
      → All (λ name. str_eq name key ≡ false) (names slots)
      → lookup key slots ≡ none
  lookup-absent key [] h = refl
  lookup-absent key ((name, value) ∷ slots) h = rw (h.0) (lookup-absent key slots h.1)

-- What holds at each of these names holds at the key, unless it is none of them.
pub at_name :
    (P : String → Type 0) (key : String) (keys : List String)
    → All P keys
    → P key ⊎ All (λ name. str_eq name key ≡ false) keys
at_name P key [] h = inr tt
at_name P key (name ∷ keys) h = elim (Bool-cases (str_eq name key)) [
  | inl same ↦ inl (subst P ((eq_iff name key).0 same) h.0)
  | inr other ↦ elim (at_name P key keys h.1) [ inl p ↦ inl p | inr rest ↦ inr (other, rest) ]
]
