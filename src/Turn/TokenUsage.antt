-- ===== src/Turn/TokenUsage.antt =====
-- Which usage `parse_usage_from_value` (crates/sdk/src/api.rs) finds in a value.
use codex_sdk_rs.Prelude.{
  ℕ, zero, suc, ◌<◌, ◌≡◌, ◌↔◌, refl, subst, ◌∙◌, none, some, Option, arith, Option-cases, inl, inr,
  unwrap_or, ◌and_then◌,
}
use codex_sdk_rs.Prelude.Int.{pos}
use codex_sdk_rs.SerdeJson.{SerdeJson, as_i64}
use codex_sdk_rs.ThreadItem.{Usage}
use codex_sdk_rs.Turn.{usage_by_fuel, usage_fields, parse_usage_from_value, int_field}

module _ ⦃json : SerdeJson⦄ where
  open json use {Value, Object, as_object, get, depth, depth-get}

  -- With more fuel than the value is deep, the amount does not matter.
  enough_fuel :
      (m n : ℕ) (value : Value)
      → depth value < m
      → depth value < n
      → usage_by_fuel m value ≡ usage_by_fuel n value
  unfolding usage_by_fuel
  enough_fuel zero n value h k = elim h [ ]
  enough_fuel (suc m) zero value h k = elim k [ ]
  enough_fuel (suc m) (suc n) value h k = elim (Option-cases (as_object value)) [
    | inl e ↦ rw (e, usage_by_fuel) refl
    | inr (object, e) ↦
        rw (e, usage_by_fuel)
          (elim (Option-cases (get "last" object)) [
            | inl f ↦ rw (f, usage_by_fuel) refl
            | inr (last, f) ↦
                let less = depth-get value last object "last" e f in
                rw (f, usage_by_fuel) (enough_fuel m n last (omega arith) (omega arith))
          ])
  ]

  -- The source's recursion: the fuel of the model always suffices.
  parse_usage_from_value_lem :
      (value : Value)
      → parse_usage_from_value value ≡ elim (as_object value) [
        | none ↦ none
        | some object ↦ elim (get "last" object) [
          | some last ↦ parse_usage_from_value last
          | none ↦ usage_fields object
        ]
      ]
  unfolding parse_usage_from_value usage_by_fuel
  parse_usage_from_value_lem value = elim (Option-cases (as_object value)) [
    | inl e ↦ rw (e, usage_by_fuel) refl
    | inr (object, e) ↦
        rw (e, usage_by_fuel)
          (elim (Option-cases (get "last" object)) [
            | inl f ↦ rw (f, usage_by_fuel) refl
            | inr (last, f) ↦
                let less = depth-get value last object "last" e f in
                rw (f, usage_by_fuel)
                  (enough_fuel (depth value) (suc (depth last)) last (omega arith) (omega arith))
          ])
  ]

  -- The value is an object whose usage is this: that of its `last`, if it has one, and otherwise that
  -- of its numbers of input and output tokens, which must be there, and of cached ones, else 0.
  pub data IsUsage (usage : Usage) : Value → Type 0 where
    of_last :
        {value : Value} (object : Object) (last : Value)
        → as_object value ≡ some object
        → get "last" object ≡ some last
        → IsUsage usage last
        → IsUsage usage value
    of_fields :
        {value : Value} (object : Object)
        → as_object value ≡ some object
        → get "last" object ≡ none
        → (get "inputTokens" object and_then as_i64) ≡ some usage.input_tokens
        → (get "outputTokens" object and_then as_i64) ≡ some usage.output_tokens
        → usage.cached_input_tokens
          ≡ unwrap_or (pos 0) (get "cachedInputTokens" object and_then as_i64)
        → IsUsage usage value

  abbrev Reads : Value → Option Usage → Type 0
  Reads value none = Unit
  Reads value (some usage) = IsUsage usage value

  of_last-Reads :
      (value last : Value) (object : Object) (o : Option Usage)
      → as_object value ≡ some object
      → get "last" object ≡ some last
      → Reads last o
      → Reads value o
  of_last-Reads value last object none e f h = tt
  of_last-Reads value last object (some usage) e f h = IsUsage.of_last object last e f h

  usage_fields-Reads :
      (value : Value) (object : Object)
      → as_object value ≡ some object
      → get "last" object ≡ none
      → Reads value (usage_fields object)
  unfolding usage_fields int_field
  usage_fields-Reads value object e f =
      elim (Option-cases (get "inputTokens" object and_then as_i64)) [
        | inl i ↦ rw (i, usage_fields) tt
        | inr (input, i) ↦ elim (Option-cases (get "outputTokens" object and_then as_i64)) [
          | inl o ↦ rw (i, usage_fields) (rw (o, usage_fields) tt)
          | inr (output, o) ↦
              rw (i, usage_fields) (rw (o, usage_fields) (IsUsage.of_fields object e f i o refl))
        ]
      ]

  usage_by_fuel-Reads : (fuel : ℕ) (value : Value) → Reads value (usage_by_fuel fuel value)
  unfolding usage_by_fuel
  usage_by_fuel-Reads zero value = tt
  usage_by_fuel-Reads (suc fuel) value = elim (Option-cases (as_object value)) [
    | inl e ↦ rw (e, usage_by_fuel) tt
    | inr (object, e) ↦
        rw (e, usage_by_fuel)
          (elim (Option-cases (get "last" object)) [
            | inl f ↦ rw (f, usage_by_fuel) (usage_fields-Reads value object e f)
            | inr (last, f) ↦
                rw (f, usage_by_fuel)
                  (of_last-Reads value last object (usage_by_fuel fuel last) e f
                    (usage_by_fuel-Reads fuel last))
          ])
  ]

  IsUsage-parsed :
      (usage : Usage) (value : Value)
      → IsUsage usage value
      → parse_usage_from_value value ≡ some usage
  unfolding usage_fields int_field
  IsUsage-parsed usage value (IsUsage.of_last object last e f h) =
      parse_usage_from_value_lem value ∙ rw e (rw f (IsUsage-parsed usage last h))
  IsUsage-parsed usage value (IsUsage.of_fields object e f i o c) =
      parse_usage_from_value_lem value
      ∙ rw e (rw f (rw (i, usage_fields) (rw (o, usage_fields) (rw (← c) refl))))

  -- A usage is found in a value if and only if it is the usage of the object that is reached from the
  -- value by following `last` as far as it goes: that object has whole numbers of input and output
  -- tokens, the numbers of the usage, and the cached ones are its number of these, or 0 if it has
  -- none. In particular the search ends on every value.
  pub parse_usage_from_value_iff :
      (value : Value) (usage : Usage)
      → (parse_usage_from_value value ≡ some usage) ↔ IsUsage usage value
  unfolding parse_usage_from_value
  parse_usage_from_value_iff value usage = (
    (λ e. subst (Reads value) e (usage_by_fuel-Reads (suc (depth value)) value)),
    IsUsage-parsed usage value,
  )
