-- ===== src/Luna/Config/Sources.antt =====
-- That no source of luna's configuration replaces another: `build_thread_config` of
-- crates/luna/src/config.rs.
use codex_sdk_rs.Prelude.{
  ◌≡◌, refl, ap, ◌∙◌, subst, ◌⊎◌, inl, inr, String, Bool, true, Option, none, some, List, [], ◌∷◌,
  All, All-map, unwrap_or, str_eq, Bool-cases, eq_iff, eq_refl, arith,
}
use codex_sdk_rs.Protocol.{Result, ok, ◌>>=◌}
use codex_sdk_rs.Protocol.OkAll.{OkAll, OkAll-bind, OkAll-map}
use codex_sdk_rs.SerdeJson.{SerdeJson, field}
use codex_sdk_rs.Options.{Map}
use codex_sdk_rs.Options.Values.{insert}
use codex_sdk_rs.Options.Lookup.{field-append}
use codex_sdk_rs.Luna.Errors.{LunaError}
use codex_sdk_rs.Luna.Config.Given.{
  ObjectGiven, parse_optional_json_object-Given, EntryGiven, parse_entry-Given, IfGiven,
  flags_given, flag_settings-given,
}
use codex_sdk_rs.Luna.Config.{
  ConfigFlags, Setting, insert_unless, insert_thread_config, parse_entry, insert_entries,
  insert_settings, parse_optional_json_object, flag_settings, unless_empty, build_thread_config,
}

module _ ⦃json : SerdeJson⦄ (from_str : String → Result json.Value String)
    (entries : json.Object → Map json.Value) (same_value : json.Value → json.Value → Bool) where
  open json use {Value}

  -- What the first map says of a key, the second says too.
  abbrev pub IsKept : Map Value → Map Value → Type 0
  IsKept config final =
      (key : String) (value : Value) → field key config ≡ some value → field key final ≡ some value

  -- The key has the value, or one that is equal as JSON.
  abbrev pub Has : Map Value → String → Value → Type 0
  Has final key given =
      (value : Value) × (field key final ≡ some value)
      × ((value ≡ given) ⊎ (same_value value given ≡ true))

  abbrev Holds : Map Value → Setting Value → Type 0
  Holds final setting = Has final setting.key setting.value

  Has-IsKept :
      (config final : Map Value) (key : String) (given : Value)
      → IsKept config final
      → Has config key given
      → Has final key given
  Has-IsKept config final key given kept (value, e, same) = (value, kept key value e, same)

  abbrev Inserted : Map Value → Setting Value → Map Value → Type 0
  Inserted config setting final = IsKept config final × Holds final setting

  insert-IsKept :
      (config : Map Value) (name : String) (v : Value)
      → field name config ≡ none
      → IsKept config (insert config name v)
  insert-IsKept config name v fresh key value e =
      field-append key config ((name, v) ∷ []) ∙ elim (Bool-cases (str_eq name key)) [
        | inl same ↦
            absurd (ground (arith, fresh, e, ap (λ k. field k config) ((eq_iff name key).0 same)))
        | inr other ↦ rw (other) e
      ]

  insert-field :
      (config : Map Value) (name : String) (v : Value) → field name (insert config name v) ≡ some v
  insert-field config name v = field-append name config ((name, v) ∷ []) ∙ rw (eq_refl name) refl

  insert_unless-Inserted :
      (config : Map Value) (setting : Setting Value) (found : Option Value)
      → field setting.key config ≡ found
      → OkAll
          (Inserted config setting)
          (insert_unless from_str entries same_value config setting found)
  insert_unless-Inserted config setting none e = (
    insert-IsKept config setting.key setting.value e,
    (setting.value, insert-field config setting.key setting.value, inl refl),
  )
  insert_unless-Inserted config setting (some existing) e =
      elim (Bool-cases (same_value existing setting.value)) [
        | inl same ↦ rw (same) ((λ key value h. h), (existing, e, inr same))
        | inr other ↦ rw (other) tt
      ]

  insert_thread_config-Inserted :
      (config : Map Value) (setting : Setting Value)
      → OkAll
          (Inserted config setting)
          (insert_thread_config from_str entries same_value config setting)
  unfolding insert_thread_config
  insert_thread_config-Inserted config setting =
      insert_unless-Inserted config setting (field setting.key config) refl

  abbrev AllInserted : Map Value → List (Setting Value) → Map Value → Type 0
  AllInserted config settings final = IsKept config final × All (Holds final) settings

  insert_settings-AllInserted :
      (settings : List (Setting Value)) (config : Map Value)
      → OkAll
          (AllInserted config settings)
          (insert_settings from_str entries same_value config settings)
  unfolding insert_settings
  insert_settings-AllInserted [] config = ((λ key value h. h), tt)
  insert_settings-AllInserted (setting ∷ rest) config =
      OkAll-bind (Inserted config setting) (AllInserted config (setting ∷ rest))
        (insert_thread_config from_str entries same_value config setting)
        (λ inserted. insert_settings from_str entries same_value inserted rest)
        (insert_thread_config-Inserted config setting)
        λ inserted (kept, held).
          OkAll-map (AllInserted inserted rest) (AllInserted config (setting ∷ rest)) _
            (λ final (kept', all). (
              (λ key value h. kept' key value (kept key value h)),
              (Has-IsKept inserted final setting.key setting.value kept' held, all),
            ))
            (insert_settings-AllInserted rest inserted)

  -- What the entry of `--config` says holds.
  abbrev pub EntryHolds : Map Value → String → Type 0
  EntryHolds final entry =
      (key : String) × (value : Value) × EntryGiven from_str entries same_value entry key value
      × Has final key value

  abbrev Reads : String → Setting Value → Type 0
  Reads entry setting = EntryGiven from_str entries same_value entry setting.key setting.value

  abbrev Entered : Map Value → List String → Map Value → Type 0
  Entered config given final = IsKept config final × All (EntryHolds final) given

  insert_entries-Entered :
      (given : List String) (config : Map Value)
      → OkAll (Entered config given) (insert_entries from_str entries same_value config given)
  unfolding insert_entries
  insert_entries-Entered [] config = ((λ key value h. h), tt)
  insert_entries-Entered (entry ∷ rest) config =
      OkAll-bind (Reads entry) (Entered config (entry ∷ rest))
        (parse_entry from_str entries same_value entry)
        (λ setting. insert_thread_config from_str entries same_value config setting >>= λ inserted.
          insert_entries from_str entries same_value inserted rest)
        (parse_entry-Given from_str entries same_value entry)
        λ setting parsed.
          OkAll-bind (Inserted config setting) (Entered config (entry ∷ rest))
            (insert_thread_config from_str entries same_value config setting)
            (λ inserted. insert_entries from_str entries same_value inserted rest)
            (insert_thread_config-Inserted config setting)
            λ inserted (kept, held).
              OkAll-map (Entered inserted rest) (Entered config (entry ∷ rest)) _
                (λ final (kept', all). (
                  (λ key value h. kept' key value (kept key value h)),
                  (
                    (
                      setting.key,
                      setting.value,
                      parsed,
                      Has-IsKept inserted final setting.key setting.value kept' held,
                    ),
                    all,
                  ),
                ))
                (insert_entries-Entered rest inserted)

  -- Every source of the configuration is in the result.
  abbrev pub Sources : Option String → List String → ConfigFlags → Option (Map Value) → Type 0
  Sources config_json config_entries flags result =
      let final = unwrap_or [] result in
      (given : Map Value) × ObjectGiven from_str entries same_value config_json given
      × IsKept given final
      × All (EntryHolds final) config_entries
      × All (IfGiven from_str entries same_value (Has final))
          (flags_given from_str entries same_value flags)

  finished :
      (config_json : Option String) (config_entries : List String) (flags : ConfigFlags)
      (final : Map Value)
      → Sources config_json config_entries flags (some final)
      → OkAll
          (Sources config_json config_entries flags)
          (unless_empty from_str entries same_value final)
  finished config_json config_entries flags [] h = h
  finished config_json config_entries flags (entry ∷ rest) h = h

  build_thread_config-OkAll :
      (config_json : Option String) (config_entries : List String) (flags : ConfigFlags)
      → OkAll
          (Sources config_json config_entries flags)
          (build_thread_config from_str entries same_value config_json config_entries flags)
  unfolding build_thread_config
  build_thread_config-OkAll config_json config_entries flags =
      OkAll-bind (λ given. ObjectGiven from_str entries same_value config_json (unwrap_or [] given))
        (Sources config_json config_entries flags)
        (parse_optional_json_object from_str entries same_value config_json "--config-json")
        (λ given.
          insert_entries from_str entries same_value (unwrap_or [] given) config_entries >>= finish)
        (parse_optional_json_object-Given from_str entries same_value config_json "--config-json")
        λ given parsed.
          OkAll-bind (Entered (unwrap_or [] given) config_entries)
            (Sources config_json config_entries flags)
            (insert_entries from_str entries same_value (unwrap_or [] given) config_entries) finish
            (insert_entries-Entered config_entries (unwrap_or [] given))
            λ config (kept, entered).
              OkAll-bind (AllInserted config settings) (Sources config_json config_entries flags)
                (insert_settings from_str entries same_value config settings)
                (unless_empty from_str entries same_value)
                (insert_settings-AllInserted settings config)
                λ final (kept', held). finished config_json config_entries flags final (
                  unwrap_or [] given,
                  parsed,
                  (λ key value h. kept' key value (kept key value h)),
                  All-map config_entries
                      (λ entry (key, value, e, h).
                        (key, value, e, Has-IsKept config final key value kept' h))
                      entered,
                  flag_settings-given from_str entries same_value (Has final) flags held,
                )
    where
      settings : List (Setting Value)
      settings = flag_settings from_str entries same_value flags

      finish : Map Value → Result (Option (Map Value)) (LunaError Value)
      finish config =
          insert_settings from_str entries same_value config settings
          >>= unless_empty from_str entries same_value

  -- A configuration of luna loses nothing: if one is built, `--config-json`, if it was given, was read
  -- as an object, and every one of its entries is in the result. Every `--config` entry was read as a
  -- key and a value around its first `=`, both trimmed and not empty, and its key has that value in
  -- the result (as JSON, or as a text if it is none), or one that is equal as JSON. So has the key of
  -- each other flag that was given: the web search mode, the profile, the verbosity, the network
  -- access and the writable roots of the sandbox, unless there are none.
  pub build_thread_config-Sources :
      (config_json : Option String) (config_entries : List String) (flags : ConfigFlags)
      (result : Option (Map Value))
      → build_thread_config from_str entries same_value config_json config_entries flags ≡ ok result
      → Sources config_json config_entries flags result
  build_thread_config-Sources config_json config_entries flags result e =
      subst (OkAll (Sources config_json config_entries flags)) e
        (build_thread_config-OkAll config_json config_entries flags)
