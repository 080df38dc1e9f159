-- ===== src/Luna/Config/Given.antt =====
-- What the sources of a configuration of luna say (crates/luna/src/config.rs): the text of
-- `--config-json`, the entries of `--config`, and the other flags.
use codex_sdk_rs.Prelude.{
  ◌≡◌, refl, ◌⊎◌, inl, inr, String, Bool, false, Option, none, some, List, [], ◌∷◌, ◌++◌, eqb, map,
  map_some, unwrap_or, is_empty, All, All-split, if_elim, if◌then◌else◌,
}
use codex_sdk_rs.Prelude.Text.{trim, is_empty_str}
use codex_sdk_rs.Prelude.Split.{split_once}
use codex_sdk_rs.Prelude.SplitOnce.{IsSplit, SplitAll, split_once-SplitAll}
use codex_sdk_rs.Protocol.{Result, ok, err, ◌>>=◌}
use codex_sdk_rs.Protocol.OkAll.{OkAll}
use codex_sdk_rs.SerdeJson.{SerdeJson}
use codex_sdk_rs.Options.{Map}
use codex_sdk_rs.Options.Enums.{web_search_mode_str, model_verbosity_str}
use codex_sdk_rs.Luna.Config.{
  ConfigFlags, Setting, parsed_json, object_or, value_or_text, split_entry, parse_entry,
  parse_json_value, parse_optional_json_object, setting_of, roots_value, flag_settings,
}

module _ ⦃json : SerdeJson⦄ (from_str : String → Result json.Value String)
    (entries : json.Object → Map json.Value) (same_value : json.Value → json.Value → Bool) where
  open json use {Value, Object, as_object, text, boolean, array}

  -- The entries of the object that `--config-json` gives.
  abbrev pub ObjectGiven : Option String → Map Value → Type 0
  ObjectGiven none given = given ≡ []
  ObjectGiven (some raw) given =
      (value : Value) × (object : Object) × (from_str raw ≡ ok value)
      × (as_object value ≡ some object)
      × (given ≡ entries object)

  object_or-Given :
      (raw flag : String) (value : Value) (o : Option Object)
      → from_str raw ≡ ok value
      → as_object value ≡ o
      → OkAll
          (λ given. ObjectGiven (some raw) (unwrap_or [] given))
          (object_or from_str entries same_value flag o)
  object_or-Given raw flag value none r e = tt
  object_or-Given raw flag value (some object) r e = (value, object, r, e, refl)

  pub parse_optional_json_object-Given :
      (config_json : Option String) (flag : String)
      → OkAll
          (λ given. ObjectGiven config_json (unwrap_or [] given))
          (parse_optional_json_object from_str entries same_value config_json flag)
  unfolding parse_optional_json_object parse_json_value
  parse_optional_json_object-Given none flag = refl
  parse_optional_json_object-Given (some raw) flag = read (from_str raw) refl
    where
      read :
          (r : Result Value String)
          → from_str raw ≡ r
          → OkAll
              (λ given. ObjectGiven (some raw) (unwrap_or [] given))
              (parsed_json from_str entries same_value flag r >>= λ value.
                object_or from_str entries same_value flag (as_object value))
      read (ok value) e = object_or-Given raw flag value (as_object value) e refl
      read (err x) e = tt

  -- What the text of a value stands for: its JSON value or, if it is no JSON, the text.
  abbrev pub IsValue : String → Value → Type 0
  IsValue raw value =
      (from_str raw ≡ ok value)
      ⊎ ((error : String) × (from_str raw ≡ err error) × (value ≡ text raw))

  -- What an entry of `--config` says: a value for a key, around the first `=`, both trimmed and not
  -- empty.
  abbrev pub EntryGiven : String → String → Value → Type 0
  EntryGiven entry key value =
      (raw_key raw_value : String) × IsSplit (λ c. eqb c b'=') entry (raw_key, raw_value)
      × (key ≡ trim raw_key)
      × (is_empty_str key ≡ false)
      × (is_empty_str (trim raw_value) ≡ false)
      × IsValue (trim raw_value) value

  value_or_text-IsValue :
      (raw : String) (r : Result Value String)
      → from_str raw ≡ r
      → IsValue raw (value_or_text from_str entries same_value raw r)
  value_or_text-IsValue raw (ok value) e = inl e
  value_or_text-IsValue raw (err x) e = inr (x, e, refl)

  split_entry-Given :
      (entry : String) (o : Option (String × String))
      → SplitAll (λ c. eqb c b'=') entry o
      → OkAll
          (λ (setting : Setting Value). EntryGiven entry setting.key setting.value)
          (split_entry from_str entries same_value o)
  split_entry-Given entry none h = tt
  split_entry-Given entry (some (raw_key, raw_value)) h =
      if_elim (OkAll (λ (setting : Setting Value). EntryGiven entry setting.key setting.value))
        (is_empty_str (trim raw_key)) (λ e. tt)
        (λ e.
          if_elim (OkAll (λ (setting : Setting Value). EntryGiven entry setting.key setting.value))
            (is_empty_str (trim raw_value)) (λ f. tt)
            (λ f. (
              raw_key,
              raw_value,
              h,
              refl,
              e,
              f,
              value_or_text-IsValue (trim raw_value) (from_str (trim raw_value)) refl,
            )))

  pub parse_entry-Given :
      (entry : String)
      → OkAll
          (λ (setting : Setting Value). EntryGiven entry setting.key setting.value)
          (parse_entry from_str entries same_value entry)
  unfolding parse_entry
  parse_entry-Given entry =
      split_entry-Given entry (split_once (λ c. eqb c b'=') entry)
        (split_once-SplitAll (λ c. eqb c b'=') entry)

  -- What the other flags set, if they are given.
  abbrev pub flags_given : ConfigFlags → List (String × Option Value)
  flags_given flags =
      ("web_search", map_some (λ mode. text (web_search_mode_str mode)) flags.web_search_mode)
      ∷ ("profile", map_some text flags.config_profile)
      ∷ (
        "model_verbosity",
        map_some (λ verbosity. text (model_verbosity_str verbosity)) flags.model_verbosity,
      )
      ∷ (
        "sandbox_workspace_write.network_access",
        map_some boolean flags.sandbox_network_access_enabled,
      )
      ∷ (
        "sandbox_workspace_write.writable_roots",
        if is_empty flags.sandbox_writable_roots
            then none
            else some (array (map text flags.sandbox_writable_roots)),
      )
      ∷ []

  module _ (P : String → Value → Type 0) where
    -- What holds of a flag's setting, if it is given.
    abbrev pub IfGiven : String × Option Value → Type 0
    IfGiven (key, none) = Unit
    IfGiven (key, some value) = P key value

    abbrev Sets : Setting Value → Type 0
    Sets setting = P setting.key setting.value

    abbrev Holds : List (Setting Value) → Type 0
    Holds = All Sets

    setting_of-IfGiven :
        (key source : String) (o : Option Value)
        → Holds (setting_of from_str entries same_value key source o)
        → IfGiven (key, o)
    setting_of-IfGiven key source none h = tt
    setting_of-IfGiven key source (some value) h = h.0

    roots_value-IfGiven :
        (source : String) (roots : List String)
        → Holds (
            setting_of from_str entries same_value "sandbox_workspace_write.writable_roots" source
              (roots_value from_str entries same_value roots))
        → IfGiven (
          "sandbox_workspace_write.writable_roots",
          if is_empty roots then none else some (array (map text roots)),
        )
    roots_value-IfGiven source [] h = tt
    roots_value-IfGiven source (root ∷ roots) h = h.0

    module _ (flags : ConfigFlags) where
      abbrev set : String → String → Option Value → List (Setting Value)
      set = setting_of from_str entries same_value

      abbrev mode_set : List (Setting Value)
      mode_set =
          set "web_search" "--web-search-mode"
            (map_some (λ mode. text (web_search_mode_str mode)) flags.web_search_mode)

      abbrev profile_set : List (Setting Value)
      profile_set = set "profile" "--config-profile" (map_some text flags.config_profile)

      abbrev verbosity_set : List (Setting Value)
      verbosity_set =
          set "model_verbosity" "--model-verbosity"
            (map_some (λ verbosity. text (model_verbosity_str verbosity)) flags.model_verbosity)

      abbrev network_set : List (Setting Value)
      network_set =
          set "sandbox_workspace_write.network_access"
            "--sandbox-network-access-enabled/--sandbox-network-access-disabled"
            (map_some boolean flags.sandbox_network_access_enabled)

      pub flag_settings-given :
          Holds (flag_settings from_str entries same_value flags) → All IfGiven (flags_given flags)
      flag_settings-given h =
          let (before_roots, roots) =
            All-split Sets (mode_set ++ profile_set ++ verbosity_set ++ network_set) _ h in
          let (before_network, network) =
            All-split Sets (mode_set ++ profile_set ++ verbosity_set) network_set before_roots in
          let (before_verbosity, verbosity) =
            All-split Sets (mode_set ++ profile_set) verbosity_set before_network in
          let (mode, profile) = All-split Sets mode_set profile_set before_verbosity in
          (
            setting_of-IfGiven "web_search" "--web-search-mode" _ mode,
            (
              setting_of-IfGiven _ _ _ profile,
              (
                setting_of-IfGiven _ _ _ verbosity,
                (
                  setting_of-IfGiven _ _ _ network,
                  (roots_value-IfGiven _ flags.sandbox_writable_roots roots, tt),
                ),
              ),
            ),
          )
