-- ===== src/Luna/Config/Agents/Tells.antt =====
-- What a result of crates/luna/src/config.rs tells: a property, or an error of the configuration.
use codex_sdk_rs.Prelude.{String, Option, none, some, List, ◌≡◌, refl}
use codex_sdk_rs.Protocol.{Result, ok, err, ◌>>=◌}
use codex_sdk_rs.SerdeJson.{SerdeJson}
use codex_sdk_rs.Luna.Errors.{code}
use codex_sdk_rs.Luna.Config.Agents.{Files, Luna, or_failed, or_toml, or_missing}

module _ ⦃json : SerdeJson⦄ where
  open json use {Value}

  -- A result with a property, or an error of the configuration.
  abbrev pub Tells : {A : Type 0} → (A → Type 0) → Luna A → Type 0
  Tells P (ok a) = P a
  Tells P (err e) = code e ≡ "luna.configuration"

  pub bind-Tells :
      {A B : Type 0} (P : A → Type 0) (Q : B → Type 0) (m : Luna A) (f : A → Luna B)
      → Tells P m
      → ((a : A) → P a → Tells Q (f a))
      → Tells Q (m >>= f)
  bind-Tells P Q (ok a) f h k = k a h
  bind-Tells P Q (err e) f h k = h

  pub map-Tells :
      {A : Type 0} (P Q : A → Type 0) (m : Luna A) → Tells P m → ((a : A) → P a → Q a) → Tells Q m
  map-Tells P Q (ok a) h k = k a h
  map-Tells P Q (err e) h k = h

  pub or_missing-Tells :
      (files : Files) {A : Type 0} (pieces : List String) (o : Option A)
      → Tells (λ a. o ≡ some a) (or_missing files pieces o)
  unfolding or_missing code
  or_missing-Tells files pieces (some a) = refl
  or_missing-Tells files pieces none = refl

  pub or_failed-Tells :
      (files : Files) {A : Type 0} (pieces : List String) (r : Result A String)
      → Tells (λ a. r ≡ ok a) (or_failed files pieces r)
  unfolding or_failed code
  or_failed-Tells files pieces (ok a) = refl
  or_failed-Tells files pieces (err e) = refl

  pub or_toml-Tells :
      (files : Files) {A : Type 0} (path : String) (r : Result A String)
      → Tells (λ a. r ≡ ok a) (or_toml files path r)
  unfolding or_toml code
  or_toml-Tells files path (ok a) = refl
  or_toml-Tells files path (err e) = refl

  -- A file is read and parsed to this.
  abbrev pub Parsed :
      (files : Files) {A : Type 0} → String → (String → Result A String) → A → Type 0
  Parsed files path parse a =
      (raw : String) × (files.read_to_string path ≡ ok raw) × (parse raw ≡ ok a)

  pub Parsed-Tells :
      (files : Files) {A : Type 0} (pieces : List String) (path : String)
      (parse : String → Result A String)
      → Tells (Parsed files path parse) (
          or_failed files pieces (files.read_to_string path) >>= λ raw.
          or_toml files path (parse raw))
  Parsed-Tells files pieces path parse =
      bind-Tells (λ raw. files.read_to_string path ≡ ok raw) (Parsed files path parse)
        (or_failed files pieces (files.read_to_string path)) (λ raw. or_toml files path (parse raw))
        (or_failed-Tells files pieces (files.read_to_string path))
        (λ raw r.
          map-Tells (λ a. parse raw ≡ ok a) (Parsed files path parse)
            (or_toml files path (parse raw)) (or_toml-Tells files path (parse raw))
            (λ a e. (raw, r, e)))
