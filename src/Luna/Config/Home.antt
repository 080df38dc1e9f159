-- ===== src/Luna/Config/Home.antt =====
-- The home directories of crates/luna/src/config.rs. `variable` gives the variables of the environment.
use codex_sdk_rs.Prelude.{String, Option, none, some, ◌&&◌, not, if◌then◌else◌, ◌and_then◌}
use codex_sdk_rs.Prelude.Text.{is_empty_str}
use codex_sdk_rs.Prelude.Split.{path_join}

-- `env::var_os` of a variable that is set and not empty.
abbrev set_variable : Option String → Option String
set_variable none = none
set_variable (some value) = if is_empty_str value then none else some value

module _ (variable : String → Option String) where
  abbrev drive_home : Option String → Option String → Option String
  drive_home (some drive) (some path) =
      if not (is_empty_str drive) && not (is_empty_str path)
      then some (path_join drive path)
      else none
  drive_home _ path = none

  abbrev profile_home : Option String → Option String
  profile_home (some userprofile) = some userprofile
  profile_home none = drive_home (variable "HOMEDRIVE") (variable "HOMEPATH")

  abbrev own_home : Option String → Option String
  own_home (some home) = some home
  own_home none = profile_home (set_variable (variable "USERPROFILE"))

  unfoldable pub resolve_home_dir : Option String
  resolve_home_dir = own_home (set_variable (variable "HOME"))

  abbrev codex_home : Option String → Option String
  codex_home (some home) = some home
  codex_home none = resolve_home_dir and_then λ home. some (path_join home ".codex")

  unfoldable pub resolve_codex_home_dir : Option String
  resolve_codex_home_dir = codex_home (set_variable (variable "CODEX_HOME"))
