-- ===== src/Luna/Errors.antt =====
-- crates/luna/src/error.rs: the errors of luna, their codes and their exit codes.
use codex_sdk_rs.Prelude.{ℕ, String, str_eq, if◌then◌else◌}
use codex_sdk_rs.Protocol.{ClientError}
use codex_sdk_rs.Turn.Run.{ThreadRunError}

-- An error of the operating system or of TOML is its text.
pub data LunaError (Value : Type 0) : Type 0 where
  usage dependency config authentication transport protocol turn : String → LunaError Value
  io : String → LunaError Value
  client : ClientError Value → LunaError Value
  thread_run : ThreadRunError Value → LunaError Value
  toml : (path source : String) → LunaError Value

abbrev client_code : {Value : Type 0} → ClientError Value → String
client_code (ClientError.timeout method timeout_ms) = "luna.transport"
client_code (ClientError.config text) = "luna.transport"
client_code (ClientError.startup message log_path) = "luna.transport"
client_code (ClientError.transport_send text) = "luna.transport"
client_code ClientError.transport_closed = "luna.transport"
client_code (ClientError.io text) = "luna.transport"
client_code _ = "luna.protocol"

unfoldable pub code : {Value : Type 0} → LunaError Value → String
code (LunaError.usage text) = "luna.usage"
code (LunaError.dependency text) = "luna.dependency"
code (LunaError.config text) = "luna.configuration"
code (LunaError.toml path source) = "luna.configuration"
code (LunaError.authentication text) = "luna.authentication"
code (LunaError.transport text) = "luna.transport"
code (LunaError.protocol text) = "luna.protocol"
code (LunaError.turn text) = "luna.turn"
code (LunaError.io text) = "luna.io"
code (LunaError.client error) = client_code error
code (LunaError.thread_run error) = "luna.turn"

abbrev exit_code_of : String → ℕ
exit_code_of code =
    if str_eq code "luna.usage"
    then 2
    else if str_eq code "luna.dependency"
    then 3
    else if str_eq code "luna.configuration"
    then 4
    else if str_eq code "luna.authentication"
    then 5
    else if str_eq code "luna.transport"
    then 6
    else if str_eq code "luna.protocol"
    then 7
    else if str_eq code "luna.turn"
    then 8
    else 1

unfoldable pub exit_code : {Value : Type 0} → LunaError Value → ℕ
unfolding code
exit_code error = exit_code_of (code error)
