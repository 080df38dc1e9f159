-- ===== src/Protocol.antt =====
-- crates/sdk/src/protocol/shared.rs and the error data of crates/sdk/src/error.rs.
pub mod OkAll
use codex_sdk_rs.Prelude.{ℕ, ◌≡◌, ◌↔◌, Bool, true, false, String, Option, arith, str_eq, eq_iff}
use codex_sdk_rs.Prelude.Int.{ℤ, pos, negsuc, eqb_ℤ}

pub data RequestId : Type 0 where
  string : String → RequestId
  integer : ℤ → RequestId

-- `RequestId: Eq`.
abbrev pub same_id : RequestId → RequestId → Bool
same_id (string s) (string t) = str_eq s t
same_id (integer m) (integer n) = eqb_ℤ m n
same_id (string s) (integer n) = false
same_id (integer m) (string t) = false

pub same_id_iff : (a b : RequestId) → (same_id a b ≡ true) ↔ (a ≡ b)
same_id_iff (string s) (string t) = ground (arith, eq_iff s t)
same_id_iff (integer (pos m)) (integer (pos n)) = ground arith
same_id_iff (integer (negsuc m)) (integer (negsuc n)) = ground arith
same_id_iff (integer (pos m)) (integer (negsuc n)) = ground arith
same_id_iff (integer (negsuc m)) (integer (pos n)) = ground arith
same_id_iff (string s) (integer n) = ground arith
same_id_iff (integer m) (string t) = ground arith

pub record RpcError (Value : Type 0) : Type 0 where
  pub code : ℤ
  pub message : String
  pub details : Option Value

-- `RPC_ERROR_CODE_HANDLER_FAILED`, -32001.
abbrev pub rpc_error_code_handler_failed : ℤ
rpc_error_code_handler_failed = negsuc 32000

-- `RPC_ERROR_CODE_TRANSPORT_FAILURE`, -32098.
abbrev pub rpc_error_code_transport_failure : ℤ
rpc_error_code_transport_failure = negsuc 32097

-- `ClientError`; a serialization or input error of another library is its text.
pub data ClientError (Value : Type 0) : Type 0 where
  not_initialized : (method : String) → ClientError Value
  not_ready : (method : String) → ClientError Value
  already_initialized : ClientError Value
  timeout : (method : String) (timeout_ms : ℕ) → ClientError Value
  config : String → ClientError Value
  startup : (message : String) (log_path : Option String) → ClientError Value
  transport_send : String → ClientError Value
  transport_closed : ClientError Value
  invalid_message : String → ClientError Value
  serialization : String → ClientError Value
  io : String → ClientError Value
  rpc : RpcError Value → ClientError Value
  unexpected_result : (method : String) (source : String) → ClientError Value

-- `Result<A, E>`.
pub data Result (A E : Type 0) : Type 0 where
  ok : A → Result A E
  err : E → Result A E

infixl 5 ◌>>=◌
abbrev pub ◌>>=◌ : {A B E : Type 0} → Result A E → (A → Result B E) → Result B E
ok a >>= f = f a
err e >>= f = err e

-- `Result::unwrap_or`.
abbrev pub ok_or : {A E : Type 0} → A → Result A E → A
ok_or d (ok a) = a
ok_or d (err e) = d
