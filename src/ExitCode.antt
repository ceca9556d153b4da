-- ===== src/ExitCode.antt =====
-- cli/src/main.rs: how `execute` turns the bridge's result into an exit code, and
-- bridge/src/error.rs: the errors it looks at.
pub mod Classes
pub mod Causes
pub mod Codes
use poa_bridge.Prelude.{ℕ, String, Bool, ◌&&◌, if◌then◌else◌, starts_with}
use poa_bridge.Error.{
  rpc, io, broken_pipe, shutdown_requested, web3, IoErrorKind, contextualized_error, web3_io,
  RpcError, insufficient_funds, Error,
}
use poa_bridge.Prelude.Int.{negsuc}
use poa_bridge.Nonce.{is_server_error}

abbrev pub err_unknown : ℕ
err_unknown = 1

abbrev pub err_io_error : ℕ
err_io_error = 2

abbrev pub err_shutdown_requested : ℕ
err_shutdown_requested = 3

abbrev pub err_insufficient_funds : ℕ
err_insufficient_funds = 4

abbrev pub err_gas_too_low : ℕ
err_gas_too_low = 5

abbrev pub err_gas_price_too_low : ℕ
err_gas_price_too_low = 6

abbrev pub err_nonce_reuse : ℕ
err_nonce_reuse = 7

abbrev pub err_connection_lost : ℕ
err_connection_lost = 11

abbrev pub err_bridge_crash : ℕ
err_bridge_crash = 12

abbrev pub err_rpc_error : ℕ
err_rpc_error = 20

-- A code with the error that is shown.
pub record UserFacingError : Type 0 where
  pub exit_code : ℕ
  pub shown : Error

-- `e.code == ServerError(-32010) && e.message.starts_with(prefix)`.
unfoldable pub refused_with : RpcError → String → Bool
refused_with e prefix = is_server_error e.error_code (negsuc 32009) && starts_with e.message prefix

unfoldable pub rpc_exit_code : RpcError → ℕ
rpc_exit_code e =
    if refused_with e "Insufficient funds"
    then err_insufficient_funds
    else if refused_with e "Transaction gas is too low"
    then err_gas_too_low
    else if refused_with e "Transaction gas price is too low"
    then err_gas_price_too_low
    else if refused_with e "Transaction gas price is too low. There is another"
    then err_nonce_reuse
    else if refused_with e "Transaction nonce is too low"
    then err_nonce_reuse
    else err_rpc_error

unfoldable pub io_exit_code : IoErrorKind → ℕ
io_exit_code broken_pipe = err_connection_lost
io_exit_code _ = err_io_error

-- The `loop` over the result: a context is logged and taken off, and any other error ends it.
unfoldable pub user_facing : Error → UserFacingError
unfolding rpc_exit_code io_exit_code
user_facing (contextualized_error e context) = user_facing e
user_facing (web3 (web3_io kind)) = record { exit_code = io_exit_code kind; shown = io kind }
user_facing shutdown_requested = record {
  exit_code = err_shutdown_requested;
  shown = shutdown_requested;
}
user_facing insufficient_funds = record {
  exit_code = err_insufficient_funds;
  shown = insufficient_funds;
}
user_facing (web3 (rpc e)) = record { exit_code = rpc_exit_code e; shown = web3 (rpc e) }
user_facing e = record { exit_code = err_bridge_crash; shown = e }

-- The error under all its contexts.
abbrev pub root_cause : Error → Error
root_cause (contextualized_error e context) = root_cause e
root_cause e = e
