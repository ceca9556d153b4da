-- ===== src/ExitCode/Codes.antt =====
-- The exit codes of cli/src/main.rs that a failed bridge can have.
use poa_bridge.Error.{
  Error, RpcError, IoErrorKind, broken_pipe, contextualized_error, web3, web3_io, rpc,
  shutdown_requested, insufficient_funds,
}
use poa_bridge.ExitCode.{
  user_facing, rpc_exit_code, io_exit_code, err_io_error, err_shutdown_requested,
  err_insufficient_funds, err_gas_too_low, err_gas_price_too_low, err_nonce_reuse,
  err_connection_lost, err_bridge_crash, err_rpc_error,
}
use poa_bridge.ExitCode.Causes.{if-holds}
use poa_bridge.Prelude.{ℕ, ◌≡◌, refl, ◌⊎◌, inl, List, [], ◌∷◌, arith}

abbrev pub OneOf : ℕ → List ℕ → Type 0
OneOf code [] = ⊥
OneOf code (c ∷ cs) = (code ≡ c) ⊎ OneOf code cs

-- The codes of a bridge that has failed.
abbrev pub failure_codes : List ℕ
failure_codes =
    err_bridge_crash ∷ err_shutdown_requested ∷ err_insufficient_funds ∷ err_gas_too_low
    ∷ err_gas_price_too_low ∷ err_nonce_reuse ∷ err_rpc_error ∷ err_connection_lost ∷ err_io_error
    ∷ []

abbrev IsFailure : ℕ → Type 0
IsFailure code = OneOf code failure_codes

rpc_exit_code-IsFailure : (e : RpcError) → IsFailure (rpc_exit_code e)
unfolding rpc_exit_code
rpc_exit_code-IsFailure e = if-holds IsFailure _ 4 _ (ground arith) (
    if-holds IsFailure _ 5 _ (ground arith) (
      if-holds IsFailure _ 6 _ (ground arith) (
        if-holds IsFailure _ 7 _ (ground arith)
          (if-holds IsFailure _ 7 20 (ground arith) (ground arith)))))

io_exit_code-IsFailure : (kind : IoErrorKind) → IsFailure (io_exit_code kind)
unfolding io_exit_code
io_exit_code-IsFailure broken_pipe = ground arith
io_exit_code-IsFailure kind = ground arith

pub user_facing-IsFailure : (e : Error) → OneOf (user_facing e).exit_code failure_codes
unfolding user_facing
user_facing-IsFailure (contextualized_error e context) = user_facing-IsFailure e
user_facing-IsFailure (web3 (web3_io kind)) = io_exit_code-IsFailure kind
user_facing-IsFailure (web3 (rpc e)) = rpc_exit_code-IsFailure e
user_facing-IsFailure shutdown_requested = ground arith
user_facing-IsFailure insufficient_funds = ground arith
user_facing-IsFailure e = inl refl
