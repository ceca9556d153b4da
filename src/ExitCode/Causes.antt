-- ===== src/ExitCode/Causes.antt =====
-- Which errors the exit codes of cli/src/main.rs stand for.
use poa_bridge.Error.{
  Error, RpcError, IoErrorKind, broken_pipe, contextualized_error, web3, web3_io, rpc,
  shutdown_requested,
}
use poa_bridge.ExitCode.{
  user_facing, rpc_exit_code, io_exit_code, root_cause, err_shutdown_requested,
}
use poa_bridge.Prelude.{ℕ, ◌≡◌, refl, ◌≢◌, ◌≤◌, ◌↔◌, Bool, true, false, if◌then◌else◌, arith}

pub if-holds : (P : ℕ → Type 0) (b : Bool) (x y : ℕ) → P x → P y → P (if b then x else y)
if-holds P true x y h k = h
if-holds P false x y h k = k

-- The codes for what a node may refuse.
abbrev IsRefusal : ℕ → Type 0
IsRefusal code = (4 ≤ code) × (code ≢ 10)

rpc_exit_code-IsRefusal : (e : RpcError) → IsRefusal (rpc_exit_code e)
unfolding rpc_exit_code
rpc_exit_code-IsRefusal e =
    if-holds IsRefusal _ 4 _ (omega arith, λ h. omega arith)
      (if-holds IsRefusal _ 5 _ (omega arith, λ h. omega arith)
        (if-holds IsRefusal _ 6 _ (omega arith, λ h. omega arith)
          (if-holds IsRefusal _ 7 _ (omega arith, λ h. omega arith)
            (if-holds IsRefusal _ 7 20 (omega arith, λ h. omega arith)
              (omega arith, λ h. omega arith)))))

io_exit_code-connected : (kind : IoErrorKind) → io_exit_code kind ≢ 10
unfolding io_exit_code
io_exit_code-connected broken_pipe h = omega arith
io_exit_code-connected kind h = omega arith

io_exit_code-up : (kind : IoErrorKind) → io_exit_code kind ≢ err_shutdown_requested
unfolding io_exit_code
io_exit_code-up broken_pipe h = omega arith
io_exit_code-up kind h = omega arith

-- No error of a running bridge has the code of a failed connection.
pub user_facing-connected : (e : Error) → (user_facing e).exit_code ≢ 10
unfolding user_facing
user_facing-connected (contextualized_error e context) = user_facing-connected e
user_facing-connected (web3 (web3_io kind)) = io_exit_code-connected kind
user_facing-connected (web3 (rpc e)) = (rpc_exit_code-IsRefusal e).1
user_facing-connected e = λ h. omega arith

-- A bridge that has failed exits with the code of a shutdown exactly where the cause of the error,
-- under all its contexts, is the request to shut down.
pub user_facing_shutdown :
    (e : Error)
    → ((user_facing e).exit_code ≡ err_shutdown_requested) ↔ (root_cause e ≡ shutdown_requested)
unfolding user_facing
user_facing_shutdown (contextualized_error e context) = user_facing_shutdown e
user_facing_shutdown (web3 (web3_io kind)) = (λ h. absurd (io_exit_code-up kind h), λ h. cc)
user_facing_shutdown (web3 (rpc e)) =
    (let range = (rpc_exit_code-IsRefusal e).0 in λ h. absurd (omega arith), λ h. cc)
user_facing_shutdown shutdown_requested = (λ h. refl, λ h. refl)
user_facing_shutdown e = ((λ h. absurd (omega arith)), λ h. cc)
