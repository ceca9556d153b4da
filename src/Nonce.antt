-- ===== src/Nonce.antt =====
-- bridge/src/bridge/nonce.rs: `NonceCheck`, which sends one transaction under a nonce of the node.
-- The nonce cell that the checks of a node share is threaded through `node_nonce`.
pub mod Sending
pub mod Batch
use poa_bridge.Prelude.{
  ℕ, suc, ◌+◌, ◌*◌, ◌%◌, ◌^◌, Bool, false, ◌&&◌, List, if◌then◌else◌, length, ends_with,
}
use poa_bridge.Error.{Error, Result, ok, err, panic, ErrorCode, server_error, RpcError, rpc, web3}
use poa_bridge.Futures.{
  Poll, ready, not_ready, failed, panicked, Feed, poll_feed, Round, again, done, try_ready, drive,
}
use poa_bridge.Prelude.Int.{ℤ, negsuc, eq_ℤ}
use poa_bridge.Transaction.{Transaction, Signer, prepare_raw_transaction}

pub data NonceCheckState : Type 0 where
  nonce_ready : NonceCheckState
  reacquire : NonceCheckState
  nonce_request : NonceCheckState
  nonce_available : ℕ → NonceCheckState
  transaction_request : List ℕ → NonceCheckState

-- `send` makes the future whose answers are the feed `send_replies`; its bytes stand in the state.
pub record TransactionSender (T : Type 0) : Type 0 where
  pub ignore : List ℕ → T

pub record NonceCheck (T : Type 0) : Type 0 where
  pub state : NonceCheckState
  pub transaction : Transaction
  pub account : List ℕ
  pub chain_id : ℕ
  pub node_nonce : ℕ
  pub nonce_replies : Feed ℕ
  pub send_replies : Feed T

-- `overflowing_add(U256::one())`, without the overflow flag.
abbrev pub next_nonce : ℕ → ℕ
next_nonce n = (n + 1) % 2 ^ 256

unfoldable pub is_server_error : ErrorCode → ℤ → Bool
is_server_error (server_error n) k = eq_ℤ n k
is_server_error _ k = false

-- The two errors of the node that `NonceCheck` handles itself.
unfoldable pub is_nonce_error : RpcError → Bool
is_nonce_error e =
    is_server_error e.error_code (negsuc 32009) && ends_with e.message "incrementing the nonce."

unfoldable pub is_imported_error : RpcError → Bool
is_imported_error e =
    is_server_error e.error_code (negsuc 32009) && ends_with e.message "already imported."

module _ {T : Type 0} (signer : Signer) (sender : TransactionSender T) where
  open signer use {tx_hash}
  open sender use {ignore}

  unfoldable pub send_failed : Error → NonceCheck T → Round (NonceCheck T) T
  send_failed (web3 (rpc e)) c =
      if is_nonce_error e
      then again (record c { state = reacquire })
      else if is_imported_error e
      then done c (ready (ignore (tx_hash c.transaction c.chain_id)))
      else done c (failed (web3 (rpc e)))
  send_failed e c = done c (failed e)

  unfoldable pub send_answered : Poll T → NonceCheck T → Round (NonceCheck T) T
  unfolding send_failed
  send_answered (ready t) c = done c (ready t)
  send_answered not_ready c = done c not_ready
  send_answered (failed e) c = send_failed e c
  send_answered panicked c = done c panicked

  unfoldable pub prepared : Result (List ℕ) → NonceCheck T → Round (NonceCheck T) T
  prepared (ok tx) c = again (record c { state = transaction_request tx })
  prepared (err e) c = done c (failed e)
  prepared panic c = done c panicked

  unfoldable pub round_in : NonceCheckState → NonceCheck T → Round (NonceCheck T) T
  unfolding send_answered prepared
  round_in nonce_ready c =
      again
        (record c { state = nonce_available c.node_nonce; node_nonce = next_nonce c.node_nonce })
  round_in reacquire c = again (record c { state = nonce_request })
  round_in nonce_request c =
      let (p, rest) = poll_feed c.nonce_replies in
      let c' = record c { nonce_replies = rest } in
      try_ready p c'
        λ nonce. again (record c' { state = nonce_available nonce; node_nonce = nonce })
  round_in (nonce_available n) c =
      let tx = record (c.transaction) { nonce = n } in
      prepared (prepare_raw_transaction signer tx c.account c.chain_id)
        (record c { transaction = tx })
  round_in (transaction_request bytes) c =
      let (p, rest) = poll_feed c.send_replies in send_answered p (record c { send_replies = rest })

  unfoldable pub round : NonceCheck T → Round (NonceCheck T) T
  unfolding round_in
  round c = round_in c.state c

abbrev pub idle_rounds : NonceCheckState → ℕ
idle_rounds nonce_ready = 2
idle_rounds reacquire = 1
idle_rounds (nonce_available n) = 1
idle_rounds _ = 0

unfoldable pub budget : {T : Type 0} → NonceCheck T → ℕ
budget c = 3 * (length c.nonce_replies + length c.send_replies) + idle_rounds c.state

unfoldable pub poll :
    {T : Type 0} → Signer → TransactionSender T → NonceCheck T → NonceCheck T × Poll T
poll signer sender c = drive (round signer sender) (suc (budget c)) c

-- `send_transaction_with_nonce`, over what the node will answer.
unfoldable pub send_transaction_with_nonce :
    {T : Type 0} → Transaction → List ℕ → ℕ → ℕ → Feed ℕ → Feed T → NonceCheck T
send_transaction_with_nonce tx account chain_id nonce nonce_replies send_replies = record {
  state = nonce_ready;
  transaction = tx;
  account = account;
  chain_id = chain_id;
  node_nonce = nonce;
  nonce_replies = nonce_replies;
  send_replies = send_replies;
}

-- `SendRawTransaction` answers with the hash itself.
abbrev pub send_raw_transaction : TransactionSender (List ℕ)
send_raw_transaction = record { ignore = λ hash. hash }
