-- ===== src/Nonce/Sending.antt =====
-- What one `NonceCheck` (bridge/src/bridge/nonce.rs) sends, and how it meets the node's errors.
use poa_bridge.Prelude.{ℕ, suc, ◌≡◌, refl, ap, true, List, ◌∷◌, arith}
use poa_bridge.Error.{rpc, web3, RpcError, Result, ok, err, panic}
use poa_bridge.Futures.{Poll, ready, failed, Feed}
use poa_bridge.Futures.Loop.{stop, Runs-unique, next, Runs, Lowers, Keeps, drive-Runs, Runs-Keeps}
use poa_bridge.Nonce.{
  is_nonce_error, reacquire, nonce_request, nonce_ready, prepare_raw_transaction,
  transaction_request, nonce_available, Transaction, prepared, TransactionSender, Signer, round,
  round_in, budget, poll, NonceCheck, NonceCheckState,
}

module _ {T : Type 0} (signer : Signer) (sender : TransactionSender T) where
  open signer use {tx_hash}
  open sender use {ignore}

  round_in-Lowers :
      (state : NonceCheckState) (c : NonceCheck T)
      → c.state ≡ state
      → Lowers budget c (round_in signer sender state c)
  unfolding round_in budget
  round_in-Lowers nonce_ready c e = ground arith
  round_in-Lowers reacquire c e = ground arith
  round_in-Lowers nonce_request c e = ground arith
  round_in-Lowers (nonce_available n) c e = ground arith
  round_in-Lowers (transaction_request bytes) c e = ground arith

  -- A poll of a nonce check ends: it returns what the program's loop returns, which has no bound on its
  -- rounds, whatever the answers are.
  pub nonce_poll-Runs :
      (c : NonceCheck T)
      → Runs (round signer sender) (poll signer sender c).0 (poll signer sender c).1 c
  unfolding poll round
  nonce_poll-Runs c =
      drive-Runs (round signer sender) budget (λ d. round_in-Lowers d.state d refl) (suc (budget c))
        c (omega arith)

  -- The bytes in flight are those of the check's transaction.
  abbrev pub InFlight : NonceCheckState → NonceCheck T → Type 0
  InFlight (transaction_request bytes) c =
      prepare_raw_transaction signer c.transaction c.account c.chain_id ≡ ok bytes
  InFlight _ c = Unit

  -- The check still is about transaction `tx`, up to the nonce.
  abbrev pub IsFor : Transaction → NonceCheck T → Type 0
  IsFor tx c = (c.transaction ≡ record tx { nonce = c.transaction.nonce }) × InFlight c.state c

  prepared-Keeps :
      (tx : Transaction) (n : ℕ) (c : NonceCheck T) (r : Result (List ℕ))
      → c.transaction ≡ record tx { nonce = n }
      → c.state ≡ nonce_available n
      → prepare_raw_transaction signer c.transaction c.account c.chain_id ≡ r
      → Keeps (IsFor tx) (λ d p. IsFor tx d) (prepared signer sender r c)
  unfolding prepared
  prepared-Keeps tx n c (ok bytes) e s p = ground arith
  prepared-Keeps tx n c (err x) e s p = ground arith
  prepared-Keeps tx n c panic e s p = ground arith

  round_in-Keeps :
      (tx : Transaction) (state : NonceCheckState) (c : NonceCheck T)
      → c.state ≡ state
      → c.transaction ≡ record tx { nonce = c.transaction.nonce }
      → InFlight state c
      → Keeps (IsFor tx) (λ d p. IsFor tx d) (round_in signer sender state c)
  unfolding round_in
  round_in-Keeps tx nonce_ready c e h f = ground arith
  round_in-Keeps tx reacquire c e h f = ground arith
  round_in-Keeps tx nonce_request c e h f = ground arith
  round_in-Keeps tx (nonce_available n) c e h f =
      prepared-Keeps tx n (record c { transaction = record (c.transaction) { nonce = n } })
        (prepare_raw_transaction signer (record (c.transaction) { nonce = n }) c.account c.chain_id)
        (ap (λ (t : Transaction). record t { nonce = n }) h) e refl
  round_in-Keeps tx (transaction_request bytes) c e h f = ground arith

  -- Whatever the node answers, a check that is about a transaction is still about it after a poll:
  -- only the nonce may differ, and the bytes in flight are the signed encoding of the transaction
  -- under that nonce.
  pub poll-IsFor :
      (tx : Transaction) (c : NonceCheck T) → IsFor tx c → IsFor tx (poll signer sender c).0
  unfolding round
  poll-IsFor tx c h =
      Runs-Keeps (round signer sender) (IsFor tx) (λ d p. IsFor tx d)
        (λ d k. round_in-Keeps tx d.state d refl k.0 k.1) (nonce_poll-Runs c) h

  poll-of-Runs :
      (c d : NonceCheck T) (p : Poll T)
      → Runs (round signer sender) d p c
      → poll signer sender c ≡ (d, p)
  poll-of-Runs c d p r = Runs-unique (round signer sender) (nonce_poll-Runs c) refl r

  -- When the node refuses the sent transaction with the error that asks for a higher nonce, answers
  -- with its own count, and takes the next sending, which can be signed: one poll sends the
  -- transaction again under that count and returns the node's answer, and the node's cell holds
  -- that count.
  pub poll_recovers :
      (c : NonceCheck T) (bytes again_bytes : List ℕ) (e : RpcError) (n : ℕ) (t : T)
      (nonces : Feed ℕ) (sends : Feed T)
      → c.state ≡ transaction_request bytes
      → is_nonce_error e ≡ true
      → c.send_replies ≡ failed (web3 (rpc e)) ∷ ready t ∷ sends
      → c.nonce_replies ≡ ready n ∷ nonces
      → prepare_raw_transaction signer (record (c.transaction) { nonce = n }) c.account c.chain_id
        ≡ ok again_bytes
      → poll signer sender c ≡ (
        record c {
          state = transaction_request again_bytes;
          transaction = record (c.transaction) { nonce = n };
          node_nonce = n;
          nonce_replies = nonces;
          send_replies = sends;
        },
        ready t,
      )
  unfolding round
  poll_recovers c bytes again_bytes e n t nonces sends state hn hs hr prep =
      let c1 : NonceCheck T = record c { state = reacquire; send_replies = ready t ∷ sends } in
      let c2 : NonceCheck T = record c1 { state = nonce_request } in
      let c3 : NonceCheck T = record c2 {
        state = nonce_available n;
        node_nonce = n;
        nonce_replies = nonces;
      } in
      let tx : Transaction = record (c.transaction) { nonce = n } in
      let c4 : NonceCheck T = record c3 {
        state = transaction_request again_bytes;
        transaction = tx;
      } in
      poll-of-Runs c (record c4 { send_replies = sends }) (ready t)
        (next {u = c1} (ground arith) (
          next {u = c2} (ground arith)
            (next {u = c3} (ground arith) (next {u = c4} (ground arith) (stop (ground arith))))))
