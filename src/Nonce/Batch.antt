-- ===== src/Nonce/Batch.antt =====
-- The nonces of a batch of checks (bridge/src/bridge/nonce.rs), as the relays start them.
use poa_bridge.Prelude.{
  zero, suc, ◌+◌, ◌^◌, ◌<◌, refl, ap, map, arith, length, All, ℕ, ◌≡◌, List, [], ◌∷◌,
}
use poa_bridge.Error.{ok}
use poa_bridge.Futures.{Poll, not_ready}
use poa_bridge.Futures.Loop.{Runs, stop, next, Runs-unique}
use poa_bridge.Nonce.Sending.{nonce_poll-Runs}
use poa_bridge.Nonce.{
  nonce_available, transaction_request, next_nonce, round, nonce_ready, TransactionSender,
  NonceCheck, poll,
}
use poa_bridge.Transaction.{prepare_raw_transaction, Transaction, Signer}

-- A check that has just been made, whose node has not answered yet.
pub record IsFresh {T : Type 0} (c : NonceCheck T) : Type 0 where
  pub is_ready : c.state ≡ nonce_ready
  pub unanswered : c.send_replies ≡ []

-- The signer accepts every transaction.
abbrev pub Signs : Signer → Type 0
Signs signer =
    (tx : Transaction) (account : List ℕ) (chain_id : ℕ)
    → (bytes : List ℕ) × (prepare_raw_transaction signer tx account chain_id ≡ ok bytes)

module _ {T : Type 0} (signer : Signer) (sender : TransactionSender T) where
  -- The first poll of every check of a batch, in order, over one nonce cell.
  unfoldable pub start_all : ℕ → List (NonceCheck T) → List (NonceCheck T) × ℕ
  start_all cell [] = ([], cell)
  start_all cell (c ∷ cs) =
      let started = (poll signer sender (record c { node_nonce = cell })).0 in
      let rest = start_all started.node_nonce cs in (started ∷ rest.0, rest.1)

  start_one :
      (c : NonceCheck T) (cell : ℕ) (bytes : List ℕ)
      → IsFresh c
      → prepare_raw_transaction signer
          (record (c.transaction) { nonce = cell })
          c.account
          c.chain_id
        ≡ ok bytes
      → (poll signer sender (record c { node_nonce = cell })).0 ≡ record c {
        state = transaction_request bytes;
        transaction = record (c.transaction) { nonce = cell };
        node_nonce = next_nonce cell;
      }
  unfolding round
  start_one c cell bytes fresh prep =
      let c0 : NonceCheck T = record c { node_nonce = cell } in
      let c1 : NonceCheck T = record c {
        state = nonce_available cell;
        node_nonce = next_nonce cell;
      } in
      let c2 : NonceCheck T = record c1 {
        state = transaction_request bytes;
        transaction = record (c.transaction) { nonce = cell };
      } in
      let unanswered = fresh.unanswered in
      let is_ready = fresh.is_ready in
      let run : Runs (round signer sender) c2 not_ready c0 =
        next {u = c1} (ground arith) (next {u = c2} (ground arith) (stop (ground arith))) in
      ap (λ (r : NonceCheck T × Poll T). r.0)
        (Runs-unique (round signer sender) (nonce_poll-Runs signer sender c0) refl run)

abbrev pub count_up : ℕ → ℕ → List ℕ
count_up n zero = []
count_up n (suc k) = n ∷ count_up (n + 1) k

module _ {T : Type 0} (signer : Signer) (sender : TransactionSender T) where
  -- Where the signer accepts every transaction, no node has answered yet and the nonces stay below
  -- 2 ^ 256: the first polls of a batch of new checks give their transactions consecutive nonces,
  -- from the one in the cell on, and leave in the cell the number after the last.
  pub start_all-nonces :
      (cs : List (NonceCheck T)) (cell : ℕ)
      → Signs signer
      → All IsFresh cs
      → cell + length cs < 2 ^ 256
      → let (started, after) = start_all signer sender cell cs in
        (map (λ c. c.transaction.nonce) started ≡ count_up cell (length cs))
        × (after ≡ cell + length cs)
  unfolding start_all
  start_all-nonces [] cell signs fresh fits = (refl, omega arith)
  start_all-nonces (c ∷ cs) cell signs (f, fs) fits =
      let (bytes, prep) = signs (record (c.transaction) { nonce = cell }) c.account c.chain_id in
      let one = start_one signer sender c cell bytes f prep in
      let rest = start_all-nonces cs (cell + 1) signs fs (omega arith) in
      let step : next_nonce cell ≡ cell + 1 = omega arith in
      rw (one, step) (ap (◌∷◌ cell) rest.0, omega (arith, rest.1))
