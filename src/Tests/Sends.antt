-- ===== src/Tests/Sends.antt =====
-- The theorems on sending transactions at concrete inputs.
use poa_bridge.Nonce.{
  is_server_error, is_nonce_error, poll, NonceCheck, transaction_request, send_raw_transaction,
  nonce_ready,
}
use poa_bridge.Transaction.{prepare_raw_transaction}
use poa_bridge.Prelude.{ends_with, true, ◌++◌, ◌≡◌, refl, List, ℕ, [], ◌∷◌, arith, map}
use poa_bridge.Error.{ok, rpc, web3}
use poa_bridge.Futures.{ready, failed}
use poa_bridge.Nonce.Batch.{Signs, start_all, start_all-nonces}
use poa_bridge.Nonce
use poa_bridge.Nonce.Sending.{IsFor, poll-IsFor, poll_recovers}
use poa_bridge.Tests.Samples.{account, signer, transaction, nonce_error}

-- A new check, and one whose transaction is with the node.
abbrev new_check : NonceCheck (List ℕ)
new_check = record {
  state = nonce_ready;
  transaction = transaction;
  account = account;
  chain_id = 77;
  node_nonce = 4;
  nonce_replies = [];
  send_replies = [];
}

abbrev sent_bytes : ℕ → List ℕ
sent_bytes n = n ∷ 77 ∷ (account ++ n ∷ 77 ∷ [])

abbrev sent_check : NonceCheck (List ℕ)
sent_check = record new_check {
  state = transaction_request (sent_bytes 4);
  transaction = record transaction { nonce = 4 };
  node_nonce = 5;
  nonce_replies = ready 8 ∷ [];
  send_replies = failed (web3 (rpc nonce_error)) ∷ ready (6 ∷ []) ∷ [];
}

prepared_under :
    (n : ℕ)
    → prepare_raw_transaction signer (record transaction { nonce = n }) account 77
      ≡ ok (sent_bytes n)
unfolding prepare_raw_transaction
prepared_under n = refl

poll-IsFor_example :
    IsFor signer send_raw_transaction transaction
      (Nonce.poll signer send_raw_transaction sent_check).0
poll-IsFor_example =
    poll-IsFor signer send_raw_transaction transaction sent_check (refl, prepared_under 4)

is_nonce : Nonce.is_nonce_error nonce_error ≡ true
unfolding Nonce.is_nonce_error Nonce.is_server_error poa_bridge.Prelude.Int.eq_ℤ
    poa_bridge.Prelude.ends_with
is_nonce = refl

poll_recovers_example : Nonce.poll signer send_raw_transaction sent_check ≡ (
  record sent_check {
    state = transaction_request (sent_bytes 8);
    transaction = record transaction { nonce = 8 };
    node_nonce = 8;
    nonce_replies = [];
    send_replies = [];
  },
  ready (6 ∷ []),
)
poll_recovers_example =
    poll_recovers signer send_raw_transaction sent_check (sent_bytes 4) (sent_bytes 8) nonce_error 8
      (6 ∷ []) [] [] refl is_nonce refl refl (prepared_under 8)

signer-Signs : poa_bridge.Nonce.Batch.Signs signer
unfolding prepare_raw_transaction
signer-Signs tx who chain_id = (tx.nonce ∷ chain_id ∷ (who ++ tx.nonce ∷ chain_id ∷ []), refl)

start_all-nonces_example :
    let (started, after) = start_all signer send_raw_transaction 4 (new_check ∷ new_check ∷ []) in
    (map (λ (c : NonceCheck (List ℕ)). c.transaction.nonce) started ≡ 4 ∷ 5 ∷ []) × (after ≡ 6)
start_all-nonces_example =
    start_all-nonces signer send_raw_transaction (new_check ∷ new_check ∷ []) 4 signer-Signs
      (
        record { is_ready = refl; unanswered = refl },
        (record { is_ready = refl; unanswered = refl }, tt),
      )
      (omega arith)
