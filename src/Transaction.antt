-- ===== src/Transaction.antt =====
-- bridge/src/transaction.rs: signing and encoding a transaction.
-- The hash, the key store and the RLP encoding are third-party code, and enter as a `Signer`.
use poa_bridge.Error.{sign_error, Result, ok, err, panic}
use poa_bridge.Prelude.{ℕ, String, ◌⊎◌, inl, inr, Option, none, some, List}

pub data Action : Type 0 where
  create : Action
  call : List ℕ → Action

-- `ethcore_transaction::Transaction`.
pub record Transaction : Type 0 where
  pub nonce : ℕ
  pub gas_price : ℕ
  pub gas : ℕ
  pub action : Action
  pub value : ℕ
  pub tx_data : List ℕ

-- `tx.hash(Some(chain_id))`, `keystore.sign(account, None, hash)`, and the signed transaction's RLP
-- bytes, which exist where `SignedTransaction::new` accepts the signature.
pub record Signer : Type 0 where
  pub tx_hash : Transaction → ℕ → List ℕ
  pub sign : List ℕ → List ℕ → String ⊎ List ℕ
  pub encode : Transaction → List ℕ → ℕ → Option (List ℕ)

module _ (signer : Signer) where
  open signer use {tx_hash, sign, encode}

  unfoldable pub prepare_raw_transaction : Transaction → List ℕ → ℕ → Result (List ℕ)
  prepare_raw_transaction tx account chain_id = elim (sign account (tx_hash tx chain_id)) [
    | inl e ↦ err (sign_error e)
    | inr sig ↦ elim (encode tx sig chain_id) [ some bytes ↦ ok bytes | none ↦ panic ]
  ]
