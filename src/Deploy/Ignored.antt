-- ===== src/Deploy/Ignored.antt =====
-- What bridge/src/bridge/deploy.rs makes of a creation that the node has already imported.
use poa_bridge.Error.{Result, ◌>>=◌, panic}
use poa_bridge.Prelude.{Option, none, some, ◌≡◌, refl, ◌⊎◌, inl, inr, List, ◌∷◌, ℕ}
use poa_bridge.Futures.{Feed, ready, panicked}
use poa_bridge.Futures.Loop.{Runs-unique, stop}
use poa_bridge.Transaction.{Transaction}
use poa_bridge.Database.{Toml}
use poa_bridge.Deploy.{
  Deploy, deploying, TransactionReceipt, ignored_receipt, address_of, deployed_database,
  receipts_arrived, round, round_in, poll,
}
use poa_bridge.Deploy.Resumes.{deploy_poll-Runs}

-- Whether or not there is an address, a panic follows.
address_of-panic :
    {A : Type 0} (address : Option (List ℕ))
    → ◌≡◌ {A = Result A} (address_of address >>= λ a. panic) panic
unfolding address_of
address_of-panic (some a) = refl
address_of-panic none = refl

deployed_database-panic :
    (r : TransactionReceipt × TransactionReceipt) (hash : List ℕ)
    → (r.0 ≡ ignored_receipt hash) ⊎ (r.1 ≡ ignored_receipt hash)
    → deployed_database r.0 r.1 ≡ panic
unfolding deployed_database address_of ignored_receipt
deployed_database-panic r hash (inl e) = rw e refl
deployed_database-panic r hash (inr e) = rw e (address_of-panic r.0.contract_address)

module _ (toml : Toml) where
  -- A deployment that waits for its two receipts panics where one of them is the receipt that is made
  -- up for a transaction that the node has already imported: it has no contract address.
  pub deploy_poll_ignored :
      (s : Deploy) (main_tx test_tx : Transaction) (hash : List ℕ)
      (r : TransactionReceipt × TransactionReceipt)
      (rest : Feed (TransactionReceipt × TransactionReceipt))
      → s.state ≡ deploying main_tx test_tx
      → s.receipts ≡ ready r ∷ rest
      → (r.0 ≡ ignored_receipt hash) ⊎ (r.1 ≡ ignored_receipt hash)
      → poll toml s ≡ (record s { receipts = rest }, panicked)
  unfolding round round_in receipts_arrived
  deploy_poll_ignored s main_tx test_tx hash r rest waits answered ignored =
      Runs-unique (round toml) (deploy_poll-Runs toml s) refl
        (stop (rw (waits, answered, deployed_database-panic r hash ignored) refl))
