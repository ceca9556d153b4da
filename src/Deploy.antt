-- ===== src/Deploy.antt =====
-- bridge/src/bridge/deploy.rs, with the `deploy` feature: the checkpoints of an earlier run, or new
-- contracts. The data of the two contracts' constructors is a field of the state, and the joined
-- futures of their transactions are a feed of pairs of receipts.
pub mod Resumes
pub mod Existing
pub mod Ignored
use poa_bridge.Prelude.{ℕ, suc, ◌+◌, ◌*◌, ◌%◌, ◌^◌, String, Option, none, some, List, length}
use poa_bridge.Error.{Result, ok, err, panic, ◌>>=◌, missing_file}
use poa_bridge.Futures.{
  Poll, ready, failed, panicked, Feed, poll_feed, Round, again, done, try_ready, drive,
}
use poa_bridge.LogStream.{low_u64}
use poa_bridge.Transaction.{Transaction, create}
use poa_bridge.Nonce.{TransactionSender}
use poa_bridge.Database.{Database, Toml, ReadOutcome, load}

pub data Deployed : Type 0 where
  new : Database → Deployed
  existing : Database → Deployed

-- The transactions are those handed to `send_transaction_with_nonce`, home first.
pub data DeployState : Type 0 where
  check_if_needed : DeployState
  deploying : Transaction → Transaction → DeployState

-- `web3::types::TransactionReceipt`, with the fields that are read.
pub record TransactionReceipt : Type 0 where
  pub contract_address : Option (List ℕ)
  pub block_number : ℕ

-- `TransactionReceipt::default()` with the hash of the transaction, which nothing reads.
unfoldable pub ignored_receipt : List ℕ → TransactionReceipt
ignored_receipt hash = record { contract_address = none; block_number = 0 }

-- `TransactionWithConfirmation`, whose future is the web3 crate's.
abbrev pub transaction_with_confirmation : TransactionSender TransactionReceipt
transaction_with_confirmation = record { ignore = ignored_receipt }

-- What is configured for the creation of a contract, with the constructor's data.
pub record Creation : Type 0 where
  pub gas : ℕ
  pub gas_price : ℕ
  pub constructor : List ℕ

pub record Deploy : Type 0 where
  pub state : DeployState
  pub database_path : String
  pub database_file : ReadOutcome
  pub home : Creation
  pub foreign : Creation
  pub receipts : Feed (TransactionReceipt × TransactionReceipt)

unfoldable pub create_deploy :
    String
    → ReadOutcome
    → Creation
    → Creation
    → Feed (TransactionReceipt × TransactionReceipt)
    → Deploy
create_deploy path file home foreign receipts = record {
  state = check_if_needed;
  database_path = path;
  database_file = file;
  home = home;
  foreign = foreign;
  receipts = receipts;
}

unfoldable pub create_transaction : Creation → Transaction
create_transaction c = record {
  nonce = 0;
  gas_price = c.gas_price;
  gas = c.gas;
  action = create;
  value = 0;
  tx_data = c.constructor;
}

-- `expect`, which panics on a receipt without an address.
unfoldable pub address_of : Option (List ℕ) → Result (List ℕ)
address_of (some address) = ok address
address_of none = panic

unfoldable pub deployed_database : TransactionReceipt → TransactionReceipt → Result Database
unfolding address_of
deployed_database main_receipt test_receipt = do
  home_address ← address_of main_receipt.contract_address
  foreign_address ← address_of test_receipt.contract_address
  ok (record {
    home_contract_address = home_address;
    foreign_contract_address = foreign_address;
    home_deploy = some (low_u64 main_receipt.block_number);
    foreign_deploy = some (low_u64 test_receipt.block_number);
    checked_deposit_relay = low_u64 main_receipt.block_number;
    checked_withdraw_relay = low_u64 test_receipt.block_number;
    checked_withdraw_confirm = low_u64 test_receipt.block_number;
  })

unfoldable pub database_loaded : Deploy → Result Database → Round Deploy Deployed
unfolding create_transaction
database_loaded s (ok database) = done s (ready (existing database))
database_loaded s (err (missing_file path)) =
    again
      (record s { state = deploying (create_transaction s.home) (create_transaction s.foreign) })
database_loaded s (err e) = done s (failed e)
database_loaded s panic = done s panicked

unfoldable pub receipts_arrived : Deploy → Result Database → Round Deploy Deployed
receipts_arrived s (ok database) = done s (ready (new database))
receipts_arrived s (err e) = done s (failed e)
receipts_arrived s panic = done s panicked

module _ (toml : Toml) where
  unfoldable pub round_in : DeployState → Deploy → Round Deploy Deployed
  unfolding database_loaded receipts_arrived
  round_in check_if_needed s = database_loaded s (load toml s.database_path s.database_file)
  round_in (deploying main_tx test_tx) s =
      let (p, rest) = poll_feed s.receipts in
      let s' = record s { receipts = rest } in
      try_ready p s' λ (receipts : TransactionReceipt × TransactionReceipt).
        receipts_arrived s' (deployed_database receipts.0 receipts.1)

  unfoldable pub round : Deploy → Round Deploy Deployed
  unfolding round_in
  round s = round_in s.state s

  -- The loop goes round at most twice.
  unfoldable pub poll : Deploy → Deploy × Poll Deployed
  poll s = drive round 2 s
