-- ===== src/Tests/Settings.antt =====
-- The unit tests of bridge/src/config.rs and of `Bridge` in bridge/src/bridge/mod.rs, run on the model.
-- The files of the configuration tests are given as what the TOML crate makes of them.
use poa_bridge.Config.{
  Config, Node, LoadConfig, LoadNode, load_transactions, config_from_load_struct, default_timeout,
  default_gas_price_speed, default_gas_price_timeout_secs, default_gas_price_wei,
  default_concurrency,
}
use poa_bridge.Config.Reading.{load_from_str}
use poa_bridge.Database
use poa_bridge.Database.{Bridge, Database, contents}
use poa_bridge.Error.{Result, ok}
use poa_bridge.Futures.{Feed, feed_poll, ready}
use poa_bridge.Prelude.{
  ℕ, ◌==◌, ◌&&◌, ◌≡◌, refl, Bool, true, false, Option, none, some, List, [], ◌∷◌, replicate, map,
  ◌++◌,
}
use poa_bridge.Process.{Progress, ended, run_for}
use poa_bridge.Relay.Shared.{BridgeChecked, deposit_relay, withdraw_relay, withdraw_confirm}
use poa_bridge.Tests.Samples.{toml}
use poa_bridge.Tests.Units.{from_hex}

-- The account that only the home node has in both tests, and the one of the foreign node.
abbrev home_account : List ℕ
home_account = from_hex "1b68cb0b50181fc4006ce572cf346e596e51818b"

abbrev foreign_account : List ℕ
foreign_account = replicate 19 0 ++ 1 ∷ []

-- A node of a file that gives no more than it must.
abbrev minimal_node : LoadNode
minimal_node = record {
  account = home_account;
  request_timeout = none;
  poll_interval = none;
  required_confirmations = none;
  rpc_host = some "";
  rpc_port = none;
  password = "password";
  gas_price_oracle_url = none;
  gas_price_speed = none;
  gas_price_timeout = none;
  default_gas_price = none;
  concurrent_http_requests = none;
}

abbrev full_setup : LoadConfig
full_setup = record {
  home = record minimal_node {
    poll_interval = some 2;
    required_confirmations = some 100;
    rpc_host = some "127.0.0.1";
    rpc_port = some 8545;
  };
  foreign = record minimal_node {
    account = foreign_account;
    rpc_host = some "127.0.0.1";
    rpc_port = some 8545;
  };
  transactions =
      some (record { deposit_relay = none; withdraw_confirm = none; withdraw_relay = none });
  keystore = "/keys";
}

abbrev minimal_setup : LoadConfig
minimal_setup = record {
  home = minimal_node;
  foreign = record minimal_node { account = foreign_account };
  transactions = none;
  keystore = "/keys/";
}

abbrev expected_node : Node
expected_node = record {
  account = home_account;
  poll_interval = 1;
  request_timeout = default_timeout;
  required_confirmations = 12;
  rpc_host = "";
  rpc_port = 8545;
  password = "password";
  nonce = 0;
  gas_price_oracle_url = none;
  gas_price_speed = default_gas_price_speed;
  gas_price_timeout = default_gas_price_timeout_secs;
  default_gas_price = default_gas_price_wei;
  concurrent_http_requests = default_concurrency;
}

-- The expected configuration of the first test; a path with a slash at its end is the same path.
abbrev expected_full : Config
expected_full = record {
  txs = load_transactions none;
  home = record expected_node {
    poll_interval = 2;
    required_confirmations = 100;
    rpc_host = "127.0.0.1";
  };
  foreign = record expected_node { account = foreign_account; rpc_host = "127.0.0.1" };
  keystore = "/keys";
}

abbrev expected_minimal : Config
expected_minimal = record {
  txs = load_transactions none;
  home = expected_node;
  foreign = record expected_node { account = foreign_account };
  keystore = "/keys/";
}

load_full_setup_from_str : load_from_str (λ text. some full_setup) [] true ≡ ok expected_full
unfolding load_from_str config_from_load_struct poa_bridge.Config.node_from_load_struct
    poa_bridge.Config.load_speed poa_bridge.Config.check_tls load_transactions
    poa_bridge.Prelude.starts_with
load_full_setup_from_str = refl

load_minimal_setup_from_str :
    load_from_str (λ text. some minimal_setup) [] true ≡ ok expected_minimal
unfolding load_from_str config_from_load_struct poa_bridge.Config.node_from_load_struct
    poa_bridge.Config.load_speed poa_bridge.Config.check_tls poa_bridge.Prelude.starts_with
load_minimal_setup_from_str = refl

-- `Database::default`.
abbrev default : Database
default = record {
  home_contract_address = replicate 20 0;
  foreign_contract_address = replicate 20 0;
  home_deploy = none;
  foreign_deploy = none;
  checked_deposit_relay = 0;
  checked_withdraw_relay = 0;
  checked_withdraw_confirm = 0;
}

-- A bridge over a stream of reports, on a file that a bridge before it may have left.
abbrev bridge_over : List ℕ → List BridgeChecked → Bridge (Feed (Option BridgeChecked))
bridge_over file checks = record {
  database = default;
  file = file;
  disk = [];
  event_stream = map (λ c. ready (some c)) checks ++ ready none ∷ [];
}

-- The file once the stream has ended.
abbrev file_of : Progress (Bridge (Feed (Option BridgeChecked))) → List ℕ
file_of (ended b) = b.file
file_of _ = []

abbrev holds : ℕ → ℕ → ℕ → Result Database → Bool
holds deposits confirms relays (ok db) =
    deposits == db.checked_deposit_relay
    && (confirms == db.checked_withdraw_confirm && relays == db.checked_withdraw_relay)
holds deposits confirms relays _ = false

test_database_updates : Bool
test_database_updates =
    let collect = run_for (Database.poll toml feed_poll) 5 in
    let first = file_of (collect (bridge_over [] (deposit_relay 1 ∷ []))) in
    let later = deposit_relay 2 ∷ withdraw_confirm 3 ∷ withdraw_relay 2 ∷ [] in
    let second = file_of (collect (bridge_over first later)) in
    holds 1 0 0 (Database.load toml "db" (contents first))
    && holds 2 3 2 (Database.load toml "db" (contents second))

database_updates_passes : test_database_updates ≡ true
unfolding test_database_updates run_for Database.poll Database.load Database.save Database.checked
    Database.overwrite
database_updates_passes = refl
