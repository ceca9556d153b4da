-- ===== src/Tests/Process.antt =====
-- The theorems on the running bridge at concrete inputs.
use poa_bridge.LogStream.{log_stream}
use poa_bridge.Relay.Deposit.{create_deposit_relay}
use poa_bridge.Relay.Withdraw.{create_withdraw_relay}
use poa_bridge.Relay.Confirm.{create_withdraw_confirm}
use poa_bridge.Relay.Merged.Rising.{IsInStep, Raises, merged_poll-Raises}
use poa_bridge.Relay.Merged.{merged_poll}
use poa_bridge.Tests.Samples.{shared}
use poa_bridge.Prelude.{Bool, ℕ, String, ◌≡◌, refl, [], ◌∷◌, none, true, false}
use poa_bridge.Error.{ok}
use poa_bridge.Futures.{ready}
use poa_bridge.Config.{Node, Config, TransactionConfig}
use poa_bridge.Database.{Bridge}
use poa_bridge.EventStream.{Cells, init, BridgeEventStream}
use poa_bridge.EventStream.{init}
use poa_bridge.Balance.{create_balance_check}
use poa_bridge.Process
use poa_bridge.Process.{
  BridgeReplies, RelayReplies, OracleReplies, create_bridge, create_relays, run_for, bridge_poll,
}
use poa_bridge.Process.Created.{created-FileHolds, FileHolds}
use poa_bridge.Relay.Confirm
use poa_bridge.Relay.Merged.{Merged, deposit_turn, withdraw_turn, confirm_turn}
use poa_bridge.Tests.BigEndian.{big_endian}
use poa_bridge.Tests.Samples.{shared, hash, signer, contracts, replies, database, toml}
use poa_bridge.Tests.Codecs.{home, oracle}
use poa_bridge.Tests.Streams.{toml-NeverShrinks}

abbrev pub relay_crates : Confirm.Crates
relay_crates = record {
  contracts = contracts;
  words = big_endian;
  info_enabled = true;
  signer = signer;
  keccak = λ bytes. hash;
}

abbrev pub crates : Process.Crates ℕ
crates = record { relays = relay_crates; toml = toml; oracle = oracle }

abbrev gas : TransactionConfig
gas = record { gas = 21; gas_price = 0 }

abbrev node : Node
node = record home { required_confirmations = 2; default_gas_price = 2 }

abbrev config : Config
config = record {
  home = node;
  foreign = node;
  txs = record { deposit_relay = gas; withdraw_confirm = gas; withdraw_relay = gas };
  keystore = "keys";
}

abbrev relay_replies : RelayReplies
relay_replies = record { log_replies = replies; sent = ready (hash ∷ []) ∷ [] }

abbrev oracle_replies : OracleReplies
oracle_replies = record { ticks = []; responses = [] }

-- The balances are known at once, and the relays are polled in turn.
abbrev pub bridge_replies : BridgeReplies
bridge_replies = record {
  deposit = relay_replies;
  withdraw = relay_replies;
  withdraw_fetches = [];
  confirm = relay_replies;
  passes =
      record { turns = deposit_turn ∷ withdraw_turn ∷ confirm_turn ∷ []; ended = false }
      ∷ record { turns = withdraw_turn ∷ deposit_turn ∷ []; ended = true }
      ∷ [];
  home_balances = ready 100 ∷ [];
  foreign_balances = ready 100 ∷ [];
  home_oracle = oracle_replies;
  foreign_oracle = oracle_replies;
  running = [];
  disk = [];
}

abbrev pub is_uri : String → Bool
is_uri text = true

-- The bridge that a configuration without oracles gives.
abbrev pub bridge_of : Config → Bridge (BridgeEventStream Merged)
bridge_of settings = record {
  database = database;
  file = toml.to_string database;
  disk = [];
  event_stream = record {
    state = init;
    home_balance_check = create_balance_check (ready 100 ∷ []);
    foreign_balance_check = create_balance_check (ready 100 ∷ []);
    home_balance = none;
    foreign_balance = none;
    home_gas_stream = none;
    foreign_gas_stream = none;
    home_gas_price = settings.home.default_gas_price;
    foreign_gas_price = settings.foreign.default_gas_price;
    running = [];
    bridge = create_relays is_uri settings database bridge_replies;
  };
}

abbrev bridge : Bridge (BridgeEventStream Merged)
bridge = bridge_of config

bridge_created :
    create_bridge is_uri config database (toml.to_string database) bridge_replies ≡ ok bridge
unfolding create_bridge Process.create_bridge_event_stream Process.oracle_stream
bridge_created = refl

created-FileHolds_example : FileHolds is_uri crates (run_for (bridge_poll crates) 5 bridge)
created-FileHolds_example =
    created-FileHolds is_uri crates toml-NeverShrinks config database bridge_replies bridge
      bridge_created refl 5

abbrev cells : Cells
cells = record { home = shared; foreign = shared }

abbrev merged : Merged
merged = create_relays is_uri config database bridge_replies

merged-IsInStep : IsInStep relay_crates database merged
unfolding create_relays create_deposit_relay create_withdraw_relay create_withdraw_confirm
    log_stream
merged-IsInStep = record { deposits = (refl, tt); withdraws = (refl, tt); confirms = (refl, tt) }

merged_poll-Raises_example :
    Raises relay_crates database
      (merged_poll relay_crates cells merged).0
      (merged_poll relay_crates cells merged).1
merged_poll-Raises_example = merged_poll-Raises relay_crates cells database merged merged-IsInStep
