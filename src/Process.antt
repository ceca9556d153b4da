-- ===== src/Process.antt =====
-- bridge/src/bridge/mod.rs: `create_bridge` and what it creates, bridge/src/bridge/gas_price.rs:
-- `new_with_retriever`, and the run of the created bridge on the event loop (cli/src/main.rs).
-- What all the parts will be answered is given to the constructor.
pub mod Checkpoints
pub mod Created
pub mod Walks
pub mod Relayed
use poa_bridge.Prelude.{ℕ, zero, suc, Bool, true, false, String, Option, none, some, List}
use poa_bridge.Error.{Error, Result, ok, panic, ◌>>=◌}
use poa_bridge.Futures.{Poll, ready, not_ready, failed, panicked, Feed}
use poa_bridge.Balance.{create_balance_check}
use poa_bridge.Config.{Config, Node, unwrap}
use poa_bridge.Database
use poa_bridge.Database.{Database, Toml, Bridge, WriteOutcome}
use poa_bridge.EventStream
use poa_bridge.EventStream.{BridgeEventStream, init}
use poa_bridge.GasPrice.{GasPriceStream, Oracle, initial}
use poa_bridge.LogStream.{Replies}
use poa_bridge.Relay.Confirm
use poa_bridge.Relay.Confirm.{create_withdraw_confirm}
use poa_bridge.Relay.Deposit.{create_deposit_relay}
use poa_bridge.Relay.Withdraw.{create_withdraw_relay}
use poa_bridge.Relay.Merged.{Merged, Pass, merged_poll}

-- What the gas price stream of a node will be answered.
pub record OracleReplies : Type 0 where
  pub ticks : Feed (Option (Unit {0}))
  pub responses : Feed (List ℕ)

-- What a relay will be answered: its log stream, and the collected futures of its transactions.
pub record RelayReplies : Type 0 where
  pub log_replies : Replies
  pub sent : Feed (List (List ℕ))

pub record BridgeReplies : Type 0 where
  pub deposit : RelayReplies
  pub withdraw : RelayReplies
  pub withdraw_fetches : Feed (List (List ℕ) × List (List (List ℕ)))
  pub confirm : RelayReplies
  pub passes : List Pass
  pub home_balances : Feed ℕ
  pub foreign_balances : Feed ℕ
  pub home_oracle : OracleReplies
  pub foreign_oracle : OracleReplies
  pub running : List Bool
  pub disk : List WriteOutcome

-- Whether a text is a URI is the hyper crate's to say: `parse().unwrap()` panics on any other.
module _ (is_uri : String → Bool) where
  unfoldable pub parsed_uri : Bool → String → Result String
  parsed_uri true uri = ok uri
  parsed_uri false uri = panic

  unfoldable pub new_with_retriever : Node → OracleReplies → Result GasPriceStream
  unfolding parsed_uri
  new_with_retriever node replies = do
    url ← unwrap node.gas_price_oracle_url
    uri ← parsed_uri (is_uri url) url
    ok (record {
      state = initial;
      speed = node.gas_price_speed;
      last_price = node.default_gas_price;
      ticks = replies.ticks;
      responses = replies.responses;
    })

  -- A node without an oracle has no stream of prices.
  unfoldable pub oracle_stream :
      Option String → Node → OracleReplies → Result (Option GasPriceStream)
  oracle_stream none node replies = ok none
  oracle_stream (some url) node replies = do
    stream ← new_with_retriever node replies
    ok (some stream)

  unfoldable pub create_relays : Config → Database → BridgeReplies → Merged
  create_relays config db replies = record {
    deposit =
        create_deposit_relay db config.home.required_confirmations config.txs.deposit_relay.gas
          replies.deposit.log_replies replies.deposit.sent;
    withdraw =
        create_withdraw_relay db config.foreign.required_confirmations config.foreign.account
          config.txs.withdraw_relay.gas replies.withdraw.log_replies replies.withdraw_fetches
          replies.withdraw.sent;
    confirm =
        create_withdraw_confirm db config.foreign.required_confirmations config.foreign.account
          config.txs.withdraw_confirm.gas replies.confirm.log_replies replies.confirm.sent;
    passes = replies.passes;
  }

  unfoldable pub create_bridge_event_stream :
      Config → Database → BridgeReplies → Result (BridgeEventStream Merged)
  create_bridge_event_stream config db replies = do
    home_gas_stream ← oracle_stream config.home.gas_price_oracle_url config.home replies.home_oracle
    foreign_gas_stream ←
        oracle_stream config.foreign.gas_price_oracle_url config.foreign replies.foreign_oracle
    ok (record {
      state = init;
      home_balance_check = create_balance_check replies.home_balances;
      foreign_balance_check = create_balance_check replies.foreign_balances;
      home_balance = none;
      foreign_balance = none;
      home_gas_stream = home_gas_stream;
      foreign_gas_stream = foreign_gas_stream;
      home_gas_price = config.home.default_gas_price;
      foreign_gas_price = config.foreign.default_gas_price;
      running = replies.running;
      bridge = create_relays config db replies;
    })

  -- The file stands for the path.
  unfoldable pub create_bridge :
      Config → Database → List ℕ → BridgeReplies → Result (Bridge (BridgeEventStream Merged))
  create_bridge config db file replies = do
    event_stream ← create_bridge_event_stream config db replies
    ok (record { database = db; file = file; disk = replies.disk; event_stream = event_stream })

-- The crates that a running bridge uses.
pub record Crates (N : Type 0) : Type 0 where
  pub relays : Confirm.Crates
  pub toml : Toml
  pub oracle : Oracle N

module _ {N : Type 0} (crates : Crates N) where
  open crates use {relays, toml, oracle}

  unfoldable pub bridge_poll :
      Bridge (BridgeEventStream Merged)
      → Bridge (BridgeEventStream Merged) × Poll (Option (Unit {0}))
  bridge_poll b = Database.poll toml (EventStream.poll oracle (merged_poll relays)) b

-- How far the event loop has come: the bridge is still running, or its stream has ended or failed.
pub data Progress (S : Type 0) : Type 0 where
  running ended : S → Progress S
  stopped : Error → Progress S
  crashed : Progress S

-- What is made of the answer of one poll: items are collected, and the bridge is polled again.
unfoldable pub carry_on : {S A : Type 0} → S → Poll (Option A) → Progress S → Progress S
carry_on s (ready (some a)) later = later
carry_on s (ready none) later = ended s
carry_on s not_ready later = later
carry_on s (failed e) later = stopped e
carry_on s panicked later = crashed

-- `event_loop.run(bridge.and_then(|_| future::ok(true)).collect())`, for a number of polls.
unfoldable pub run_for : {S A : Type 0} → (S → S × Poll (Option A)) → ℕ → S → Progress S
unfolding carry_on
run_for poll zero s = running s
run_for poll (suc n) s =
    let polled = poll s in let later = run_for poll n polled.0 in carry_on polled.0 polled.1 later
