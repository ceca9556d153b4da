-- ===== src/Tests/Relayed.antt =====
-- A run of the program in which the deposit relay relays a range of blocks, at concrete inputs.
use poa_bridge.App.{connections_new_http, app_new_http, unlocked, or_err}
use poa_bridge.Balance
use poa_bridge.Config.{Config, LoadNode, config_from_load_struct, node_from_load_struct}
use poa_bridge.Config.Reading
use poa_bridge.Database
use poa_bridge.Database.{Bridge}
use poa_bridge.EventStream
use poa_bridge.EventStream.{BridgeEventStream}
use poa_bridge.Execute.{Answers, started, value}
use poa_bridge.Execute.Relayed.{started-HasRelayed}
use poa_bridge.Prelude.{ℕ, ◌≡◌, refl, List, [], ◌∷◌, some}
use poa_bridge.Process
use poa_bridge.Process.{run_for, bridge_poll}
use poa_bridge.Process.Relayed.{HasRelayed}
use poa_bridge.Relay.Merged.{Merged, merged_poll}
use poa_bridge.Tests.Codecs.{load}
use poa_bridge.Tests.Execute.{answers, loaded, load_config}
use poa_bridge.Tests.Process.{bridge_of, crates}

-- Two confirmations are required of the nodes.
abbrev load_node : LoadNode
load_node = record load { required_confirmations = some 2 }

abbrev pub answers_two : Answers (List ℕ) (List ℕ)
answers_two = record answers {
  from_toml = λ text. some (record load_config { home = load_node; foreign = load_node });
}

abbrev pub settings : Config
settings = record loaded {
  home = record (loaded.home) { required_confirmations = 2 };
  foreign = record (loaded.foreign) { required_confirmations = 2 };
}

abbrev pub bridge : Bridge (BridgeEventStream Merged)
bridge = bridge_of settings

pub is_started : started crates answers_two 3 ("bridge" ∷ []) ≡ value bridge
unfolding started Reading.load_config config_from_load_struct node_from_load_struct
    poa_bridge.Config.load_speed poa_bridge.GasPrice.from_str poa_bridge.Config.check_tls
    poa_bridge.Prelude.starts_with app_new_http connections_new_http poa_bridge.App.connected or_err
    unlocked Reading.password poa_bridge.Balance.chain_id_poll poa_bridge.Futures.drive
    poa_bridge.Balance.chain_id_round poa_bridge.Balance.create_chain_id_retrieval
    poa_bridge.Deploy.poll poa_bridge.Deploy.round poa_bridge.Deploy.create_deploy
    Process.create_bridge Process.create_bridge_event_stream Process.oracle_stream
    poa_bridge.Database.load
is_started = refl

-- What one poll of the bridge leaves.
abbrev pub bridge_later : Bridge (BridgeEventStream Merged)
bridge_later = (bridge_poll crates bridge).0

-- The bridge still runs, and the checkpoint of the deposits has risen: two blocks below the 15 that the
-- node has mined.
pub has_relayed :
    (run_for (bridge_poll crates) 1 bridge ≡ Process.running bridge_later)
    × (bridge_later.database.checked_deposit_relay ≡ 13)
unfolding run_for bridge_poll Database.poll EventStream.poll EventStream.round
    poa_bridge.Futures.drive Balance.poll Balance.round Balance.create_balance_check Balance.budget
    merged_poll poa_bridge.Relay.Merged.take_turns Process.create_relays
    poa_bridge.Relay.Merged.poll_turn poa_bridge.Relay.Deposit.poll poa_bridge.Relay.Deposit.round
    poa_bridge.Relay.Deposit.create_deposit_relay poa_bridge.LogStream.poll
    poa_bridge.LogStream.round poa_bridge.LogStream.log_stream poa_bridge.LogStream.budget
    poa_bridge.Config.load_transactions poa_bridge.Error.traverse
    poa_bridge.Relay.Deposit.deposit_relay_payload poa_bridge.Relay.Deposit.budget Database.checked
has_relayed = (refl, refl)

started-HasRelayed_example : HasRelayed crates bridge bridge_later
started-HasRelayed_example =
    started-HasRelayed crates answers_two 3 1 ("bridge" ∷ []) bridge bridge_later is_started
      has_relayed.0
