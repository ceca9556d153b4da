-- ===== src/Tests/Restart.antt =====
-- A second run of the program on the file that the run of Tests/Relayed has left.
use poa_bridge.App.{connections_new_http, app_new_http, unlocked, or_err}
use poa_bridge.Config.{config_from_load_struct, node_from_load_struct}
use poa_bridge.Balance
use poa_bridge.Config.Reading
use poa_bridge.Database
use poa_bridge.EventStream
use poa_bridge.Database.{Bridge, contents}
use poa_bridge.EventStream.{BridgeEventStream}
use poa_bridge.Execute.{Answers, started, value}
use poa_bridge.Execute.Restart.{GoesOn, restarted-GoesOn}
use poa_bridge.Prelude.{ℕ, ◌≡◌, refl, List, [], ◌∷◌, if◌then◌else◌, str_eq}
use poa_bridge.Process
use poa_bridge.Process.{bridge_poll, run_for, create_relays, run_for, bridge_poll}
use poa_bridge.Relay.Merged.{Merged, merged_poll}
use poa_bridge.Tests.Execute.{args, libraries, secret_file}
use poa_bridge.Tests.Process.{bridge_of, bridge_replies, crates, is_uri}
use poa_bridge.Tests.Relayed.{answers_two, settings, bridge, bridge_later, is_started, has_relayed}
use poa_bridge.Tests.Streams.{toml-NeverShrinks}

-- The database file is the one left by the first run.
abbrev answers_again : Answers (List ℕ) (List ℕ)
answers_again = record answers_two {
  libraries = record libraries {
    files =
        λ path. if str_eq path "db.toml" then contents bridge_later.file else contents secret_file;
  };
}

abbrev bridge_again : Bridge (BridgeEventStream Merged)
bridge_again = record (bridge_of settings) {
  database = bridge_later.database;
  file = bridge_later.file;
  event_stream = record ((bridge_of settings).event_stream) {
    bridge = create_relays is_uri settings bridge_later.database bridge_replies;
  };
}

is_again : started crates answers_again 3 ("bridge" ∷ []) ≡ value bridge_again
unfolding started Reading.load_config config_from_load_struct node_from_load_struct
    poa_bridge.Config.load_speed poa_bridge.GasPrice.from_str poa_bridge.Config.check_tls
    poa_bridge.Prelude.starts_with app_new_http connections_new_http poa_bridge.App.connected or_err
    unlocked Reading.password poa_bridge.Balance.chain_id_poll poa_bridge.Futures.drive
    poa_bridge.Balance.chain_id_round poa_bridge.Balance.create_chain_id_retrieval
    poa_bridge.Deploy.poll poa_bridge.Deploy.round poa_bridge.Deploy.create_deploy
    Process.create_bridge Process.create_bridge_event_stream Process.oracle_stream
    poa_bridge.Database.load run_for bridge_poll Database.poll EventStream.poll EventStream.round
    Balance.poll Balance.round Balance.create_balance_check Balance.budget merged_poll
    poa_bridge.Relay.Merged.take_turns Process.create_relays poa_bridge.Relay.Merged.poll_turn
    poa_bridge.Relay.Deposit.poll poa_bridge.Relay.Deposit.round
    poa_bridge.Relay.Deposit.create_deposit_relay poa_bridge.LogStream.poll
    poa_bridge.LogStream.round poa_bridge.LogStream.log_stream poa_bridge.LogStream.budget
    poa_bridge.Config.load_transactions poa_bridge.Error.traverse
    poa_bridge.Relay.Deposit.deposit_relay_payload poa_bridge.Relay.Deposit.budget Database.checked
    Database.overwrite
is_again = refl

restarted-GoesOn_example : GoesOn bridge_later bridge_again
restarted-GoesOn_example =
    restarted-GoesOn crates toml-NeverShrinks answers_two answers_again 3 1 3 ("bridge" ∷ [])
      ("bridge" ∷ []) args bridge bridge_later bridge_again is_started refl refl has_relayed.0 refl
      refl is_again
