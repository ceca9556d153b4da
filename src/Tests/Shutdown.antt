-- ===== src/Tests/Shutdown.antt =====
-- A run of the program that is told to shut down, at concrete inputs.
use poa_bridge.Balance
use poa_bridge.Balance.{BalanceCheck}
use poa_bridge.Config.Reading
use poa_bridge.Config.{config_from_load_struct, node_from_load_struct}
use poa_bridge.App.{connections_new_http, app_new_http, unlocked, or_err}
use poa_bridge.Database
use poa_bridge.Database.{Bridge}
use poa_bridge.Error.{Error, shutdown_requested}
use poa_bridge.EventStream
use poa_bridge.EventStream.{BridgeEventStream, wait}
use poa_bridge.Execute.{Answers, started, value, execute, exits}
use poa_bridge.Execute.Shutdown.{execute_shutdown}
use poa_bridge.Execute.Main
use poa_bridge.Execute.Main.{Means, main_status}
use poa_bridge.ExitCode.{err_shutdown_requested}
use poa_bridge.Prelude.{String, ℕ, ◌≡◌, refl, List, [], ◌∷◌, none, some, true, false}
use poa_bridge.Process
use poa_bridge.Process.{BridgeReplies, run_for, bridge_poll}
use poa_bridge.Relay.Merged.{Merged, merged_poll}
use poa_bridge.Tests.Execute.{answers, loaded}
use poa_bridge.Tests.Process.{bridge_of, crates, bridge_replies}

-- The flag is up at the first poll and down at the second, and the relays are not yet polled.
abbrev replies_down : BridgeReplies
replies_down = record bridge_replies { passes = []; running = true ∷ false ∷ [] }

abbrev answers_stopping : Answers (List ℕ) (List ℕ)
answers_stopping = record answers { replies = replies_down }

abbrev bridge : Bridge (BridgeEventStream Merged)
bridge =
    let b = bridge_of loaded in
    let events = b.event_stream in
    let relays = events.bridge in
    record b {
      event_stream = record events {
        running = true ∷ false ∷ [];
        bridge = record relays { passes = [] };
      };
    }

-- After one poll both balances are known.
abbrev check : BalanceCheck
check = record { state = Balance.yield none; balances = [] }

abbrev bridge_later : Bridge (BridgeEventStream Merged)
bridge_later =
    let events = bridge.event_stream in
    record bridge {
      event_stream = record events {
        state = wait;
        home_balance_check = check;
        foreign_balance_check = check;
        home_balance = some 100;
        foreign_balance = some 100;
        running = false ∷ [];
      };
    }

is_started : started crates answers_stopping 3 ("bridge" ∷ []) ≡ value bridge
unfolding started Reading.load_config config_from_load_struct node_from_load_struct
    poa_bridge.Config.load_speed poa_bridge.GasPrice.from_str poa_bridge.Config.check_tls
    poa_bridge.Prelude.starts_with app_new_http connections_new_http poa_bridge.App.connected or_err
    unlocked Reading.password poa_bridge.Balance.chain_id_poll poa_bridge.Futures.drive
    poa_bridge.Balance.chain_id_round poa_bridge.Balance.create_chain_id_retrieval
    poa_bridge.Deploy.poll poa_bridge.Deploy.round poa_bridge.Deploy.create_deploy
    Process.create_bridge Process.create_bridge_event_stream Process.oracle_stream
    poa_bridge.Database.load Process.create_relays
is_started = refl

is_running : run_for (bridge_poll crates) 1 bridge ≡ Process.running bridge_later
unfolding run_for bridge_poll Database.poll EventStream.poll EventStream.round
    poa_bridge.Futures.drive Balance.poll Balance.round Balance.create_balance_check Balance.budget
    merged_poll poa_bridge.Relay.Merged.take_turns
is_running = refl

execute_shutdown_example :
    execute crates answers_stopping 3 ("bridge" ∷ [])
    ≡ exits (record { exit_code = err_shutdown_requested; shown = shutdown_requested })
unfolding Balance.poll Balance.round poa_bridge.Futures.drive Balance.budget
execute_shutdown_example =
    execute_shutdown crates answers_stopping 3 1 1 ("bridge" ∷ []) bridge bridge_later [] refl
      is_started is_running ((tt, tt), tt, tt) refl

-- The process that is told to shut down ends with the code of a shutdown.
abbrev texts : Error → List String
texts e = "shutdown requested" ∷ []

main_status_example : Means 3 (execute crates answers_stopping 3 ("bridge" ∷ []))
unfolding Main.main
main_status_example =
    main_status crates answers_stopping 3 ("bridge" ∷ []) texts true 3 "shutdown requested\n"
      (rw execute_shutdown_example refl)
