-- ===== src/Execute/Relayed.antt =====
-- What the program (cli/src/main.rs: `execute`) has relayed while it runs.
use poa_bridge.Database.{Bridge}
use poa_bridge.EventStream.{BridgeEventStream}
use poa_bridge.Execute.{Answers, started, value}
use poa_bridge.Execute.Starts.{started-created}
use poa_bridge.Prelude.{ℕ, ◌≡◌, String, List}
use poa_bridge.Process
use poa_bridge.Process.{running, run_for, bridge_poll}
use poa_bridge.Process.Created.{created-IsBacked}
use poa_bridge.Process.Relayed.{HasRelayed, created-IsFresh, run_for-HasRelayed}
use poa_bridge.Relay.Merged.{Merged}

-- Of the bridge `b` that the program starts and that still runs after any number of polls as `c`,
-- whatever it is answered and whichever relays are polled: for each of the three relays, rounds of its
-- loop lead from its state in `b` to that in `c`. In these rounds it has read the logs of ranges of
-- blocks that join up, from the checkpoint in the database of `b` to a block that is no lower than the
-- checkpoint in the database of `c`. The deposit relay and the confirmation have sent one call for
-- each of these logs, in order, to the foreign contract of the database of `b`, with the gas that the
-- relay has and no value: its data is the payload of the log, for the confirmation the signed message
-- of the log. The withdraw relay has asked that contract for the messages and signatures of those
-- logs, in order, that name its account, and all that it has sent are calls of the home contract of
-- that database, with its gas and no value.
pub started-HasRelayed :
    {N T K : Type 0} (crates : Process.Crates N) (answers : Answers T K) (n m : ℕ)
    (command : List String) (b c : Bridge (BridgeEventStream Merged))
    → started crates answers n command ≡ value b
    → run_for (bridge_poll crates) m b ≡ running c
    → HasRelayed crates b c
started-HasRelayed crates answers n m command b c is_started still =
    let (config, saved, made, on_disk) = started-created crates answers n command b is_started in
    let fresh = created-IsFresh answers.is_uri config saved.0 saved.1 answers.replies b made in
    let (backed, same, in_file, on_disk) =
      created-IsBacked answers.is_uri crates config saved.0 saved.1 answers.replies b made in
    run_for-HasRelayed crates m b c backed fresh still
