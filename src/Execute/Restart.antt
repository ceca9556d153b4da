-- ===== src/Execute/Restart.antt =====
-- A run of the program (cli/src/main.rs) on the file that an earlier run has left.
use poa_bridge.Execute.Reopened.{started_database}
use poa_bridge.Process.Relayed.{HasRelayed}
use poa_bridge.Relay.Merged.{Merged}
use poa_bridge.Execute.Starts.{started-created}
use poa_bridge.Execute.Relayed.{started-HasRelayed}
use poa_bridge.Process.{run_for, bridge_poll, running}
use poa_bridge.Process.Created.{FileHolds}
use poa_bridge.Process.Created.{run_for-FileHolds, created-IsBacked}
use poa_bridge.Process.Relayed.{IsFresh}
use mathlib.Core.Path.{subst}
use poa_bridge.Database.{Bridge, Database, contents}
use poa_bridge.Database.Saved.{NeverShrinks, IsSaved}
use poa_bridge.EventStream.{BridgeEventStream}
use poa_bridge.Execute.{Answers, Args, started, value}
use poa_bridge.Prelude.{ℕ, ◌≤◌, ◌≡◌, ap, ◌∙◌, inr, List, [], String, arith}
use poa_bridge.Process

-- The bridge `b` goes on where `c` was: with its database, and each relay from a block that the same
-- relay of `c` had read up to, or from a lower one.
pub record GoesOn (c b : Bridge (BridgeEventStream Merged)) : Type 0 where
  pub database : b.database ≡ c.database
  pub deposits : b.event_stream.bridge.deposit.logs.after ≤ c.event_stream.bridge.deposit.logs.after
  pub withdraws :
      b.event_stream.bridge.withdraw.logs.after ≤ c.event_stream.bridge.withdraw.logs.after
  pub confirms : b.event_stream.bridge.confirm.logs.after ≤ c.event_stream.bridge.confirm.logs.after

module _ {N : Type 0} (crates : Process.Crates N) where
  open crates use {toml}

  fresh-GoesOn :
      (first c b : Bridge (BridgeEventStream Merged))
      → HasRelayed crates first c
      → b.database ≡ c.database
      → IsFresh b.database b.event_stream.bridge
      → GoesOn c b
  fresh-GoesOn first c b h same fresh = record {
    database = same;
    deposits = omega (
      arith,
      fresh.deposits.0,
      ap (λ (d : Database). d.checked_deposit_relay) same,
      h.deposits_checked,
    );
    withdraws = omega (
      arith,
      fresh.withdraws.0,
      ap (λ (d : Database). d.checked_withdraw_relay) same,
      h.withdraws_checked,
    );
    confirms = omega (
      arith,
      fresh.confirms.0,
      ap (λ (d : Database). d.checked_withdraw_confirm) same,
      h.confirms_checked,
    );
  }

  -- A run of the program starts the bridge `first`, where the file is the text of its database, the disk
  -- works, and a higher block number never has a shorter text. After any number of polls the bridge
  -- still runs, as `c`, and the program is stopped there. Then a bridge that a second run starts, with a
  -- command line that names the file and whatever it is answered otherwise, goes on where `c` was: with
  -- the database of `c`, and each relay at or below the block that the same relay of `c` had read up to.
  pub restarted-GoesOn :
      NeverShrinks toml
      → {T K : Type 0} (answers answers_again : Answers T K) (n m k : ℕ)
        (command command_again : List String) (args : Args)
        (first c again : Bridge (BridgeEventStream Merged))
      → started crates answers n command ≡ value first
      → first.file ≡ toml.to_string first.database
      → first.disk ≡ []
      → run_for (bridge_poll crates) m first ≡ running c
      → answers_again.parse_args command_again ≡ inr args
      → answers_again.libraries.files args.arg_database ≡ contents c.file
      → started crates answers_again k command_again ≡ value again
      → GoesOn c again
  restarted-GoesOn grows answers answers_again n m k command command_again args first c again
        is_started in_file works still is_args left is_again =
      let (config, saved, made, _) = started-created crates answers n command first is_started in
      let (backed, _, _, _) =
        created-IsBacked answers.is_uri crates config saved.0 saved.1 answers.replies first made in
      let holds : IsSaved toml c = subst (FileHolds answers.is_uri crates) still (
        run_for-FileHolds answers.is_uri crates grows m first backed
          (record { in_file = in_file; disk_works = works })) in
      let (same, fresh) =
        started_database crates answers_again k command_again args c.file c.database again is_args
          left (ap toml.from_str holds.in_file ∙ toml.from_str-to_string c.database) is_again in
      fresh-GoesOn first c again
        (started-HasRelayed crates answers n m command first c is_started still) same fresh
