-- ===== src/Execute/Shutdown.antt =====
-- How `execute` (cli/src/main.rs) ends once a shutdown is requested.
use mathlib.Core.Path.{subst}
use poa_bridge.Database
use poa_bridge.Database.{Bridge}
use poa_bridge.Error.{shutdown_requested}
use poa_bridge.EventStream.{BridgeEventStream}
use poa_bridge.EventStream.Stopping.{KnowsBalances, event_poll_stops}
use poa_bridge.Execute.{Answers, Outcome, exits, execute, started, ended_stage, finished, value}
use poa_bridge.Execute.Starts.{started-Refines}
use poa_bridge.ExitCode.{err_shutdown_requested, user_facing}
use poa_bridge.Futures.{Poll, ready, not_ready, failed, panicked}
use poa_bridge.Prelude.{
  ℕ, zero, suc, ◌+◌, ◌≡◌, refl, Bool, false, List, ◌∷◌, Option, none, some, String, arith,
}
use poa_bridge.Process
use poa_bridge.Process.{Progress, running, run_for, bridge_poll, carry_on}
use poa_bridge.Process.Checkpoints.{Refines, IsBacked}
use poa_bridge.Relay.Merged.{Merged, merged_poll}

module _ {S A : Type 0} (poll : S → S × Poll (Option A)) where
  -- What the event loop makes of a poll, where it still ran with fewer polls after it.
  carry_on_later :
      (s c : S) (p : Poll (Option A)) (now later last : Progress S)
      → carry_on s p now ≡ running c
      → (now ≡ running c → later ≡ last)
      → carry_on s p later ≡ last
  unfolding carry_on
  carry_on_later s c (ready (some a)) now later last e k = k e
  carry_on_later s c (ready none) now later last e k = cc
  carry_on_later s c not_ready now later last e k = k e
  carry_on_later s c (failed x) now later last e k = cc
  carry_on_later s c panicked now later last e k = cc

  -- Polls after polls: what still runs goes on from there.
  run_for-add :
      (n m k : ℕ) (s c : S)
      → n ≡ m + k
      → run_for poll m s ≡ running c
      → run_for poll n s ≡ run_for poll k c
  unfolding run_for
  run_for-add n zero k s c split e =
      let same : n ≡ k = omega arith in let start : s ≡ c = cc in rw (same, start) refl
  run_for-add zero (suc m) k s c split e = absurd (omega arith)
  run_for-add (suc n) (suc m) k s c split e =
      let t = (poll s).0 in
      carry_on_later t c (poll s).1 (run_for poll m t) (run_for poll n t) (run_for poll k c) e
        (λ still. run_for-add n m k t c (omega arith) still)

module _ {N : Type 0} (crates : Process.Crates N) where
  open crates use {relays, toml, oracle}

  abbrev stopped_bridge : Outcome
  stopped_bridge = exits (record { exit_code = err_shutdown_requested; shown = shutdown_requested })

  -- One more poll ends the bridge.
  run_stops :
      (k : ℕ) (b : Bridge (BridgeEventStream Merged)) (rest : List Bool)
      → IsBacked crates b
      → KnowsBalances b.event_stream
      → b.event_stream.running ≡ false ∷ rest
      → finished (run_for (bridge_poll crates) (suc k) b) ≡ stopped_bridge
  unfolding finished run_for bridge_poll Database.poll carry_on user_facing
  run_stops k b rest backed knows down =
      let (t, stops, same) =
        event_poll_stops oracle (merged_poll relays) b.event_stream rest backed.1 knows down in
      rw stops refl

module _ {N T K : Type 0} (crates : Process.Crates N) (answers : Answers T K) where
  -- The command starts a bridge that is still running after `m` polls and then knows both balances,
  -- whose checks do not fail at the next poll, and the flag is next read as down: with more polls than
  -- `m`, `execute` exits with the code of a shutdown.
  pub execute_shutdown :
      (n m k : ℕ) (command : List String) (b c : Bridge (BridgeEventStream Merged))
      (rest : List Bool)
      → n ≡ m + suc k
      → started crates answers n command ≡ value b
      → run_for (bridge_poll crates) m b ≡ running c
      → KnowsBalances c.event_stream
      → c.event_stream.running ≡ false ∷ rest
      → execute crates answers n command
        ≡ exits (record { exit_code = err_shutdown_requested; shown = shutdown_requested })
  unfolding execute ended_stage
  execute_shutdown n m k command b c rest more is_started still knows down =
      let refines : Refines crates b.database (running c) =
        subst (Refines crates b.database) still
          ((started-Refines crates answers n command b is_started).1 m) in
      rw (is_started, run_for-add (bridge_poll crates) n m (suc k) b c more still)
        (run_stops crates k c rest refines.1 knows down)
