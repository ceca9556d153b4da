-- ===== src/Relay/Confirm/Checked.antt =====
-- The checked blocks that the withdraw confirmation (bridge/src/bridge/withdraw_confirm.rs) reports.
use poa_bridge.Relay.Confirm.{
  wait_round, confirm_withdraws, yield, withdraws_arrived, wait, WithdrawConfirm,
  WithdrawConfirmState, Crates, round, round_in, budget, poll,
}
use poa_bridge.Relay.Shared.{in_context, withdraw_confirm, BridgeChecked, Shared}
use poa_bridge.Prelude.{ℕ, suc, ◌+◌, ◌*◌, ◌<◌, ◌≡◌, refl, Option, none, some, arith, length}
use poa_bridge.Futures.{Poll, ready, not_ready, map_err, try_stream}
use poa_bridge.Futures.Loop.{Runs, Lowers, Keeps, drive-Runs, Runs-Keeps}
use mathlib.Core.Path.{subst}
use poa_bridge.LogStream.{LogStream, LogStreamItem}
use poa_bridge.LogStream
use poa_bridge.LogStream.Ranges.{Spends, poll-Spends, IsSettled, Serves, poll-Serves}

module _ (crates : Crates) where
  arrived-Lowers :
      (balance gas_price b : ℕ) (s : WithdrawConfirm) (p : Poll (Option LogStreamItem))
      → Spends b s.logs p
      → s.state ≡ wait
      → (t : WithdrawConfirm) → budget t ≡ 3 * (b + length s.relays)
      → Lowers budget t (
          try_stream
            (map_err (in_context "polling foreign for withdrawals") p)
            s
            (withdraws_arrived crates balance gas_price s))
  unfolding withdraws_arrived budget
  arrived-Lowers balance gas_price b s p h e t bt = ground arith

  wait_round-Lowers :
      (balance : Option ℕ) (gas_price : ℕ) (s : WithdrawConfirm)
      → s.state ≡ wait
      → Lowers budget s (wait_round crates balance gas_price s)
  unfolding wait_round budget
  wait_round-Lowers none gas_price s e = tt
  wait_round-Lowers (some balance) gas_price s e =
      arrived-Lowers balance gas_price (LogStream.budget s.logs)
        (record s { logs = (LogStream.poll s.logs).0 }) (LogStream.poll s.logs).1
        (poll-Spends s.logs) e s (ground arith)

  round_in-Lowers :
      (shared : Shared) (state : WithdrawConfirmState) (s : WithdrawConfirm)
      → s.state ≡ state
      → Lowers budget s (round_in crates shared state s)
  unfolding round_in budget
  round_in-Lowers shared wait s e = wait_round-Lowers shared.balance shared.gas_price s e
  round_in-Lowers shared (confirm_withdraws txs block) s e = ground arith
  round_in-Lowers shared (yield none) s e = ground arith
  round_in-Lowers shared (yield (some block)) s e = ground arith

  -- A poll of the withdraw confirmation ends: it returns what the program's loop returns, which has no bound on its
  -- rounds, whatever the answers are.
  pub confirm_poll-Runs :
      (shared : Shared) (s : WithdrawConfirm)
      → Runs (round crates shared) (poll crates shared s).0 (poll crates shared s).1 s
  unfolding poll round
  confirm_poll-Runs shared s =
      drive-Runs (round crates shared) budget (λ t. round_in-Lowers shared t.state t refl)
        (suc (budget s)) s (omega arith)

  -- With `c` the last block reported: blocks above it are read only when they are being relayed.
  abbrev pub At : ℕ → WithdrawConfirmState → LogStream → Type 0
  At c (confirm_withdraws txs block) logs = (block ≡ logs.after) × (c < block) × IsSettled logs
  At c (yield (some block)) logs = (block ≡ logs.after) × (c < block) × IsSettled logs
  At c _ logs = (logs.after ≡ c) × IsSettled logs

  abbrev pub HasReported : ℕ → WithdrawConfirm → Type 0
  HasReported c s = At c s.state s.logs

  -- A report is a block above the last one, and becomes the last one. An error or a panic ends the
  -- bridge, and says nothing of the relay.
  abbrev pub Reports : ℕ → WithdrawConfirm → Poll (Option BridgeChecked) → Type 0
  Reports c t (ready (some (withdraw_confirm block))) = (c < block) × HasReported block t
  Reports c t (ready (some checked)) = ⊥
  Reports c t (ready none) = HasReported c t
  Reports c t not_ready = HasReported c t
  Reports c t _ = Unit

  arrived-Keeps :
      (balance gas_price c : ℕ) (s : WithdrawConfirm) (p : Poll (Option LogStreamItem))
      → Serves c s.logs p
      → s.state ≡ wait
      → Keeps (HasReported c) (Reports c) (
          try_stream
            (map_err (in_context "polling foreign for withdrawals") p)
            s
            (withdraws_arrived crates balance gas_price s))
  unfolding withdraws_arrived
  arrived-Keeps balance gas_price c s p h e = ground arith

  wait_round-Keeps :
      (balance : Option ℕ) (gas_price c : ℕ) (s : WithdrawConfirm)
      → s.state ≡ wait
      → HasReported c s
      → Keeps (HasReported c) (Reports c) (wait_round crates balance gas_price s)
  unfolding wait_round
  wait_round-Keeps none gas_price c s e h = h
  wait_round-Keeps (some balance) gas_price c s e h =
      let now : At c wait s.logs = subst (λ state. At c state s.logs) e h in
      arrived-Keeps balance gas_price c (record s { logs = (LogStream.poll s.logs).0 })
        (LogStream.poll s.logs).1
        (subst (λ a. Serves a (LogStream.poll s.logs).0 (LogStream.poll s.logs).1) now.0
          (poll-Serves s.logs now.1))
        e

  round_in-Keeps :
      (shared : Shared) (c : ℕ) (state : WithdrawConfirmState) (s : WithdrawConfirm)
      → s.state ≡ state
      → HasReported c s
      → Keeps (HasReported c) (Reports c) (round_in crates shared state s)
  unfolding round_in
  round_in-Keeps shared c wait s e h = wait_round-Keeps shared.balance shared.gas_price c s e h
  round_in-Keeps shared c (confirm_withdraws txs block) s e h = ground arith
  round_in-Keeps shared c (yield none) s e h = ground arith
  round_in-Keeps shared c (yield (some block)) s e h = ground arith

  -- Whatever the nodes answer: of a withdraw confirmation that has reported up to block `c`, a poll
  -- without error or panic either reports a confirmed block above `c`, up to which the log stream
  -- has served, and has then reported up to that block, or reports nothing and has still reported
  -- up to `c`.
  pub confirm_poll-Reports :
      (shared : Shared) (c : ℕ) (s : WithdrawConfirm)
      → HasReported c s
      → Reports c (poll crates shared s).0 (poll crates shared s).1
  unfolding round
  confirm_poll-Reports shared c s h =
      Runs-Keeps (round crates shared) (HasReported c) (Reports c)
        (λ t. round_in-Keeps shared c t.state t refl) (confirm_poll-Runs shared s) h
