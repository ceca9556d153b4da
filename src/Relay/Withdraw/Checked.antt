-- ===== src/Relay/Withdraw/Checked.antt =====
-- The checked blocks that the withdraw relay (bridge/src/bridge/withdraw_relay.rs) reports.
use poa_bridge.Relay.Shared.{BridgeChecked, withdraw_relay, in_context, Shared}
use poa_bridge.Prelude.{ℕ, suc, ◌+◌, ◌*◌, ◌<◌, ◌≡◌, refl, Option, none, some, List, arith, length}
use poa_bridge.Error.{traverse, Result, ok, err, panic}
use poa_bridge.Futures.{
  IsReady, poll_feed-shorter, Poll, ready, not_ready, failed, panicked, map_err, poll_feed,
  try_ready, try_stream,
}
use poa_bridge.Futures.Loop.{Keeps, Runs-Keeps, Runs, Lowers, drive-Runs}
use mathlib.Core.Path.{subst}
use poa_bridge.LogStream.Ranges.{Serves, poll-Serves, IsSettled, Spends, poll-Spends}
use poa_bridge.Relay.Withdraw.{
  withdraw_transactions, Transaction, signatures_payload, relay_withdraws, fetch_round, yield, wait,
  assignments_ready, transactions_ready, fetch_messages_signatures, RelayAssignment, WithdrawRelay,
  WithdrawRelayState, Crates, round, round_in, budget, poll,
}
use poa_bridge.LogStream.{LogStream, LogStreamItem}
use poa_bridge.LogStream

module _ (crates : Crates) where
  assignments-Lowers :
      (block b : ℕ) (s t : WithdrawRelay) (r : Result (List (Option RelayAssignment)))
      → LogStream.budget s.logs < b
      → budget t ≡ 3 * (b + length s.fetches + length s.relays)
      → Lowers budget t (assignments_ready crates block s r)
  unfolding assignments_ready budget
  assignments-Lowers block b s t (ok found) h e = ground arith
  assignments-Lowers block b s t (err x) h e = tt
  assignments-Lowers block b s t panic h e = tt

  arrived-Lowers :
      (b : ℕ) (s t : WithdrawRelay) (p : Poll (Option LogStreamItem))
      → Spends b s.logs p
      → budget t ≡ 3 * (b + length s.fetches + length s.relays)
      → Lowers budget t (
          try_stream
            (map_err (in_context "polling foreign for collected signatures") p)
            s
            λ (item : LogStreamItem).
              assignments_ready crates item.to_block s
                (traverse (signatures_payload crates s.foreign_account) item.logs))
  arrived-Lowers b s t (ready (some item)) h e = assignments-Lowers item.to_block b s t _ h e
  arrived-Lowers b s t (ready none) h e = tt
  arrived-Lowers b s t not_ready h e = tt
  arrived-Lowers b s t (failed x) h e = tt
  arrived-Lowers b s t panicked h e = tt

  transactions-Lowers :
      (block : ℕ) (s t : WithdrawRelay) (r : Result (List Transaction))
      → 3 * (LogStream.budget s.logs + length s.fetches + length s.relays) < budget t
      → Lowers budget t (transactions_ready crates block s r)
  unfolding transactions_ready budget
  transactions-Lowers block s t (ok txs) h = ground arith
  transactions-Lowers block s t (err x) h = tt
  transactions-Lowers block s t panic h = tt

  fetched-Lowers :
      (balance gas_price block : ℕ) (s t : WithdrawRelay)
      (p : Poll (List (List ℕ) × List (List (List ℕ))))
      → (IsReady p → 3 * (LogStream.budget s.logs + length s.fetches + length s.relays) < budget t)
      → Lowers budget t (
          try_ready
            (map_err (in_context "fetching messages and signatures from foreign") p)
            s
            λ (fetched : List (List ℕ) × List (List (List ℕ))).
              transactions_ready crates block s
                (withdraw_transactions crates balance gas_price s fetched.0 fetched.1))
  fetched-Lowers balance gas_price block s t (ready f) h = transactions-Lowers block s t _ (h tt)
  fetched-Lowers balance gas_price block s t not_ready h = tt
  fetched-Lowers balance gas_price block s t (failed e) h = tt
  fetched-Lowers balance gas_price block s t panicked h = tt

  fetch_round-Lowers :
      (balance : Option ℕ) (gas_price block : ℕ) (s : WithdrawRelay)
      → Lowers budget s (fetch_round crates balance gas_price block s)
  unfolding fetch_round
  fetch_round-Lowers none gas_price block s = tt
  fetch_round-Lowers (some balance) gas_price block s =
      fetched-Lowers balance gas_price block (record s { fetches = (poll_feed s.fetches).1 }) s
        (poll_feed s.fetches).0 λ r. unfold budget in omega (arith, poll_feed-shorter s.fetches r)

  round_in-Lowers :
      (shared : Shared) (state : WithdrawRelayState) (s : WithdrawRelay)
      → s.state ≡ state
      → Lowers budget s (round_in crates shared state s)
  unfolding round_in budget
  round_in-Lowers shared wait s e =
      arrived-Lowers (LogStream.budget s.logs) (record s { logs = (LogStream.poll s.logs).0 }) s
        (LogStream.poll s.logs).1 (poll-Spends s.logs) (ground arith)
  round_in-Lowers shared (fetch_messages_signatures ms ss block) s e =
      fetch_round-Lowers shared.balance shared.gas_price block s
  round_in-Lowers shared (relay_withdraws txs block) s e = ground arith
  round_in-Lowers shared (yield none) s e = ground arith
  round_in-Lowers shared (yield (some block)) s e = ground arith

  -- A poll of the withdraw relay ends: it returns what the program's loop returns, which has no bound on its
  -- rounds, whatever the answers are.
  pub withdraw_poll-Runs :
      (shared : Shared) (s : WithdrawRelay)
      → Runs (round crates shared) (poll crates shared s).0 (poll crates shared s).1 s
  unfolding poll round
  withdraw_poll-Runs shared s =
      drive-Runs (round crates shared) budget (λ t. round_in-Lowers shared t.state t refl)
        (suc (budget s)) s (omega arith)

  -- With `c` the last block reported: blocks above it are read only while they are being relayed.
  abbrev pub At : ℕ → WithdrawRelayState → LogStream → Type 0
  At c (fetch_messages_signatures messages signatures block) logs =
      (block ≡ logs.after) × (c < block) × IsSettled logs
  At c (relay_withdraws txs block) logs = (block ≡ logs.after) × (c < block) × IsSettled logs
  At c (yield (some block)) logs = (block ≡ logs.after) × (c < block) × IsSettled logs
  At c _ logs = (logs.after ≡ c) × IsSettled logs

  abbrev pub HasReported : ℕ → WithdrawRelay → Type 0
  HasReported c s = At c s.state s.logs

  -- A report is a block above the last one, and becomes the last one. An error or a panic ends the
  -- bridge, and says nothing of the relay.
  abbrev pub Reports : ℕ → WithdrawRelay → Poll (Option BridgeChecked) → Type 0
  Reports c t (ready (some (withdraw_relay block))) = (c < block) × HasReported block t
  Reports c t (ready (some checked)) = ⊥
  Reports c t (ready none) = HasReported c t
  Reports c t not_ready = HasReported c t
  Reports c t _ = Unit

  assignments-Keeps :
      (block c : ℕ) (s : WithdrawRelay) (r : Result (List (Option RelayAssignment)))
      → (block ≡ s.logs.after) × (c < block) × IsSettled s.logs
      → Keeps (HasReported c) (Reports c) (assignments_ready crates block s r)
  unfolding assignments_ready
  assignments-Keeps block c s (ok found) h = h
  assignments-Keeps block c s (err x) h = tt
  assignments-Keeps block c s panic h = tt

  arrived-Keeps :
      (c : ℕ) (s : WithdrawRelay) (p : Poll (Option LogStreamItem))
      → Serves c s.logs p
      → s.state ≡ wait
      → Keeps (HasReported c) (Reports c) (
          try_stream
            (map_err (in_context "polling foreign for collected signatures") p)
            s
            λ (item : LogStreamItem).
              assignments_ready crates item.to_block s
                (traverse (signatures_payload crates s.foreign_account) item.logs))
  arrived-Keeps c s (ready (some item)) h e =
      assignments-Keeps item.to_block c s _ (omega arith, omega arith, h.3)
  arrived-Keeps c s (ready none) h e = rw e h
  arrived-Keeps c s not_ready h e = rw e h
  arrived-Keeps c s (failed x) h e = tt
  arrived-Keeps c s panicked h e = tt

  transactions-Keeps :
      (block c : ℕ) (s : WithdrawRelay) (r : Result (List Transaction))
      → (block ≡ s.logs.after) × (c < block) × IsSettled s.logs
      → Keeps (HasReported c) (Reports c) (transactions_ready crates block s r)
  unfolding transactions_ready
  transactions-Keeps block c s (ok txs) h = h
  transactions-Keeps block c s (err x) h = tt
  transactions-Keeps block c s panic h = tt

  fetched-Keeps :
      (balance gas_price block c : ℕ) (s : WithdrawRelay)
      (p : Poll (List (List ℕ) × List (List (List ℕ))))
      → (block ≡ s.logs.after) × (c < block) × IsSettled s.logs
      → HasReported c s
      → Keeps (HasReported c) (Reports c) (
          try_ready
            (map_err (in_context "fetching messages and signatures from foreign") p)
            s
            λ (fetched : List (List ℕ) × List (List (List ℕ))).
              transactions_ready crates block s
                (withdraw_transactions crates balance gas_price s fetched.0 fetched.1))
  fetched-Keeps balance gas_price block c s (ready f) h r = transactions-Keeps block c s _ h
  fetched-Keeps balance gas_price block c s not_ready h r = r
  fetched-Keeps balance gas_price block c s (failed e) h r = tt
  fetched-Keeps balance gas_price block c s panicked h r = tt

  fetch_round-Keeps :
      (balance : Option ℕ) (gas_price block c : ℕ) (s : WithdrawRelay)
      → (block ≡ s.logs.after) × (c < block) × IsSettled s.logs
      → HasReported c s
      → Keeps (HasReported c) (Reports c) (fetch_round crates balance gas_price block s)
  unfolding fetch_round
  fetch_round-Keeps none gas_price block c s h r = r
  fetch_round-Keeps (some balance) gas_price block c s h r =
      fetched-Keeps balance gas_price block c (record s { fetches = (poll_feed s.fetches).1 })
        (poll_feed s.fetches).0 h r

  round_in-Keeps :
      (shared : Shared) (c : ℕ) (state : WithdrawRelayState) (s : WithdrawRelay)
      → s.state ≡ state
      → HasReported c s
      → Keeps (HasReported c) (Reports c) (round_in crates shared state s)
  unfolding round_in
  round_in-Keeps shared c wait s e h =
      let now : At c wait s.logs = subst (λ state. At c state s.logs) e h in
      arrived-Keeps c (record s { logs = (LogStream.poll s.logs).0 }) (LogStream.poll s.logs).1
        (subst (λ a. Serves a (LogStream.poll s.logs).0 (LogStream.poll s.logs).1) now.0
          (poll-Serves s.logs now.1))
        e
  round_in-Keeps shared c (fetch_messages_signatures ms ss block) s e h =
      fetch_round-Keeps shared.balance shared.gas_price block c s
        (subst (λ state. At c state s.logs) e h) h
  round_in-Keeps shared c (relay_withdraws txs block) s e h = ground arith
  round_in-Keeps shared c (yield none) s e h = ground arith
  round_in-Keeps shared c (yield (some block)) s e h = ground arith

  -- Whatever the nodes answer: of a withdraw relay that has reported up to block `c`, a poll
  -- without error or panic either reports a relayed block above `c`, up to which the log stream has
  -- served, and has then reported up to that block, or reports nothing and has still reported up to
  -- `c`.
  pub withdraw_poll-Reports :
      (shared : Shared) (c : ℕ) (s : WithdrawRelay)
      → HasReported c s
      → Reports c (poll crates shared s).0 (poll crates shared s).1
  unfolding round
  withdraw_poll-Reports shared c s h =
      Runs-Keeps (round crates shared) (HasReported c) (Reports c)
        (λ t. round_in-Keeps shared c t.state t refl) (withdraw_poll-Runs shared s) h
