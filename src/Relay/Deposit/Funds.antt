-- ===== src/Relay/Deposit/Funds.antt =====
-- What the deposit relay (bridge/src/bridge/deposit_relay.rs) sends, and what it may cost.
use poa_bridge.Relay.Deposit.{
  yield, wait_round, deposits_arrived, wait, relay_deposits, deposit_relay_payload, payloads_ready,
  DepositRelay, DepositRelayState, round, round_in, poll,
}
use poa_bridge.Relay.Shared.{
  in_context, balance_required, BridgeChecked, Contracts, Shared, call_transaction,
}
use poa_bridge.Relay.Deposit.Checked.{deposit_poll-Runs}
use poa_bridge.Error.{traverse, Result, ok, err, panic}
use poa_bridge.LogStream.{LogStream, LogStreamItem, Log}
use poa_bridge.Prelude.{
  ℕ, ◌*◌, ◌≤◌, ◌≡◌, refl, ◌∙◌, inl, inr, Option, none, some, List, map, arith, ltb, Bool-cases,
  length, length-map,
}
use poa_bridge.Futures.{
  Poll, ready, not_ready, failed, panicked, map_err, Round, again, done, try_stream,
}
use poa_bridge.Futures.Loop.{Keeps, Runs-Keeps}
use poa_bridge.LogStream
use poa_bridge.Relay.Fees.{total_fee, total_fee-call_transaction, length-traverse}

module _ (contracts : Contracts) where
  -- The transactions that a round starts are one call for each log, in order, with the payload of
  -- the log; their fees are within the balance.
  abbrev pub Relays : ℕ → ℕ → DepositRelay → List Log → DepositRelayState → Type 0
  Relays balance gas_price s logs (relay_deposits txs block) =
      (payloads : List (List ℕ)) × (traverse (deposit_relay_payload contracts) logs ≡ ok payloads)
      × (txs ≡ map (call_transaction s.gas gas_price s.foreign_contract) payloads)
      × (length txs ≡ length logs)
      × (total_fee txs ≤ balance)
  Relays balance gas_price s logs _ = ⊥

  -- Transactions in flight are paid for by the known balance.
  abbrev pub Funded : Option ℕ → DepositRelayState → Type 0
  Funded (some balance) (relay_deposits txs block) = total_fee txs ≤ balance
  Funded none (relay_deposits txs block) = ⊥
  Funded _ _ = Unit

  Relays-Funded :
      (balance gas_price : ℕ) (s : DepositRelay) (logs : List Log) (state : DepositRelayState)
      → Relays balance gas_price s logs state
      → Funded (some balance) state
  Relays-Funded balance gas_price s logs (relay_deposits txs block) r = r.4
  Relays-Funded balance gas_price s logs wait r = absurd r
  Relays-Funded balance gas_price s logs (yield block) r = absurd r

  payloads-Relays :
      (balance gas_price : ℕ) (s : DepositRelay) (item : LogStreamItem) (r : Result (List (List ℕ)))
      → traverse (deposit_relay_payload contracts) item.logs ≡ r
      → balance_required s.gas gas_price (length item.logs) ≤ balance
      → (t : DepositRelay) → payloads_ready contracts gas_price item.to_block s r ≡ again t
      → Relays balance gas_price s item.logs t.state
  unfolding payloads_ready
  payloads-Relays balance gas_price s item (ok payloads) e fits t h =
      let txs = map (call_transaction s.gas gas_price s.foreign_contract) payloads in
      let state : t.state ≡ relay_deposits txs item.to_block = ground arith in
      let count : length payloads ≡ length item.logs = length-traverse _ item.logs e in
      let fee : total_fee txs ≡ s.gas * gas_price * length payloads =
        total_fee-call_transaction s.gas gas_price s.foreign_contract payloads in
      rw state (payloads, e, refl, length-map _ payloads ∙ count, rw (fee, count) fits)
  payloads-Relays balance gas_price s item (err x) e fits t h = cc
  payloads-Relays balance gas_price s item panic e fits t h = cc

  -- When logs have arrived and the relay goes on, it sends one call to the foreign contract for
  -- each log, in the order of the logs, with the payload of the log, and all the fees together are
  -- within the balance.
  pub deposits_arrived-Relays :
      (balance gas_price : ℕ) (s t : DepositRelay) (item : LogStreamItem)
      → deposits_arrived contracts balance gas_price s item ≡ again t
      → Relays balance gas_price s item.logs t.state
  unfolding deposits_arrived
  deposits_arrived-Relays balance gas_price s t item h =
      elim (Bool-cases (ltb balance (balance_required s.gas gas_price (length item.logs)))) [
        | inl short ↦ let h' = rw short at h in cc
        | inr enough ↦
            payloads-Relays balance gas_price s item _ refl (ground arith) t (rw enough at h)
      ]

  arrived-stays :
      (balance gas_price : ℕ) (s t : DepositRelay) (item : LogStreamItem)
      (p : Poll (Option BridgeChecked))
      → deposits_arrived contracts balance gas_price s item ≡ done t p
      → t.state ≡ s.state
  unfolding deposits_arrived
  arrived-stays balance gas_price s t item p h = ground arith

  arrived-Funded :
      (balance gas_price : ℕ) (s : DepositRelay) (item : LogStreamItem)
      (r : Round DepositRelay (Option BridgeChecked))
      → s.state ≡ wait
      → deposits_arrived contracts balance gas_price s item ≡ r
      → Keeps (λ t. Funded (some balance) t.state) (λ t p. Funded (some balance) t.state) r
  arrived-Funded balance gas_price s item (again t) e h =
      Relays-Funded balance gas_price s item.logs t.state
        (deposits_arrived-Relays balance gas_price s t item h)
  arrived-Funded balance gas_price s item (done t p) e h =
      rw (arrived-stays balance gas_price s t item p h ∙ e) tt

  stream-Funded :
      (balance gas_price : ℕ) (s : DepositRelay) (p : Poll (Option LogStreamItem))
      → s.state ≡ wait
      → Keeps
          (λ t. Funded (some balance) t.state)
          (λ t p. Funded (some balance) t.state)
          (try_stream
            (map_err (in_context "polling home for deposits") p)
            s
            (deposits_arrived contracts balance gas_price s))
  stream-Funded balance gas_price s (ready (some item)) e =
      arrived-Funded balance gas_price s item _ e refl
  stream-Funded balance gas_price s (ready none) e = rw e tt
  stream-Funded balance gas_price s not_ready e = rw e tt
  stream-Funded balance gas_price s (failed x) e = rw e tt
  stream-Funded balance gas_price s panicked e = rw e tt

  wait_round-Funded :
      (balance : Option ℕ) (gas_price : ℕ) (s : DepositRelay)
      → s.state ≡ wait
      → Keeps
          (λ t. Funded balance t.state)
          (λ t p. Funded balance t.state)
          (wait_round contracts balance gas_price s)
  unfolding wait_round
  wait_round-Funded none gas_price s e = rw e tt
  wait_round-Funded (some balance) gas_price s e =
      stream-Funded balance gas_price (record s { logs = (LogStream.poll s.logs).0 })
        (LogStream.poll s.logs).1 e

  round_in-Funded :
      (shared : Shared) (state : DepositRelayState) (s : DepositRelay)
      → s.state ≡ state
      → Funded shared.balance state
      → Keeps
          (λ t. Funded shared.balance t.state)
          (λ t p. Funded shared.balance t.state)
          (round_in contracts shared state s)
  unfolding round_in
  round_in-Funded shared wait s e h = wait_round-Funded shared.balance shared.gas_price s e
  round_in-Funded shared (relay_deposits txs block) s e h = ground arith
  round_in-Funded shared (yield none) s e h = ground arith
  round_in-Funded shared (yield (some block)) s e h = ground arith

  -- If any transactions in flight before a poll cost no more than the known balance, so do those in
  -- flight after it: none are in flight whose fees exceed the balance, nor any at all while the
  -- balance is unknown.
  pub deposit_poll-Funded :
      (shared : Shared) (s : DepositRelay)
      → Funded shared.balance s.state
      → Funded shared.balance (poll contracts shared s).0.state
  unfolding round
  deposit_poll-Funded shared s h =
      Runs-Keeps (round contracts shared) (λ t. Funded shared.balance t.state)
        (λ t p. Funded shared.balance t.state) (λ t. round_in-Funded shared t.state t refl)
        (deposit_poll-Runs contracts shared s) h
