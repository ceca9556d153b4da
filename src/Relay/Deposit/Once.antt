-- ===== src/Relay/Deposit/Once.antt =====
-- All that a deposit relay (bridge/src/bridge/deposit_relay.rs) sends, over any number of rounds of its
-- loop, against the ranges of logs that it has read.
use poa_bridge.Relay.Rounds.{walked, DeliversTo, walked-DeliversTo}
use poa_bridge.Error.{ok}
use poa_bridge.Futures.{
  try_ready, poll_feed, Poll, ready, not_ready, failed, panicked, map_err, Round, again, done,
  try_stream,
}
use poa_bridge.Futures.Loop.{Keeps}
use poa_bridge.LogStream
use poa_bridge.LogStream.{Log, LogStream, LogStreamItem}
use poa_bridge.LogStream.Ranges.{IsSettled, Serves, poll-Serves}
use poa_bridge.Prelude.{ℕ, ◌≡◌, refl, sym, ap, ◌∙◌, List, [], ◌∷◌, Option, none, some, arith}
use poa_bridge.Relay.Deposit.{
  DepositRelay, DepositRelayState, wait, relay_deposits, yield, deposits_arrived, payloads_ready,
  deposit_relay_payload, wait_round, round, round_in,
}
use poa_bridge.Relay.Deposit.Funds.{Relays, deposits_arrived-Relays}
use poa_bridge.Relay.Shared.{BridgeChecked, Contracts, Shared, in_context}
use poa_bridge.Transaction.{Transaction}
use poa_bridge.Relay.Sent
use poa_bridge.Relay.Sent.{
  items_in, data_of, data_of-call_transaction, All-call_transaction, Delivers, Pays, Pays-nil,
  Pays-append, relayed, relayed-rounds,
}

-- The log stream of a deposit relay.
abbrev pub logs_in : DepositRelay → LogStream
logs_in s = s.logs

abbrev pub state_of : DepositRelay → DepositRelayState
state_of s = s.state

-- The item that a round reads: only a relay that waits, with a known balance, polls its log stream.
abbrev pub taken_in : DepositRelayState → Option ℕ → LogStream → List LogStreamItem
taken_in wait (some balance) logs = items_in (LogStream.poll logs).1
taken_in _ _ logs = []

abbrev pub taken : Shared → DepositRelay → List LogStreamItem
taken c s = taken_in s.state c.balance s.logs

abbrev pub sent_in : DepositRelayState → List Transaction
sent_in (relay_deposits txs block) = txs
sent_in _ = []

-- The transactions that a round starts, from the state before it.
abbrev pub started_in : DepositRelayState → DepositRelay → List Transaction
started_in wait t = sent_in t.state
started_in _ t = []

module _ (contracts : Contracts) (contract : List ℕ) (gas : ℕ) where
  -- The payloads are sent to the contract.
  abbrev Paid : List Log → List Transaction → Type 0
  Paid = Pays contract gas (deposit_relay_payload contracts)

  abbrev IsFor : DepositRelay → Type 0
  IsFor s = (s.foreign_contract ≡ contract) × (s.gas ≡ gas)

  abbrev Stays : ℕ → DepositRelay → Type 0
  Stays = Sent.Stays logs_in IsFor Paid state_of started_in

  abbrev Took : ℕ → List LogStreamItem → DepositRelayState → DepositRelay → Type 0
  Took = Sent.Took logs_in IsFor Paid state_of started_in

  abbrev GoesOn : ℕ → DepositRelay → Poll (Option BridgeChecked) → Type 0
  GoesOn = Sent.GoesOn logs_in IsFor Paid state_of started_in

  Relays-Paid :
      (balance gas_price : ℕ) (s : DepositRelay) (logs : List Log) (state : DepositRelayState)
      → IsFor s
      → Relays contracts balance gas_price s logs state
      → Paid logs (sent_in state)
  Relays-Paid balance gas_price s logs (relay_deposits txs block) (to, limit)
        (payloads, parsed, are, count, fees) =
      (
        parsed
            ∙ ap ok (
                sym (
                  ap data_of are
                  ∙ data_of-call_transaction s.gas gas_price s.foreign_contract payloads)),
        rw (are, to, limit) (All-call_transaction gas gas_price contract payloads),
      )
  Relays-Paid balance gas_price s logs wait to r = absurd r
  Relays-Paid balance gas_price s logs (yield block) to r = absurd r

  arrived-logs :
      (balance gas_price : ℕ) (s t : DepositRelay) (item : LogStreamItem)
      → deposits_arrived contracts balance gas_price s item ≡ again t
      → (t.logs ≡ s.logs) × (t.foreign_contract ≡ s.foreign_contract) × (t.gas ≡ s.gas)
  unfolding deposits_arrived payloads_ready
  arrived-logs balance gas_price s t item h = ground arith

  arrived-ends :
      (balance gas_price a : ℕ) (s t : DepositRelay) (item : LogStreamItem)
      (p : Poll (Option BridgeChecked))
      → deposits_arrived contracts balance gas_price s item ≡ done t p
      → GoesOn a t p
  unfolding deposits_arrived payloads_ready
  arrived-ends balance gas_price a s t item p h = ground arith

  arrived-Took :
      (balance gas_price a : ℕ) (s : DepositRelay) (item : LogStreamItem)
      (r : Round DepositRelay (Option BridgeChecked))
      → deposits_arrived contracts balance gas_price s item ≡ r
      → IsFor s
      → Serves a s.logs (ready (some item))
      → Keeps (Took a (item ∷ []) wait) (GoesOn a) r
  arrived-Took balance gas_price a s item (again t) e is_for (from, up, to, settled) =
      let (same, contract_kept, gas_kept) = arrived-logs balance gas_price s t item e in
      (
        from,
        up,
        rw same (to, settled, (contract_kept ∙ is_for.0, gas_kept ∙ is_for.1)),
        Relays-Paid balance gas_price s item.logs t.state is_for
            (deposits_arrived-Relays contracts balance gas_price s t item e),
      )
  arrived-Took balance gas_price a s item (done t p) e is_for h =
      arrived-ends balance gas_price a s t item p e

  polled-Took :
      (balance gas_price a : ℕ) (s : DepositRelay) (p : Poll (Option LogStreamItem))
      → IsFor s
      → Serves a s.logs p
      → Keeps (Took a (items_in p) wait) (GoesOn a) (
          try_stream
            (map_err (in_context "polling home for deposits") p)
            s
            (deposits_arrived contracts balance gas_price s))
  polled-Took balance gas_price a s (ready (some item)) is_for h =
      arrived-Took balance gas_price a s item _ refl is_for h
  polled-Took balance gas_price a s (ready none) is_for h = (h.0, h.1, is_for)
  polled-Took balance gas_price a s not_ready is_for h = (h.0, h.1, is_for)
  polled-Took balance gas_price a s (failed e) is_for h = tt
  polled-Took balance gas_price a s panicked is_for h = tt

  waited-Took :
      (balance : Option ℕ) (gas_price : ℕ) (s : DepositRelay)
      → IsSettled s.logs
      → IsFor s
      → Keeps
          (Took s.logs.after (taken_in wait balance s.logs) wait)
          (GoesOn s.logs.after)
          (wait_round contracts balance gas_price s)
  unfolding wait_round
  waited-Took none gas_price s settled is_for = (refl, settled, is_for)
  waited-Took (some balance) gas_price s settled is_for =
      polled-Took balance gas_price s.logs.after (record s { logs = (LogStream.poll s.logs).0 })
        (LogStream.poll s.logs).1 is_for (poll-Serves s.logs settled)

  answered-Took :
      (block a : ℕ) (s : DepositRelay) (p : Poll (List (List ℕ)))
      → Stays a s
      → Keeps
          (λ t. Stays a t × Paid [] (started_in (relay_deposits [] block) t))
          (GoesOn a)
          (try_ready
            (map_err (in_context "relaying deposit to foreign") p)
            s
            (λ hashes. again (record s { state = yield (some block) })))
  answered-Took block a s (ready hashes) h =
      (h, Pays-nil contract gas (deposit_relay_payload contracts))
  answered-Took block a s not_ready h = h
  answered-Took block a s (failed e) h = tt
  answered-Took block a s panicked h = tt

  round-Took :
      (c : Shared) (state : DepositRelayState) (s : DepositRelay)
      → IsSettled s.logs
      → IsFor s
      → Keeps
          (Took s.logs.after (taken_in state c.balance s.logs) state)
          (GoesOn s.logs.after)
          (round_in contracts c state s)
  unfolding round_in
  round-Took c wait s settled is_for = waited-Took c.balance c.gas_price s settled is_for
  round-Took c (relay_deposits txs block) s settled is_for =
      answered-Took block s.logs.after (record s { relays = (poll_feed s.relays).1 })
        (poll_feed s.relays).0 (refl, settled, is_for)
  round-Took c (yield none) s settled is_for =
      ((refl, settled, is_for), Pays-nil contract gas (deposit_relay_payload contracts))
  round-Took c (yield (some block)) s settled is_for = (refl, settled, is_for)

module _ (contracts : Contracts) where
  -- A deposit relay whose log stream is as a poll leaves it, in any number of rounds of its loop, up
  -- to one that fails, whatever the node answers and the cells hold: the items that it reads join up,
  -- each beginning one block above the end of the one before, and the data of all the transactions
  -- that it starts, in order, are the payloads of all the logs of these items, one for each log, in
  -- order. Each transaction is a call of the foreign contract that the relay has, with its gas and no
  -- value.
  pub deposits-Delivers :
      (cs : List Shared) (s : DepositRelay)
      → IsSettled s.logs
      → Delivers
          (Pays s.foreign_contract s.gas (deposit_relay_payload contracts))
          s.logs.after
          (relayed state_of started_in (round contracts) taken cs s)
  unfolding round
  deposits-Delivers cs s settled =
      relayed-rounds logs_in (IsFor contracts s.foreign_contract s.gas)
        (Paid contracts s.foreign_contract s.gas) state_of started_in
        (Pays-nil s.foreign_contract s.gas (deposit_relay_payload contracts))
        (Pays-append s.foreign_contract s.gas (deposit_relay_payload contracts)) (round contracts)
        taken (λ c t h i. round-Took contracts s.foreign_contract s.gas c t.state t h i) cs s
        settled (refl, refl)

  -- The same of rounds that do not fail, up to the last block that the log stream has served.
  pub deposits-DeliversTo :
      (cs : List Shared) (s t : DepositRelay)
      → IsSettled s.logs
      → walked (round contracts) cs s ≡ some t
      → DeliversTo
          (Pays s.foreign_contract s.gas (deposit_relay_payload contracts))
          s.logs.after
          t.logs.after
          (relayed state_of started_in (round contracts) taken cs s)
  unfolding round
  deposits-DeliversTo cs s t settled walk =
      walked-DeliversTo logs_in (IsFor contracts s.foreign_contract s.gas)
        (Paid contracts s.foreign_contract s.gas) state_of started_in
        (Pays-nil s.foreign_contract s.gas (deposit_relay_payload contracts))
        (Pays-append s.foreign_contract s.gas (deposit_relay_payload contracts)) (round contracts)
        taken (λ c u h i. round-Took contracts s.foreign_contract s.gas c u.state u h i) cs s t
        settled (refl, refl) walk
