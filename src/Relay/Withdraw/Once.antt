-- ===== src/Relay/Withdraw/Once.antt =====
-- All that a withdraw relay (bridge/src/bridge/withdraw_relay.rs) asks the foreign node for and sends to
-- home, over any number of rounds of its loop, against the ranges of logs that it has read.
use poa_bridge.Relay.Rounds.{walked, DeliversTo, walked-DeliversTo}
use poa_bridge.Error.{traverse, Result, ok, err, panic}
use poa_bridge.Futures.{
  try_ready, poll_feed, Poll, ready, not_ready, failed, panicked, map_err, again, try_stream,
}
use poa_bridge.Futures.Loop.{Keeps}
use poa_bridge.LogStream
use poa_bridge.LogStream.{Log, LogStream, LogStreamItem}
use poa_bridge.LogStream.Ranges.{IsSettled, Serves, poll-Serves}
use poa_bridge.Prelude.{ℕ, ◌≡◌, refl, List, [], ◌∷◌, map, Option, none, some}
use poa_bridge.Relay.Sent
use poa_bridge.Relay.Sent.{items_in, Delivers, relayed, relayed-rounds}
use poa_bridge.Relay.Shared.{BridgeChecked, Shared, in_context}
use poa_bridge.Relay.Withdraw.{
  Crates, WithdrawRelay, WithdrawRelayState, wait, fetch_messages_signatures, relay_withdraws,
  yield, RelayAssignment, signatures_payload, assigned, assignments_ready, transactions_ready,
  withdraw_transactions, fetch_round, round, round_in,
}
use poa_bridge.Relay.Withdraw.Relays.{withdraw_transactions-PaysAsked}
use poa_bridge.Relay.Withdraw.Sends.{
  Sends, Sends-nil, Sends-append, Start, asking, sends, asking-Sends, sends-Sends,
}
use poa_bridge.Relay.Withdraw.TakesUp.{assigned-TakesUp}
use poa_bridge.Transaction.{Transaction}

abbrev pub logs_in : WithdrawRelay → LogStream
logs_in s = s.logs

abbrev pub state_of : WithdrawRelay → WithdrawRelayState
state_of s = s.state

-- The item that a round reads: only a relay that waits polls its log stream.
abbrev pub taken_in : WithdrawRelayState → LogStream → List LogStreamItem
taken_in wait logs = items_in (LogStream.poll logs).1
taken_in _ logs = []

abbrev pub taken : Shared → WithdrawRelay → List LogStreamItem
taken c s = taken_in s.state s.logs

abbrev pub asked_in : WithdrawRelayState → List Start
asked_in (fetch_messages_signatures messages signatures block) = asking messages signatures
asked_in _ = []

abbrev pub sent_in : WithdrawRelayState → List Start
sent_in (relay_withdraws txs block) = map sends txs
sent_in _ = []

-- What a round starts, from the state before it.
abbrev pub started_in : WithdrawRelayState → WithdrawRelay → List Start
started_in wait t = asked_in t.state
started_in (fetch_messages_signatures messages signatures block) t = sent_in t.state
started_in _ t = []

module _ (crates : Crates) (account contract home : List ℕ) (gas : ℕ) where
  abbrev Answered : List Log → List Start → Type 0
  Answered = Sends crates account contract home gas

  abbrev IsFor : WithdrawRelay → Type 0
  IsFor s =
      (s.foreign_account ≡ account)
      × (s.foreign_contract ≡ contract)
      × (s.home_contract ≡ home)
      × (s.gas ≡ gas)

  nil : Answered [] []
  nil = Sends-nil crates account contract home gas

  abbrev Stays : ℕ → WithdrawRelay → Type 0
  Stays = Sent.Stays logs_in IsFor Answered state_of started_in

  abbrev Took : ℕ → List LogStreamItem → WithdrawRelayState → WithdrawRelay → Type 0
  Took = Sent.Took logs_in IsFor Answered state_of started_in

  abbrev GoesOn : ℕ → WithdrawRelay → Poll (Option BridgeChecked) → Type 0
  GoesOn = Sent.GoesOn logs_in IsFor Answered state_of started_in

  arrived-Took :
      (a : ℕ) (s : WithdrawRelay) (item : LogStreamItem)
      (r : Result (List (Option RelayAssignment)))
      → traverse (signatures_payload crates account) item.logs ≡ r
      → IsFor s
      → Serves a s.logs (ready (some item))
      → Keeps (Took a (item ∷ []) wait) (GoesOn a) (assignments_ready crates item.to_block s r)
  unfolding assignments_ready
  arrived-Took a s item (ok found) e mine (from, up, to, settled) = (
    from,
    up,
    (to, settled, mine),
    rw (mine.1) (
        asking-Sends crates account contract home gas item.logs (assigned crates found)
          (assigned-TakesUp crates account item.logs found e)),
  )
  arrived-Took a s item (err e) h mine served = tt
  arrived-Took a s item panic h mine served = tt

  polled-Took :
      (a : ℕ) (s : WithdrawRelay) (p : Poll (Option LogStreamItem))
      → IsFor s
      → Serves a s.logs p
      → Keeps (Took a (items_in p) wait) (GoesOn a) (
          try_stream
            (map_err (in_context "polling foreign for collected signatures") p)
            s
            (λ (item : LogStreamItem).
              assignments_ready crates item.to_block s
                (traverse (signatures_payload crates s.foreign_account) item.logs)))
  polled-Took a s (ready (some item)) mine h = arrived-Took a s item _ (rw (mine.0) refl) mine h
  polled-Took a s (ready none) mine h = (h.0, h.1, mine)
  polled-Took a s not_ready mine h = (h.0, h.1, mine)
  polled-Took a s (failed e) mine h = tt
  polled-Took a s panicked mine h = tt

  transactions-Took :
      (balance gas_price block a : ℕ) (s : WithdrawRelay)
      (fetched : List (List ℕ) × List (List (List ℕ))) (r : Result (List Transaction))
      → withdraw_transactions crates balance gas_price s fetched.0 fetched.1 ≡ r
      → Stays a s
      → Keeps
          (Took a [] (fetch_messages_signatures [] [] block))
          (GoesOn a)
          (transactions_ready crates block s r)
  unfolding transactions_ready
  transactions-Took balance gas_price block a s fetched (ok txs) e h =
      let (messages, read, count, paid, low) =
        withdraw_transactions-PaysAsked crates balance gas_price s fetched.0 fetched.1 txs e in
      let (account_same, contract_same, to, limit) = h.2 in
      (h, sends-Sends crates account contract home gas s messages txs to limit paid)
  transactions-Took balance gas_price block a s fetched (err x) e h = tt
  transactions-Took balance gas_price block a s fetched panic e h = tt

  fetched-Took :
      (balance gas_price block a : ℕ) (s : WithdrawRelay)
      (p : Poll (List (List ℕ) × List (List (List ℕ))))
      → Stays a s
      → Keeps (Took a [] (fetch_messages_signatures [] [] block)) (GoesOn a) (
          try_ready
            (map_err (in_context "fetching messages and signatures from foreign") p)
            s
            (λ (fetched : List (List ℕ) × List (List (List ℕ))).
              transactions_ready crates block s
                (withdraw_transactions crates balance gas_price s fetched.0 fetched.1)))
  fetched-Took balance gas_price block a s (ready fetched) h =
      transactions-Took balance gas_price block a s fetched _ refl h
  fetched-Took balance gas_price block a s not_ready h = h
  fetched-Took balance gas_price block a s (failed e) h = tt
  fetched-Took balance gas_price block a s panicked h = tt

  fetch_round-Took :
      (balance : Option ℕ) (gas_price block : ℕ) (s : WithdrawRelay)
      → Stays s.logs.after s
      → Keeps
          (Took s.logs.after [] (fetch_messages_signatures [] [] block))
          (GoesOn s.logs.after)
          (fetch_round crates balance gas_price block s)
  unfolding fetch_round
  fetch_round-Took none gas_price block s h = h
  fetch_round-Took (some balance) gas_price block s h =
      fetched-Took balance gas_price block s.logs.after
        (record s { fetches = (poll_feed s.fetches).1 }) (poll_feed s.fetches).0 h

  answered-Took :
      (block a : ℕ) (s : WithdrawRelay) (p : Poll (List (List ℕ)))
      → Stays a s
      → Keeps (Took a [] (relay_withdraws [] block)) (GoesOn a) (
          try_ready
            (map_err (in_context "sending withdrawal to home") p)
            s
            (λ hashes. again (record s { state = yield (some block) })))
  answered-Took block a s (ready hashes) h = (h, nil)
  answered-Took block a s not_ready h = h
  answered-Took block a s (failed e) h = tt
  answered-Took block a s panicked h = tt

  round-Took :
      (c : Shared) (state : WithdrawRelayState) (s : WithdrawRelay)
      → IsSettled s.logs
      → IsFor s
      → Keeps
          (Took s.logs.after (taken_in state s.logs) state)
          (GoesOn s.logs.after)
          (round_in crates c state s)
  unfolding round_in
  round-Took c wait s settled mine =
      polled-Took s.logs.after (record s { logs = (LogStream.poll s.logs).0 })
        (LogStream.poll s.logs).1 mine (poll-Serves s.logs settled)
  round-Took c (fetch_messages_signatures messages signatures block) s settled mine =
      fetch_round-Took c.balance c.gas_price block s (refl, settled, mine)
  round-Took c (relay_withdraws txs block) s settled mine =
      answered-Took block s.logs.after (record s { relays = (poll_feed s.relays).1 })
        (poll_feed s.relays).0 (refl, settled, mine)
  round-Took c (yield none) s settled mine = ((refl, settled, mine), nil)
  round-Took c (yield (some block)) s settled mine = (refl, settled, mine)

module _ (crates : Crates) (account : List ℕ) where
  -- A withdraw relay of an account, whose log stream is as a poll leaves it, in any number of rounds of
  -- its loop, up to one that fails, whatever the node answers and the cells hold: the items that it
  -- reads join up, each beginning one block above the end of the one before, and the
  -- calls that it asks the foreign node for, in order, are the assignments of those logs of these
  -- items whose event names the account, and of no others. These are calls of the foreign contract
  -- that the relay has. All the transactions that it sends are calls of the home contract that it has,
  -- with its gas and no value.
  pub withdraws-Delivers :
      (cs : List Shared) (s : WithdrawRelay)
      → IsSettled s.logs
      → s.foreign_account ≡ account
      → Delivers
          (Sends crates account s.foreign_contract s.home_contract s.gas)
          s.logs.after
          (relayed state_of started_in (round crates) taken cs s)
  unfolding round
  withdraws-Delivers cs s settled mine =
      relayed-rounds logs_in (IsFor crates account s.foreign_contract s.home_contract s.gas)
        (Answered crates account s.foreign_contract s.home_contract s.gas) state_of started_in
        (nil crates account s.foreign_contract s.home_contract s.gas)
        (Sends-append crates account s.foreign_contract s.home_contract s.gas) (round crates) taken
        (λ c t h i.
          round-Took crates account s.foreign_contract s.home_contract s.gas c t.state t h i)
        cs s settled (mine, refl, refl, refl)

  -- The same of rounds that do not fail, up to the last block that the log stream has served.
  pub withdraws-DeliversTo :
      (cs : List Shared) (s t : WithdrawRelay)
      → IsSettled s.logs
      → s.foreign_account ≡ account
      → walked (round crates) cs s ≡ some t
      → DeliversTo
          (Sends crates account s.foreign_contract s.home_contract s.gas)
          s.logs.after
          t.logs.after
          (relayed state_of started_in (round crates) taken cs s)
  unfolding round
  withdraws-DeliversTo cs s t settled mine walk =
      walked-DeliversTo logs_in (IsFor crates account s.foreign_contract s.home_contract s.gas)
        (Answered crates account s.foreign_contract s.home_contract s.gas) state_of started_in
        (nil crates account s.foreign_contract s.home_contract s.gas)
        (Sends-append crates account s.foreign_contract s.home_contract s.gas) (round crates) taken
        (λ c u h i.
          round-Took crates account s.foreign_contract s.home_contract s.gas c u.state u h i)
        cs s t settled (mine, refl, refl, refl) walk
