-- ===== src/Relay/Confirm/Once.antt =====
-- All that a withdraw confirmation (bridge/src/bridge/withdraw_confirm.rs) submits, over any number of
-- rounds of its loop, against the ranges of logs that it has read.
use poa_bridge.Relay.Rounds.{walked, DeliversTo, walked-DeliversTo}
use poa_bridge.Error.{ok}
use poa_bridge.Futures.{
  try_ready, poll_feed, Poll, ready, not_ready, failed, panicked, map_err, Round, again, done,
  try_stream,
}
use poa_bridge.Futures.Loop.{Keeps}
use poa_bridge.LogStream
use poa_bridge.LogStream.{Log, LogStream, LogStreamItem}
use poa_bridge.LogStream.Ranges.{IsSettled, Serves, poll-Serves}
use poa_bridge.Prelude.{
  ℕ, ◌≡◌, refl, sym, ap, ◌∙◌, List, [], ◌∷◌, map, zip, Option, none, some, arith,
}
use poa_bridge.Relay.Confirm.{
  Crates, WithdrawConfirm, WithdrawConfirmState, wait, confirm_withdraws, yield, withdraws_arrived,
  payloads_ready, wait_round, round, round_in,
}
use poa_bridge.Relay.Confirm.Submitted.{submitted, traverse-submitted}
use poa_bridge.Relay.Confirm.Submits.{Submits, submission, withdraws_arrived-Submits}
use poa_bridge.Relay.Sent
use poa_bridge.Relay.Sent.{
  items_in, data_of, data_of-call_transaction, All-call_transaction, Delivers, Pays, Pays-nil,
  Pays-append, relayed, relayed-rounds,
}
use poa_bridge.Relay.Shared.{BridgeChecked, Shared, in_context}
use poa_bridge.Transaction.{Transaction}

abbrev pub logs_in : WithdrawConfirm → LogStream
logs_in s = s.logs

abbrev pub state_of : WithdrawConfirm → WithdrawConfirmState
state_of s = s.state

-- The item that a round reads: only a relay that waits, with a known balance, polls its log stream.
abbrev pub taken_in : WithdrawConfirmState → Option ℕ → LogStream → List LogStreamItem
taken_in wait (some balance) logs = items_in (LogStream.poll logs).1
taken_in _ _ logs = []

abbrev pub taken : Shared → WithdrawConfirm → List LogStreamItem
taken c s = taken_in s.state c.balance s.logs

abbrev pub sent_in : WithdrawConfirmState → List Transaction
sent_in (confirm_withdraws txs block) = txs
sent_in _ = []

-- The transactions that a round starts, from the state before it.
abbrev pub started_in : WithdrawConfirmState → WithdrawConfirm → List Transaction
started_in wait t = sent_in t.state
started_in _ t = []

module _ (crates : Crates) (account contract : List ℕ) (gas : ℕ) where
  -- The signed messages are submitted to the contract.
  abbrev Paid : List Log → List Transaction → Type 0
  Paid = Pays contract gas (submitted crates account)

  abbrev IsFor : WithdrawConfirm → Type 0
  IsFor s = (s.account ≡ account) × (s.foreign_contract ≡ contract) × (s.gas ≡ gas)

  abbrev Stays : ℕ → WithdrawConfirm → Type 0
  Stays = Sent.Stays logs_in IsFor Paid state_of started_in

  abbrev Took : ℕ → List LogStreamItem → WithdrawConfirmState → WithdrawConfirm → Type 0
  Took = Sent.Took logs_in IsFor Paid state_of started_in

  abbrev GoesOn : ℕ → WithdrawConfirm → Poll (Option BridgeChecked) → Type 0
  GoesOn = Sent.GoesOn logs_in IsFor Paid state_of started_in

  Submits-Paid :
      (balance gas_price : ℕ) (s : WithdrawConfirm) (logs : List Log) (state : WithdrawConfirmState)
      → IsFor s
      → Submits crates balance gas_price s logs state
      → Paid logs (sent_in state)
  Submits-Paid balance gas_price s logs (confirm_withdraws txs block) (signer, to, limit)
        (messages, signatures, read, signed, are, count, fees) =
      let payloads = map (submission crates) (zip messages signatures) in
      (
        traverse-submitted crates account logs messages signatures read (rw signer at signed)
            ∙ ap ok (
                sym (
                  ap data_of are
                  ∙ data_of-call_transaction s.gas gas_price s.foreign_contract payloads)),
        rw (are, to, limit) (All-call_transaction gas gas_price contract payloads),
      )
  Submits-Paid balance gas_price s logs wait signer r = absurd r
  Submits-Paid balance gas_price s logs (yield block) signer r = absurd r

  arrived-logs :
      (balance gas_price : ℕ) (s t : WithdrawConfirm) (item : LogStreamItem)
      → withdraws_arrived crates balance gas_price s item ≡ again t
      → (t.logs ≡ s.logs)
        × (t.account ≡ s.account)
        × (t.foreign_contract ≡ s.foreign_contract)
        × (t.gas ≡ s.gas)
  unfolding withdraws_arrived payloads_ready
  arrived-logs balance gas_price s t item h = ground arith

  arrived-ends :
      (balance gas_price a : ℕ) (s t : WithdrawConfirm) (item : LogStreamItem)
      (p : Poll (Option BridgeChecked))
      → withdraws_arrived crates balance gas_price s item ≡ done t p
      → GoesOn a t p
  unfolding withdraws_arrived payloads_ready
  arrived-ends balance gas_price a s t item p h = ground arith

  arrived-Took :
      (balance gas_price a : ℕ) (s : WithdrawConfirm) (item : LogStreamItem)
      (r : Round WithdrawConfirm (Option BridgeChecked))
      → withdraws_arrived crates balance gas_price s item ≡ r
      → IsFor s
      → Serves a s.logs (ready (some item))
      → Keeps (Took a (item ∷ []) wait) (GoesOn a) r
  arrived-Took balance gas_price a s item (again t) e signer (from, up, to, settled) =
      let (same, signs, to_same, gas_same) = arrived-logs balance gas_price s t item e in
      (
        from,
        up,
        rw same (to, settled, (signs ∙ signer.0, to_same ∙ signer.1, gas_same ∙ signer.2)),
        Submits-Paid balance gas_price s item.logs t.state signer
            (withdraws_arrived-Submits crates balance gas_price s t item e),
      )
  arrived-Took balance gas_price a s item (done t p) e signer h =
      arrived-ends balance gas_price a s t item p e

  polled-Took :
      (balance gas_price a : ℕ) (s : WithdrawConfirm) (p : Poll (Option LogStreamItem))
      → IsFor s
      → Serves a s.logs p
      → Keeps (Took a (items_in p) wait) (GoesOn a) (
          try_stream
            (map_err (in_context "polling foreign for withdrawals") p)
            s
            (withdraws_arrived crates balance gas_price s))
  polled-Took balance gas_price a s (ready (some item)) signer h =
      arrived-Took balance gas_price a s item _ refl signer h
  polled-Took balance gas_price a s (ready none) signer h = (h.0, h.1, signer)
  polled-Took balance gas_price a s not_ready signer h = (h.0, h.1, signer)
  polled-Took balance gas_price a s (failed e) signer h = tt
  polled-Took balance gas_price a s panicked signer h = tt

  waited-Took :
      (balance : Option ℕ) (gas_price : ℕ) (s : WithdrawConfirm)
      → IsSettled s.logs
      → IsFor s
      → Keeps
          (Took s.logs.after (taken_in wait balance s.logs) wait)
          (GoesOn s.logs.after)
          (wait_round crates balance gas_price s)
  unfolding wait_round
  waited-Took none gas_price s settled signer = (refl, settled, signer)
  waited-Took (some balance) gas_price s settled signer =
      polled-Took balance gas_price s.logs.after (record s { logs = (LogStream.poll s.logs).0 })
        (LogStream.poll s.logs).1 signer (poll-Serves s.logs settled)

  answered-Took :
      (block a : ℕ) (s : WithdrawConfirm) (p : Poll (List (List ℕ)))
      → Stays a s
      → Keeps
          (λ t. Stays a t × Paid [] (started_in (confirm_withdraws [] block) t))
          (GoesOn a)
          (try_ready
            (map_err (in_context "sending signature submissions to foreign") p)
            s
            (λ hashes. again (record s { state = yield (some block) })))
  answered-Took block a s (ready hashes) h = (h, Pays-nil contract gas (submitted crates account))
  answered-Took block a s not_ready h = h
  answered-Took block a s (failed e) h = tt
  answered-Took block a s panicked h = tt

  round-Took :
      (c : Shared) (state : WithdrawConfirmState) (s : WithdrawConfirm)
      → IsSettled s.logs
      → IsFor s
      → Keeps
          (Took s.logs.after (taken_in state c.balance s.logs) state)
          (GoesOn s.logs.after)
          (round_in crates c state s)
  unfolding round_in
  round-Took c wait s settled signer = waited-Took c.balance c.gas_price s settled signer
  round-Took c (confirm_withdraws txs block) s settled signer =
      answered-Took block s.logs.after (record s { relays = (poll_feed s.relays).1 })
        (poll_feed s.relays).0 (refl, settled, signer)
  round-Took c (yield none) s settled signer =
      ((refl, settled, signer), Pays-nil contract gas (submitted crates account))
  round-Took c (yield (some block)) s settled signer = (refl, settled, signer)

module _ (crates : Crates) (account : List ℕ) where
  -- A withdraw confirmation of an account, whose log stream is as a poll leaves it, in any number of
  -- rounds of its loop, up to one that fails, whatever the node answers and the cells hold: the items
  -- that it reads join up, each beginning one block above the end of the one before, and the data of
  -- all the transactions that it starts, in order, are those of all the logs of these items, one for
  -- each log, in order: the message of the log with the account's signature of that message's hash.
  -- Each transaction is a call of the foreign contract that the relay has, with its gas and no value.
  pub confirms-Delivers :
      (cs : List Shared) (s : WithdrawConfirm)
      → IsSettled s.logs
      → s.account ≡ account
      → Delivers
          (Pays s.foreign_contract s.gas (submitted crates account))
          s.logs.after
          (relayed state_of started_in (round crates) taken cs s)
  unfolding round
  confirms-Delivers cs s settled signer =
      relayed-rounds logs_in (IsFor crates account s.foreign_contract s.gas)
        (Paid crates account s.foreign_contract s.gas) state_of started_in
        (Pays-nil s.foreign_contract s.gas (submitted crates account))
        (Pays-append s.foreign_contract s.gas (submitted crates account)) (round crates) taken
        (λ c t h i. round-Took crates account s.foreign_contract s.gas c t.state t h i) cs s settled
        (signer, refl, refl)

  -- The same of rounds that do not fail, up to the last block that the log stream has served.
  pub confirms-DeliversTo :
      (cs : List Shared) (s t : WithdrawConfirm)
      → IsSettled s.logs
      → s.account ≡ account
      → walked (round crates) cs s ≡ some t
      → DeliversTo
          (Pays s.foreign_contract s.gas (submitted crates account))
          s.logs.after
          t.logs.after
          (relayed state_of started_in (round crates) taken cs s)
  unfolding round
  confirms-DeliversTo cs s t settled signer walk =
      walked-DeliversTo logs_in (IsFor crates account s.foreign_contract s.gas)
        (Paid crates account s.foreign_contract s.gas) state_of started_in
        (Pays-nil s.foreign_contract s.gas (submitted crates account))
        (Pays-append s.foreign_contract s.gas (submitted crates account)) (round crates) taken
        (λ c u h i. round-Took crates account s.foreign_contract s.gas c u.state u h i) cs s t
        settled (signer, refl, refl) walk
