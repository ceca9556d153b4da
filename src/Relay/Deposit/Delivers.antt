-- ===== src/Relay/Deposit/Delivers.antt =====
-- What the deposit relay (bridge/src/bridge/deposit_relay.rs) needs to report a range of blocks.
use poa_bridge.Error.{traverse, ok}
use poa_bridge.Futures.{Feed, ready, again}
use poa_bridge.Futures.Loop.{Runs, stop, next, Runs-unique}
use poa_bridge.LogStream
use poa_bridge.LogStream.{Log, LogStream, LogStreamItem, Replies, low_u64}
use poa_bridge.LogStream.Progress.{IsTooLow, waiting, served, has_served, poll_serves}
use poa_bridge.Prelude.{
  ℕ, ◌-◌, ◌≤◌, ◌<◌, ◌≡◌, refl, ◌∙◌, List, ◌∷◌, none, some, All, le→not_ltb, length, map,
}
use poa_bridge.Relay.Deposit.{
  DepositRelay, DepositRelayState, wait, relay_deposits, yield, deposits_arrived, payloads_ready,
  deposit_relay_payload, wait_round, round, round_in, poll,
}
use poa_bridge.Relay.Deposit.Checked.{deposit_poll-Runs}
use poa_bridge.Relay.Shared.{Contracts, Shared, balance_required, call_transaction, deposit_relay}

abbrev pub shared : ℕ → ℕ → Shared
shared balance gas_price = record { balance = some balance; gas_price = gas_price }

module _ (contract : List ℕ) (gas : ℕ) where
  abbrev pub in_state : DepositRelayState → LogStream → Feed (List (List ℕ)) → DepositRelay
  in_state state logs relays = record {
    state = state;
    logs = logs;
    foreign_contract = contract;
    gas = gas;
    relays = relays;
  }

module _ (contracts : Contracts) (balance gas_price : ℕ) where
  -- The logs that arrive are paid for and turned into payloads.
  accepted :
      (s : DepositRelay) (item : LogStreamItem) (payloads : List (List ℕ))
      → balance_required s.gas gas_price (length item.logs) ≤ balance
      → traverse (deposit_relay_payload contracts) item.logs ≡ ok payloads
      → deposits_arrived contracts balance gas_price s item
        ≡ again (record s {
          state =
              relay_deposits
                (map (call_transaction s.gas gas_price s.foreign_contract) payloads)
                item.to_block;
        })
  unfolding deposits_arrived payloads_ready
  accepted s item payloads paid parsed = rw (le→not_ltb _ _ paid, parsed) refl

  waited :
      (s : DepositRelay) (t : LogStream) (item : LogStreamItem)
      → LogStream.poll s.logs ≡ (t, ready (some item))
      → wait_round contracts (some balance) gas_price s
        ≡ deposits_arrived contracts balance gas_price (record s { logs = t }) item
  unfolding wait_round
  waited s t item e = rw e refl

module _ (contracts : Contracts) (balance gas_price : ℕ) (contract : List ℕ) (gas : ℕ) where
  first_round :
      (l t : LogStream) (item : LogStreamItem) (payloads : List (List ℕ))
      (relays : Feed (List (List ℕ)))
      → LogStream.poll l ≡ (t, ready (some item))
      → balance_required gas gas_price (length item.logs) ≤ balance
      → traverse (deposit_relay_payload contracts) item.logs ≡ ok payloads
      → round contracts (shared balance gas_price) (in_state contract gas wait l relays)
        ≡ again (
            in_state contract gas
              (relay_deposits
                (map (call_transaction gas gas_price contract) payloads)
                item.to_block)
              t
              relays)
  unfolding round round_in
  first_round l t item payloads relays polled paid parsed =
      waited contracts balance gas_price (in_state contract gas wait l relays) t item polled
      ∙ accepted contracts balance gas_price (in_state contract gas wait t relays) item payloads
          paid parsed

  delivers-Runs :
      (l t : LogStream) (item : LogStreamItem) (payloads hashes : List (List ℕ))
      (relays : Feed (List (List ℕ)))
      → LogStream.poll l ≡ (t, ready (some item))
      → balance_required gas gas_price (length item.logs) ≤ balance
      → traverse (deposit_relay_payload contracts) item.logs ≡ ok payloads
      → Runs
          (round contracts (shared balance gas_price))
          (in_state contract gas (yield none) t relays)
          (ready (some (deposit_relay item.to_block)))
          (in_state contract gas wait l (ready hashes ∷ relays))
  unfolding round round_in
  delivers-Runs l t item payloads hashes relays polled paid parsed =
      next (first_round l t item payloads (ready hashes ∷ relays) polled paid parsed)
        (next refl (stop refl))

  -- A deposit relay with a known balance, whose node first answers any number of block numbers that
  -- confirm nothing new, then one that does, and then the logs of these blocks: where each log gives
  -- a payload, the balance is enough for them and the transactions are answered, the poll that finds
  -- these answers reports the last confirmed block.
  pub deposit_poll_delivers :
      (after confirmations : ℕ) (bs : List ℕ) (number : ℕ) (logs : List Log) (later : Replies)
      (payloads hashes : List (List ℕ)) (relays : Feed (List (List ℕ)))
      → All (IsTooLow after confirmations) bs
      → after < low_u64 number - confirmations
      → balance_required gas gas_price (length logs) ≤ balance
      → traverse (deposit_relay_payload contracts) logs ≡ ok payloads
      → poll contracts (shared balance gas_price) (
          in_state contract gas wait
            (waiting after confirmations bs number logs later)
            (ready hashes ∷ relays))
        ≡ (
          in_state contract gas (yield none) (has_served after confirmations number later) relays,
          ready (some (deposit_relay (low_u64 number - confirmations))),
        )
  deposit_poll_delivers after confirmations bs number logs later payloads hashes relays low high
        paid parsed =
      Runs-unique (round contracts (shared balance gas_price)) (deposit_poll-Runs contracts _ _)
        refl
        (delivers-Runs (waiting after confirmations bs number logs later)
          (has_served after confirmations number later) (served after confirmations number logs)
          payloads hashes relays (poll_serves after confirmations bs number logs later low high)
          paid parsed)
