-- ===== src/Relay/Deposit.antt =====
-- bridge/src/bridge/deposit_relay.rs: deposits on home are relayed to foreign.
pub mod Checked
pub mod Funds
pub mod Delivers
pub mod Once
use poa_bridge.Error.{◌>>=◌, traverse, Result, ok, err, panic, insufficient_funds}
use poa_bridge.Relay.Shared.{
  call_transaction, balance_required, BridgeChecked, deposit_relay, Contracts, Shared, in_context,
}
use poa_bridge.Prelude.{ℕ, suc, ◌+◌, ◌*◌, Option, none, some, List, map, ltb, if◌then◌else◌, length}
use poa_bridge.Futures.{
  Poll, ready, not_ready, failed, panicked, map_err, Feed, poll_feed, Round, again, done, try_ready,
  try_stream, drive,
}
use poa_bridge.LogStream
use poa_bridge.Database.{Database}
use poa_bridge.LogStream.{log_stream, Replies, LogStream, Log, LogStreamItem}
use poa_bridge.Transaction.{Transaction}

-- The transactions are those handed to `send_transaction_with_nonce`.
pub data DepositRelayState : Type 0 where
  wait : DepositRelayState
  relay_deposits : List Transaction → ℕ → DepositRelayState
  yield : Option ℕ → DepositRelayState

-- `relays` holds the answers of the collected futures of the transactions.
pub record DepositRelay : Type 0 where
  pub state : DepositRelayState
  pub logs : LogStream
  pub foreign_contract : List ℕ
  pub gas : ℕ
  pub relays : Feed (List (List ℕ))

module _ (contracts : Contracts) where
  unfoldable pub deposit_relay_payload : Log → Result (List ℕ)
  deposit_relay_payload log = do
    deposit ← contracts.parse_deposit log.topics log.log_data
    hash ← elim (log.transaction_hash) [ some h ↦ ok h | none ↦ panic ]
    ok (contracts.deposit_input deposit.recipient deposit.value hash)

  -- The new state, once the payloads are known.
  unfoldable pub payloads_ready :
      ℕ → ℕ → DepositRelay → Result (List (List ℕ)) → Round DepositRelay (Option BridgeChecked)
  payloads_ready gas_price block s (ok payloads) = again (record s {
    state =
        relay_deposits (map (call_transaction s.gas gas_price s.foreign_contract) payloads) block;
  })
  payloads_ready gas_price block s (err e) = done s (failed e)
  payloads_ready gas_price block s panic = done s panicked

  unfoldable pub deposits_arrived :
      ℕ → ℕ → DepositRelay → LogStreamItem → Round DepositRelay (Option BridgeChecked)
  unfolding payloads_ready
  deposits_arrived balance gas_price s item =
      if ltb balance (balance_required s.gas gas_price (length item.logs))
      then done s (failed insufficient_funds)
      else payloads_ready gas_price item.to_block s (traverse deposit_relay_payload item.logs)

  unfoldable pub wait_round :
      Option ℕ → ℕ → DepositRelay → Round DepositRelay (Option BridgeChecked)
  unfolding deposits_arrived
  wait_round none gas_price s = done s not_ready
  wait_round (some balance) gas_price s =
      let (logs', p) = LogStream.poll s.logs in
      let s' = record s { logs = logs' } in
      try_stream (map_err (in_context "polling home for deposits") p) s'
        (deposits_arrived balance gas_price s')

  unfoldable pub round_in :
      Shared → DepositRelayState → DepositRelay → Round DepositRelay (Option BridgeChecked)
  unfolding wait_round
  round_in shared wait s = wait_round shared.balance shared.gas_price s
  round_in shared (relay_deposits txs block) s =
      let (p, rest) = poll_feed s.relays in
      let s' = record s { relays = rest } in
      try_ready (map_err (in_context "relaying deposit to foreign") p) s'
        (λ _. again (record s' { state = yield (some block) }))
  round_in shared (yield none) s = again (record s { state = wait })
  round_in shared (yield (some block)) s =
      done (record s { state = yield none }) (ready (some (deposit_relay block)))

  unfoldable pub round : Shared → DepositRelay → Round DepositRelay (Option BridgeChecked)
  unfolding round_in
  round shared s = round_in shared s.state s

abbrev pub idle_rounds : DepositRelayState → ℕ
idle_rounds (yield none) = 1
idle_rounds (yield (some block)) = 2
idle_rounds _ = 0

unfoldable pub budget : DepositRelay → ℕ
budget s = 3 * (LogStream.budget s.logs + length s.relays) + idle_rounds s.state

unfoldable pub poll : Contracts → Shared → DepositRelay → DepositRelay × Poll (Option BridgeChecked)
poll contracts shared s = drive (round contracts shared) (suc (budget s)) s

-- `confirmations` and `gas` are from the configuration; the feeds are what will be answered.
unfoldable pub create_deposit_relay :
    Database → ℕ → ℕ → Replies → Feed (List (List ℕ)) → DepositRelay
create_deposit_relay init confirmations gas replies relays = record {
  state = wait;
  logs =
      log_stream (record { after = init.checked_deposit_relay; confirmations = confirmations })
        replies;
  foreign_contract = init.foreign_contract_address;
  gas = gas;
  relays = relays;
}
