-- ===== src/Relay/Withdraw.antt =====
-- bridge/src/bridge/withdraw_relay.rs: withdrawals whose signatures are collected are relayed to home.
pub mod Checked
pub mod Relays
pub mod Assignments
pub mod TakesUp
pub mod Sends
pub mod Once
use poa_bridge.Message.{from_bytes}
use poa_bridge.Prelude.{
  ℕ, zero, suc, ◌+◌, ◌*◌, ◌%◌, ◌^◌, Bool, true, false, ◌&&◌, Option, none, some, List, [], ◌∷◌, map,
  ltb, ◌==◌, if◌then◌else◌, length, drop, zip,
}
use poa_bridge.Error.{Result, ok, err, panic, ◌>>=◌, insufficient_funds, traverse}
use poa_bridge.Futures.{
  Poll, ready, not_ready, failed, panicked, map_err, Feed, poll_feed, Round, again, done, try_ready,
  try_stream, drive,
}
use poa_bridge.Bytes.{Word256}
use poa_bridge.LogStream
use poa_bridge.Database.{Database}
use poa_bridge.LogStream.{log_stream, Replies, LogStream, Log, LogStreamItem}
use poa_bridge.Message
use poa_bridge.Request.{ApiCall, call_contract}
use poa_bridge.Signature
use poa_bridge.Signature.{Signature}
use poa_bridge.Transaction.{Transaction}
use poa_bridge.Relay.Shared.{
  BridgeChecked, withdraw_relay, Contracts, CollectedSignatures, Shared, in_context,
  balance_required, call_transaction,
}

-- Payloads of the calls that fetch the signatures and the message of one withdrawal.
pub record RelayAssignment : Type 0 where
  pub signature_payloads : List (List ℕ)
  pub message_payload : List ℕ

-- The calls that are joined stand in the state, those for messages first.
pub data WithdrawRelayState : Type 0 where
  wait : WithdrawRelayState
  fetch_messages_signatures : List ApiCall → List (List ApiCall) → ℕ → WithdrawRelayState
  relay_withdraws : List Transaction → ℕ → WithdrawRelayState
  yield : Option ℕ → WithdrawRelayState

-- `fetches` holds the answers of the joined calls, `relays` those of the collected transactions.
pub record WithdrawRelay : Type 0 where
  pub state : WithdrawRelayState
  pub logs : LogStream
  pub home_contract : List ℕ
  pub foreign_contract : List ℕ
  pub foreign_account : List ℕ
  pub gas : ℕ
  pub fetches : Feed (List (List ℕ) × List (List (List ℕ)))
  pub relays : Feed (List (List ℕ))

-- The bindings, the words, and whether the logger lets `info!` through: only then are the arguments of
-- a log line computed.
pub record Crates : Type 0 where
  pub contracts : Contracts
  pub words : Word256
  pub info_enabled : Bool

-- `U256::low_u32`.
abbrev pub low_u32 : ℕ → ℕ
low_u32 n = n % 2 ^ 32

-- `==` on addresses.
unfoldable pub same_bytes : List ℕ → List ℕ → Bool
same_bytes [] [] = true
same_bytes (x ∷ xs) (y ∷ ys) = x == y && same_bytes xs ys
same_bytes _ _ = false

-- `0..n`.
unfoldable pub range_from : ℕ → ℕ → List ℕ
range_from i zero = []
range_from i (suc n) = i ∷ range_from (i + 1) n

module _ (crates : Crates) where
  open crates use {contracts, words, info_enabled}

  -- The slice of the input that drops its first four bytes, the selector that every input has.
  unfoldable pub relay_assignment : CollectedSignatures → RelayAssignment
  relay_assignment collected =
      let number = words.to_h256 collected.number_of_collected_signatures in
      let required_signatures = words.from_h256 (drop 4 (contracts.message_input number)) in
      record {
        signature_payloads =
            map (contracts.signature_input collected.message_hash)
              (range_from 0 (low_u32 required_signatures));
        message_payload = contracts.message_input collected.message_hash;
      }

  -- A withdrawal of another authority is skipped; its log line unwraps the transaction hash.
  unfoldable pub other_authority : Option (List ℕ) → Result (Option RelayAssignment)
  other_authority (some hash) = ok none
  other_authority none = if info_enabled then panic else ok none

  unfoldable pub signatures_payload : List ℕ → Log → Result (Option RelayAssignment)
  signatures_payload my_address log = do
    collected ← contracts.parse_collected_signatures log.topics log.log_data
    (if same_bytes collected.authority_responsible_for_relay my_address
        then ok (some (relay_assignment collected))
        else other_authority log.transaction_hash)

  -- `filter_map(|a| a)`.
  unfoldable pub assigned : List (Option RelayAssignment) → List RelayAssignment
  assigned [] = []
  assigned (none ∷ rest) = assigned rest
  assigned (some a ∷ rest) = a ∷ assigned rest

  unfoldable pub assignments_ready :
      ℕ
      → WithdrawRelay
      → Result (List (Option RelayAssignment))
      → Round WithdrawRelay (Option BridgeChecked)
  assignments_ready block s (ok found) =
      let assignments = assigned found in
      again (record s {
        state =
            fetch_messages_signatures
              (map (λ a. call_contract s.foreign_contract a.message_payload) assignments)
              (map (λ a. map (call_contract s.foreign_contract) a.signature_payloads) assignments)
              block;
      })
  assignments_ready block s (err e) = done s (failed e)
  assignments_ready block s panic = done s panicked

  unfoldable pub decode_signature : List ℕ → Result Signature
  decode_signature raw = contracts.signature_output raw >>= Signature.from_bytes

  -- The transaction of one withdrawal, at the gas price that its message names.
  unfoldable pub withdraw_transaction : WithdrawRelay → List ℕ × List Signature → Result Transaction
  withdraw_transaction s (message, signatures) = do
    let payload =
        contracts.withdraw_input (map (λ g. g.v) signatures) (map (λ g. g.r) signatures)
          (map (λ g. g.s) signatures) message
    parsed ← Message.from_bytes words message
    ok (call_transaction s.gas parsed.mainnet_gas_price s.home_contract payload)

  -- The check of the balance, and the transactions.
  unfoldable pub withdraw_transactions :
      ℕ → ℕ → WithdrawRelay → List (List ℕ) → List (List (List ℕ)) → Result (List Transaction)
  withdraw_transactions balance gas_price s messages_raw signatures_raw =
      if length messages_raw == length signatures_raw
      then (if ltb balance (balance_required s.gas gas_price (length messages_raw))
          then err insufficient_funds
          else (do
            messages ← traverse contracts.message_output messages_raw
            signatures ← traverse (traverse decode_signature) signatures_raw
            traverse (withdraw_transaction s) (zip messages signatures)))
      else panic

  unfoldable pub transactions_ready :
      ℕ → WithdrawRelay → Result (List Transaction) → Round WithdrawRelay (Option BridgeChecked)
  transactions_ready block s (ok txs) = again (record s { state = relay_withdraws txs block })
  transactions_ready block s (err e) = done s (failed e)
  transactions_ready block s panic = done s panicked

  unfoldable pub fetch_round :
      Option ℕ → ℕ → ℕ → WithdrawRelay → Round WithdrawRelay (Option BridgeChecked)
  unfolding transactions_ready
  fetch_round none gas_price block s = done s not_ready
  fetch_round (some balance) gas_price block s =
      let (p, rest) = poll_feed s.fetches in
      let s' = record s { fetches = rest } in
      try_ready (map_err (in_context "fetching messages and signatures from foreign") p) s'
        λ (fetched : List (List ℕ) × List (List (List ℕ))).
          transactions_ready block s'
            (withdraw_transactions balance gas_price s' fetched.0 fetched.1)

  unfoldable pub round_in :
      Shared → WithdrawRelayState → WithdrawRelay → Round WithdrawRelay (Option BridgeChecked)
  unfolding assignments_ready fetch_round
  round_in shared wait s =
      let (logs', p) = LogStream.poll s.logs in
      let s' = record s { logs = logs' } in
      try_stream (map_err (in_context "polling foreign for collected signatures") p) s'
        λ (item : LogStreamItem).
          assignments_ready item.to_block s'
            (traverse (signatures_payload s'.foreign_account) item.logs)
  round_in shared (fetch_messages_signatures messages signatures block) s =
      fetch_round shared.balance shared.gas_price block s
  round_in shared (relay_withdraws txs block) s =
      let (p, rest) = poll_feed s.relays in
      let s' = record s { relays = rest } in
      try_ready (map_err (in_context "sending withdrawal to home") p) s'
        (λ _. again (record s' { state = yield (some block) }))
  round_in shared (yield none) s = again (record s { state = wait })
  round_in shared (yield (some block)) s =
      done (record s { state = yield none }) (ready (some (withdraw_relay block)))

  unfoldable pub round : Shared → WithdrawRelay → Round WithdrawRelay (Option BridgeChecked)
  unfolding round_in
  round shared s = round_in shared s.state s

abbrev pub idle_rounds : WithdrawRelayState → ℕ
idle_rounds (yield none) = 1
idle_rounds (yield (some block)) = 2
idle_rounds _ = 0

unfoldable pub budget : WithdrawRelay → ℕ
budget s = 3 * (LogStream.budget s.logs + length s.fetches + length s.relays) + idle_rounds s.state

unfoldable pub poll : Crates → Shared → WithdrawRelay → WithdrawRelay × Poll (Option BridgeChecked)
poll crates shared s = drive (round crates shared) (suc (budget s)) s

-- `confirmations`, `account` and `gas` are from the configuration; the feeds are what will be answered.
unfoldable pub create_withdraw_relay :
    Database
    → ℕ
    → List ℕ
    → ℕ
    → Replies
    → Feed (List (List ℕ) × List (List (List ℕ)))
    → Feed (List (List ℕ))
    → WithdrawRelay
create_withdraw_relay init confirmations account gas replies fetches relays = record {
  state = wait;
  logs =
      log_stream (record { after = init.checked_withdraw_relay; confirmations = confirmations })
        replies;
  home_contract = init.home_contract_address;
  foreign_contract = init.foreign_contract_address;
  foreign_account = account;
  gas = gas;
  fetches = fetches;
  relays = relays;
}
