-- ===== src/Relay/Confirm.antt =====
-- bridge/src/bridge/withdraw_confirm.rs: withdrawals on foreign are signed and the signatures submitted.
pub mod Checked
pub mod Submits
pub mod Submitted
pub mod Once
use poa_bridge.Message.{to_bytes, from_log, message_length}
use poa_bridge.Prelude.{
  ℕ, Bool, suc, ◌+◌, ◌*◌, inl, inr, Option, none, some, List, map, ltb, ◌==◌, if◌then◌else◌, length,
  zip,
}
use poa_bridge.Error.{Result, ok, err, panic, ◌>>=◌, insufficient_funds, sign_error, traverse}
use poa_bridge.Futures.{
  Poll, ready, not_ready, failed, panicked, map_err, Feed, poll_feed, Round, again, done, try_ready,
  try_stream, drive,
}
use poa_bridge.Bytes.{Word256}
use poa_bridge.DataHash.{eth_data_hash}
use poa_bridge.LogStream
use poa_bridge.Database.{Database}
use poa_bridge.LogStream.{log_stream, Replies, LogStream, Log, LogStreamItem}
use poa_bridge.Message
use poa_bridge.Transaction.{Transaction, Signer}
use poa_bridge.Relay.Shared.{
  BridgeChecked, withdraw_confirm, Contracts, Shared, in_context, balance_required,
  call_transaction,
}

pub data WithdrawConfirmState : Type 0 where
  wait : WithdrawConfirmState
  confirm_withdraws : List Transaction → ℕ → WithdrawConfirmState
  yield : Option ℕ → WithdrawConfirmState

-- `relays` holds the answers of the collected futures of the transactions.
pub record WithdrawConfirm : Type 0 where
  pub state : WithdrawConfirmState
  pub logs : LogStream
  pub foreign_contract : List ℕ
  pub account : List ℕ
  pub gas : ℕ
  pub relays : Feed (List (List ℕ))

-- What the relay calls of other crates: the bindings, the words, the key store and the hash.
pub record Crates : Type 0 where
  pub contracts : Contracts
  pub words : Word256
  pub signer : Signer
  pub keccak : List ℕ → List ℕ
  pub info_enabled : Bool

module _ (crates : Crates) where
  open crates use {contracts, words, signer, keccak, info_enabled}

  unfoldable pub withdraw_submit_signature_payload : List ℕ × List ℕ → Result (List ℕ)
  withdraw_submit_signature_payload (message, signature) =
      if length message == message_length
      then ok (contracts.submit_signature_input signature message)
      else panic

  -- The closure logs the transaction hash, which it unwraps, before it parses the log: the arguments of
  -- `info!` are computed only where the logger lets the line through.
  unfoldable pub mined_message : Option (List ℕ) → Log → Result (List ℕ)
  mined_message none log =
      if info_enabled
      then panic
      else Message.from_log contracts.parse_withdraw log >>= Message.to_bytes words
  mined_message (some hash) log =
      Message.from_log contracts.parse_withdraw log >>= Message.to_bytes words

  unfoldable pub withdraw_message : Log → Result (List ℕ)
  unfolding mined_message
  withdraw_message log = mined_message log.transaction_hash log

  unfoldable pub sign_message : List ℕ → List ℕ → Result (List ℕ)
  sign_message account message = elim (signer.sign account (eth_data_hash keccak message)) [
    | inl e ↦ err (sign_error e)
    | inr signature ↦ ok signature
  ]

  unfoldable pub payloads_ready :
      ℕ
      → ℕ
      → WithdrawConfirm
      → Result (List (List ℕ))
      → Round WithdrawConfirm (Option BridgeChecked)
  payloads_ready gas_price block s (ok payloads) = again (record s {
    state =
        confirm_withdraws (map (call_transaction s.gas gas_price s.foreign_contract) payloads)
          block;
  })
  payloads_ready gas_price block s (err e) = done s (failed e)
  payloads_ready gas_price block s panic = done s panicked

  -- The check of the balance, once the messages are signed.
  unfoldable pub submissions :
      ℕ → ℕ → WithdrawConfirm → List (List ℕ) → List (List ℕ) → Result (List (List ℕ))
  submissions balance gas_price s messages signatures =
      if ltb balance (balance_required s.gas gas_price (length signatures))
      then err insufficient_funds
      else traverse withdraw_submit_signature_payload (zip messages signatures)

  unfoldable pub withdraw_payloads : ℕ → ℕ → WithdrawConfirm → List Log → Result (List (List ℕ))
  withdraw_payloads balance gas_price s logs = do
    messages ← traverse withdraw_message logs
    signatures ← traverse (sign_message s.account) messages
    submissions balance gas_price s messages signatures

  unfoldable pub withdraws_arrived :
      ℕ → ℕ → WithdrawConfirm → LogStreamItem → Round WithdrawConfirm (Option BridgeChecked)
  unfolding payloads_ready
  withdraws_arrived balance gas_price s item =
      payloads_ready gas_price item.to_block s (withdraw_payloads balance gas_price s item.logs)

  unfoldable pub wait_round :
      Option ℕ → ℕ → WithdrawConfirm → Round WithdrawConfirm (Option BridgeChecked)
  unfolding withdraws_arrived
  wait_round none gas_price s = done s not_ready
  wait_round (some balance) gas_price s =
      let (logs', p) = LogStream.poll s.logs in
      let s' = record s { logs = logs' } in
      try_stream (map_err (in_context "polling foreign for withdrawals") p) s'
        (withdraws_arrived balance gas_price s')

  unfoldable pub round_in :
      Shared → WithdrawConfirmState → WithdrawConfirm → Round WithdrawConfirm (Option BridgeChecked)
  unfolding wait_round
  round_in shared wait s = wait_round shared.balance shared.gas_price s
  round_in shared (confirm_withdraws txs block) s =
      let (p, rest) = poll_feed s.relays in
      let s' = record s { relays = rest } in
      try_ready (map_err (in_context "sending signature submissions to foreign") p) s'
        (λ _. again (record s' { state = yield (some block) }))
  round_in shared (yield none) s = again (record s { state = wait })
  round_in shared (yield (some block)) s =
      done (record s { state = yield none }) (ready (some (withdraw_confirm block)))

  unfoldable pub round : Shared → WithdrawConfirm → Round WithdrawConfirm (Option BridgeChecked)
  unfolding round_in
  round shared s = round_in shared s.state s

abbrev pub idle_rounds : WithdrawConfirmState → ℕ
idle_rounds (yield none) = 1
idle_rounds (yield (some block)) = 2
idle_rounds _ = 0

unfoldable pub budget : WithdrawConfirm → ℕ
budget s = 3 * (LogStream.budget s.logs + length s.relays) + idle_rounds s.state

unfoldable pub poll :
    Crates → Shared → WithdrawConfirm → WithdrawConfirm × Poll (Option BridgeChecked)
poll crates shared s = drive (round crates shared) (suc (budget s)) s

-- `confirmations`, `account` and `gas` are from the configuration; the feeds are what will be answered.
unfoldable pub create_withdraw_confirm :
    Database → ℕ → List ℕ → ℕ → Replies → Feed (List (List ℕ)) → WithdrawConfirm
create_withdraw_confirm init confirmations account gas replies relays = record {
  state = wait;
  logs =
      log_stream (record { after = init.checked_withdraw_confirm; confirmations = confirmations })
        replies;
  foreign_contract = init.foreign_contract_address;
  account = account;
  gas = gas;
  relays = relays;
}
