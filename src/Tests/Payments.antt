-- ===== src/Tests/Payments.antt =====
-- The theorems on what the withdrawals' relays send, at one message.
use poa_bridge.Prelude.{true}
use poa_bridge.LogStream.{LogStreamItem}
use poa_bridge.Signature.{from_bytes, to_bytes, Signature}
use poa_bridge.Relay.Confirm.{
  submissions, withdraw_submit_signature_payload, withdraw_message, sign_message, withdraw_payloads,
  withdraws_arrived, Crates, confirm_withdraws, WithdrawConfirm,
}
use poa_bridge.Relay.Shared.{balance_required, call_transaction}
use poa_bridge.Message.{from_log}
use poa_bridge.Relay.Withdraw.{
  withdraw_transaction, WithdrawRelay, withdraw_transactions, decode_signature,
}
use poa_bridge.Prelude.{◌≡◌, refl, List, ℕ, [], ◌∷◌, ◌++◌, replicate, arith, ◌<◌, ◌≤◌, length}
use poa_bridge.Error.{ok, traverse}
use poa_bridge.Futures.{again}
use poa_bridge.Message
use poa_bridge.Relay.Confirm
use poa_bridge.Relay.Confirm.Submits.{Submits, withdraws_arrived-Submits}
use poa_bridge.Relay.Withdraw
use poa_bridge.Relay.Withdraw.Relays.{
  withdraw_transactions-PaysAsked, PaysAsked, withdraw_transactions_overdraw,
}
use poa_bridge.Relay.Fees.{total_fee}
use poa_bridge.Transaction.{Transaction}
use poa_bridge.Tests.BigEndian.{big_endian}
use poa_bridge.Tests.Samples.{account, hash, signer, contracts, log, logs, message}

abbrev item : LogStreamItem
item = record { from_block = 11; to_block = 13; logs = log ∷ [] }

abbrev crates : Confirm.Crates
crates = record {
  contracts = contracts;
  words = big_endian;
  info_enabled = true;
  signer = signer;
  keccak = λ bytes. hash;
}

abbrev confirm : WithdrawConfirm
confirm = record {
  state = Confirm.wait;
  logs = logs;
  foreign_contract = account;
  account = account;
  gas = 21;
  relays = [];
}

-- The message: recipient, value 5, hash, gas price 1000.
abbrev message_bytes : List ℕ
message_bytes =
    replicate 20 3 ++ (replicate 31 0 ++ 5 ∷ []) ++ hash ++ (replicate 30 0 ++ 3 ∷ 232 ∷ [])

abbrev confirm_next : WithdrawConfirm
confirm_next = record confirm {
  state =
      Confirm.confirm_withdraws
        (call_transaction 21 2 account ((account ++ hash) ++ message_bytes) ∷ []) 13;
}

confirm_goes_on : Confirm.withdraws_arrived crates 100 2 confirm item ≡ again confirm_next
unfolding Confirm.withdraws_arrived Confirm.withdraw_payloads traverse Confirm.withdraw_message
    Message.from_log Message.to_bytes poa_bridge.Bytes.copy_into Confirm.sign_message
    Confirm.submissions Confirm.withdraw_submit_signature_payload poa_bridge.DataHash.eth_data_hash
confirm_goes_on = refl

withdraws_arrived-Submits_example : Submits crates 100 2 confirm (log ∷ []) confirm_next.state
withdraws_arrived-Submits_example =
    withdraws_arrived-Submits crates 100 2 confirm confirm_next item confirm_goes_on

abbrev withdraw_crates : Withdraw.Crates
withdraw_crates = record { contracts = contracts; words = big_endian; info_enabled = true }

abbrev withdraw : WithdrawRelay
withdraw = record {
  state = Withdraw.wait;
  logs = logs;
  home_contract = hash;
  foreign_contract = account;
  foreign_account = account;
  gas = 21;
  fetches = [];
  relays = [];
}

abbrev signature : Signature
signature = record { v = 27; r = replicate 32 8; s = replicate 32 9 }

abbrev signature_bytes : List ℕ
signature_bytes = replicate 32 8 ++ replicate 32 9 ++ 27 ∷ []

abbrev relayed : Transaction
relayed = call_transaction 21 1_000 hash (27 ∷ message_bytes)

relays_one :
    withdraw_transactions withdraw_crates 100 2 withdraw
      (message_bytes ∷ [])
      ((signature_bytes ∷ []) ∷ [])
    ≡ ok (relayed ∷ [])
unfolding withdraw_transactions traverse decode_signature poa_bridge.Signature.from_bytes
    poa_bridge.Bytes.index poa_bridge.Bytes.slice Withdraw.withdraw_transaction Message.from_bytes
relays_one = refl

withdraw_transactions-PaysAsked_example :
    (messages : List (List ℕ)) × (traverse contracts.message_output (message_bytes ∷ [])
      ≡ ok messages)
    × (length messages ≡ 1)
    × PaysAsked withdraw_crates withdraw messages (relayed ∷ [])
    × (balance_required 21 2 1 ≤ 100)
withdraw_transactions-PaysAsked_example =
    withdraw_transactions-PaysAsked withdraw_crates 100 2 withdraw (message_bytes ∷ [])
      ((signature_bytes ∷ []) ∷ []) (relayed ∷ []) relays_one

message_read : Message.from_bytes big_endian message_bytes ≡ ok message
unfolding Message.from_bytes poa_bridge.Bytes.slice
message_read = refl

signature_read :
    traverse (decode_signature withdraw_crates) (signature_bytes ∷ []) ≡ ok (signature ∷ [])
unfolding traverse decode_signature poa_bridge.Signature.from_bytes poa_bridge.Bytes.index
    poa_bridge.Bytes.slice
signature_read = refl

withdraw_transactions_overdraw_example :
    (tx : Transaction) × (withdraw_transactions withdraw_crates 100 2 withdraw
        (message_bytes ∷ [])
        ((signature_bytes ∷ []) ∷ [])
      ≡ ok (tx ∷ []))
    × (100 < total_fee (tx ∷ []))
withdraw_transactions_overdraw_example =
    withdraw_transactions_overdraw withdraw_crates 100 2 withdraw message_bytes message_bytes
      (signature_bytes ∷ []) (signature ∷ []) message refl message_read signature_read (omega arith)
      (omega arith)
