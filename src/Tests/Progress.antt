-- ===== src/Tests/Progress.antt =====
-- The theorems on what is served, deployed and reported at concrete inputs.
use poa_bridge.Prelude.{replicate, ℕ, ◌≡◌, refl, ◌↔◌, inl, List, [], ◌∷◌, none, some, arith}
use poa_bridge.Database.{open_refused}
use poa_bridge.Deploy
use poa_bridge.Deploy.{Deploy, TransactionReceipt, deploying, ignored_receipt}
use poa_bridge.Deploy.Ignored.{deploy_poll_ignored}
use poa_bridge.Error.{Error, ok, contextualized_error, shutdown_requested, not_found, traverse}
use poa_bridge.ExitCode.{user_facing, root_cause, err_shutdown_requested}
use poa_bridge.ExitCode.Causes.{user_facing_shutdown}
use poa_bridge.Filter.{trim_filter1}
use poa_bridge.Filter.Reference.{trimmed, trim_filter1-trimmed}
use poa_bridge.Futures.{drive, ready, panicked}
use poa_bridge.LogStream.Progress.{waiting, has_served}
use poa_bridge.Message
use poa_bridge.Message.{MessageToMainnet}
use poa_bridge.Message.RoundTrip.{IsMessage, from_bytes-IsMessage}
use poa_bridge.Relay.Deposit
use poa_bridge.Relay.Deposit.{wait, yield, deposit_relay_payload}
use poa_bridge.Relay.Deposit.Delivers.{in_state, shared, deposit_poll_delivers}
use poa_bridge.Relay.Shared.{deposit_relay, Shared}
use poa_bridge.Relay.Deposit.{DepositRelay}
use poa_bridge.Relay.Withdraw
use poa_bridge.Relay.Withdraw.{WithdrawRelay, signatures_payload, range_from, same_bytes}
use poa_bridge.Relay.Withdraw.Once.{withdraws-Delivers}
use poa_bridge.Relay.Withdraw.Sends.{Sends, asked}
use poa_bridge.Request.{call_contract}
use poa_bridge.Relay.Merged.{withdraw_crates}
use poa_bridge.LogStream
use poa_bridge.LogStream.{block_number_arrived}
use poa_bridge.Relay.Sent.{relayed, Delivers, Pays}
use poa_bridge.Relay.Confirm
use poa_bridge.Relay.Confirm.{WithdrawConfirm}
use poa_bridge.Relay.Confirm.Submitted.{submitted}
use poa_bridge.Relay.Confirm.Once.{confirms-Delivers}
use poa_bridge.Tests.Process.{relay_crates}
use poa_bridge.Relay.Deposit.Once.{deposits-Delivers}
use poa_bridge.Tests.BigEndian.{big_endian}
use poa_bridge.Tests.Codecs.{topics, some_bytes, AreBytes-replicate}
use poa_bridge.Tests.Samples.{account, hash, contracts, log, replies, toml, transaction}
use poa_bridge.Tests.Streams.{creation}

abbrev payload : List ℕ
payload = contracts.deposit_input account 5 hash

-- The node has mined 11 blocks, then 12, then 15; two confirmations are required.
abbrev cells : Shared
cells = shared 100 2

abbrev relay : DepositRelay
relay =
    in_state account 21 wait (waiting 10 2 (11 ∷ 12 ∷ []) 15 (log ∷ []) replies)
      (ready (hash ∷ []) ∷ [])

deposit_poll_delivers_example :
    Deposit.poll contracts (shared 100 2) (
      in_state account 21 wait
        (waiting 10 2 (11 ∷ 12 ∷ []) 15 (log ∷ []) replies)
        (ready (hash ∷ []) ∷ []))
    ≡ (
      in_state account 21 (yield none) (has_served 10 2 15 replies) [],
      ready (some (deposit_relay 13)),
    )
unfolding traverse deposit_relay_payload
deposit_poll_delivers_example =
    deposit_poll_delivers contracts 100 2 account 21 10 2 (11 ∷ 12 ∷ []) 15 (log ∷ []) replies
      (payload ∷ []) (hash ∷ []) [] (omega arith, (omega arith, tt)) (omega arith) (omega arith)
      refl

-- Reading the first range, relaying, reporting, and a second range that needs other answers.
deposits-Delivers_example :
    Delivers (Pays relay.foreign_contract relay.gas (deposit_relay_payload contracts)) 10 (
      relayed Deposit.Once.state_of Deposit.Once.started_in
        (Deposit.round contracts)
        Deposit.Once.taken
        (cells ∷ cells ∷ cells ∷ cells ∷ cells ∷ [])
        relay)
deposits-Delivers_example =
    deposits-Delivers contracts (cells ∷ cells ∷ cells ∷ cells ∷ cells ∷ []) relay tt

abbrev confirm : WithdrawConfirm
confirm = record {
  state = Confirm.wait;
  logs = waiting 10 2 (11 ∷ []) 15 (log ∷ []) replies;
  foreign_contract = account;
  account = account;
  gas = 21;
  relays = ready (hash ∷ []) ∷ [];
}

confirms-Delivers_example : Delivers (Pays account 21 (submitted relay_crates account)) 10 (
    relayed Confirm.Once.state_of Confirm.Once.started_in
      (Confirm.round relay_crates)
      Confirm.Once.taken
      (cells ∷ cells ∷ cells ∷ cells ∷ cells ∷ [])
      confirm)
confirms-Delivers_example =
    confirms-Delivers relay_crates account (cells ∷ cells ∷ cells ∷ cells ∷ cells ∷ []) confirm tt
      refl

-- One withdrawal of this authority: its message and two signatures are fetched.
abbrev withdraw : WithdrawRelay
withdraw = record {
  state = Withdraw.wait;
  logs = waiting 10 2 (11 ∷ []) 15 (log ∷ []) replies;
  home_contract = hash;
  foreign_contract = account;
  foreign_account = account;
  gas = 21;
  fetches = ready (some_bytes ∷ [], (replicate 65 8 ∷ replicate 65 9 ∷ []) ∷ []) ∷ [];
  relays = ready (hash ∷ []) ∷ [];
}

withdraws-Delivers_example :
    Delivers (Sends (withdraw_crates relay_crates) account account hash 21) 10 (
      relayed Withdraw.Once.state_of Withdraw.Once.started_in
        (Withdraw.round (withdraw_crates relay_crates))
        Withdraw.Once.taken
        (cells ∷ cells ∷ cells ∷ cells ∷ cells ∷ [])
        withdraw)
withdraws-Delivers_example =
    withdraws-Delivers (withdraw_crates relay_crates) account
      (cells ∷ cells ∷ cells ∷ cells ∷ cells ∷ []) withdraw tt refl

-- The call for the message, and those for the two signatures.
withdraw_asks :
    asked (
      (relayed Withdraw.Once.state_of Withdraw.Once.started_in
        (Withdraw.round (withdraw_crates relay_crates))
        Withdraw.Once.taken
        (cells ∷ cells ∷ cells ∷ cells ∷ cells ∷ [])
        withdraw).1)
    ≡ (
      call_contract account (1 ∷ 2 ∷ 3 ∷ 4 ∷ hash),
      call_contract account (0 ∷ hash) ∷ call_contract account (1 ∷ hash) ∷ [],
    )
      ∷ []
unfolding relayed Withdraw.round LogStream.poll drive LogStream.round block_number_arrived traverse
    signatures_payload Withdraw.relay_assignment same_bytes Withdraw.assigned range_from
    Withdraw.withdraw_transactions LogStream.budget Withdraw.decode_signature
    poa_bridge.Signature.from_bytes poa_bridge.Bytes.index poa_bridge.Bytes.slice
    Withdraw.withdraw_transaction Message.from_bytes
withdraw_asks = refl

trim_filter1-trimmed_example : trim_filter1 topics ≡ trimmed topics
trim_filter1-trimmed_example = trim_filter1-trimmed topics

from_bytes-IsMessage_example :
    (m : MessageToMainnet) × (Message.from_bytes big_endian some_bytes ≡ ok m) × IsMessage m
from_bytes-IsMessage_example =
    from_bytes-IsMessage big_endian some_bytes refl (AreBytes-replicate 116)

abbrev stopped : Error
stopped = contextualized_error shutdown_requested "deposit_relay"

user_facing_shutdown_example :
    ((user_facing stopped).exit_code ≡ err_shutdown_requested)
    ↔ (root_cause stopped ≡ shutdown_requested)
user_facing_shutdown_example = user_facing_shutdown stopped

abbrev receipt : TransactionReceipt
receipt = record { contract_address = some account; block_number = 7 }

abbrev deployment : Deploy
deployment = record {
  state = deploying transaction transaction;
  database_path = "db.toml";
  database_file = open_refused not_found;
  home = creation;
  foreign = creation;
  receipts = ready (ignored_receipt hash, receipt) ∷ [];
}

deploy_poll_ignored_example :
    Deploy.poll toml deployment ≡ (record deployment { receipts = [] }, panicked)
deploy_poll_ignored_example =
    deploy_poll_ignored toml deployment transaction transaction hash (ignored_receipt hash, receipt)
      [] refl refl (inl refl)
