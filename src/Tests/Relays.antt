-- ===== src/Tests/Relays.antt =====
-- The theorems on the three relays at concrete inputs.
use poa_bridge.Prelude.{true}
use poa_bridge.Error.{ok}
use poa_bridge.LogStream.{LogStreamItem}
use poa_bridge.Relay.Shared.{CollectedSignatures}
use poa_bridge.Prelude.{ap, ◌≡◌, ◌≢◌, refl, [], ◌∷◌, some, arith, length, ◌++◌}
use poa_bridge.Futures.{ready}
use poa_bridge.Relay.Deposit.{DepositRelay}
use poa_bridge.Relay.Confirm.{Crates, WithdrawConfirm}
use poa_bridge.Relay.Withdraw.{range_from, WithdrawRelay, signatures_payload}
use poa_bridge.Relay.Deposit
use poa_bridge.Relay.Deposit.Funds.{deposit_poll-Funded, Funded}
use poa_bridge.Relay.Confirm
use poa_bridge.Relay.Withdraw
use poa_bridge.Relay.Withdraw.Assignments.{signatures_payload-own}
use poa_bridge.Tests.BigEndian.{big_endian}
use poa_bridge.Tests.Samples.{account, hash, signer, contracts, log, logs, shared}

abbrev item : LogStreamItem
item = record { from_block = 11; to_block = 13; logs = log ∷ [] }

abbrev deposit : DepositRelay
deposit = record {
  state = Deposit.wait;
  logs = logs;
  foreign_contract = account;
  gas = 21;
  relays = ready (hash ∷ []) ∷ [];
}

deposit_poll-Funded_example :
    Funded contracts (some 100) (Deposit.poll contracts shared deposit).0.state
deposit_poll-Funded_example = deposit_poll-Funded contracts shared deposit tt

abbrev crates : Confirm.Crates
crates = record {
  contracts = contracts;
  words = big_endian;
  info_enabled = true;
  signer = signer;
  keccak = λ bytes. hash;
}

abbrev confirm : WithdrawConfirm
confirm = record {
  state = Confirm.wait;
  logs = logs;
  foreign_contract = account;
  account = account;
  gas = 21;
  relays = ready (hash ∷ []) ∷ [];
}

abbrev withdraw_crates : Withdraw.Crates
withdraw_crates = record { contracts = contracts; words = big_endian; info_enabled = true }

abbrev withdraw : WithdrawRelay
withdraw = record {
  state = Withdraw.wait;
  logs = logs;
  home_contract = hash;
  foreign_contract = account;
  foreign_account = account;
  gas = 21;
  fetches = [];
  relays = ready (hash ∷ []) ∷ [];
}

abbrev collected : CollectedSignatures
collected = record {
  authority_responsible_for_relay = account;
  message_hash = hash;
  number_of_collected_signatures = 2;
}

signatures_payload-own_example :
    signatures_payload withdraw_crates account log
    ≡ ok (
        some (record {
          signature_payloads = (0 ∷ hash) ∷ (1 ∷ hash) ∷ [];
          message_payload = (1 ∷ 2 ∷ 3 ∷ 4 ∷ []) ++ hash;
        }))
unfolding Withdraw.range_from
signatures_payload-own_example =
    signatures_payload-own withdraw_crates (λ word h. (1 ∷ 2 ∷ 3 ∷ 4 ∷ [], refl, refl)) account log
      collected refl refl (omega arith)

other_account : account ≢ hash
other_account e = omega (arith, ap length e)
