-- ===== src/Relay/Shared.antt =====
-- What the three relays share: bridge/src/bridge/mod.rs (`BridgeChecked`), the bindings that
-- `use_contract!` generates from the contracts' interfaces (bridge/src/contracts.rs), and the
-- transactions that they send.
use poa_bridge.Transaction.{call, Transaction}
use poa_bridge.Prelude.{ℕ, ◌*◌, String, Option, List}
use poa_bridge.Error.{Error, Result, contextualized_error}
use poa_bridge.Message.{WithdrawLog}

-- The last block that a relay has checked.
pub data BridgeChecked : Type 0 where
  deposit_relay : ℕ → BridgeChecked
  withdraw_relay : ℕ → BridgeChecked
  withdraw_confirm : ℕ → BridgeChecked

pub record DepositLog : Type 0 where
  pub recipient : List ℕ
  pub value : ℕ

pub record CollectedSignatures : Type 0 where
  pub authority_responsible_for_relay : List ℕ
  pub message_hash : List ℕ
  pub number_of_collected_signatures : ℕ

-- The generated bindings: parsers of the events, and inputs and outputs of the functions.
pub record Contracts : Type 0 where
  pub parse_deposit : List (List ℕ) → List ℕ → Result DepositLog
  pub parse_withdraw : List (List ℕ) → List ℕ → Result WithdrawLog
  pub parse_collected_signatures : List (List ℕ) → List ℕ → Result CollectedSignatures
  pub deposit_input : List ℕ → ℕ → List ℕ → List ℕ
  pub submit_signature_input : List ℕ → List ℕ → List ℕ
  pub message_input : List ℕ → List ℕ
  pub signature_input : List ℕ → ℕ → List ℕ
  pub message_output : List ℕ → Result (List ℕ)
  pub signature_output : List ℕ → Result (List ℕ)
  pub withdraw_input : List ℕ → List (List ℕ) → List (List ℕ) → List ℕ → List ℕ

-- The cells that the bridge shares with a relay: the balance of the account, once it is known, and
-- the current gas price.
pub record Shared : Type 0 where
  pub balance : Option ℕ
  pub gas_price : ℕ

abbrev pub in_context : String → Error → Error
in_context context e = contextualized_error e context

-- `gas * gas_price * U256::from(len)`.
abbrev pub balance_required : ℕ → ℕ → ℕ → ℕ
balance_required gas gas_price len = gas * gas_price * len

-- A call of a contract, before its nonce is known.
unfoldable pub call_transaction : ℕ → ℕ → List ℕ → List ℕ → Transaction
call_transaction gas gas_price contract payload = record {
  nonce = 0;
  gas_price = gas_price;
  gas = gas;
  action = call contract;
  value = 0;
  tx_data = payload;
}
