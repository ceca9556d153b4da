-- ===== src/Message.antt =====
-- bridge/src/message_to_mainnet.rs: the message that the validators sign and relay.
pub mod RoundTrip
use poa_bridge.Prelude.{ℕ, List, none, some, length, replicate, ◌==◌, if◌then◌else◌}
use poa_bridge.Error.{◌>>=◌, Result, ok, err, panic, message_error}
use poa_bridge.Bytes.{Abi, Word256, slice, copy_into}
use poa_bridge.LogStream.{Log}

-- An address is 20 bytes, a hash 32; `value` and `mainnet_gas_price` are `U256`.
pub record MessageToMainnet : Type 0 where
  pub recipient : List ℕ
  pub value : ℕ
  pub sidenet_transaction_hash : List ℕ
  pub mainnet_gas_price : ℕ

abbrev pub message_length : ℕ
message_length = 116

-- The fields of a `Withdraw` event, as the generated contract binding parses them.
pub record WithdrawLog : Type 0 where
  pub recipient : List ℕ
  pub value : ℕ
  pub home_gas_price : ℕ

module _ (w : Word256) where
  unfoldable pub from_bytes : List ℕ → Result MessageToMainnet
  from_bytes bytes =
      if length bytes == message_length
      then (do
        recipient ← slice bytes 0 20
        value ← slice bytes 20 52
        hash ← slice bytes 52 84
        price ← slice bytes 84 message_length
        ok (record {
          recipient = recipient;
          value = w.from_h256 value;
          sidenet_transaction_hash = hash;
          mainnet_gas_price = w.from_h256 price;
        }))
      else panic

  unfoldable pub to_bytes : MessageToMainnet → Result (List ℕ)
  to_bytes m = do
    let blank = replicate message_length 0
    a ← copy_into blank 0 20 m.recipient
    b ← copy_into a 20 52 (w.to_h256 m.value)
    c ← copy_into b 52 84 m.sidenet_transaction_hash
    copy_into c 84 message_length (w.to_h256 m.mainnet_gas_price)

-- `to_payload`.
unfoldable pub to_payload : Word256 → Abi → MessageToMainnet → Result (List ℕ)
unfolding to_bytes
to_payload w abi m = do bytes ← to_bytes w m; ok (abi.encode_bytes bytes)

-- `parse_log` is the generated binding of the contract's event.
module _ (parse_withdraw : List (List ℕ) → List ℕ → Result WithdrawLog) where
  unfoldable pub from_log : Log → Result MessageToMainnet
  from_log log = do
    withdraw ← parse_withdraw log.topics log.log_data
    hash ← elim (log.transaction_hash) [
      | some h ↦ ok h
      | none ↦ err (message_error "`log` must be mined and contain `transaction_hash`")
    ]
    ok (record {
      recipient = withdraw.recipient;
      value = withdraw.value;
      sidenet_transaction_hash = hash;
      mainnet_gas_price = withdraw.home_gas_price;
    })
