-- ===== src/Tests/Samples.antt =====
-- The parameters of the model at small concrete functions, and a few states.
use poa_bridge.Transaction.{Signer, Transaction}
use poa_bridge.Prelude.{
  ℕ, zero, suc, ◌≡◌, refl, Option, none, some, List, [], ◌∷◌, ◌++◌, take, drop, length, replicate,
  take-append, drop-append,
}
use poa_bridge.Error.{ok, RpcError, server_error}
use poa_bridge.Futures.{ready}
use mathlib.Core.Logic.{inr}
use poa_bridge.Prelude.Int.{negsuc}
use poa_bridge.Relay.Shared.{Contracts, Shared, call_transaction}
use poa_bridge.LogStream.{Log, LogStream, Replies, wait}
use poa_bridge.Database.{Database, Toml}
use poa_bridge.Message.{MessageToMainnet}

abbrev pub account : List ℕ
account = replicate 20 1

abbrev pub hash : List ℕ
hash = replicate 32 7

abbrev pub signer : Signer
signer = record {
  tx_hash = λ tx chain_id. tx.nonce ∷ chain_id ∷ [];
  sign = λ who digest. inr (who ++ digest);
  encode = λ tx signature chain_id. some (tx.nonce ∷ chain_id ∷ signature);
}

abbrev pub message : MessageToMainnet
message = record {
  recipient = replicate 20 3;
  value = 5;
  sidenet_transaction_hash = hash;
  mainnet_gas_price = 1_000;
}

abbrev pub contracts : Contracts
contracts = record {
  parse_deposit = λ topics bytes. ok (record { recipient = account; value = 5 });
  parse_withdraw =
      λ topics bytes. ok (record { recipient = replicate 20 3; value = 5; home_gas_price = 1_000 });
  parse_collected_signatures = λ topics bytes. ok (record {
    authority_responsible_for_relay = account;
    message_hash = hash;
    number_of_collected_signatures = 2;
  });
  deposit_input = λ recipient value digest. recipient ++ value ∷ digest;
  submit_signature_input = λ signature bytes. signature ++ bytes;
  message_input = λ word. (1 ∷ 2 ∷ 3 ∷ 4 ∷ []) ++ word;
  signature_input = λ word index. index ∷ word;
  message_output = λ bytes. ok bytes;
  signature_output = λ bytes. ok bytes;
  withdraw_input = λ vs rs ss bytes. vs ++ bytes;
}

abbrev pub log : Log
log = record { topics = []; log_data = []; transaction_hash = some hash }

-- A node that has mined 15 blocks, and 20 at the next request.
abbrev pub replies : Replies
replies = record {
  ticks = ready (some tt) ∷ ready (some tt) ∷ [];
  block_numbers = ready 15 ∷ ready 20 ∷ [];
  fetched_logs = ready (log ∷ []) ∷ ready [] ∷ [];
}

-- From block 10 on, with two confirmations.
abbrev pub logs : LogStream
logs = record { state = wait; after = 10; confirmations = 2; replies = replies }

abbrev pub shared : Shared
shared = record { balance = some 100; gas_price = 2 }

-- A call before its nonce is known.
abbrev pub transaction : Transaction
transaction = call_transaction 21 2 account (9 ∷ [])

abbrev pub nonce_error : RpcError
nonce_error = record {
  error_code = server_error (negsuc 32009);
  message = "Transaction nonce is too low. Try incrementing the nonce.";
}

abbrev pub imported_error : RpcError
imported_error = record {
  error_code = server_error (negsuc 32009);
  message = "Transaction with the same hash was already imported.";
}

abbrev pub another_error : RpcError
another_error = record {
  error_code = server_error (negsuc 32009);
  message = "Transaction gas price is too low. There is another transaction with same nonce.";
}

abbrev option_text : Option ℕ → ℕ
option_text none = 0
option_text (some n) = suc n

abbrev option_of : ℕ → Option ℕ
option_of zero = none
option_of (suc n) = some n

-- A text of numbers: the fields of fixed length, the length of the first address, the addresses.
abbrev text_of : Database → List ℕ
text_of db =
    db.checked_deposit_relay
    ∷ db.checked_withdraw_relay
    ∷ db.checked_withdraw_confirm
    ∷ option_text db.home_deploy
    ∷ option_text db.foreign_deploy
    ∷ length db.home_contract_address
    ∷ (db.home_contract_address ++ db.foreign_contract_address)

abbrev database_of : List ℕ → Option Database
database_of (a ∷ b ∷ c ∷ h ∷ f ∷ n ∷ addresses) = some (record {
  home_contract_address = take n addresses;
  foreign_contract_address = drop n addresses;
  home_deploy = option_of h;
  foreign_deploy = option_of f;
  checked_deposit_relay = a;
  checked_withdraw_relay = b;
  checked_withdraw_confirm = c;
})
database_of _ = none

option_of-option_text : (o : Option ℕ) → option_of (option_text o) ≡ o
option_of-option_text none = refl
option_of-option_text (some n) = refl

pub database_of-text_of : (db : Database) → database_of (text_of db) ≡ some db
database_of-text_of db =
    let h = db.home_contract_address in
    let f = db.foreign_contract_address in
    rw
      (
        take-append (length h) h f refl,
        drop-append (length h) h f refl,
        option_of-option_text db.home_deploy,
        option_of-option_text db.foreign_deploy,
      )
      refl

abbrev pub toml : Toml
toml = record {
  to_string = text_of;
  from_str = database_of;
  from_str-to_string = database_of-text_of;
}

abbrev pub database : Database
database = record {
  home_contract_address = account;
  foreign_contract_address = hash;
  home_deploy = some 3;
  foreign_deploy = none;
  checked_deposit_relay = 10;
  checked_withdraw_relay = 20;
  checked_withdraw_confirm = 30;
}
