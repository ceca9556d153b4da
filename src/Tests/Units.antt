-- ===== src/Tests/Units.antt =====
-- The unit tests of bridge/src/bridge/deposit_relay.rs and bridge/src/bridge/withdraw_relay.rs, run on the
-- model. The bindings of the contracts are those of the two contracts' interfaces in the layout of the
-- ABI: words of 32 bytes, after a selector where they are the input of a call.
use poa_bridge.Relay.Withdraw.Assignments.{EncodesWord}
use poa_bridge.Bytes.{Abi}
use poa_bridge.Quickcheck.{
  passed, discarded, quickcheck_signature_roundtrips,
  quickcheck_message_to_mainnet_roundtrips_to_bytes,
}
use poa_bridge.Error.{Result, ok, err, message_error}
use poa_bridge.LogStream.{Log}
use poa_bridge.Prelude.{
  ℕ, ◌+◌, ◌-◌, ◌*◌, ◌≡◌, refl, Bool, true, false, Option, none, some, List, [], ◌∷◌, ◌++◌, String,
  codes, length, take, drop, replicate, leb, ◌==◌, if◌then◌else◌, ◌&&◌,
}
use poa_bridge.Relay.Deposit.{deposit_relay_payload}
use poa_bridge.Relay.Shared.{Contracts}
use poa_bridge.Relay.Withdraw
use poa_bridge.Relay.Withdraw.{RelayAssignment, signatures_payload, same_bytes}
use poa_bridge.Tests.BigEndian.{big_endian}
use poa_bridge.Tests.Samples

-- `FromHex`, of texts of digits and small letters of even length.
abbrev digit : ℕ → ℕ
digit c = if leb b'a' c then c - 87 else c - 48

abbrev pairs : List ℕ → List ℕ
pairs [] = []
pairs (c ∷ []) = []
pairs (c ∷ d ∷ cs) = (16 * digit c + digit d) ∷ pairs cs

abbrev pub from_hex : String → List ℕ
from_hex text = pairs (codes text)

-- The word at an index, and an address in a word.
abbrev word_at : ℕ → List ℕ → List ℕ
word_at n bytes = take 32 (drop (32 * n) bytes)

abbrev address_at : ℕ → List ℕ → List ℕ
address_at n bytes = drop 12 (word_at n bytes)

abbrev word : ℕ → List ℕ
word n = big_endian.to_h256 n

abbrev malformed : {A : Type 0} → Result A
malformed = err (message_error "Invalid data")

abbrev contracts : Contracts
contracts = record Samples.contracts {
  parse_deposit = λ topics bytes.
      (if length bytes == 64
        then ok (record {
          recipient = address_at 0 bytes;
          value = big_endian.from_h256 (word_at 1 bytes);
        })
        else malformed);
  parse_collected_signatures = λ topics bytes.
      (if length bytes == 96
        then ok (record {
          authority_responsible_for_relay = address_at 0 bytes;
          message_hash = word_at 1 bytes;
          number_of_collected_signatures = big_endian.from_h256 (word_at 2 bytes);
        })
        else malformed);
  deposit_input = λ recipient value hash.
      from_hex "26b3293f" ++ (replicate 12 0 ++ (recipient ++ (word value ++ hash)));
  message_input = λ hash. from_hex "490a32c6" ++ hash;
  signature_input = λ hash index. from_hex "1812d996" ++ (hash ++ word index);
}

-- `deposit_relay_payload` in the test of the deposit relay.
abbrev payload_is : List ℕ → Result (List ℕ) → Bool
payload_is expected (ok payload) = same_bytes expected payload
payload_is expected _ = false

test_deposit_relay_payload : Bool
test_deposit_relay_payload =
    let log : Log = record {
      topics = from_hex "e1fffcc4923d04b559f4d29a8bfc6cda04eb5b0d3c460751c2402c5c5cc9109c" ∷ [];
      log_data =
          from_hex
            "000000000000000000000000aff3454fce5edbc8cca8697c15331677e6ebcccc00000000000000000000000000000000000000000000000000000000000000f0";
      transaction_hash =
          some (from_hex "884edad9ce6fa2440d8a54cc123490eb96d2768479d49ff9c7366125a9424364");
    } in
    payload_is
      (from_hex
        "26b3293f000000000000000000000000aff3454fce5edbc8cca8697c15331677e6ebcccc00000000000000000000000000000000000000000000000000000000000000f0884edad9ce6fa2440d8a54cc123490eb96d2768479d49ff9c7366125a9424364")
      (deposit_relay_payload contracts log)

deposit_relay_payload_passes : test_deposit_relay_payload ≡ true
unfolding test_deposit_relay_payload deposit_relay_payload same_bytes
deposit_relay_payload_passes = refl

-- The log of both tests of the withdraw relay: two signatures are collected.
abbrev collected_log : Log
collected_log = record {
  topics = from_hex "415557404d88a0c0b8e3b16967cafffc511213fd9c465c16832ee17ed57d7237" ∷ [];
  log_data =
      from_hex
        "000000000000000000000000aff3454fce5edbc8cca8697c15331677e6ebcccc00000000000000000000000000000000000000000000000000000000000000f00000000000000000000000000000000000000000000000000000000000000002";
  transaction_hash =
      some (from_hex "884edad9ce6fa2440d8a54cc123490eb96d2768479d49ff9c7366125a9424364");
}

abbrev crates : Withdraw.Crates
crates = record { contracts = contracts; words = big_endian; info_enabled = true }

abbrev all_same : List (List ℕ) → List (List ℕ) → Bool
all_same [] [] = true
all_same (x ∷ xs) (y ∷ ys) = same_bytes x y && all_same xs ys
all_same _ _ = false

abbrev assignment_is : List ℕ → List (List ℕ) → Result (Option RelayAssignment) → Bool
assignment_is message signatures (ok (some a)) =
    same_bytes message a.message_payload && all_same signatures a.signature_payloads
assignment_is message signatures _ = false

test_signatures_payload : Bool
test_signatures_payload =
    let my_address = from_hex "aff3454fce5edbc8cca8697c15331677e6ebcccc" in
    let expected_message =
      from_hex "490a32c600000000000000000000000000000000000000000000000000000000000000f0" in
    let expected_signatures =
      from_hex
        "1812d99600000000000000000000000000000000000000000000000000000000000000f00000000000000000000000000000000000000000000000000000000000000000"
      ∷ from_hex
          "1812d99600000000000000000000000000000000000000000000000000000000000000f00000000000000000000000000000000000000000000000000000000000000001"
      ∷ [] in
    assignment_is expected_message expected_signatures
      (signatures_payload crates my_address collected_log)

signatures_payload_passes : test_signatures_payload ≡ true
unfolding test_signatures_payload signatures_payload same_bytes Withdraw.relay_assignment
    Withdraw.range_from
signatures_payload_passes = refl

abbrev is_none : Result (Option RelayAssignment) → Bool
is_none (ok none) = true
is_none _ = false

test_signatures_payload_not_ours : Bool
test_signatures_payload_not_ours =
    let my_address = from_hex "aff3454fce5edbc8cca8697c15331677e6ebcccd" in
    is_none (signatures_payload crates my_address collected_log)

signatures_payload_not_ours_passes : test_signatures_payload_not_ours ≡ true
unfolding test_signatures_payload_not_ours signatures_payload same_bytes Withdraw.other_authority
signatures_payload_not_ours_passes = refl

-- The calls of these bindings are what the withdraw relay relies on: a selector and the word.
encodes_word : EncodesWord crates
encodes_word bytes h = (from_hex "490a32c6", refl, refl)

abbrev abi : Abi
abi = record {
  encode_bytes = λ bytes. bytes;
  decode_bytes = λ bytes. some bytes;
  decode_bytes-encode_bytes = λ bytes. refl;
}

-- The properties of the other two files at one input each, and at a hash that is too short.
quickcheck_passes :
    (quickcheck_message_to_mainnet_roundtrips_to_bytes abi big_endian
        (replicate 20 3)
        5
        (replicate 32 7)
        1_000
      ≡ passed)
    × (quickcheck_signature_roundtrips abi 27 (replicate 32 8) (replicate 32 9) ≡ passed)
    × (quickcheck_signature_roundtrips abi 27 (replicate 31 8) (replicate 32 9) ≡ discarded)
unfolding quickcheck_signature_roundtrips quickcheck_message_to_mainnet_roundtrips_to_bytes
    poa_bridge.Message.to_bytes poa_bridge.Bytes.copy_into poa_bridge.Message.from_bytes
    poa_bridge.Bytes.slice same_bytes poa_bridge.Message.to_payload poa_bridge.Signature.to_bytes
    poa_bridge.Bytes.assign poa_bridge.Signature.from_bytes poa_bridge.Bytes.index
    poa_bridge.Signature.to_payload
quickcheck_passes = (refl, refl, refl)
