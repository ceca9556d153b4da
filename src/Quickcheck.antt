-- ===== src/Quickcheck.antt =====
-- The properties that the tests of bridge/src/message_to_mainnet.rs and bridge/src/signature.rs give to
-- the quickcheck crate, which tries them at random inputs.
use poa_bridge.Signature.RoundTrip.{IsSignature, sig_from_bytes-to_bytes}
use poa_bridge.Message.RoundTrip.{IsMessage, from_bytes-to_bytes}
use poa_bridge.Bytes.{Abi, Word256}
use poa_bridge.Error.{>>=-eq-ok, Result, ok, err, panic, ◌>>=◌}
use poa_bridge.Message
use poa_bridge.Message.{MessageToMainnet}
use poa_bridge.Prelude.{
  arith, ◌≢◌, ◌<◌, ◌^◌, inl, inr, Bool-cases, ℕ, ◌≡◌, refl, Bool, true, false, ◌&&◌, List, Option,
  some, none, length, ◌==◌, ==_iff, if◌then◌else◌,
}
use poa_bridge.Relay.Withdraw.{same_bytes}
use poa_bridge.Relay.Withdraw.Assignments.{same_bytes_iff}
use poa_bridge.Signature
use poa_bridge.Signature.{Signature}

pub data TestResult : Type 0 where
  passed discarded failed : TestResult

-- A panic and an error that is unwrapped fail the test.
unfoldable pub tested : Result (Unit {0}) → TestResult
tested (ok done) = passed
tested (err e) = failed
tested panic = failed

abbrev pub assert : Bool → Result (Unit {0})
assert true = ok tt
assert false = panic

-- `unwrap` of the decoded token.
abbrev pub unwrapped : Option (List ℕ) → Result (List ℕ)
unwrapped (some bytes) = ok bytes
unwrapped none = panic

-- The derived equality of signatures, and of messages.
unfoldable pub same_signature : Signature → Signature → Bool
same_signature g h = g.v == h.v && (same_bytes g.r h.r && same_bytes g.s h.s)

unfoldable pub same_message : MessageToMainnet → MessageToMainnet → Bool
same_message m n =
    same_bytes m.recipient n.recipient
    && (m.value == n.value
        && (same_bytes m.sidenet_transaction_hash n.sidenet_transaction_hash
            && m.mainnet_gas_price == n.mainnet_gas_price))

module _ (abi : Abi) where
  unfoldable pub signature_round_trip : Signature → Result (Unit {0})
  unfolding same_signature
  signature_round_trip signature = do
    bytes ← Signature.to_bytes signature
    read ← Signature.from_bytes bytes
    same ← assert (same_signature signature read)
    payload ← Signature.to_payload abi signature
    decoded ← unwrapped (abi.decode_bytes payload)
    again ← Signature.from_bytes decoded
    assert (same_signature signature again)

  unfoldable pub quickcheck_signature_roundtrips : ℕ → List ℕ → List ℕ → TestResult
  unfolding tested signature_round_trip
  quickcheck_signature_roundtrips v r s =
      if length r == 32 && length s == 32
      then tested (signature_round_trip (record { v = v; r = r; s = s }))
      else discarded

  module _ (w : Word256) where
    unfoldable pub message_round_trip : MessageToMainnet → Result (Unit {0})
    unfolding same_message
    message_round_trip message = do
      bytes ← Message.to_bytes w message
      read ← Message.from_bytes w bytes
      same ← assert (same_message message read)
      payload ← Message.to_payload w abi message
      decoded ← unwrapped (abi.decode_bytes payload)
      again ← Message.from_bytes w decoded
      assert (same_message message again)

    unfoldable pub quickcheck_message_to_mainnet_roundtrips_to_bytes :
        List ℕ → ℕ → List ℕ → ℕ → TestResult
    unfolding tested message_round_trip
    quickcheck_message_to_mainnet_roundtrips_to_bytes recipient value hash gas_price =
        if length recipient == 20 && length hash == 32
        then tested (
            message_round_trip (record {
              recipient = recipient;
              value = value;
              sidenet_transaction_hash = hash;
              mainnet_gas_price = gas_price;
            }))
        else discarded

same_bytes_refl : (xs : List ℕ) → same_bytes xs xs ≡ true
same_bytes_refl xs = (same_bytes_iff xs xs).1 refl

==_refl : (n : ℕ) → n == n ≡ true
==_refl n = (==_iff n n).1 refl

same_signature_refl : (g : Signature) → same_signature g g ≡ true
unfolding same_signature
same_signature_refl g = rw (==_refl g.v, same_bytes_refl g.r, same_bytes_refl g.s)

same_message_refl : (m : MessageToMainnet) → same_message m m ≡ true
unfolding same_message
same_message_refl m = rw (
  same_bytes_refl m.recipient,
  ==_refl m.value,
  same_bytes_refl m.sidenet_transaction_hash,
  ==_refl m.mainnet_gas_price,
)

signature_round_trip_lem :
    (abi : Abi) (g : Signature) → IsSignature g → signature_round_trip abi g ≡ ok tt
unfolding signature_round_trip Signature.to_payload
signature_round_trip_lem abi g sizes =
    let (bytes, made, read) =
      >>=-eq-ok (Signature.to_bytes g) Signature.from_bytes (sig_from_bytes-to_bytes g sizes) in
    rw
      (
        made,
        read,
        same_signature_refl g,
        abi.decode_bytes-encode_bytes bytes,
        read,
        same_signature_refl g,
      )
      refl

message_round_trip_lem :
    (abi : Abi) (w : Word256) (m : MessageToMainnet)
    → IsMessage m
    → message_round_trip abi w m ≡ ok tt
unfolding message_round_trip Message.to_payload
message_round_trip_lem abi w m sizes =
    let (bytes, made, read) =
      >>=-eq-ok (Message.to_bytes w m) (Message.from_bytes w) (from_bytes-to_bytes w m sizes) in
    rw
      (
        made,
        read,
        same_message_refl m,
        abi.decode_bytes-encode_bytes bytes,
        read,
        same_message_refl m,
      )
      refl

-- Whatever the bytes are, the test of signatures does not fail: it passes where both lists have 32
-- bytes, and is discarded elsewhere.
signature_roundtrips-ne-failed :
    (abi : Abi) (v : ℕ) (r s : List ℕ) → quickcheck_signature_roundtrips abi v r s ≢ failed
unfolding quickcheck_signature_roundtrips
signature_roundtrips-ne-failed abi v r s h = elim (Bool-cases (length r == 32 && length s == 32)) [
  | inr other ↦ let h' = rw other at h in cc
  | inl sized ↦
      let r_size : length r ≡ 32 = ground arith in
      let s_size : length s ≡ 32 = ground arith in
      let pass =
        signature_round_trip_lem abi (record { v = v; r = r; s = s })
          (record { r_size = r_size; s_size = s_size }) in
      let h' = rw (sized, pass) at h in cc
]

-- Whatever the bytes are, and whatever the two numbers of 64 bits, the test of messages does not
-- fail: it passes where the address has 20 bytes and the hash 32, and is discarded elsewhere.
message_roundtrips-ne-failed :
    (abi : Abi) (w : Word256) (recipient : List ℕ) (value : ℕ) (hash : List ℕ) (gas_price : ℕ)
    → value < 2 ^ 64
    → gas_price < 2 ^ 64
    → quickcheck_message_to_mainnet_roundtrips_to_bytes abi w recipient value hash gas_price
      ≢ failed
unfolding quickcheck_message_to_mainnet_roundtrips_to_bytes
message_roundtrips-ne-failed abi w recipient value hash gas_price small low h =
    elim (Bool-cases (length recipient == 20 && length hash == 32)) [
      | inr other ↦ let h' = rw other at h in cc
      | inl sized ↦
          let address : length recipient ≡ 20 = ground arith in
          let word : length hash ≡ 32 = ground arith in
          let pass =
            message_round_trip_lem abi w
              (record {
                recipient = recipient;
                value = value;
                sidenet_transaction_hash = hash;
                mainnet_gas_price = gas_price;
              })
              (record {
                recipient_size = address;
                hash_size = word;
                value_range = omega arith;
                price_range = omega arith;
              }) in
          let h' = rw (sized, pass) at h in cc
    ]
