-- ===== src/Relay/Withdraw/Assignments.antt =====
-- Which withdrawals the withdraw relay (bridge/src/bridge/withdraw_relay.rs) takes up, and what it asks for.
use poa_bridge.LogStream.{Log}
use poa_bridge.Relay.Shared.{CollectedSignatures}
use poa_bridge.Prelude.{
  ℕ, zero, suc, ◌+◌, ◌^◌, ◌<◌, ◌≡◌, refl, ap, ◌≢◌, ◌↔◌, true, none, some, List, [], ◌∷◌, ◌++◌, map,
  arith, ==_iff, length, drop, drop-append,
}
use poa_bridge.Error.{ok}
use poa_bridge.Relay.Withdraw.{
  relay_assignment, low_u32, other_authority, Crates, signatures_payload, same_bytes, range_from,
}

pub same_bytes_iff : (xs ys : List ℕ) → (same_bytes xs ys ≡ true) ↔ (xs ≡ ys)
unfolding same_bytes
same_bytes_iff [] [] = ground arith
same_bytes_iff [] (y ∷ ys) = ground arith
same_bytes_iff (x ∷ xs) [] = ground arith
same_bytes_iff (x ∷ xs) (y ∷ ys) = ground (arith, ==_iff x y, same_bytes_iff xs ys)

length-range_from : (i n : ℕ) → length (range_from i n) ≡ n
unfolding range_from
length-range_from i zero = refl
length-range_from i (suc n) = ap suc (length-range_from (i + 1) n)

module _ (crates : Crates) where
  open crates use {contracts, words}

  -- The encoding of a call with one word is four bytes and the word.
  abbrev pub EncodesWord : Type 0
  EncodesWord =
      (word : List ℕ)
      → length word ≡ 32
      → (selector : List ℕ) × (length selector ≡ 4)
        × (contracts.message_input word ≡ selector ++ word)

  required :
      EncodesWord
      → (n : ℕ) → n < 2 ^ 256
      → words.from_h256 (drop 4 (contracts.message_input (words.to_h256 n))) ≡ n
  required encodes n h =
      let (selector, four, whole) = encodes (words.to_h256 n) (words.length-to_h256 n) in
      rw (whole, drop-append 4 selector (words.to_h256 n) four) (words.from_h256-to_h256 n h)

  -- Where the call data of a word is four bytes and the word: the authority that the event names
  -- takes the withdrawal up, and asks for as many signatures as the event counts (fewer than 2 ^
  -- 32), indexed from 0, and for the message.
  pub signatures_payload-own :
      EncodesWord
      → (me : List ℕ) (log : Log) (collected : CollectedSignatures)
      → contracts.parse_collected_signatures log.topics log.log_data ≡ ok collected
      → collected.authority_responsible_for_relay ≡ me
      → collected.number_of_collected_signatures < 2 ^ 32
      → signatures_payload crates me log
        ≡ ok (
            some (record {
              signature_payloads =
                  map
                    (contracts.signature_input collected.message_hash)
                    (range_from 0 collected.number_of_collected_signatures);
              message_payload = contracts.message_input collected.message_hash;
            }))
  unfolding signatures_payload relay_assignment
  signatures_payload-own encodes me log collected parsed mine small =
      let n = collected.number_of_collected_signatures in
      let same : same_bytes collected.authority_responsible_for_relay me ≡ true =
        (same_bytes_iff _ _).1 mine in
      let low : low_u32 n ≡ n = omega arith in
      rw (parsed, same, required encodes n (omega arith), low)

  -- An authority that is not the one which the event names skips the withdrawal, when the log has a
  -- transaction hash.
  signatures_payload-other :
      (me hash : List ℕ) (log : Log) (collected : CollectedSignatures)
      → contracts.parse_collected_signatures log.topics log.log_data ≡ ok collected
      → collected.authority_responsible_for_relay ≢ me
      → log.transaction_hash ≡ some hash
      → signatures_payload crates me log ≡ ok none
  unfolding signatures_payload other_authority
  signatures_payload-other me hash log collected parsed other mined =
      ground (arith, same_bytes_iff collected.authority_responsible_for_relay me)
