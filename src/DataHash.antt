-- ===== src/DataHash.antt =====
-- bridge/src/api.rs: `eth_data_hash`, the hash that a validator signs. The keccak hash is third-party
-- code and enters as a parameter.
pub mod Injective
use poa_bridge.Prelude.{
  ℕ, zero, suc, ◌+◌, ◌/◌, ◌%◌, List, [], ◌∷◌, ◌++◌, ltb, if◌then◌else◌, length, codes,
}

-- The decimal digits of a number, as `format!` writes them. One digit of fuel for each division.
unfoldable pub decimal_digits : ℕ → ℕ → List ℕ
decimal_digits zero n = []
decimal_digits (suc fuel) n =
    let rest = decimal_digits fuel (n / 10) in
    if ltb n 10 then (48 + n) ∷ [] else rest ++ (48 + n % 10) ∷ []

unfoldable pub decimal : ℕ → List ℕ
unfolding decimal_digits
decimal n = decimal_digits (n + 1) n

-- The byte 0x19, the text `Ethereum Signed Message:`, and a line feed.
abbrev pub signed_message_prefix : List ℕ
signed_message_prefix = 25 ∷ (codes "Ethereum Signed Message:" ++ 10 ∷ [])

unfoldable pub message_data : List ℕ → List ℕ
unfolding decimal
message_data bytes = (signed_message_prefix ++ decimal (length bytes)) ++ bytes

unfoldable pub eth_data_hash : (List ℕ → List ℕ) → List ℕ → List ℕ
eth_data_hash keccak bytes = keccak (message_data bytes)
