-- ===== src/Tests/Oracles.antt =====
-- The unit tests of bridge/src/bridge/gas_price.rs, run on the model. What the JSON crate makes of the
-- texts of the tests is a table; a price stands for its number of gwei.
use poa_bridge.Config.{Node, default_concurrency}
use poa_bridge.Error.{Result, ok, other_error}
use poa_bridge.Futures.{Poll, ready, not_ready, failed, panicked}
use poa_bridge.GasPrice
use poa_bridge.GasPrice.{GasPriceStream, Oracle, JsonValue, number, other_value, fast}
use poa_bridge.Prelude.{
  ℕ, zero, suc, ◌*◌, ◌==◌, ◌≡◌, refl, Bool, true, false, Option, none, some, List, [], ◌∷◌, String,
  codes, replicate, if◌then◌else◌,
}
use poa_bridge.Process.{OracleReplies, new_with_retriever}
use poa_bridge.Relay.Withdraw.{same_bytes}

abbrev objects : List ℕ → Option (List (String × JsonValue ℕ))
objects text =
    if same_bytes text (codes "{\"fast\": 12.0}")
    then some (("fast", number 12) ∷ [])
    else if same_bytes text (codes "{\"cow\": \"moo\"}")
    then some (("cow", other_value) ∷ [])
    else none

abbrev oracle : Oracle ℕ
oracle = record { parse_object = objects; to_wei = λ n. n * 1_000_000_000 }

-- The node of all five tests.
abbrev node : Node
node = record {
  account = replicate 20 0;
  request_timeout = 5;
  poll_interval = 1;
  required_confirmations = 0;
  rpc_host = "https://rpc";
  rpc_port = 443;
  password = "password";
  nonce = 0;
  gas_price_oracle_url = some "https://gas.price";
  gas_price_speed = fast;
  gas_price_timeout = 5;
  default_gas_price = 15_000_000_000;
  concurrent_http_requests = default_concurrency;
}

-- The loop of the tests, for a number of polls: it ends with the first price, and fails on an error.
first_price : ℕ → GasPriceStream → Option ℕ
first_price zero s = none
first_price (suc n) s =
    let polled = GasPrice.poll oracle s in
    let later = first_price n polled.0 in
    elim (polled.1) [
      | ready (some v) ↦ some v
      | ready none ↦ later
      | not_ready ↦ later
      | failed e ↦ none
      | panicked ↦ none
    ]

abbrev is_price : ℕ → Option ℕ → Bool
is_price expected (some v) = v == expected
is_price expected none = false

-- The stream over a retriever whose request is answered at once, like the first tick of the interval.
abbrev price_of : Result GasPriceStream → Option ℕ
price_of (ok stream) = first_price 2 stream
price_of _ = none

abbrev test_price : Poll (List ℕ) → ℕ → Bool
test_price response expected =
    let replies : OracleReplies = record {
      ticks = ready (some tt) ∷ [];
      responses = response ∷ [];
    } in
    is_price expected (price_of (new_with_retriever (λ uri. true) node replies))

errored_request : Bool
errored_request = test_price (failed (other_error "something went wrong")) node.default_gas_price

bad_json : Bool
bad_json = test_price (ready (codes "bad json")) node.default_gas_price

unexpected_json : Bool
unexpected_json = test_price (ready (codes "{\"cow\": \"moo\"}")) node.default_gas_price

non_object_json : Bool
non_object_json = test_price (ready (codes "3")) node.default_gas_price

correct_json : Bool
correct_json = test_price (ready (codes "{\"fast\": 12.0}")) 12_000_000_000

prices_pass :
    (errored_request ≡ true)
    × (bad_json ≡ true)
    × (unexpected_json ≡ true)
    × (non_object_json ≡ true)
    × (correct_json ≡ true)
unfolding errored_request bad_json unexpected_json non_object_json correct_json first_price
    GasPrice.poll GasPrice.round GasPrice.budget poa_bridge.Futures.drive new_with_retriever
    same_bytes GasPrice.get GasPrice.as_str
prices_pass = (refl, refl, refl, refl, refl)
