-- ===== src/GasPrice.antt =====
-- bridge/src/bridge/gas_price.rs: the stream of gas prices from an oracle, and `GasPriceSpeed` of
-- bridge/src/config.rs. The JSON crate enters as a parser of objects, and the arithmetic of floats as
-- the conversion `to_wei` of a number, `(n * 1_000_000_000.0).trunc() as u64`.
pub mod Prices
use poa_bridge.Prelude.{
  ℕ, suc, ◌+◌, ◌*◌, String, Option, none, some, List, [], ◌∷◌, if◌then◌else◌, length, str_eq,
}
use poa_bridge.Futures.{
  Poll, ready, not_ready, failed, panicked, Feed, poll_feed, Round, again, done, try_stream, drive,
}

pub data GasPriceSpeed : Type 0 where
  instant fast standard slow : GasPriceSpeed

unfoldable pub as_str : GasPriceSpeed → String
as_str instant = "instant"
as_str fast = "fast"
as_str standard = "standard"
as_str slow = "slow"

-- `FromStr for GasPriceSpeed`.
unfoldable pub from_str : String → Option GasPriceSpeed
from_str s =
    if str_eq s "instant"
    then some instant
    else if str_eq s "fast"
    then some fast
    else if str_eq s "standard"
    then some standard
    else if str_eq s "slow"
    then some slow
    else none

-- A value of a JSON object: a number, or anything else.
pub data JsonValue (N : Type 0) : Type 0 where
  number : N → JsonValue N
  other_value : JsonValue N

pub record Oracle (N : Type 0) : Type 0 where
  pub parse_object : List ℕ → Option (List (String × JsonValue N))
  pub to_wei : N → ℕ

pub data GasPriceState : Type 0 where
  initial waiting_for_response : GasPriceState
  yield : Option ℕ → GasPriceState

pub record GasPriceStream : Type 0 where
  pub state : GasPriceState
  pub speed : GasPriceSpeed
  pub last_price : ℕ
  pub ticks : Feed (Option (Unit {0}))
  pub responses : Feed (List ℕ)

-- `json_obj.get(key)`.
unfoldable pub get : {V : Type 0} → String → List (String × V) → Option V
get key [] = none
get key ((k, v) ∷ entries) = if str_eq k key then some v else get key entries

module _ {N : Type 0} (oracle : Oracle N) where
  open oracle use {parse_object, to_wei}

  unfoldable pub price_of_value : ℕ → Option (JsonValue N) → ℕ
  price_of_value last_price (some (number price)) = to_wei price
  price_of_value last_price (some other_value) = last_price
  price_of_value last_price none = last_price

  unfoldable pub price_of_object : ℕ → GasPriceSpeed → Option (List (String × JsonValue N)) → ℕ
  unfolding price_of_value
  price_of_object last_price speed (some entries) =
      price_of_value last_price (get (as_str speed) entries)
  price_of_object last_price speed none = last_price

  -- Every outcome of the request but `NotReady` becomes a price.
  unfoldable pub response_arrived : Poll (List ℕ) → GasPriceStream → Round GasPriceStream (Option ℕ)
  unfolding price_of_object
  response_arrived (ready chunk) s = again (record s {
    state = yield (some (price_of_object s.last_price s.speed (parse_object chunk)));
  })
  response_arrived not_ready s = done s not_ready
  response_arrived (failed e) s = again (record s { state = yield (some s.last_price) })
  response_arrived panicked s = done s panicked

  unfoldable pub round_in : GasPriceState → GasPriceStream → Round GasPriceStream (Option ℕ)
  unfolding response_arrived
  round_in initial s =
      let (p, rest) = poll_feed s.ticks in
      let s' = record s { ticks = rest } in
      try_stream p s' (λ _. again (record s' { state = waiting_for_response }))
  round_in waiting_for_response s =
      let (p, rest) = poll_feed s.responses in response_arrived p (record s { responses = rest })
  round_in (yield none) s = again (record s { state = initial })
  round_in (yield (some price)) s =
      done (record s { state = yield none; last_price = price }) (ready (some price))

  unfoldable pub round : GasPriceStream → Round GasPriceStream (Option ℕ)
  unfolding round_in
  round s = round_in s.state s

abbrev pub idle_rounds : GasPriceState → ℕ
idle_rounds (yield none) = 1
idle_rounds _ = 0

unfoldable pub budget : GasPriceStream → ℕ
budget s = 2 * (length s.ticks + length s.responses) + idle_rounds s.state

unfoldable pub poll : {N : Type 0} → Oracle N → GasPriceStream → GasPriceStream × Poll (Option ℕ)
poll oracle s = drive (round oracle) (suc (budget s)) s
