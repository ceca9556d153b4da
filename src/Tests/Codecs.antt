-- ===== src/Tests/Codecs.antt =====
-- The theorems on messages, signatures, prices and settings at concrete inputs.
use poa_bridge.DataHash.Injective.{message_data_inj}
use poa_bridge.Config.{load_speed, check_tls, Node, Config, LoadNode, node_from_load_struct}
use poa_bridge.Message.{from_bytes, to_bytes}
use poa_bridge.GasPrice.{
  poll, from_str, slow, fast, GasPriceStream, Oracle, number, waiting_for_response,
}
use poa_bridge.EventStream.{BridgePoll, wait, BridgeEventStream}
use poa_bridge.Relay.Shared.{BridgeChecked, deposit_relay}
use poa_bridge.Prelude.{
  Option, zero, suc, starts_with, ◌≡◌, refl, List, ℕ, [], ◌∷◌, some, none, arith, replicate, ◌<◌,
  ◌≤◌, ◌*◌, ◌^◌, false,
}
use poa_bridge.Error.{ok, ◌>>=◌, timeout}
use poa_bridge.Futures.{Feed, feed_poll, ready, failed}
use poa_bridge.Message
use poa_bridge.Message.RoundTrip.{from_bytes-to_bytes, to_bytes-from_bytes}
use poa_bridge.Signature
use poa_bridge.Signature.{Signature}
use poa_bridge.Signature.RoundTrip.{sig_from_bytes-to_bytes}
use poa_bridge.Filter.{Value, null, scalar}
use poa_bridge.App.{timer_wheel, next_power_of_two}
use poa_bridge.App.Slots.{timer_wheel_long_enough, next_power_of_two_lem}
use poa_bridge.GasPrice
use poa_bridge.GasPrice.Prices.{Prices, gas_poll-Prices}
use poa_bridge.ExitCode.{rpc_exit_code, err_gas_price_too_low, refused_with}
use poa_bridge.ExitCode.Classes.{rpc_exit_code_another}
use poa_bridge.Config.Loading.{IsAllowed, node_from_load_struct-IsAllowed}
use poa_bridge.EventStream
use poa_bridge.EventStream.Gate.{event_poll-Passes, Passes}
use poa_bridge.Balance
use poa_bridge.Tests.BigEndian.{big_endian}
use poa_bridge.Tests.Samples.{account, message, another_error}

from_bytes-to_bytes_example :
    (Message.to_bytes big_endian message >>= Message.from_bytes big_endian) ≡ ok message
from_bytes-to_bytes_example = from_bytes-to_bytes big_endian message (record {
  recipient_size = refl;
  hash_size = refl;
  value_range = omega arith;
  price_range = omega arith;
})

abbrev pub some_bytes : List ℕ
some_bytes = replicate 116 200

pub AreBytes-replicate : (n : ℕ) → poa_bridge.Bytes.AreBytes (replicate n 200)
AreBytes-replicate zero = tt
AreBytes-replicate (suc n) = (omega arith, AreBytes-replicate n)

to_bytes-from_bytes_example :
    (Message.from_bytes big_endian some_bytes >>= Message.to_bytes big_endian) ≡ ok some_bytes
to_bytes-from_bytes_example =
    to_bytes-from_bytes big_endian some_bytes refl (AreBytes-replicate 116)

abbrev signature : Signature
signature = record { v = 27; r = replicate 32 8; s = replicate 32 9 }

sig_from_bytes-to_bytes_example :
    (Signature.to_bytes signature >>= Signature.from_bytes) ≡ ok signature
sig_from_bytes-to_bytes_example =
    sig_from_bytes-to_bytes signature (record { r_size = refl; s_size = refl })

abbrev pub topics : List Value
topics = null ∷ scalar "0x01" ∷ null ∷ null ∷ []

timer_wheel_long_enough_example :
    let wheel = timer_wheel 30 7 in
    (30 * 1000 ≤ wheel.num_slots * wheel.tick_duration)
    × (7 * 1000 ≤ wheel.num_slots * wheel.tick_duration)
    × (wheel.max_timeout ≤ wheel.num_slots * wheel.tick_duration)
timer_wheel_long_enough_example = timer_wheel_long_enough 30 7 (omega arith)

next_power_of_two_lem_example :
    ((j : ℕ) × (next_power_of_two 300 ≡ 2 ^ j))
    × (300 ≤ next_power_of_two 300)
    × (next_power_of_two 300 < 600)
next_power_of_two_lem_example = next_power_of_two_lem 300 (omega arith)

-- An oracle that answers one object, with a price in units of 10 ^ 9 wei.
abbrev pub oracle : Oracle ℕ
oracle = record {
  parse_object = λ chunk. some (("fast", number 3) ∷ []);
  to_wei = λ n. n * 1_000_000_000;
}

abbrev prices : GasPriceStream
prices = record {
  state = waiting_for_response;
  speed = fast;
  last_price = 5;
  ticks = [];
  responses = failed (timeout "communication timeout") ∷ ready [] ∷ [];
}

gas_poll-Prices_example :
    Prices oracle (GasPrice.poll oracle prices).0 (GasPrice.poll oracle prices).1
gas_poll-Prices_example = gas_poll-Prices oracle prices (tt, (tt, (tt, tt)))

rpc_exit_code_another_example : rpc_exit_code another_error ≡ err_gas_price_too_low
unfolding refused_with poa_bridge.Nonce.is_server_error poa_bridge.Prelude.Int.eq_ℤ starts_with
rpc_exit_code_another_example = rpc_exit_code_another another_error refl

-- The relays as a feed of reports.
abbrev relays_feed : BridgePoll (Feed (Option BridgeChecked))
relays_feed c feed = feed_poll feed

abbrev events : BridgeEventStream (Feed (Option BridgeChecked))
events = record {
  state = EventStream.wait;
  home_balance_check = record { state = Balance.wait; balances = [] };
  foreign_balance_check = record { state = Balance.wait; balances = [] };
  home_balance = some 3;
  foreign_balance = some 4;
  home_gas_stream = none;
  foreign_gas_stream = some prices;
  home_gas_price = 1;
  foreign_gas_price = 2;
  running = [];
  bridge = ready (some (deposit_relay 12)) ∷ [];
}

event_poll-Passes_example :
    Passes oracle relays_feed events.bridge
      (EventStream.poll oracle relays_feed events).0
      (EventStream.poll oracle relays_feed events).1
event_poll-Passes_example = event_poll-Passes oracle relays_feed events (tt, tt)

abbrev pub load : LoadNode
load = record {
  account = account;
  request_timeout = none;
  poll_interval = none;
  required_confirmations = none;
  rpc_host = some "https://home.example";
  rpc_port = none;
  password = "password.txt";
  gas_price_oracle_url = none;
  gas_price_speed = some "slow";
  gas_price_timeout = none;
  default_gas_price = none;
  concurrent_http_requests = none;
}

abbrev pub home : poa_bridge.Config.Node
home = record {
  account = account;
  request_timeout = 3600;
  poll_interval = 1;
  required_confirmations = 12;
  rpc_host = "https://home.example";
  rpc_port = 8545;
  password = "password.txt";
  nonce = 0;
  gas_price_oracle_url = none;
  gas_price_speed = GasPrice.slow;
  gas_price_timeout = 10;
  default_gas_price = 15_000_000_000;
  concurrent_http_requests = 64;
}

home_loads : node_from_load_struct load false ≡ ok home
unfolding node_from_load_struct poa_bridge.Config.load_speed poa_bridge.GasPrice.from_str
    poa_bridge.Config.check_tls starts_with
home_loads = refl

node_from_load_struct-IsAllowed_example : IsAllowed load false home
node_from_load_struct-IsAllowed_example = node_from_load_struct-IsAllowed load false home home_loads

-- No shorter and no longer list has the same data to hash as this one.
message_data_inj_example : some_bytes ≡ some_bytes
message_data_inj_example = message_data_inj some_bytes some_bytes refl
