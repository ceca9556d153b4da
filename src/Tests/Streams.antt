-- ===== src/Tests/Streams.antt =====
-- The theorems on the log stream, the database and the shared streams at concrete inputs.

use poa_bridge.Deploy.{Creation}
use poa_bridge.Database.Saved.{load-poll_times, poll_times, NeverShrinks}
use poa_bridge.Database.{checked, Database, Bridge, contents, load}
use poa_bridge.LogStream.{LogStream, poll}
use poa_bridge.Relay.Shared.{BridgeChecked, deposit_relay, withdraw_relay, withdraw_confirm}
use poa_bridge.Tests.Samples.{logs, toml, database}
use poa_bridge.Prelude.{
  Option, ◌≡◌, refl, List, [], ◌∷◌, map, some, arith, if◌then◌else◌, ltb, leb, ◌&&◌,
}
use poa_bridge.Error.{ok}
use poa_bridge.Futures.{Feed, ready}
use poa_bridge.LogStream
use poa_bridge.LogStream.Ranges.{collect, times_served, collect-times}
use poa_bridge.LogStream.Confirmed.{ServesDeep, poll-ServesDeep}
use poa_bridge.Database

collect-times_example :
    times_served 14 (collect 3 logs).0
    ≡ (if ltb 10 14 && leb 14 (collect 3 logs).1.after then 1 else 0)
collect-times_example = collect-times 3 logs 14 tt

poll-ServesDeep_example : ServesDeep 20 2 (LogStream.poll logs).0 (LogStream.poll logs).1
poll-ServesDeep_example = poll-ServesDeep 20 logs (tt, (omega arith, (omega arith, tt)))

abbrev reports : List BridgeChecked
reports = deposit_relay 12 ∷ withdraw_confirm 31 ∷ deposit_relay 15 ∷ []

abbrev bridge : Bridge (Feed (Option BridgeChecked))
bridge = record {
  database = database;
  file = toml.to_string database;
  disk = [];
  event_stream = map (λ c. ready (some c)) reports;
}

pub toml-NeverShrinks : NeverShrinks toml
unfolding Database.checked
toml-NeverShrinks (deposit_relay n) db h = omega arith
toml-NeverShrinks (withdraw_relay n) db h = omega arith
toml-NeverShrinks (withdraw_confirm n) db h = omega arith

load-poll_times_example :
    load toml "db.toml" (contents (poll_times toml 3 bridge).file)
    ≡ ok (record database { checked_deposit_relay = 15; checked_withdraw_confirm = 31 })
unfolding checked
load-poll_times_example =
    load-poll_times toml toml-NeverShrinks "db.toml" reports bridge
      (record { in_file = refl; disk_works = refl }) refl
      (omega arith, (omega arith, (omega arith, tt)))

abbrev pub creation : Creation
creation = record { gas = 3_000_000; gas_price = 2; constructor = 1 ∷ 2 ∷ [] }
