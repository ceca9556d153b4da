-- ===== src/App.antt =====
-- bridge/src/app.rs: `App::new_http`, which connects to the nodes, opens the key store and builds a
-- timer wheel for the longest timeout.
pub mod Slots
use Prim.Native.Nat.{max}
use poa_bridge.Prelude.{
  ℕ, zero, suc, ◌*◌, ◌%◌, ◌^◌, ltb, if◌then◌else◌, List, ◌∷◌, ◌++◌, String, codes, ◌⊎◌, inl, inr,
}
use poa_bridge.Error.{
  Result, ok, err, ◌>>=◌, Error, Web3Error, message_error, key_store, account_error,
}
use poa_bridge.Config.{Config, Node}
use poa_bridge.Config.Reading.{password}
use poa_bridge.Database.{ReadOutcome}
use poa_bridge.DataHash.{decimal}

-- `usize::next_power_of_two` up to 2 ^ 63, by doubling; `n` doublings are enough to reach `n`.
unfoldable pub double_up : ℕ → ℕ → ℕ → ℕ
double_up zero p n = p
double_up (suc fuel) p n = let rest = double_up fuel (2 * p) n in if ltb p n then rest else p

unfoldable pub next_power_of_two : ℕ → ℕ
unfolding double_up
next_power_of_two n = double_up n 1 n

-- In milliseconds and slots; the timeouts are in seconds.
pub record Wheel : Type 0 where
  pub max_timeout : ℕ
  pub tick_duration : ℕ
  pub num_slots : ℕ

unfoldable pub timer_wheel : ℕ → ℕ → Wheel
timer_wheel home_request_timeout foreign_request_timeout =
    let secs = max home_request_timeout foreign_request_timeout in
    record {
      max_timeout = secs * 1000;
      tick_duration = 100;
      num_slots = next_power_of_two (secs * 10 % 2 ^ 64);
    }

-- `format!("{}:{}", host, port)`, as code points.
unfoldable pub url : Node → List ℕ
url node = codes node.rpc_host ++ (58 ∷ decimal node.rpc_port)

-- What is not of this repository: the HTTP transports, the key store with its accounts, the files.
pub record Libraries (T K : Type 0) : Type 0 where
  pub with_event_loop : List ℕ → ℕ → Web3Error ⊎ T
  pub open_keystore : String → String ⊎ K
  pub unlock_account_permanently : K → List ℕ → List ℕ → String ⊎ K
  pub files : String → ReadOutcome

pub record Connections (T : Type 0) : Type 0 where
  pub home : T
  pub foreign : T

-- `running` stands with the event stream, and the contracts with what uses them.
pub record App (T K : Type 0) : Type 0 where
  pub config : Config
  pub database_path : String
  pub connections : Connections T
  pub timer : Wheel
  pub keystore : K

-- `map_err(ErrorKind::Web3)`, under the context that `chain_err` puts on it.
unfoldable pub connected : {T : Type 0} → String → Web3Error ⊎ T → Result T
connected context (inl e) = err (message_error context)
connected context (inr transport) = ok transport

-- A failure of the key store as an error of the bridge.
unfoldable pub or_err : {K : Type 0} → (String → Error) → String ⊎ K → Result K
or_err kind (inl e) = err (kind e)
or_err kind (inr keystore) = ok keystore

module _ {T K : Type 0} (libraries : Libraries T K) where
  open libraries use {with_event_loop, open_keystore, unlock_account_permanently, files}

  unfoldable pub connections_new_http : List ℕ → ℕ → List ℕ → ℕ → Result (Connections T)
  connections_new_http home home_connections foreign foreign_connections = do
    home_transport ←
        connected "Cannot connect to home node rpc" (with_event_loop home home_connections)
    foreign_transport ←
        connected "Cannot connect to foreign node rpc" (with_event_loop foreign foreign_connections)
    ok (record { home = home_transport; foreign = foreign_transport })

  unfoldable pub unlocked : K → Node → Result K
  unlocked keystore node = do
    secret ← password files node
    or_err account_error (unlock_account_permanently keystore node.account secret)

  unfoldable pub app_new_http : Config → String → Result (App T K)
  app_new_http config database_path = do
    connections ←
        connections_new_http (url config.home) config.home.concurrent_http_requests
          (url config.foreign) config.foreign.concurrent_http_requests
    keystore ← or_err key_store (open_keystore config.keystore)
    with_home ← unlocked keystore config.home
    with_both ← unlocked with_home config.foreign
    ok (record {
      config = config;
      database_path = database_path;
      connections = connections;
      timer = timer_wheel config.home.request_timeout config.foreign.request_timeout;
      keystore = with_both;
    })
