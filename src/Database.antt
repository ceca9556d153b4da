-- ===== src/Database.antt =====
-- bridge/src/database.rs: the checkpoints of the bridge in a TOML file, and bridge/src/bridge/mod.rs:
-- `Bridge`, which writes them. The TOML crate enters as a parameter.
pub mod Saved
use poa_bridge.Relay.Shared.{BridgeChecked, deposit_relay, withdraw_relay, withdraw_confirm}
use poa_bridge.Prelude.{ℕ, String, ◌≡◌, Option, none, some, List, [], ◌∷◌, ◌++◌, length, take, drop}
use poa_bridge.Error.{Result, ok, err, IoErrorKind, not_found, missing_file, message_error, io}
use poa_bridge.Futures.{Poll, ready, not_ready, failed, panicked, Feed, poll_feed}

pub record Database : Type 0 where
  pub home_contract_address : List ℕ
  pub foreign_contract_address : List ℕ
  pub home_deploy : Option ℕ
  pub foreign_deploy : Option ℕ
  pub checked_deposit_relay : ℕ
  pub checked_withdraw_relay : ℕ
  pub checked_withdraw_confirm : ℕ

-- `toml::to_string` and `toml::from_str` on a `Database`: what is written is read back. The crate reads
-- integers as signed ones of 64 bits, so the law takes block numbers to be below 2 ^ 63.
pub record Toml : Type 0 where
  pub to_string : Database → List ℕ
  pub from_str : List ℕ → Option Database
  pub from_str-to_string : (db : Database) → from_str (to_string db) ≡ some db

-- What opening the file for reading, and reading it, gives.
pub data ReadOutcome : Type 0 where
  open_refused : IoErrorKind → ReadOutcome
  read_failed : IoErrorKind → ReadOutcome
  contents : List ℕ → ReadOutcome

-- What opening the file for writing, and writing it, gives: a failed write has written some bytes.
pub data WriteOutcome : Type 0 where
  not_opened : IoErrorKind → WriteOutcome
  write_failed : ℕ → IoErrorKind → WriteOutcome
  written : WriteOutcome

-- Writing from the start of a file that is not truncated.
unfoldable pub overwrite : List ℕ → List ℕ → List ℕ
overwrite old text = text ++ drop (length text) old

module _ (toml : Toml) where
  unfoldable pub parse : List ℕ → Result Database
  parse text = elim (toml.from_str text) [
    | some db ↦ ok db
    | none ↦ err (message_error "Cannot parse database")
  ]

  unfoldable pub load : String → ReadOutcome → Result Database
  unfolding parse
  load path (open_refused not_found) = err (missing_file path)
  load path (open_refused kind) = err (message_error "Cannot open database")
  load path (read_failed kind) = err (io kind)
  load path (contents text) = parse text

unfoldable pub checked : BridgeChecked → Database → Database
checked (deposit_relay n) db = record db { checked_deposit_relay = n }
checked (withdraw_relay n) db = record db { checked_withdraw_relay = n }
checked (withdraw_confirm n) db = record db { checked_withdraw_confirm = n }

-- `Bridge` over a stream of events, with the bytes of its file and what the disk will answer.
pub record Bridge (ES : Type 0) : Type 0 where
  pub database : Database
  pub file : List ℕ
  pub disk : List WriteOutcome
  pub event_stream : ES

-- The outcome of the next write; a disk that is not mentioned any more works.
abbrev pub next_write : List WriteOutcome → WriteOutcome × List WriteOutcome
next_write [] = (written, [])
next_write (w ∷ ws) = (w, ws)

module _ {ES : Type 0} (toml : Toml) where
  unfoldable pub save : Bridge ES → WriteOutcome → Bridge ES × Poll (Option (Unit {0}))
  save b (not_opened kind) = (b, failed (io kind))
  save b (write_failed n kind) =
      (record b { file = overwrite b.file (take n (toml.to_string b.database)) }, failed (io kind))
  save b written =
      (record b { file = overwrite b.file (toml.to_string b.database) }, ready (some tt))

  unfoldable pub event_arrived :
      Bridge ES → Poll (Option BridgeChecked) → Bridge ES × Poll (Option (Unit {0}))
  unfolding save
  event_arrived b (ready (some check)) =
      let (w, rest) = next_write b.disk in
      save (record b { database = checked check b.database; disk = rest }) w
  event_arrived b (ready none) = (b, ready none)
  event_arrived b not_ready = (b, not_ready)
  event_arrived b (failed e) = (b, failed e)
  event_arrived b panicked = (b, panicked)

  unfoldable pub poll :
      (ES → ES × Poll (Option BridgeChecked)) → Bridge ES → Bridge ES × Poll (Option (Unit {0}))
  unfolding event_arrived
  poll poll_events b =
      let (events, p) = poll_events b.event_stream in
      event_arrived (record b { event_stream = events }) p
