-- ===== src/Execute.antt =====
-- cli/src/main.rs: `execute`, from the command line to the end of the bridge, with the conversions
-- into `UserFacingError`. Logging is left out. What the parser of the command line, the libraries, the
-- nodes and the disk answer is an input, and every future is polled as often as the event loop has
-- time for, `n` times.
pub mod Starts
pub mod Stages
pub mod Exits
pub mod Shutdown
pub mod Main
pub mod Relayed
pub mod Gives
pub mod Reopened
pub mod Restart
use poa_bridge.App.{App, Libraries, app_new_http}
use poa_bridge.Balance.{create_chain_id_retrieval, chain_id_poll}
use poa_bridge.Config.{LoadConfig}
use poa_bridge.Config.Reading.{load_config}
use poa_bridge.Database.{
  Database, Bridge, ReadOutcome, contents, WriteOutcome, not_opened, write_failed, written,
}
use poa_bridge.Deploy
use poa_bridge.Deploy.{Creation, Deployed, create_deploy, TransactionReceipt, new, existing}
use poa_bridge.Error.{Error, Result, ok, err, panic, message_error, io, IoErrorKind}
use poa_bridge.EventStream.{BridgeEventStream}
use poa_bridge.ExitCode.{UserFacingError, err_unknown, err_io_error, user_facing}
use poa_bridge.Futures.{Poll, ready, not_ready, failed, panicked, Feed, feed_poll}
use poa_bridge.Prelude.{ℕ, zero, suc, Bool, String, Option, List, [], if◌then◌else◌, ◌⊎◌, inl, inr}
use poa_bridge.Process
use poa_bridge.Process.{
  BridgeReplies, Progress, running, ended, stopped, crashed, run_for, bridge_poll, create_bridge,
}
use poa_bridge.Relay.Merged.{Merged}

abbrev pub err_cannot_connect : ℕ
err_cannot_connect = 10

unfoldable pub from_error : Error → UserFacingError
from_error e = record { exit_code = err_unknown; shown = e }

unfoldable pub from_string : String → UserFacingError
from_string message = record { exit_code = err_unknown; shown = message_error message }

unfoldable pub from_io_error : IoErrorKind → UserFacingError
from_io_error kind = record { exit_code = err_io_error; shown = io kind }

unfoldable pub from_pair : ℕ → Error → UserFacingError
from_pair code e = record { exit_code = code; shown = e }

-- What `execute` comes to: a result of either kind, a panic, or an event loop that still waits.
pub data Outcome : Type 0 where
  printed : String → Outcome
  exits : UserFacingError → Outcome
  panics waits : Outcome

-- A part of `execute`: it gives a value to what follows, or `execute` is over.
pub data Stage {ℓ} (A : Type ℓ) : Type ℓ where
  over : Outcome → Stage A
  value : A → Stage A

infixl 5 ◌>>=◌
abbrev pub ◌>>=◌ {ℓ κ} : {A : Type ℓ} {B : Type κ} → Stage A → (A → Stage B) → Stage B
over outcome >>= rest = over outcome
value a >>= rest = rest a

-- The question mark, which converts an error.
unfoldable pub tried : {A : Type 0} → (Error → UserFacingError) → Result A → Stage A
tried convert (ok a) = value a
tried convert (err e) = over (exits (convert e))
tried convert panic = over panics

-- A future that is not ready is polled again.
abbrev pub or_later : {A : Type 0} → Poll A → Poll A → Poll A
or_later (ready a) later = ready a
or_later not_ready later = later
or_later (failed e) later = failed e
or_later panicked later = panicked

unfoldable pub event_loop_run : {S A : Type 0} → (S → S × Poll A) → ℕ → S → Poll A
event_loop_run poll zero s = not_ready
event_loop_run poll (suc n) s =
    let polled = poll s in let later = event_loop_run poll n polled.0 in or_later polled.1 later

-- `event_loop.run(...).expect(...)`.
unfoldable pub expected : {A : Type 0} → Poll A → Stage A
expected (ready a) = value a
expected not_ready = over waits
expected (failed e) = over panics
expected panicked = over panics

-- `event_loop.run(...)?`.
unfoldable pub asked : {A : Type 0} → Poll A → Stage A
unfolding from_error
asked (ready a) = value a
asked not_ready = over waits
asked (failed e) = over (exits (from_error e))
asked panicked = over panics

pub record Args : Type 0 where
  pub arg_config : String
  pub arg_database : String
  pub flag_version : Bool
  pub flag_allow_insecure_rpc_endpoints : Bool

abbrev pub bytes_of : ReadOutcome → List ℕ
bytes_of (contents text) = text
bytes_of _ = []

-- `Deployed` with the file that holds the database: `File::create` empties it, a failure to create it
-- is an i/o error of its own, and a failure to write it one of the bridge.
module _ {N : Type 0} (crates : Process.Crates N) where
  unfoldable pub saved_new : Database → WriteOutcome → Stage (Database × List ℕ)
  unfolding from_io_error from_error
  saved_new database (not_opened kind) = over (exits (from_io_error kind))
  saved_new database (write_failed n kind) = over (exits (from_error (io kind)))
  saved_new database written = value (database, crates.toml.to_string database)

  unfoldable pub database_of : ReadOutcome → WriteOutcome → Deployed → Stage (Database × List ℕ)
  unfolding saved_new
  database_of file creation (new database) = saved_new database creation
  database_of file creation (existing database) = value (database, bytes_of file)

-- What answers, in the order in which `execute` asks.
pub record Answers (T K : Type 0) : Type 0 where
  pub parse_args : List String → String ⊎ Args
  pub version : String
  pub from_toml : List ℕ → Option LoadConfig
  pub libraries : Libraries T K
  pub parse_u64 : String → Option ℕ
  pub home_versions : Feed String
  pub foreign_versions : Feed String
  pub home_counts : Feed ℕ
  pub foreign_counts : Feed ℕ
  pub home_creation : Creation
  pub foreign_creation : Creation
  pub receipts : Feed (TransactionReceipt × TransactionReceipt)
  pub file_creation : WriteOutcome
  pub is_uri : String → Bool
  pub replies : BridgeReplies

module _ {T K : Type 0} (answers : Answers T K) where
  open answers use {libraries}

  -- The command line, unless it only asks for the version.
  unfoldable pub parsed_args : String ⊎ Args → Stage Args
  unfolding from_string
  parsed_args (inl message) = over (exits (from_string message))
  parsed_args (inr args) = if args.flag_version then over (printed answers.version) else value args

  unfoldable pub parsed : List String → Stage Args
  unfolding parsed_args
  parsed command = parsed_args (answers.parse_args command)

  unfoldable pub connected : Args → Stage (App T K)
  unfolding tried from_error from_pair
  connected args = do
    config ← tried from_error (
        load_config answers.from_toml (libraries.files args.arg_config)
          args.flag_allow_insecure_rpc_endpoints)
    tried (from_pair err_cannot_connect) (app_new_http libraries config args.arg_database)

  -- The futures are polled `n` times. Both chain ids, then both nonces, which are stored in the nodes' cells.
  unfoldable pub initialized : ℕ → App T K → Stage (App T K)
  unfolding event_loop_run expected
  initialized n app = do
    home_chain_id ← expected (
        event_loop_run (chain_id_poll answers.parse_u64) n
          (create_chain_id_retrieval answers.home_versions))
    foreign_chain_id ← expected (
        event_loop_run (chain_id_poll answers.parse_u64) n
          (create_chain_id_retrieval answers.foreign_versions))
    home_nonce ← expected (event_loop_run feed_poll n answers.home_counts)
    foreign_nonce ← expected (event_loop_run feed_poll n answers.foreign_counts)
    let config = app.config
    value (record app {
      config = record config {
        home = record (config.home) { nonce = home_nonce };
        foreign = record (config.foreign) { nonce = foreign_nonce };
      };
    })

-- The end of the bridge, and the `loop` over its result.
unfoldable pub finished : {S : Type 0} → Progress S → Outcome
finished (running b) = waits
finished (ended b) = printed "Done"
finished (stopped e) = exits (user_facing e)
finished crashed = panics

module _ {N : Type 0} (crates : Process.Crates N) (n : ℕ) where
  -- The bridge runs if it has been started.
  unfoldable pub ended_stage : Stage (Bridge (BridgeEventStream Merged)) → Outcome
  unfolding finished
  ended_stage (over outcome) = outcome
  ended_stage (value b) = finished (run_for (bridge_poll crates) n b)

module _ {N T K : Type 0} (crates : Process.Crates N) (answers : Answers T K) (n : ℕ) where
  open answers use {libraries, replies}

  unfoldable pub deployed : App T K → Stage (Database × List ℕ)
  unfolding event_loop_run asked database_of
  deployed app = do
    let file = libraries.files app.database_path
    deployed ← asked (
        event_loop_run (Deploy.poll crates.toml) n (
          create_deploy app.database_path file answers.home_creation answers.foreign_creation
            answers.receipts))
    database_of crates file answers.file_creation deployed

  -- Everything before the bridge runs. A URI that cannot be parsed is a panic.
  unfoldable pub started : List String → Stage (Bridge (BridgeEventStream Merged))
  unfolding parsed connected initialized deployed tried from_error
  started command = do
    args ← parsed answers command
    app ← connected answers args
    ready_app ← initialized answers n app
    saved ← deployed ready_app
    tried from_error (create_bridge answers.is_uri ready_app.config saved.0 saved.1 replies)

  unfoldable pub execute : List String → Outcome
  unfolding started ended_stage
  execute command = ended_stage crates n (started command)
