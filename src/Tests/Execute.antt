-- ===== src/Tests/Execute.antt =====
-- The theorems on the start of the program at concrete inputs.
use poa_bridge.App.{Libraries, connections_new_http, app_new_http, unlocked, or_err}
use poa_bridge.Config.{
  Config, LoadConfig, node_from_load_struct, config_from_load_struct, load_transactions,
}
use poa_bridge.Config.Reading
use poa_bridge.Config.Reading.{password}
use poa_bridge.Database.{ReadOutcome, contents, written}
use poa_bridge.Error.{web3_io, broken_pipe, message_error, Error}
use poa_bridge.ExitCode.{UserFacingError}
use poa_bridge.Execute.{Answers, Args, started, value, execute, exits, err_cannot_connect}
use poa_bridge.Execute.Exits.{IsUnconnected, execute-Unconnected}
use poa_bridge.Execute.Starts.{started-Refines}
use poa_bridge.Futures.{ready}
use poa_bridge.Prelude.{
  if◌then◌else◌, str_eq, ℕ, ◌≡◌, refl, List, [], ◌∷◌, ◌++◌, none, some, false, String, inl, inr,
}
use poa_bridge.Process
use poa_bridge.Process.{run_for, bridge_poll}
use poa_bridge.Process.Checkpoints.{Refines}
use poa_bridge.Tests.Codecs.{load, home}
use poa_bridge.Tests.Process.{is_uri, bridge_of, crates, bridge_replies}
use poa_bridge.Tests.Samples.{database, toml}
use poa_bridge.Tests.Streams.{creation}

abbrev pub secret_file : List ℕ
secret_file = 115 ∷ 51 ∷ 10 ∷ 99 ∷ []

-- The configuration, the database and the passwords.
abbrev files : String → ReadOutcome
files path =
    if str_eq path "db.toml" then contents (toml.to_string database) else contents secret_file

abbrev pub libraries : Libraries (List ℕ) (List ℕ)
libraries = record {
  with_event_loop = λ url concurrency. inr url;
  open_keystore = λ path. inr [];
  unlock_account_permanently = λ keystore account secret. inr (keystore ++ secret);
  files = files;
}

abbrev pub args : Args
args = record {
  arg_config = "config.toml";
  arg_database = "db.toml";
  flag_version = false;
  flag_allow_insecure_rpc_endpoints = false;
}

abbrev pub load_config : LoadConfig
load_config = record { home = load; foreign = load; transactions = none; keystore = "keys" }

abbrev pub answers : Answers (List ℕ) (List ℕ)
answers = record {
  parse_args = λ command. inr args;
  version = "0.1";
  from_toml = λ text. some load_config;
  libraries = libraries;
  parse_u64 = λ text. some 77;
  home_versions = ready "77" ∷ [];
  foreign_versions = ready "77" ∷ [];
  home_counts = ready 4 ∷ [];
  foreign_counts = ready 5 ∷ [];
  home_creation = creation;
  foreign_creation = creation;
  receipts = [];
  file_creation = written;
  is_uri = is_uri;
  replies = bridge_replies;
}

-- What is loaded, once the nonces are known.
abbrev pub loaded : Config
loaded = record {
  home = record home { nonce = 4 };
  foreign = record home { nonce = 5 };
  txs = load_transactions none;
  keystore = "keys";
}

is_started : started crates answers 3 ("bridge" ∷ []) ≡ value (bridge_of loaded)
unfolding started Reading.load_config config_from_load_struct node_from_load_struct
    poa_bridge.Config.load_speed poa_bridge.GasPrice.from_str poa_bridge.Config.check_tls
    poa_bridge.Prelude.starts_with app_new_http connections_new_http poa_bridge.App.connected or_err
    unlocked password poa_bridge.Balance.chain_id_poll poa_bridge.Futures.drive
    poa_bridge.Balance.chain_id_round poa_bridge.Balance.create_chain_id_retrieval
    poa_bridge.Deploy.poll poa_bridge.Deploy.round poa_bridge.Deploy.create_deploy
    Process.create_bridge Process.create_bridge_event_stream Process.oracle_stream
    poa_bridge.Database.load
is_started = refl

started-Refines_example :
    (toml.from_str (bridge_of loaded).file ≡ some (bridge_of loaded).database)
    × ((m : ℕ)
        → Refines crates
            (bridge_of loaded).database
            (run_for (bridge_poll crates) m (bridge_of loaded)))
started-Refines_example =
    started-Refines crates answers 3 ("bridge" ∷ []) (bridge_of loaded) is_started

-- A node that refuses the connection.
abbrev answers_down : Answers (List ℕ) (List ℕ)
answers_down = record answers {
  libraries = record libraries { with_event_loop = λ url concurrency. inl (web3_io broken_pipe) };
}

abbrev refused : UserFacingError
refused = record {
  exit_code = err_cannot_connect;
  shown = message_error "Cannot connect to home node rpc";
}

is_refused : execute crates answers_down 3 ("bridge" ∷ []) ≡ exits refused
unfolding execute Reading.load_config config_from_load_struct node_from_load_struct
    poa_bridge.Config.load_speed poa_bridge.GasPrice.from_str poa_bridge.Config.check_tls
    poa_bridge.Prelude.starts_with app_new_http connections_new_http poa_bridge.App.connected
is_refused = refl

execute-Unconnected_example : (e : Error) × IsUnconnected answers_down ("bridge" ∷ []) e
execute-Unconnected_example =
    execute-Unconnected crates answers_down 3 ("bridge" ∷ []) refused is_refused refl
