-- ===== src/Config.antt =====
-- bridge/src/config.rs: the configuration of the bridge, from what the file says (its `load` module) to
-- what the program uses. Without the `deploy` feature, which is off by default.
pub mod Loading
pub mod Reading
pub mod Deploying
use poa_bridge.GasPrice.{from_str, GasPriceSpeed, fast}
use poa_bridge.Prelude.{
  ℕ, String, Bool, not, ◌&&◌, Option, none, some, List, if◌then◌else◌, starts_with,
}
use poa_bridge.Error.{◌>>=◌, Result, ok, err, panic, config_error}
use poa_bridge.GasPrice
use Prim.Native.String.{◌++◌ as concat}

-- Some fields may be missing in the file.
pub record LoadNode : Type 0 where
  pub account : List ℕ
  pub request_timeout : Option ℕ
  pub poll_interval : Option ℕ
  pub required_confirmations : Option ℕ
  pub rpc_host : Option String
  pub rpc_port : Option ℕ
  pub password : String
  pub gas_price_oracle_url : Option String
  pub gas_price_speed : Option String
  pub gas_price_timeout : Option ℕ
  pub default_gas_price : Option ℕ
  pub concurrent_http_requests : Option ℕ

-- Durations in seconds; `nonce` is the shared cell of `NodeInfo`.
pub record Node : Type 0 where
  pub account : List ℕ
  pub request_timeout : ℕ
  pub poll_interval : ℕ
  pub required_confirmations : ℕ
  pub rpc_host : String
  pub rpc_port : ℕ
  pub password : String
  pub nonce : ℕ
  pub gas_price_oracle_url : Option String
  pub gas_price_speed : GasPriceSpeed
  pub gas_price_timeout : ℕ
  pub default_gas_price : ℕ
  pub concurrent_http_requests : ℕ

abbrev pub default_poll_interval : ℕ
default_poll_interval = 1

abbrev pub default_confirmations : ℕ
default_confirmations = 12

abbrev pub default_timeout : ℕ
default_timeout = 3600

abbrev pub default_rpc_port : ℕ
default_rpc_port = 8545

abbrev pub default_concurrency : ℕ
default_concurrency = 64

abbrev pub default_gas_price_speed : GasPriceSpeed
default_gas_price_speed = fast

abbrev pub default_gas_price_timeout_secs : ℕ
default_gas_price_timeout_secs = 10

abbrev pub default_gas_price_wei : ℕ
default_gas_price_wei = 15_000_000_000

abbrev pub unwrap_or {ℓ} : {A : Type ℓ} → Option A → A → A
unwrap_or (some a) d = a
unwrap_or none d = d

-- `unwrap`, which panics on a missing value.
abbrev pub unwrap {ℓ} : {A : Type ℓ} → Option A → Result A
unwrap (some a) = ok a
unwrap none = panic

unfoldable pub load_speed : Option String → Result GasPriceSpeed
load_speed (some s) = unwrap (GasPrice.from_str s)
load_speed none = ok default_gas_price_speed

-- The URL scheme that is required, unless insecure endpoints are allowed.
unfoldable pub check_tls : String → Bool → Result String
check_tls rpc_host allow_insecure_rpc_endpoints =
    if not (starts_with rpc_host "https://") && not allow_insecure_rpc_endpoints
    then err (config_error (concat "RPC endpoints must use TLS, " (concat rpc_host " doesn't")))
    else ok rpc_host

unfoldable pub node_from_load_struct : LoadNode → Bool → Result Node
node_from_load_struct node allow_insecure_rpc_endpoints = do
  speed ← load_speed node.gas_price_speed
  host ← unwrap node.rpc_host
  rpc_host ← check_tls host allow_insecure_rpc_endpoints
  ok (record {
    account = node.account;
    request_timeout = unwrap_or node.request_timeout default_timeout;
    poll_interval = unwrap_or node.poll_interval default_poll_interval;
    required_confirmations = unwrap_or node.required_confirmations default_confirmations;
    rpc_host = rpc_host;
    rpc_port = unwrap_or node.rpc_port default_rpc_port;
    password = node.password;
    nonce = 0;
    gas_price_oracle_url = node.gas_price_oracle_url;
    gas_price_speed = speed;
    gas_price_timeout = unwrap_or node.gas_price_timeout default_gas_price_timeout_secs;
    default_gas_price = unwrap_or node.default_gas_price default_gas_price_wei;
    concurrent_http_requests = unwrap_or node.concurrent_http_requests default_concurrency;
  })

pub record LoadTransactionConfig : Type 0 where
  pub gas : Option ℕ
  pub gas_price : Option ℕ

pub record TransactionConfig : Type 0 where
  pub gas : ℕ
  pub gas_price : ℕ

unfoldable pub transaction_config_from_load_struct : LoadTransactionConfig → TransactionConfig
transaction_config_from_load_struct cfg = record {
  gas = unwrap_or cfg.gas 0;
  gas_price = unwrap_or cfg.gas_price 0;
}

-- `cfg.map(TransactionConfig::from_load_struct).unwrap_or_default()`.
unfoldable pub transaction_config : Option LoadTransactionConfig → TransactionConfig
unfolding transaction_config_from_load_struct
transaction_config (some cfg) = transaction_config_from_load_struct cfg
transaction_config none = record { gas = 0; gas_price = 0 }

pub record LoadTransactions : Type 0 where
  pub deposit_relay : Option LoadTransactionConfig
  pub withdraw_confirm : Option LoadTransactionConfig
  pub withdraw_relay : Option LoadTransactionConfig

pub record Transactions : Type 0 where
  pub deposit_relay : TransactionConfig
  pub withdraw_confirm : TransactionConfig
  pub withdraw_relay : TransactionConfig

unfoldable pub transactions_from_load_struct : LoadTransactions → Transactions
unfolding transaction_config
transactions_from_load_struct cfg = record {
  deposit_relay = transaction_config cfg.deposit_relay;
  withdraw_confirm = transaction_config cfg.withdraw_confirm;
  withdraw_relay = transaction_config cfg.withdraw_relay;
}

unfoldable pub load_transactions : Option LoadTransactions → Transactions
unfolding transactions_from_load_struct
load_transactions (some cfg) = transactions_from_load_struct cfg
load_transactions none = record {
  deposit_relay = transaction_config none;
  withdraw_confirm = transaction_config none;
  withdraw_relay = transaction_config none;
}

pub record LoadConfig : Type 0 where
  pub home : LoadNode
  pub foreign : LoadNode
  pub transactions : Option LoadTransactions
  pub keystore : String

pub record Config : Type 0 where
  pub home : Node
  pub foreign : Node
  pub txs : Transactions
  pub keystore : String

unfoldable pub config_from_load_struct : LoadConfig → Bool → Result Config
config_from_load_struct config allow_insecure_rpc_endpoints = do
  home ← node_from_load_struct config.home allow_insecure_rpc_endpoints
  foreign ← node_from_load_struct config.foreign allow_insecure_rpc_endpoints
  ok (record {
    home = home;
    foreign = foreign;
    txs = load_transactions config.transactions;
    keystore = config.keystore;
  })
