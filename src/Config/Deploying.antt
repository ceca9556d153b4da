-- ===== src/Config/Deploying.antt =====
-- The settings that bridge/src/config.rs reads for the `deploy` feature only, and the contracts that
-- bridge/src/bridge/deploy.rs creates from them. In the program they stand in the other structures;
-- here they stand on their own, with the two files of byte code.
use poa_bridge.Config.{LoadTransactionConfig, TransactionConfig, transaction_config}
use poa_bridge.Database.{ReadOutcome, open_refused, read_failed, contents}
use poa_bridge.Deploy.{Creation}
use poa_bridge.Error.{Result, ok, err, ◌>>=◌, io, foreign_link}
use poa_bridge.Prelude.{ℕ, String, List, Option, some, none}

pub record ContractConfig : Type 0 where
  pub bin : List ℕ

pub record Authorities : Type 0 where
  pub accounts : List (List ℕ)
  pub required_signatures : ℕ

-- The contracts are named by the files of their byte code.
pub record LoadDeploy : Type 0 where
  pub home_contract : String
  pub foreign_contract : String
  pub authorities : Authorities
  pub home_deploy : Option LoadTransactionConfig
  pub foreign_deploy : Option LoadTransactionConfig
  pub estimated_gas_cost_of_withdraw : ℕ

pub record DeployConfig : Type 0 where
  pub home_contract : ContractConfig
  pub foreign_contract : ContractConfig
  pub authorities : Authorities
  pub home_deploy : TransactionConfig
  pub foreign_deploy : TransactionConfig
  pub estimated_gas_cost_of_withdraw : ℕ

-- `from_hex` is the hex crate's.
module _ (from_hex : List ℕ → Option (List ℕ)) where
  unfoldable pub decoded_bin : Option (List ℕ) → Result ContractConfig
  decoded_bin (some bytes) = ok (record { bin = bytes })
  decoded_bin none = err (foreign_link "Hex")

  unfoldable pub contract_config : ReadOutcome → Result ContractConfig
  unfolding decoded_bin
  contract_config (open_refused kind) = err (io kind)
  contract_config (read_failed kind) = err (io kind)
  contract_config (contents text) = decoded_bin (from_hex text)

  unfoldable pub deploy_config : (String → ReadOutcome) → LoadDeploy → Result DeployConfig
  unfolding contract_config
  deploy_config files cfg = do
    home_contract ← contract_config (files cfg.home_contract)
    foreign_contract ← contract_config (files cfg.foreign_contract)
    ok (record {
      home_contract = home_contract;
      foreign_contract = foreign_contract;
      authorities = cfg.authorities;
      home_deploy = transaction_config cfg.home_deploy;
      foreign_deploy = transaction_config cfg.foreign_deploy;
      estimated_gas_cost_of_withdraw = cfg.estimated_gas_cost_of_withdraw;
    })

-- A constructor of the generated bindings: byte code, signatures, authorities and the cost of a
-- withdrawal make the data of a creation.
abbrev pub Constructor : Type 0
Constructor = List ℕ → ℕ → List (List ℕ) → ℕ → List ℕ

unfoldable pub creation : Constructor → ContractConfig → TransactionConfig → DeployConfig → Creation
creation constructor contract tx config = record {
  gas = tx.gas;
  gas_price = tx.gas_price;
  constructor =
      constructor contract.bin config.authorities.required_signatures config.authorities.accounts
        config.estimated_gas_cost_of_withdraw;
}

-- The home contract's and the foreign contract's.
unfoldable pub creations : Constructor → Constructor → DeployConfig → Creation × Creation
unfolding creation
creations home_bridge foreign_bridge config = (
  creation home_bridge config.home_contract config.home_deploy config,
  creation foreign_bridge config.foreign_contract config.foreign_deploy config,
)
