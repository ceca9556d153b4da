-- ===== src/Deploy/Resumes.antt =====
-- When bridge/src/bridge/deploy.rs deploys, and from where it resumes.
use poa_bridge.Prelude.{ℕ, ◌<◌, ◌≡◌, refl, arith}
use poa_bridge.Error.{Result, ok}
use poa_bridge.Futures.{ready}
use poa_bridge.Futures.Loop.{Runs, Lowers, stop, Runs-unique, drive-Runs}
use poa_bridge.Database.{Database, Toml, load}
use poa_bridge.Deploy.{
  Deploy, DeployState, existing, check_if_needed, deploying, database_loaded, receipts_arrived,
  round, round_in, poll,
}

abbrev stages : DeployState → ℕ
stages check_if_needed = 1
stages (deploying main_tx test_tx) = 0

stages-lt : (state : DeployState) → stages state < 2
stages-lt check_if_needed = omega arith
stages-lt (deploying main_tx test_tx) = omega arith

loaded-Lowers :
    (s : Deploy) (r : Result Database)
    → s.state ≡ check_if_needed
    → Lowers (λ t. stages t.state) s (database_loaded s r)
unfolding database_loaded
loaded-Lowers s r e = ground arith

received-Lowers :
    (s t : Deploy) (r : Result Database) → Lowers (λ t. stages t.state) s (receipts_arrived t r)
unfolding receipts_arrived
received-Lowers s t r = ground arith

module _ (toml : Toml) where
  round_in-Lowers :
      (state : DeployState) (s : Deploy)
      → s.state ≡ state
      → Lowers (λ t. stages t.state) s (round_in toml state s)
  unfolding round_in
  round_in-Lowers check_if_needed s e = loaded-Lowers s _ e
  round_in-Lowers (deploying main_tx test_tx) s e = ground arith

  -- A poll of the deployment ends: it returns what the program's loop returns, which has no bound on
  -- its rounds, and the loop goes round at most twice.
  pub deploy_poll-Runs : (s : Deploy) → Runs (round toml) (poll toml s).0 (poll toml s).1 s
  unfolding poll round
  deploy_poll-Runs s =
      drive-Runs (round toml) (λ t. stages t.state) (λ t. round_in-Lowers t.state t refl) 2 s
        (stages-lt s.state)

  pub existing_loaded :
      (s : Deploy) (database : Database)
      → s.state ≡ check_if_needed
      → load toml s.database_path s.database_file ≡ ok database
      → poll toml s ≡ (s, ready (existing database))
  unfolding round round_in database_loaded
  existing_loaded s database e loaded =
      Runs-unique (round toml) (deploy_poll-Runs s) refl (stop (rw (e, loaded) refl))
