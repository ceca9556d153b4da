-- ===== src/Deploy/Existing.antt =====
-- Which database a poll of bridge/src/bridge/deploy.rs says that there is: the one in the file.
use poa_bridge.Prelude.{◌≡◌, refl, String}
use poa_bridge.Error.{Result, ok, err, panic, missing_file}
use poa_bridge.Futures.{poll_feed, Poll, ready, not_ready, failed, panicked, try_ready}
use poa_bridge.Futures.Loop.{Keeps, Runs-Keeps}
use poa_bridge.Database.{Database, Toml, ReadOutcome, load}
use poa_bridge.Deploy.{
  deployed_database, Deploy, Deployed, DeployState, existing, new, check_if_needed, deploying,
  database_loaded, receipts_arrived, round, round_in, poll, TransactionReceipt,
}
use poa_bridge.Deploy.Resumes.{deploy_poll-Runs}

module _ (toml : Toml) (path : String) (file : ReadOutcome) where
  -- The deployment looks at the file.
  abbrev pub IsAbout : Deploy → Type 0
  IsAbout s = (s.database_path ≡ path) × (s.database_file ≡ file)

  abbrev pub IsInFile : Deployed → Type 0
  IsInFile (existing database) = load toml path file ≡ ok database
  IsInFile (new database) = Unit

  abbrev pub Tells : Deploy → Poll Deployed → Type 0
  Tells s (ready deployed) = IsAbout s × IsInFile deployed
  Tells s _ = IsAbout s

  loaded-Keeps :
      (s : Deploy) (r : Result Database)
      → IsAbout s
      → load toml path file ≡ r
      → Keeps IsAbout Tells (database_loaded s r)
  unfolding database_loaded
  loaded-Keeps s (ok database) h e = (h, e)
  loaded-Keeps s (err (missing_file p)) h e = h
  loaded-Keeps s (err x) h e = h
  loaded-Keeps s panic h e = h

  received-Keeps :
      (s : Deploy) (r : Result Database) → IsAbout s → Keeps IsAbout Tells (receipts_arrived s r)
  unfolding receipts_arrived
  received-Keeps s (ok database) h = (h, tt)
  received-Keeps s (err x) h = h
  received-Keeps s panic h = h

  answered-Keeps :
      (s : Deploy) (p : Poll (TransactionReceipt × TransactionReceipt))
      → IsAbout s
      → Keeps IsAbout Tells
          (try_ready p s (λ receipts. receipts_arrived s (deployed_database receipts.0 receipts.1)))
  answered-Keeps s (ready receipts) h = received-Keeps s _ h
  answered-Keeps s not_ready h = h
  answered-Keeps s (failed e) h = h
  answered-Keeps s panicked h = h

  round_in-Keeps :
      (state : DeployState) (s : Deploy) → IsAbout s → Keeps IsAbout Tells (round_in toml state s)
  unfolding round_in
  round_in-Keeps check_if_needed s h = loaded-Keeps s _ h (rw (h.0, h.1) refl)
  round_in-Keeps (deploying main_tx test_tx) s h =
      answered-Keeps (record s { receipts = (poll_feed s.receipts).1 }) (poll_feed s.receipts).0 h

  -- A poll of a deployment that looks at a file, when it says that a database exists, says the one
  -- that the file gives.
  pub deploy_poll-Tells : (s : Deploy) → IsAbout s → Tells (poll toml s).0 (poll toml s).1
  unfolding round
  deploy_poll-Tells s h =
      Runs-Keeps (round toml) IsAbout Tells (λ t. round_in-Keeps t.state t)
        (deploy_poll-Runs toml s) h
