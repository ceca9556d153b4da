-- ===== src/Execute/Starts.antt =====
-- The bridge that `execute` (cli/src/main.rs) starts.
use poa_bridge.Config.{Config}
use poa_bridge.Execute.{
  or_later, bytes_of, Stage, over, value, ◌>>=◌, tried, started, database_of, saved_new, deployed,
  connected, initialized, parsed, event_loop_run, asked, Answers,
}
use poa_bridge.App.{App}
use poa_bridge.Database.{
  Database, Bridge, Toml, load, parse, ReadOutcome, contents, open_refused, read_failed,
  WriteOutcome, written, not_opened, write_failed,
}
use poa_bridge.Deploy
use poa_bridge.Deploy.{Deploy, Deployed, new, existing, create_deploy}
use poa_bridge.Deploy.Existing.{IsInFile, IsAbout, Tells, deploy_poll-Tells}
use poa_bridge.Error.{message_error, not_found, Error, Result, ok, err, panic}
use poa_bridge.EventStream.{BridgeEventStream}
use poa_bridge.ExitCode.{UserFacingError}
use poa_bridge.Futures.{Poll, ready, not_ready, failed, panicked}
use mathlib.Core.Path.{◌∙◌, ap, subst, sym}
use poa_bridge.Prelude.{ℕ, zero, suc, ◌≡◌, refl, String, List, Option, some, none}
use poa_bridge.Process
use poa_bridge.Process.{run_for, bridge_poll, create_bridge}
use poa_bridge.Process.Checkpoints.{Refines}
use poa_bridge.Process.Created.{created-Refines, created-IsBacked}
use poa_bridge.Relay.Merged.{Merged}

-- What a successful chain has done.
pub >>=-eq-value :
    {A B : Type 0} (s : Stage A) (rest : A → Stage B) {b : B}
    → (s >>= rest) ≡ value b
    → (a : A) × (s ≡ value a) × (rest a ≡ value b)
>>=-eq-value (over outcome) rest e = cc
>>=-eq-value (value a) rest e = (a, refl, e)

pub tried-eq-value :
    {A : Type 0} (convert : Error → UserFacingError) (r : Result A) {a : A}
    → tried convert r ≡ value a
    → r ≡ ok a
unfolding tried
tried-eq-value convert (ok a) e = cc
tried-eq-value convert (err x) e = cc
tried-eq-value convert panic e = cc

pub asked-eq-value : {A : Type 0} (p : Poll A) {a : A} → asked p ≡ value a → p ≡ ready a
unfolding asked
asked-eq-value (ready a) e = cc
asked-eq-value not_ready e = cc
asked-eq-value (failed x) e = cc
asked-eq-value panicked e = cc

module _ (toml : Toml) where
  -- The two cases of `parse`.
  parsed_option :
      (o : Option Database) (database : Database)
      → elim o as (λ _. Result Database) [
        | some db ↦ ok db
        | none ↦ err (message_error "Cannot parse database")
      ]
        ≡ ok database
      → o ≡ some database
  parsed_option (some db) database e = cc
  parsed_option none database e = cc

  parsed_text :
      (text : List ℕ) (database : Database)
      → parse toml text ≡ ok database
      → toml.from_str text ≡ some database
  unfolding parse
  parsed_text text database e = parsed_option (toml.from_str text) database e

  opened_text :
      (path : String) (file : ReadOutcome) (database : Database)
      → load toml path file ≡ ok database
      → toml.from_str (bytes_of file) ≡ some database
  unfolding load
  opened_text path (open_refused not_found) database e = cc
  opened_text path (open_refused kind) database e = cc
  opened_text path (read_failed kind) database e = cc
  opened_text path (contents text) database e = parsed_text text database e

module _ (toml : Toml) (path : String) (file : ReadOutcome) where
  abbrev InFile : Poll Deployed → Type 0
  InFile (ready deployed) = IsInFile toml path file deployed
  InFile _ = Unit

  later-InFile :
      (s : Deploy.Deploy) (p later : Poll Deployed)
      → Tells toml path file s p
      → (IsAbout toml path file s → InFile later)
      → InFile (or_later p later)
  later-InFile s (ready d) later h k = h.1
  later-InFile s not_ready later h k = k h
  later-InFile s (failed e) later h k = tt
  later-InFile s panicked later h k = tt

  run-InFile :
      (n : ℕ) (s : Deploy.Deploy)
      → IsAbout toml path file s
      → InFile (event_loop_run (Deploy.poll toml) n s)
  unfolding event_loop_run
  run-InFile zero s h = tt
  run-InFile (suc n) s h =
      let polled = Deploy.poll toml s in
      later-InFile polled.0 polled.1 _ (deploy_poll-Tells toml path file s h)
        (run-InFile n polled.0)

module _ {N T K : Type 0} (crates : Process.Crates N) (answers : Answers T K) (n : ℕ) where
  open crates use {toml}

  abbrev IsOnDisk : Stage (Database × List ℕ) → Type 0
  IsOnDisk (value saved) = toml.from_str saved.1 ≡ some saved.0
  IsOnDisk (over outcome) = Unit

  saved_new-IsOnDisk :
      (database : Database) (w : WriteOutcome) → IsOnDisk (saved_new crates database w)
  unfolding saved_new
  saved_new-IsOnDisk database written = toml.from_str-to_string database
  saved_new-IsOnDisk database (not_opened kind) = tt
  saved_new-IsOnDisk database (write_failed m kind) = tt

  database_of-IsOnDisk :
      (path : String) (file : ReadOutcome) (w : WriteOutcome) (d : Deployed)
      → IsInFile toml path file d
      → IsOnDisk (database_of crates file w d)
  unfolding database_of
  database_of-IsOnDisk path file w (new database) h = saved_new-IsOnDisk database w
  database_of-IsOnDisk path file w (existing database) h = opened_text toml path file database h

  deployed-IsOnDisk :
      (app : App T K) (saved : Database × List ℕ)
      → deployed crates answers n app ≡ value saved
      → toml.from_str saved.1 ≡ some saved.0
  unfolding deployed create_deploy
  deployed-IsOnDisk app saved e =
      let file = answers.libraries.files app.database_path in
      let start =
        create_deploy app.database_path file answers.home_creation answers.foreign_creation
          answers.receipts in
      let p = event_loop_run (Deploy.poll toml) n start in
      let (d, is_ready, e') = >>=-eq-value (asked p) _ e in
      let there : InFile toml app.database_path file p =
        run-InFile toml app.database_path file n start (refl, refl) in
      let known : IsInFile toml app.database_path file d =
        subst (InFile toml app.database_path file) (asked-eq-value p is_ready) there in
      subst IsOnDisk e' (database_of-IsOnDisk app.database_path file answers.file_creation d known)

  created-Starts :
      (config : Config) (saved : Database × List ℕ) (b : Bridge (BridgeEventStream Merged))
      → create_bridge answers.is_uri config saved.0 saved.1 answers.replies ≡ ok b
      → toml.from_str saved.1 ≡ some saved.0
      → (toml.from_str b.file ≡ some b.database)
        × ((m : ℕ) → Refines crates b.database (run_for (bridge_poll crates) m b))
  created-Starts config saved b made on_disk =
      let (backed, same, in_file, disk) =
        created-IsBacked answers.is_uri crates config saved.0 saved.1 answers.replies b made in
      (
        ap toml.from_str in_file ∙ on_disk ∙ ap some (sym same),
        λ m.
            subst (λ d. Refines crates d (run_for (bridge_poll crates) m b)) (sym same)
              (created-Refines answers.is_uri crates config saved.0 saved.1 answers.replies b made
                m),
      )

  -- The bridge that is started is created from a database whose text is in the file.
  pub started-created :
      (command : List String) (b : Bridge (BridgeEventStream Merged))
      → started crates answers n command ≡ value b
      → (config : Config) × (saved : Database × List ℕ) × (create_bridge answers.is_uri config
            saved.0 saved.1 answers.replies
          ≡ ok b)
        × (toml.from_str saved.1 ≡ some saved.0)
  unfolding started
  started-created command b e =
      let (args, first, e1) = >>=-eq-value (parsed answers command) _ e in
      let (app, second, e2) = >>=-eq-value (connected answers args) _ e1 in
      let (ready_app, third, e3) = >>=-eq-value (initialized answers n app) _ e2 in
      let (saved, fourth, e4) = >>=-eq-value (deployed crates answers n ready_app) _ e3 in
      (ready_app.config, saved, tried-eq-value _ _ e4, deployed-IsOnDisk ready_app saved fourth)

  -- The bridge that the program starts holds the database that its file holds, a new or an old one.
  -- Polled any number of times, whatever it is then answered, it has a database that raising single
  -- checkpoints reaches from that one, unless it has failed.
  pub started-Refines :
      (command : List String) (b : Bridge (BridgeEventStream Merged))
      → started crates answers n command ≡ value b
      → (toml.from_str b.file ≡ some b.database)
        × ((m : ℕ) → Refines crates b.database (run_for (bridge_poll crates) m b))
  started-Refines command b e =
      let (config, saved, made, on_disk) = started-created command b e in
      created-Starts config saved b made on_disk
