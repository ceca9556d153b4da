-- ===== src/Execute/Reopened.antt =====
-- The database with which the program (cli/src/main.rs: `execute`) starts where its file holds one.
use poa_bridge.Execute.Gives.{Gives, Gives-bind, four-Gives, GivesOk-bind, Gives-tried}
use poa_bridge.Relay.Merged.{Merged}
use poa_bridge.Process.Created.{created-IsBacked}
use poa_bridge.Process.Relayed.{IsFresh, created-IsFresh}
use poa_bridge.Balance.{chain_id_poll, create_chain_id_retrieval}
use mathlib.Core.Path.{subst}
use poa_bridge.App.{connections_new_http, or_err, unlocked, App, app_new_http}
use poa_bridge.Database.{Toml, Bridge, Database, contents, load, parse}
use poa_bridge.Deploy
use poa_bridge.Deploy.{Deployed, create_deploy, existing}
use poa_bridge.Deploy.Resumes.{existing_loaded}
use poa_bridge.Error.{err, message_error, key_store, ok, Result}
use poa_bridge.EventStream.{BridgeEventStream}
use poa_bridge.Execute.{
  tried, from_error, from_pair, err_cannot_connect, Answers, Args, started, value, connected,
  initialized, deployed, parsed, parsed_args, event_loop_run, asked, database_of,
}
use poa_bridge.Execute.Starts.{>>=-eq-value, tried-eq-value, asked-eq-value}
use poa_bridge.Futures.{Poll, ready, feed_poll}
use poa_bridge.Prelude.{
  ℕ, zero, suc, ◌≡◌, refl, ap, ◌∙◌, inl, inr, List, String, Option, some, none, Bool-cases,
}
use poa_bridge.Process

module _ {T K : Type 0} (answers : Answers T K) where
  version-args :
      (args : Args) {args' : Args} → parsed_args answers (inr args) ≡ value args' → args' ≡ args
  unfolding parsed_args
  version-args args e = elim (Bool-cases args.flag_version) [
    | inl t ↦ let e' = rw t at e in cc
    | inr f ↦ let e' = rw f at e in cc
  ]

read_text :
    (toml : Toml) (text : List ℕ) (database : Database)
    → toml.from_str text ≡ some database
    → parse toml text ≡ ok database
unfolding parse
read_text toml text database e =
    ap
      (λ (o : Option Database). elim o as (λ _. Result Database) [
        | some db ↦ ok db
        | none ↦ err (message_error "Cannot parse database")
      ])
      e

module _ {S A : Type 0} (poll : S → S × Poll A) where
  -- A future that is ready at its first poll, on the event loop.
  run-ready :
      (n : ℕ) (s : S) (a : A) {b : A}
      → (poll s).1 ≡ ready a
      → event_loop_run poll n s ≡ ready b
      → b ≡ a
  unfolding event_loop_run
  run-ready zero s a at h = cc
  run-ready (suc n) s a at h = let h' = rw at at h in cc

module _ {N T K : Type 0} (crates : Process.Crates N) (answers : Answers T K) (n : ℕ) where
  open answers use {libraries}
  open crates use {toml}

  -- A database that is in the file is the one that the program goes on with.
  deployed_existing :
      (app : App T K) (saved : Database × List ℕ) (database : Database) (text : List ℕ)
      → libraries.files app.database_path ≡ contents text
      → toml.from_str text ≡ some database
      → deployed crates answers n app ≡ value saved
      → saved.0 ≡ database
  unfolding deployed create_deploy database_of load parse
  deployed_existing app saved database text in_file is_text e =
      let file = libraries.files app.database_path in
      let start =
        create_deploy app.database_path file answers.home_creation answers.foreign_creation
          answers.receipts in
      let loaded : load toml app.database_path file ≡ ok database =
        rw in_file (read_text toml text database is_text) in
      let first : (Deploy.poll toml start).1 ≡ ready (existing database) =
        ap (λ (r : Deploy.Deploy × Poll Deployed). r.1)
          (existing_loaded toml start database refl loaded) in
      let (d, is_ready, e') =
        >>=-eq-value (asked (event_loop_run (Deploy.poll toml) n start)) _ e in
      let same : d ≡ existing database =
        run-ready (Deploy.poll toml) n start (existing database) first
          (asked-eq-value _ is_ready) in
      let e'' = rw same at e' in cc

  -- The path is that of the command line.
  connected-path :
      (args : Args) → Gives (λ app. app.database_path ≡ args.arg_database) (connected answers args)
  unfolding connected app_new_http
  connected-path args =
      let P : App T K → Type 0 = λ app. app.database_path ≡ args.arg_database in
      Gives-bind P (tried from_error _) _ λ config. Gives-tried P (from_pair err_cannot_connect) _ (
        GivesOk-bind P (connections_new_http libraries _ _ _ _) _ λ connections.
          GivesOk-bind P (or_err key_store _) _ λ keystore.
            GivesOk-bind P (unlocked libraries keystore config.home) _ λ with_home.
              GivesOk-bind P (unlocked libraries with_home config.foreign) _ λ with_both. refl)

  initialized-path :
      (app : App T K)
      → Gives (λ ready_app. ready_app.database_path ≡ app.database_path) (initialized answers n app)
  unfolding initialized
  initialized-path app =
      let ids = chain_id_poll answers.parse_u64 in
      four-Gives {C = App T K} (λ ready_app. ready_app.database_path ≡ app.database_path)
        (event_loop_run ids n (create_chain_id_retrieval answers.home_versions))
        (event_loop_run ids n (create_chain_id_retrieval answers.foreign_versions))
        (event_loop_run feed_poll n answers.home_counts)
        (event_loop_run feed_poll n answers.foreign_counts)
        (λ home_nonce foreign_nonce. record app {
          config = record (app.config) {
            home = record (app.config.home) { nonce = home_nonce };
            foreign = record (app.config.foreign) { nonce = foreign_nonce };
          };
        })
        λ home_nonce foreign_nonce. refl

  -- The database of a bridge that is started where the file holds one.
  pub started_database :
      (command : List String) (args : Args) (text : List ℕ) (database : Database)
      (b : Bridge (BridgeEventStream Merged))
      → answers.parse_args command ≡ inr args
      → libraries.files args.arg_database ≡ contents text
      → toml.from_str text ≡ some database
      → started crates answers n command ≡ value b
      → (b.database ≡ database) × IsFresh b.database b.event_stream.bridge
  unfolding started parsed parsed_args
  started_database command args text database b is_args in_file is_text e =
      let (args', first, e1) = >>=-eq-value (parsed answers command) _ e in
      let same_args : args' ≡ args =
        version-args answers args
          (subst (λ r. parsed_args answers r ≡ value args') is_args first) in
      let (app, second, e2) = >>=-eq-value (connected answers args') _ e1 in
      let (ready_app, third, e3) = >>=-eq-value (initialized answers n app) _ e2 in
      let (saved, fourth, e4) = >>=-eq-value (deployed crates answers n ready_app) _ e3 in
      let P : App T K → Type 0 = λ a. a.database_path ≡ args'.arg_database in
      let path : app.database_path ≡ args'.arg_database =
        subst (Gives P) second (connected-path args') in
      let Q : App T K → Type 0 = λ a. a.database_path ≡ app.database_path in
      let path' : ready_app.database_path ≡ app.database_path =
        subst (Gives Q) third (initialized-path app) in
      let whole : ready_app.database_path ≡ args.arg_database =
        path' ∙ path ∙ ap (λ (a : Args). a.arg_database) same_args in
      let held =
        deployed_existing ready_app saved database text (ap libraries.files whole ∙ in_file) is_text
          fourth in
      let made = tried-eq-value _ _ e4 in
      let (backed, same, _, _) =
        created-IsBacked answers.is_uri crates ready_app.config saved.0 saved.1 answers.replies b
          made in
      (
        same ∙ held,
        created-IsFresh answers.is_uri ready_app.config saved.0 saved.1 answers.replies b made,
      )
