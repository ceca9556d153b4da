-- ===== src/Execute/Exits.antt =====
-- When `execute` (cli/src/main.rs) says that it cannot connect.
use poa_bridge.Config.{Config}
use mathlib.Core.Path.{subst}
use poa_bridge.ExitCode.Causes.{user_facing-connected}
use poa_bridge.Error.{Error, ok, err}
use poa_bridge.Execute.{
  user_facing, err_io_error, err_unknown, UserFacingError, bridge_poll, run_for, Merged,
  BridgeEventStream, parsed, from_io_error, execute, ended_stage, started, deployed, database_of,
  saved_new, app_new_http, load_config, inr, Args, App, from_pair, from_string, String, Progress,
  from_error, initialized, connected, parsed_args, List, finished, asked, Answers, Stage, over,
  value, exits, tried, err_cannot_connect,
}
use poa_bridge.Execute.Starts.{tried-eq-value}
use poa_bridge.Balance.{chain_id_poll, create_chain_id_retrieval}
use poa_bridge.Execute.{event_loop_run}
use mathlib.Core.Logic.{◌⊎◌, inl, inr}
use poa_bridge.Process
use poa_bridge.Process.{Progress, running, ended, stopped, crashed}
use poa_bridge.Deploy.{Deployed, new, existing}
use poa_bridge.Database.{
  Bridge, Database, ReadOutcome, WriteOutcome, written, not_opened, write_failed,
}
use poa_bridge.Futures.{feed_poll, Poll, ready, not_ready, failed, panicked}
use poa_bridge.Prelude.{Bool-cases, ℕ, ◌≡◌, arith}
use poa_bridge.Execute.Stages.{Exits, Ends, >>=-Ends, tried-Ends, four-Ends}

module _ {T K : Type 0} (answers : Answers T K) where
  open answers use {libraries}

  -- The command line and the configuration are fine, and the application reports an error.
  pub record IsUnconnected (command : List String) (e : Error) : Type 0 where
    pub args : Args
    pub config : Config
    pub is_parsed : answers.parse_args command ≡ inr args
    pub is_loaded :
        load_config answers.from_toml
          (libraries.files args.arg_config)
          args.flag_allow_insecure_rpc_endpoints
        ≡ ok config
    pub is_refused : app_new_http libraries config args.arg_database ≡ err e

  parsed_args-eq-value :
      (p : String ⊎ Args) {args : Args} → parsed_args answers p ≡ value args → p ≡ inr args
  unfolding parsed_args
  parsed_args-eq-value (inl message) e = cc
  parsed_args-eq-value (inr args) e = elim (Bool-cases args.flag_version) [
    | inl v ↦ let e' = rw v at e in cc
    | inr v ↦ let e' = rw v at e in cc
  ]

  -- What holds of every exit code, by where the code comes from.
  module _ (command : List String) (P : ℕ → Type 0) (unknown : P err_unknown)
      (disk : P err_io_error)
      (refused : (e : Error) → IsUnconnected command e → P err_cannot_connect)
      (failing : (e : Error) → P (user_facing e).exit_code) where
    parsed_args-Ends : (p : String ⊎ Args) → Ends P (parsed_args answers p)
    unfolding parsed_args from_string
    parsed_args-Ends (inl message) = unknown
    parsed_args-Ends (inr args) = elim (Bool-cases args.flag_version) [
      | inl v ↦ rw v tt
      | inr v ↦ rw v tt
    ]

    connected-Ends :
        (args : Args) → answers.parse_args command ≡ inr args → Ends P (connected answers args)
    unfolding connected from_error from_pair
    connected-Ends args is_parsed =
        >>=-Ends P (tried from_error _) _ (tried-Ends P from_error _ (λ e is_err. unknown))
          (λ config loaded. tried-Ends P (from_pair err_cannot_connect) _ (λ e is_err.
            refused e (record {
              args = args;
              config = config;
              is_parsed = is_parsed;
              is_loaded = tried-eq-value _ _ loaded;
              is_refused = is_err;
            })))

    initialized-Ends : (n : ℕ) (app : App T K) → Ends P (initialized answers n app)
    unfolding initialized
    initialized-Ends n app =
        let ids = chain_id_poll answers.parse_u64 in
        four-Ends P (event_loop_run ids n (create_chain_id_retrieval answers.home_versions))
          (event_loop_run ids n (create_chain_id_retrieval answers.foreign_versions))
          (event_loop_run feed_poll n answers.home_counts)
          (event_loop_run feed_poll n answers.foreign_counts) _

    asked-Ends : {A : Type 0} (p : Poll A) → Ends P (asked p)
    unfolding asked from_error
    asked-Ends (ready a) = tt
    asked-Ends not_ready = tt
    asked-Ends (failed e) = unknown
    asked-Ends panicked = tt

    finished-Exits : {S : Type 0} (p : Progress S) → Exits P (finished p)
    unfolding finished
    finished-Exits (running s) = tt
    finished-Exits (ended s) = tt
    finished-Exits (stopped e) = failing e
    finished-Exits crashed = tt

    module _ {N : Type 0} (crates : Process.Crates N) (n : ℕ) where
      saved_new-Ends :
          (database : Database) (w : WriteOutcome) → Ends P (saved_new crates database w)
      unfolding saved_new from_io_error from_error
      saved_new-Ends database written = tt
      saved_new-Ends database (not_opened kind) = disk
      saved_new-Ends database (write_failed m kind) = unknown

      database_of-Ends :
          (file : ReadOutcome) (w : WriteOutcome) (d : Deployed)
          → Ends P (database_of crates file w d)
      unfolding database_of
      database_of-Ends file w (new database) = saved_new-Ends database w
      database_of-Ends file w (existing database) = tt

      deployed-Ends : (app : App T K) → Ends P (deployed crates answers n app)
      unfolding deployed
      deployed-Ends app =
          >>=-Ends P (asked _) _ (asked-Ends _)
            (λ d h. database_of-Ends (libraries.files app.database_path) answers.file_creation d)

      started-Ends : Ends P (started crates answers n command)
      unfolding started
      started-Ends =
          >>=-Ends P (parsed answers command) _ (parsed_args-Ends (answers.parse_args command))
            λ args is_parsed.
              >>=-Ends P (connected answers args) _
                (connected-Ends args (parsed_args-eq-value _ is_parsed))
                λ app is_connected.
                  >>=-Ends P (initialized answers n app) _ (initialized-Ends n app)
                    λ ready_app is_initialized.
                      >>=-Ends P (deployed crates answers n ready_app) _ (deployed-Ends ready_app)
                        λ saved is_deployed. tried-Ends P from_error _ (λ e is_err. unknown)

      ended-Exits :
          (s : Stage (Bridge (BridgeEventStream Merged)))
          → Ends P s
          → Exits P (ended_stage crates n s)
      unfolding ended_stage
      ended-Exits (over outcome) h = h
      ended-Exits (value b) h = finished-Exits (run_for (bridge_poll crates) n b)

      pub execute-Exits : Exits P (execute crates answers n command)
      unfolding execute
      execute-Exits = ended-Exits (started crates answers n command) started-Ends

module _ {N T K : Type 0} (crates : Process.Crates N) (answers : Answers T K) (n : ℕ) where
  -- Where `execute` exits with the code of a failed connection, the command line and the configuration
  -- are fine, and the application that is made of them reports an error.
  pub execute-Unconnected :
      (command : List String) (u : UserFacingError)
      → execute crates answers n command ≡ exits u
      → u.exit_code ≡ err_cannot_connect
      → (e : Error) × IsUnconnected answers command e
  execute-Unconnected command u e refused =
      let P : ℕ → Type 0 =
        λ code. code ≡ err_cannot_connect → (e : Error) × IsUnconnected answers command e in
      subst (Exits P) e
        (execute-Exits answers command P (λ h. absurd (omega arith)) (λ h. absurd (omega arith))
          (λ x is_unconnected h. (x, is_unconnected)) (λ x h. absurd (user_facing-connected x h))
          crates n)
        refused
