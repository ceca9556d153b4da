-- ===== src/Execute/Main.antt =====
-- cli/src/main.rs: `main` and `print_err`, and with which status the process ends. What the error_chain
-- crate gives of an error, the texts of the error and of its causes, is a parameter.
use Prim.Native.String.{◌++◌ as concat}
use poa_bridge.Error.{Error}
use poa_bridge.Execute.{
  Answers, Outcome, printed, exits, panics, waits, execute, err_cannot_connect, err_unknown,
}
use poa_bridge.Execute.Exits.{execute-Exits}
use poa_bridge.Execute.Stages.{Exits}
use poa_bridge.ExitCode.Codes.{OneOf, failure_codes, user_facing-IsFailure}
use poa_bridge.Prelude.{ℕ, Bool, true, false, String, List, [], ◌∷◌, ◌≡◌, refl, inl, inr, arith}
use poa_bridge.Process

-- `join` of the slices' crate.
unfoldable pub join : String → List String → String
join separator [] = ""
join separator (text ∷ []) = text
join separator (text ∷ more ∷ texts) =
    concat text (concat separator (join separator (more ∷ texts)))

-- How the process ends: with a status and what it has printed, or by a panic, or not yet.
pub data Ending : Type 0 where
  exited : ℕ → String → Ending
  aborted still_running : Ending

module _ (texts : Error → List String) where
  unfoldable pub print_err : Error → String
  unfolding join
  print_err e = concat (join "\n\nCaused by:\n  " (texts e)) "\n"

  unfoldable pub conclude : Outcome → Ending
  unfolding print_err
  conclude (printed text) = exited 0 (concat text "\n")
  conclude (exits u) = exited u.exit_code (print_err u.shown)
  conclude panics = aborted
  conclude waits = still_running

  -- A handler that cannot be set is a panic, before anything else.
  unfoldable pub with_handler : Bool → Outcome → Ending
  unfolding conclude
  with_handler true outcome = conclude outcome
  with_handler false outcome = aborted

  unfoldable pub main :
      {N T K : Type 0} → Process.Crates N → Answers T K → ℕ → Bool → List String → Ending
  unfolding with_handler
  main crates answers n handler_set command =
      with_handler handler_set (execute crates answers n command)

-- The codes that the process can end with besides 0.
abbrev pub error_codes : List ℕ
error_codes = err_unknown ∷ err_cannot_connect ∷ failure_codes

-- Status 0 stands for a text, and every other one for an error, with its code.
abbrev pub Means : ℕ → Outcome → Type 0
Means status (printed text) = status ≡ 0
Means status (exits u) = (status ≡ u.exit_code) × OneOf status error_codes
Means status _ = ⊥

conclude-Means :
    (texts : Error → List String) (handler_set : Bool) (outcome : Outcome) (status : ℕ)
    (output : String)
    → Exits (λ code. OneOf code error_codes) outcome
    → with_handler texts handler_set outcome ≡ exited status output
    → Means status outcome
unfolding with_handler
conclude-Means texts false outcome status output h e = cc
conclude-Means texts true (printed text) status output h e = ground arith
conclude-Means texts true (exits u) status output h e =
    let same : status ≡ u.exit_code = ground arith in (same, rw same h)
conclude-Means texts true panics status output h e = cc
conclude-Means texts true waits status output h e = cc

-- Where the process ends with a status: if `execute` returned a text the status is 0, and if it
-- returned an error the status is the code of the error, one of the codes that the program lists, none
-- of which is 0. A panic or a bridge that still runs has no status of the program's.
pub main_status :
    {N T K : Type 0} (crates : Process.Crates N) (answers : Answers T K) (n : ℕ)
    (command : List String) (texts : Error → List String) (handler_set : Bool) (status : ℕ)
    (output : String)
    → main texts crates answers n handler_set command ≡ exited status output
    → Means status (execute crates answers n command)
unfolding main
main_status crates answers n command texts handler_set status output e =
    let IsCode : ℕ → Type 0 = λ code. OneOf code error_codes in
    conclude-Means texts handler_set (execute crates answers n command) status output
      (execute-Exits answers command IsCode (inl refl) (ground arith) (λ x h. inr (inl refl))
        (λ x. inr (inr (user_facing-IsFailure x))) crates n)
      e
