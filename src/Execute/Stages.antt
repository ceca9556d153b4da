-- ===== src/Execute/Stages.antt =====
-- The stages of `execute` (cli/src/main.rs) by the exit codes that they end with.
use poa_bridge.Error.{Error, Result, ok, err, panic}
use poa_bridge.Execute.{Stage, over, value, ◌>>=◌, Outcome, exits, tried, expected}
use poa_bridge.ExitCode.{UserFacingError}
use poa_bridge.Futures.{Poll, ready, not_ready, failed, panicked}
use poa_bridge.Prelude.{ℕ, ◌≡◌, refl}

-- What holds of the exit code, if there is one.
abbrev pub Exits : (ℕ → Type 0) → Outcome → Type 0
Exits P (exits u) = P u.exit_code
Exits P _ = Unit

-- The same of a stage, where a value is no end.
abbrev pub Ends : {A : Type 0} → (ℕ → Type 0) → Stage A → Type 0
Ends P (over outcome) = Exits P outcome
Ends P (value a) = Unit

pub >>=-Ends :
    {A B : Type 0} (P : ℕ → Type 0) (s : Stage A) (rest : A → Stage B)
    → Ends P s
    → ((a : A) → s ≡ value a → Ends P (rest a))
    → Ends P (s >>= rest)
>>=-Ends P (over outcome) rest h k = h
>>=-Ends P (value a) rest h k = k a refl

pub tried-Ends :
    {A : Type 0} (P : ℕ → Type 0) (convert : Error → UserFacingError) (r : Result A)
    → ((e : Error) → r ≡ err e → P (convert e).exit_code)
    → Ends P (tried convert r)
unfolding tried
tried-Ends P convert (ok a) h = tt
tried-Ends P convert (err e) h = h e refl
tried-Ends P convert panic h = tt

expected-Ends : {A : Type 0} (P : ℕ → Type 0) (p : Poll A) → Ends P (expected p)
unfolding expected
expected-Ends P (ready a) = tt
expected-Ends P not_ready = tt
expected-Ends P (failed e) = tt
expected-Ends P panicked = tt

-- A chain of futures whose failures are panics has no exit code.
pub four-Ends :
    {C : Type 0} (P : ℕ → Type 0) (p q r t : Poll ℕ) (make : ℕ → ℕ → C)
    → Ends P (do
      home_chain_id ← expected p
      foreign_chain_id ← expected q
      home_nonce ← expected r
      foreign_nonce ← expected t
      value (make home_nonce foreign_nonce))
four-Ends P p q r t make = >>=-Ends P (expected p) _ (expected-Ends P p) λ a is_a.
    >>=-Ends P (expected q) _ (expected-Ends P q) λ b is_b.
      >>=-Ends P (expected r) _ (expected-Ends P r)
        λ c is_c. >>=-Ends P (expected t) (λ d. value (make c d)) (expected-Ends P t) λ d is_d. tt
