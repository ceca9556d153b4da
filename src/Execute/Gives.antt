-- ===== src/Execute/Gives.antt =====
-- What a chain of the stages of `execute` (cli/src/main.rs) gives when it succeeds.
use poa_bridge.Error
use poa_bridge.Error.{Error, err, panic, ok, Result, >>=-eq-ok}
use poa_bridge.Execute.{tried, UserFacingError, ◌>>=◌, Stage, value, over, expected}
use poa_bridge.Futures.{Poll}
use poa_bridge.Prelude.{ℕ}

-- What holds of the value of a stage, or of a result, if there is one.
abbrev pub Gives : {A : Type 0} → (A → Type 0) → Stage A → Type 0
Gives P (value a) = P a
Gives P (over outcome) = Unit

abbrev pub GivesOk : {A : Type 0} → (A → Type 0) → Result A → Type 0
GivesOk P (ok a) = P a
GivesOk P (err e) = Unit
GivesOk P panic = Unit

pub Gives-bind :
    {A B : Type 0} (P : B → Type 0) (s : Stage A) (rest : A → Stage B)
    → ((a : A) → Gives P (rest a))
    → Gives P (s >>= rest)
Gives-bind P (over outcome) rest k = tt
Gives-bind P (value a) rest k = k a

pub four-Gives :
    {C : Type 0} (P : C → Type 0) (p q r t : Poll ℕ) (make : ℕ → ℕ → C)
    → ((home_nonce foreign_nonce : ℕ) → P (make home_nonce foreign_nonce))
    → Gives P (do
      home_chain_id ← expected p
      foreign_chain_id ← expected q
      home_nonce ← expected r
      foreign_nonce ← expected t
      value (make home_nonce foreign_nonce))
four-Gives P p q r t make k = Gives-bind P (expected p) _ λ a. Gives-bind P (expected q) _ λ b.
    Gives-bind P (expected r) _ λ c. Gives-bind P (expected t) (λ d. value (make c d)) λ d. k c d

pub GivesOk-bind :
    {A B : Type 0} (P : B → Type 0) (r : Result A) (rest : A → Result B)
    → ((a : A) → GivesOk P (rest a))
    → GivesOk P (Error.◌>>=◌ r rest)
GivesOk-bind P (ok a) rest k = k a
GivesOk-bind P (err e) rest k = tt
GivesOk-bind P panic rest k = tt

pub Gives-tried :
    {A : Type 0} (P : A → Type 0) (convert : Error → UserFacingError) (r : Result A)
    → GivesOk P r
    → Gives P (tried convert r)
unfolding tried
Gives-tried P convert (ok a) h = h
Gives-tried P convert (err e) h = tt
Gives-tried P convert panic h = tt
