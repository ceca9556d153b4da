-- ===== src/EventStream/Checks.antt =====
-- What polling the balances leaves behind in `BridgeEventStream` (bridge/src/bridge/mod.rs).
use poa_bridge.EventStream.{
  Tried, home_checked, early, try_bridge, value, foreign_checked, BridgeEventStream, check_balances,
}
use poa_bridge.Prelude.{ℕ, ◌≡◌, refl, ◌≢◌, Option, none, some, arith}
use poa_bridge.Futures.{Poll, ready, not_ready, failed, panicked}
use poa_bridge.Balance
use poa_bridge.Balance.Loops.{balance_poll-NotEnded}

abbrev pub IsKnown : Option ℕ → Type 0
IsKnown (some balance) = Unit
IsKnown none = ⊥

abbrev pub BothKnown : {B : Type 0} → BridgeEventStream B → Type 0
BothKnown s = IsKnown s.home_balance × IsKnown s.foreign_balance

-- What polling the checks leaves alone.
abbrev pub SameFlow : {B : Type 0} → BridgeEventStream B → BridgeEventStream B → Type 0
SameFlow s t = (t.state ≡ s.state) × (t.bridge ≡ s.bridge) × (t.running ≡ s.running)

abbrev pub Checked :
    {B : Type 0} → BridgeEventStream B → BridgeEventStream B × Poll (Option (Unit {0})) → Type 0
Checked s (t, ready r) = SameFlow s t × BothKnown t
Checked s (t, p) = SameFlow s t

abbrev NotEnded : Tried ℕ → Type 0
NotEnded (early (ready r)) = ⊥
NotEnded _ = Unit

tried-NotEnded : (p : Poll (Option ℕ)) → p ≢ ready none → NotEnded (try_bridge p)
tried-NotEnded (ready (some v)) h = tt
tried-NotEnded (ready none) h = absurd (h refl)
tried-NotEnded not_ready h = tt
tried-NotEnded (failed e) h = tt
tried-NotEnded panicked h = tt

foreign-Checked :
    {B : Type 0} (s : BridgeEventStream B) (v : Tried ℕ)
    → NotEnded v
    → Checked s (foreign_checked s v)
unfolding foreign_checked
foreign-Checked s (value v) h = ground arith
foreign-Checked s (early (ready r)) h = absurd h
foreign-Checked s (early not_ready) h = (refl, refl, refl)
foreign-Checked s (early (failed e)) h = (refl, refl, refl)
foreign-Checked s (early panicked) h = (refl, refl, refl)

home-Checked :
    {B : Type 0} (s : BridgeEventStream B) (v : Tried ℕ) → NotEnded v → Checked s (home_checked s v)
unfolding home_checked
home-Checked s (value v) h =
    foreign-Checked _ (try_bridge (Balance.poll s.foreign_balance_check).1)
      (tried-NotEnded _ (balance_poll-NotEnded s.foreign_balance_check))
home-Checked s (early (ready r)) h = absurd h
home-Checked s (early not_ready) h = (refl, refl, refl)
home-Checked s (early (failed e)) h = (refl, refl, refl)
home-Checked s (early panicked) h = (refl, refl, refl)

pub check_balances-Checked : {B : Type 0} (s : BridgeEventStream B) → Checked s (check_balances s)
unfolding check_balances
check_balances-Checked s =
    home-Checked _ (try_bridge (Balance.poll s.home_balance_check).1)
      (tried-NotEnded _ (balance_poll-NotEnded s.home_balance_check))
