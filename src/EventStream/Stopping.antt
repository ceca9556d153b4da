-- ===== src/EventStream/Stopping.antt =====
-- How `BridgeEventStream` (bridge/src/bridge/mod.rs) stops at the next poll, in whatever state a poll has
-- left it, once the flag is down.
use poa_bridge.Balance
use poa_bridge.Balance.{BalanceCheck}
use poa_bridge.Balance.Loops.{balance_poll-NotEnded}
use poa_bridge.Error.{shutdown_requested}
use poa_bridge.EventStream.{
  round, poll, round_in, wait_round, next_item, balances_checked, wait, BridgeStatus, init, value,
  BridgeEventStream, BridgePoll, check_balances, home_checked, foreign_checked, both_known, or_else,
  try_bridge,
}
use poa_bridge.EventStream.Checks.{IsKnown, BothKnown}
use poa_bridge.EventStream.Gate.{event_poll-Runs, IsGuarded, IsGuardedIn}
use poa_bridge.Futures.{Poll, ready, not_ready, failed, panicked}
use poa_bridge.Futures.Loop.{Runs, Runs-unique, stop, next}
use poa_bridge.GasPrice.{Oracle}
use poa_bridge.Prelude.{ap, ◌≡◌, refl, ◌∙◌, ◌≢◌, ℕ, Bool, false, List, ◌∷◌, Option, none, some}

-- A poll that neither fails nor panics.
abbrev pub IsCalm : Poll (Option ℕ) → Type 0
IsCalm (failed e) = ⊥
IsCalm panicked = ⊥
IsCalm _ = Unit

-- Both balances are known, and the checks for new ones do not fail at the next poll.
abbrev pub KnowsBalances : {B : Type 0} → BridgeEventStream B → Type 0
KnowsBalances s =
    BothKnown s
    × IsCalm (Balance.poll s.home_balance_check).1
    × IsCalm (Balance.poll s.foreign_balance_check).1

calm_value :
    (p : Poll (Option ℕ)) → IsCalm p → p ≢ ready none → (v : Option ℕ) × (try_bridge p ≡ value v)
calm_value (ready (some a)) h k = (some a, refl)
calm_value (ready none) h k = absurd (k refl)
calm_value not_ready h k = (none, refl)
calm_value (failed e) h k = absurd h
calm_value panicked h k = absurd h

both_known-or_else :
    (v w home foreign : Option ℕ)
    → IsKnown home
    → IsKnown foreign
    → both_known (or_else v home) (or_else w foreign) ≡ ready none
unfolding both_known
both_known-or_else (some a) (some b) home foreign h k = refl
both_known-or_else (some a) none home (some b) h k = refl
both_known-or_else none (some b) (some a) foreign h k = refl
both_known-or_else none none (some a) (some b) h k = refl
both_known-or_else v none home none h k = absurd k
both_known-or_else none w none foreign h k = absurd h

-- What the checks leave: all but the checks and the balances stays.
abbrev after_checks :
    {B : Type 0}
    → BridgeEventStream B
    → BalanceCheck
    → BalanceCheck
    → Option ℕ
    → Option ℕ
    → BridgeEventStream B
after_checks s home foreign v w = record s {
  home_balance_check = home;
  foreign_balance_check = foreign;
  home_balance = or_else v s.home_balance;
  foreign_balance = or_else w s.foreign_balance;
}

check_balances-known :
    {B : Type 0} (s : BridgeEventStream B)
    → KnowsBalances s
    → (t : BridgeEventStream B) × (check_balances s ≡ (t, ready none))
      × (t.bridge ≡ s.bridge)
      × (t.running ≡ s.running)
unfolding check_balances home_checked foreign_checked
check_balances-known s ((home, foreign), calm_home, calm_foreign) =
    let (h, ph) = Balance.poll s.home_balance_check in
    let (f, pf) = Balance.poll s.foreign_balance_check in
    let (v, ev) = calm_value ph calm_home (balance_poll-NotEnded s.home_balance_check) in
    let (w, ew) = calm_value pf calm_foreign (balance_poll-NotEnded s.foreign_balance_check) in
    (
      after_checks s h f v w,
      rw (ev, ew, both_known-or_else v w s.home_balance s.foreign_balance home foreign) refl,
      refl,
      refl,
    )

module _ {N B : Type 0} (oracle : Oracle N) (poll_bridge : BridgePoll B) where
  -- The loop ends with the request to shut down, and the relays are not polled.
  abbrev IsStopping : BridgeEventStream B → Type 0
  IsStopping s =
      (t : BridgeEventStream B) × Runs (round oracle poll_bridge) t (failed shutdown_requested) s
      × (t.bridge ≡ s.bridge)

  in_state :
      (s : BridgeEventStream B) (state : BridgeStatus)
      → s.state ≡ state
      → round oracle poll_bridge s ≡ round_in oracle poll_bridge state s
  unfolding round
  in_state s state e = ap (λ (now : BridgeStatus). round_in oracle poll_bridge now s) e

  wait_stops :
      (s : BridgeEventStream B) (rest : List Bool)
      → s.state ≡ wait
      → s.running ≡ false ∷ rest
      → IsStopping s
  unfolding round_in wait_round
  wait_stops s rest e f = (record s { running = rest }, stop (in_state s wait e ∙ rw f refl), refl)

  init_stops :
      (s : BridgeEventStream B) (rest : List Bool)
      → s.state ≡ init
      → KnowsBalances s
      → s.running ≡ false ∷ rest
      → IsStopping s
  unfolding round_in balances_checked
  init_stops s rest e k f =
      let (t, checked, same, still) = check_balances-known s k in
      let (u, runs, left) = wait_stops (record t { state = wait }) rest refl (still ∙ f) in
      (u, next (in_state s init e ∙ rw checked refl) runs, left ∙ same)

  stops_in :
      (state : BridgeStatus) (s : BridgeEventStream B) (rest : List Bool)
      → s.state ≡ state
      → IsGuardedIn oracle poll_bridge state s
      → KnowsBalances s
      → s.running ≡ false ∷ rest
      → IsStopping s
  unfolding round_in
  stops_in init s rest e g k f = init_stops s rest e k f
  stops_in wait s rest e g k f = wait_stops s rest e f
  stops_in (next_item none) s rest e g k f =
      let (t, runs, same) = init_stops (record s { state = init }) rest refl k f in
      (t, next (in_state s (next_item none) e) runs, same)
  stops_in (next_item (some item)) s rest e g k f = absurd g

  -- Of a stream as a poll leaves it that knows both balances: where the flag is next read as down, and
  -- no check of a balance fails, the next poll fails with the request to shut down, and the relays are
  -- not polled.
  pub event_poll_stops :
      (s : BridgeEventStream B) (rest : List Bool)
      → IsGuarded oracle poll_bridge s
      → KnowsBalances s
      → s.running ≡ false ∷ rest
      → (t : BridgeEventStream B) × (poll oracle poll_bridge s ≡ (t, failed shutdown_requested))
        × (t.bridge ≡ s.bridge)
  event_poll_stops s rest g k f =
      let (t, runs, same) = stops_in s.state s rest refl g k f in
      (
        t,
        Runs-unique (round oracle poll_bridge) (event_poll-Runs oracle poll_bridge s) refl runs,
        same,
      )
