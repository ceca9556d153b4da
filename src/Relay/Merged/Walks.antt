-- ===== src/Relay/Merged/Walks.antt =====
-- Polls of the merged stream (bridge/src/bridge/mod.rs) that do not fail, as rounds of the three relays.
use poa_bridge.EventStream.{Cells}
use poa_bridge.Error.{Error}
use poa_bridge.Futures.{Poll, ready, not_ready, failed, panicked, map_err}
use poa_bridge.Prelude.{List, [], ◌∷◌, Bool, Option, none, some}
use poa_bridge.Relay.Confirm
use poa_bridge.Relay.Deposit
use poa_bridge.Relay.Merged.{
  Turn, deposit_turn, withdraw_turn, confirm_turn, Merged, settled, withdraw_crates, poll_turn,
  take_turns, merged_poll,
}
use poa_bridge.Relay.Rounds.{IsFine, Walks, Walks-refl, Walks-trans, drive-Walks}
use poa_bridge.Relay.Shared.{BridgeChecked}
use poa_bridge.Relay.Withdraw

module _ (crates : Confirm.Crates) where
  -- Each of the three relays has made some rounds that did not fail.
  pub record AllWalk (m m' : Merged) : Type 0 where
    pub deposits : Walks (Deposit.round crates.contracts) m.deposit m'.deposit
    pub withdraws : Walks (Withdraw.round (withdraw_crates crates)) m.withdraw m'.withdraw
    pub confirms : Walks (Confirm.round crates) m.confirm m'.confirm

  pub AllWalk-refl : (m : Merged) → AllWalk m m
  AllWalk-refl m = record {
    deposits = Walks-refl _ m.deposit;
    withdraws = Walks-refl _ m.withdraw;
    confirms = Walks-refl _ m.confirm;
  }

  pub AllWalk-trans : {m m' m'' : Merged} → AllWalk m m' → AllWalk m' m'' → AllWalk m m''
  AllWalk-trans w v = record {
    deposits = Walks-trans _ w.deposits v.deposits;
    withdraws = Walks-trans _ w.withdraws v.withdraws;
    confirms = Walks-trans _ w.confirms v.confirms;
  }

  IsFine-map_err : {A : Type 0} (f : Error → Error) (p : Poll A) → IsFine (map_err f p) → IsFine p
  IsFine-map_err f (ready a) h = h
  IsFine-map_err f not_ready h = h
  IsFine-map_err f (failed e) h = h
  IsFine-map_err f panicked h = h

  poll_turn-AllWalk :
      (turn : Turn) (c : Cells) (m : Merged)
      → IsFine (poll_turn crates turn c m).1
      → AllWalk m (poll_turn crates turn c m).0
  unfolding poll_turn Deposit.poll Withdraw.poll Confirm.poll
  poll_turn-AllWalk deposit_turn c m h = record {
    deposits =
        drive-Walks (Deposit.round crates.contracts) c.foreign _ m.deposit (IsFine-map_err _ _ h);
    withdraws = Walks-refl _ m.withdraw;
    confirms = Walks-refl _ m.confirm;
  }
  poll_turn-AllWalk withdraw_turn c m h = record {
    deposits = Walks-refl _ m.deposit;
    withdraws =
        drive-Walks (Withdraw.round (withdraw_crates crates)) c.home _ m.withdraw
          (IsFine-map_err _ _ h);
    confirms = Walks-refl _ m.confirm;
  }
  poll_turn-AllWalk confirm_turn c m h = record {
    deposits = Walks-refl _ m.deposit;
    withdraws = Walks-refl _ m.withdraw;
    confirms = drive-Walks (Confirm.round crates) c.foreign _ m.confirm (IsFine-map_err _ _ h);
  }

  settled-AllWalk :
      (m m' : Merged) (p : Poll (Option BridgeChecked))
      (later : Merged × Poll (Option BridgeChecked))
      → (IsFine p → AllWalk m m')
      → (IsFine later.1 → AllWalk m' later.0)
      → IsFine (settled m' p later).1
      → AllWalk m (settled m' p later).0
  unfolding settled
  settled-AllWalk m m' (ready (some check)) later w k h = w tt
  settled-AllWalk m m' (ready none) later w k h = AllWalk-trans (w tt) (k h)
  settled-AllWalk m m' not_ready later w k h = AllWalk-trans (w tt) (k h)
  settled-AllWalk m m' (failed e) later w k h = absurd h
  settled-AllWalk m m' panicked later w k h = absurd h

  take_turns-AllWalk :
      (turns : List Turn) (ended : Bool) (c : Cells) (m : Merged)
      → IsFine (take_turns crates turns ended c m).1
      → AllWalk m (take_turns crates turns ended c m).0
  unfolding take_turns
  take_turns-AllWalk [] ended c m h = AllWalk-refl m
  take_turns-AllWalk (turn ∷ turns) ended c m h =
      let polled = poll_turn crates turn c m in
      settled-AllWalk m polled.0 polled.1 (take_turns crates turns ended c polled.0)
        (λ k. poll_turn-AllWalk turn c m k) (λ k. take_turns-AllWalk turns ended c polled.0 k) h

  -- A poll of the merged stream that does not fail is some rounds of the relays.
  pub merged_poll-AllWalk :
      (c : Cells) (m : Merged)
      → IsFine (merged_poll crates c m).1
      → AllWalk m (merged_poll crates c m).0
  unfolding merged_poll
  merged_poll-AllWalk c m h =
      let walk = take_turns-AllWalk _ _ c _ h in
      record { deposits = walk.deposits; withdraws = walk.withdraws; confirms = walk.confirms }
