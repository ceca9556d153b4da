-- ===== src/Relay/Merged/Rising.antt =====
-- The reports of the three relays together (bridge/src/bridge/mod.rs), against the checkpoints.
use poa_bridge.Prelude.{◌<◌, List, [], ◌∷◌, Bool, true, false, Option, none, some}
use poa_bridge.Futures.{Poll, ready, not_ready, failed, panicked, map_err}
use poa_bridge.Relay.Shared.{
  BridgeChecked, deposit_relay, withdraw_relay, withdraw_confirm, in_context,
}
use poa_bridge.Database.{Database, checked}
use poa_bridge.EventStream.{Cells}
use poa_bridge.Relay.Deposit
use poa_bridge.Relay.Deposit.Checked.{deposit_poll-Reports}
use poa_bridge.Relay.Confirm
use poa_bridge.Relay.Confirm.Checked.{confirm_poll-Reports}
use poa_bridge.Relay.Withdraw
use poa_bridge.Relay.Withdraw.Checked.{withdraw_poll-Reports}
use poa_bridge.Relay.Merged.{
  Turn, deposit_turn, withdraw_turn, confirm_turn, Merged, settled, withdraw_crates, poll_turn,
  take_turns, merged_poll, at_end,
}

-- The block of a report is above the checkpoint of its relay.
abbrev pub Rises : BridgeChecked → Database → Type 0
Rises (deposit_relay n) db = db.checked_deposit_relay < n
Rises (withdraw_relay n) db = db.checked_withdraw_relay < n
Rises (withdraw_confirm n) db = db.checked_withdraw_confirm < n

module _ (crates : Confirm.Crates) where
  -- Each relay has reported up to its checkpoint in the database.
  pub record IsInStep (db : Database) (m : Merged) : Type 0 where
    pub deposits : Deposit.Checked.HasReported crates.contracts db.checked_deposit_relay m.deposit
    pub withdraws :
        Withdraw.Checked.HasReported (withdraw_crates crates) db.checked_withdraw_relay m.withdraw
    pub confirms : Confirm.Checked.HasReported crates db.checked_withdraw_confirm m.confirm

  -- A report raises a checkpoint, and the relays are in step with the raised one; where none is
  -- made they still are. An error or a panic ends the bridge.
  abbrev pub Raises : Database → Merged → Poll (Option BridgeChecked) → Type 0
  Raises db m (ready (some check)) = Rises check db × IsInStep (checked check db) m
  Raises db m (ready none) = IsInStep db m
  Raises db m not_ready = IsInStep db m
  Raises db m _ = Unit

  deposit-Raises :
      (db : Database) (m : Merged) (s : Deposit.DepositRelay) (p : Poll (Option BridgeChecked))
      → IsInStep db m
      → Deposit.Checked.Reports crates.contracts db.checked_deposit_relay s p
      → Raises db (record m { deposit = s }) (map_err (in_context "deposit_relay") p)
  unfolding checked
  deposit-Raises db m s (ready (some (deposit_relay n))) h r =
      (r.0, record { deposits = r.1; withdraws = h.withdraws; confirms = h.confirms })
  deposit-Raises db m s (ready (some (withdraw_relay n))) h r = absurd r
  deposit-Raises db m s (ready (some (withdraw_confirm n))) h r = absurd r
  deposit-Raises db m s (ready none) h r = record {
    deposits = r;
    withdraws = h.withdraws;
    confirms = h.confirms;
  }
  deposit-Raises db m s not_ready h r = record {
    deposits = r;
    withdraws = h.withdraws;
    confirms = h.confirms;
  }
  deposit-Raises db m s (failed e) h r = tt
  deposit-Raises db m s panicked h r = tt

  withdraw-Raises :
      (db : Database) (m : Merged) (s : Withdraw.WithdrawRelay) (p : Poll (Option BridgeChecked))
      → IsInStep db m
      → Withdraw.Checked.Reports (withdraw_crates crates) db.checked_withdraw_relay s p
      → Raises db (record m { withdraw = s }) (map_err (in_context "withdraw_relay") p)
  unfolding checked
  withdraw-Raises db m s (ready (some (withdraw_relay n))) h r =
      (r.0, record { deposits = h.deposits; withdraws = r.1; confirms = h.confirms })
  withdraw-Raises db m s (ready (some (deposit_relay n))) h r = absurd r
  withdraw-Raises db m s (ready (some (withdraw_confirm n))) h r = absurd r
  withdraw-Raises db m s (ready none) h r = record {
    deposits = h.deposits;
    withdraws = r;
    confirms = h.confirms;
  }
  withdraw-Raises db m s not_ready h r = record {
    deposits = h.deposits;
    withdraws = r;
    confirms = h.confirms;
  }
  withdraw-Raises db m s (failed e) h r = tt
  withdraw-Raises db m s panicked h r = tt

  confirm-Raises :
      (db : Database) (m : Merged) (s : Confirm.WithdrawConfirm) (p : Poll (Option BridgeChecked))
      → IsInStep db m
      → Confirm.Checked.Reports crates db.checked_withdraw_confirm s p
      → Raises db (record m { confirm = s }) (map_err (in_context "withdraw_confirm") p)
  unfolding checked
  confirm-Raises db m s (ready (some (withdraw_confirm n))) h r =
      (r.0, record { deposits = h.deposits; withdraws = h.withdraws; confirms = r.1 })
  confirm-Raises db m s (ready (some (deposit_relay n))) h r = absurd r
  confirm-Raises db m s (ready (some (withdraw_relay n))) h r = absurd r
  confirm-Raises db m s (ready none) h r = record {
    deposits = h.deposits;
    withdraws = h.withdraws;
    confirms = r;
  }
  confirm-Raises db m s not_ready h r = record {
    deposits = h.deposits;
    withdraws = h.withdraws;
    confirms = r;
  }
  confirm-Raises db m s (failed e) h r = tt
  confirm-Raises db m s panicked h r = tt

  poll_turn-Raises :
      (turn : Turn) (c : Cells) (db : Database) (m : Merged)
      → IsInStep db m
      → Raises db (poll_turn crates turn c m).0 (poll_turn crates turn c m).1
  unfolding poll_turn
  poll_turn-Raises deposit_turn c db m h =
      deposit-Raises db m _ _ h
        (deposit_poll-Reports crates.contracts c.foreign _ m.deposit h.deposits)
  poll_turn-Raises withdraw_turn c db m h =
      withdraw-Raises db m _ _ h
        (withdraw_poll-Reports (withdraw_crates crates) c.home _ m.withdraw h.withdraws)
  poll_turn-Raises confirm_turn c db m h =
      confirm-Raises db m _ _ h (confirm_poll-Reports crates c.foreign _ m.confirm h.confirms)

  settled-Raises :
      (db : Database) (m : Merged) (p : Poll (Option BridgeChecked))
      (later : Merged × Poll (Option BridgeChecked))
      → Raises db m p
      → (IsInStep db m → Raises db later.0 later.1)
      → Raises db (settled m p later).0 (settled m p later).1
  unfolding settled
  settled-Raises db m (ready (some check)) later h k = h
  settled-Raises db m (ready none) later h k = k h
  settled-Raises db m not_ready later h k = k h
  settled-Raises db m (failed e) later h k = tt
  settled-Raises db m panicked later h k = tt

  at_end-Raises :
      (ended : Bool) (db : Database) (m : Merged) → IsInStep db m → Raises db m (at_end ended)
  at_end-Raises true db m h = h
  at_end-Raises false db m h = h

  take_turns-Raises :
      (turns : List Turn) (ended : Bool) (c : Cells) (db : Database) (m : Merged)
      → IsInStep db m
      → Raises db (take_turns crates turns ended c m).0 (take_turns crates turns ended c m).1
  unfolding take_turns
  take_turns-Raises [] ended c db m h = at_end-Raises ended db m h
  take_turns-Raises (turn ∷ turns) ended c db m h =
      let polled = poll_turn crates turn c m in
      settled-Raises db polled.0 polled.1 (take_turns crates turns ended c polled.0)
        (poll_turn-Raises turn c db m h) (λ k. take_turns-Raises turns ended c db polled.0 k)

  -- Whichever relays are polled, in whatever order, and whatever they are answered: of relays that
  -- have reported up to the checkpoints of a database, a poll of the merged stream without error or
  -- panic either reports a block above the checkpoint of its relay, and they then have reported up
  -- to the checkpoints with that block, or reports nothing and they still have.
  pub merged_poll-Raises :
      (c : Cells) (db : Database) (m : Merged)
      → IsInStep db m
      → Raises db (merged_poll crates c m).0 (merged_poll crates c m).1
  unfolding merged_poll
  merged_poll-Raises c db m h =
      take_turns-Raises _ _ c db _
        (record { deposits = h.deposits; withdraws = h.withdraws; confirms = h.confirms })
