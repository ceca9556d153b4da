-- ===== src/Relay/Restart.antt =====
-- The relays from their creation on, with the checkpoints of the database: bridge/src/bridge/mod.rs
-- creates them from the database that is loaded, and writes what they report back to it.
use poa_bridge.Prelude.{ℕ, ◌<◌, ◌≡◌, refl, List, [], ◌∷◌, Option, none, some, arith}
use poa_bridge.Futures.{Poll, ready, not_ready, failed, panicked, Feed}
use poa_bridge.LogStream.{Replies, log_stream}
use poa_bridge.Database.{Database, checked}
use poa_bridge.Database.Saved.{Ascending}
use poa_bridge.Relay.Shared.{
  BridgeChecked, deposit_relay, withdraw_relay, withdraw_confirm, Contracts, Shared,
}
use poa_bridge.Relay.Deposit
use poa_bridge.Relay.Deposit.{DepositRelay, create_deposit_relay}
use poa_bridge.Relay.Deposit.Checked.{deposit_poll-Reports}
use poa_bridge.Relay.Confirm
use poa_bridge.Relay.Confirm.{WithdrawConfirm, create_withdraw_confirm}
use poa_bridge.Relay.Confirm.Checked.{confirm_poll-Reports}
use poa_bridge.Relay.Withdraw
use poa_bridge.Relay.Withdraw.{WithdrawRelay, create_withdraw_relay}
use poa_bridge.Relay.Withdraw.Checked.{withdraw_poll-Reports}

-- The report of one poll before those of the polls that follow: a failed stream is not polled again.
abbrev add_report : Poll (Option BridgeChecked) → List BridgeChecked → List BridgeChecked
add_report (ready (some check)) checks = check ∷ checks
add_report (ready none) checks = checks
add_report not_ready checks = checks
add_report (failed e) checks = []
add_report panicked checks = []

module _ {S : Type 0} (poll : Shared → S → S × Poll (Option BridgeChecked)) where
  -- The reports of a relay that is polled again and again, with what the shared cells then hold.
  unfoldable pub reported : List Shared → S → List BridgeChecked
  reported [] s = []
  reported (shared ∷ later) s = add_report (poll shared s).1 (reported later (poll shared s).0)

  module _ (report : ℕ → BridgeChecked) (Has : ℕ → S → Type 0) where
    -- With `c` the last block reported: what one poll may report, and what holds after it.
    abbrev pub Next : ℕ → S → Poll (Option BridgeChecked) → Type 0
    Next c t (ready (some check)) = (block : ℕ) × (check ≡ report block) × (c < block) × Has block t
    Next c t (ready none) = Has c t
    Next c t not_ready = Has c t
    Next c t _ = Unit

    -- Reports of one relay, with ascending blocks above `c`.
    abbrev pub Climbs : ℕ → List BridgeChecked → Type 0
    Climbs c [] = Unit
    Climbs c (check ∷ checks) =
        (block : ℕ) × (check ≡ report block) × (c < block) × Climbs block checks

    add_report-Climbs :
        (c : ℕ) (t : S) (p : Poll (Option BridgeChecked)) (checks : List BridgeChecked)
        → Next c t p
        → ((b : ℕ) → Has b t → Climbs b checks)
        → Climbs c (add_report p checks)
    add_report-Climbs c t (ready (some check)) checks (block, e, up, has) rest =
        (block, e, up, rest block has)
    add_report-Climbs c t (ready none) checks h rest = rest c h
    add_report-Climbs c t not_ready checks h rest = rest c h
    add_report-Climbs c t (failed e) checks h rest = tt
    add_report-Climbs c t panicked checks h rest = tt

    reported-Climbs :
        ((shared : Shared) (c : ℕ) (s : S) → Has c s → Next c (poll shared s).0 (poll shared s).1)
        → (cells : List Shared) (c : ℕ) (s : S) → Has c s
        → Climbs c (reported cells s)
    unfolding reported
    reported-Climbs next [] c s h = tt
    reported-Climbs next (shared ∷ later) c s h =
        add_report-Climbs c (poll shared s).0 (poll shared s).1 (reported later (poll shared s).0)
          (next shared c s h) (λ b k. reported-Climbs next later b (poll shared s).0 k)

module _ {S : Type 0} (poll : Shared → S → S × Poll (Option BridgeChecked))
    (Has : ℕ → S → Type 0) where
  deposits_climb :
      (checks : List BridgeChecked) (db : Database)
      → Climbs poll deposit_relay Has db.checked_deposit_relay checks
      → Ascending checks db
  unfolding checked
  deposits_climb [] db h = tt
  deposits_climb (check ∷ checks) db (block, e, up, rest) =
      rw e (omega arith, deposits_climb checks (record db { checked_deposit_relay = block }) rest)

  confirms_climb :
      (checks : List BridgeChecked) (db : Database)
      → Climbs poll withdraw_confirm Has db.checked_withdraw_confirm checks
      → Ascending checks db
  unfolding checked
  confirms_climb [] db h = tt
  confirms_climb (check ∷ checks) db (block, e, up, rest) =
      rw e
        (omega arith, confirms_climb checks (record db { checked_withdraw_confirm = block }) rest)

  withdraws_climb :
      (checks : List BridgeChecked) (db : Database)
      → Climbs poll withdraw_relay Has db.checked_withdraw_relay checks
      → Ascending checks db
  unfolding checked
  withdraws_climb [] db h = tt
  withdraws_climb (check ∷ checks) db (block, e, up, rest) =
      rw e (omega arith, withdraws_climb checks (record db { checked_withdraw_relay = block }) rest)

deposit-Next :
    (contracts : Contracts) (c : ℕ) (t : DepositRelay) (p : Poll (Option BridgeChecked))
    → Deposit.Checked.Reports contracts c t p
    → Next (Deposit.poll contracts) deposit_relay (Deposit.Checked.HasReported contracts) c t p
deposit-Next contracts c t (ready (some (deposit_relay block))) h = (block, refl, h.0, h.1)
deposit-Next contracts c t (ready (some (withdraw_relay block))) h = absurd h
deposit-Next contracts c t (ready (some (withdraw_confirm block))) h = absurd h
deposit-Next contracts c t (ready none) h = h
deposit-Next contracts c t not_ready h = h
deposit-Next contracts c t (failed e) h = tt
deposit-Next contracts c t panicked h = tt

-- Of a deposit relay that is created from a database, and polled any number of times: each report,
-- taken in order, is no lower than the block that the database with the reports before it has for
-- that relay.
created_deposits-Ascending :
    (contracts : Contracts) (db : Database) (confirmations gas : ℕ) (replies : Replies)
    (relays : Feed (List (List ℕ))) (cells : List Shared)
    → Ascending
        (reported
          (Deposit.poll contracts)
          cells
          (create_deposit_relay db confirmations gas replies relays))
        db
unfolding create_deposit_relay log_stream
created_deposits-Ascending contracts db confirmations gas replies relays cells =
    deposits_climb (Deposit.poll contracts) (Deposit.Checked.HasReported contracts) _ db (
      reported-Climbs (Deposit.poll contracts) deposit_relay (Deposit.Checked.HasReported contracts)
        (λ shared c s h.
          deposit-Next contracts c (Deposit.poll contracts shared s).0
            (Deposit.poll contracts shared s).1 (deposit_poll-Reports contracts shared c s h))
        cells db.checked_deposit_relay (create_deposit_relay db confirmations gas replies relays)
        (refl, tt))

confirm-Next :
    (crates : Confirm.Crates) (c : ℕ) (t : WithdrawConfirm) (p : Poll (Option BridgeChecked))
    → Confirm.Checked.Reports crates c t p
    → Next (Confirm.poll crates) withdraw_confirm (Confirm.Checked.HasReported crates) c t p
confirm-Next crates c t (ready (some (deposit_relay block))) h = absurd h
confirm-Next crates c t (ready (some (withdraw_relay block))) h = absurd h
confirm-Next crates c t (ready (some (withdraw_confirm block))) h = (block, refl, h.0, h.1)
confirm-Next crates c t (ready none) h = h
confirm-Next crates c t not_ready h = h
confirm-Next crates c t (failed e) h = tt
confirm-Next crates c t panicked h = tt

-- Of a withdraw confirmation that is created from a database, and polled any number of times: each
-- report, taken in order, is no lower than the block that the database with the reports before it
-- has for that relay.
created_confirms-Ascending :
    (crates : Confirm.Crates) (db : Database) (confirmations : ℕ) (account : List ℕ) (gas : ℕ)
    (replies : Replies) (relays : Feed (List (List ℕ))) (cells : List Shared)
    → Ascending
        (reported
          (Confirm.poll crates)
          cells
          (create_withdraw_confirm db confirmations account gas replies relays))
        db
unfolding create_withdraw_confirm log_stream
created_confirms-Ascending crates db confirmations account gas replies relays cells =
    confirms_climb (Confirm.poll crates) (Confirm.Checked.HasReported crates) _ db (
      reported-Climbs (Confirm.poll crates) withdraw_confirm (Confirm.Checked.HasReported crates)
        (λ shared c s h.
          confirm-Next crates c (Confirm.poll crates shared s).0 (Confirm.poll crates shared s).1
            (confirm_poll-Reports crates shared c s h))
        cells db.checked_withdraw_confirm
        (create_withdraw_confirm db confirmations account gas replies relays) (refl, tt))

withdraw-Next :
    (crates : Withdraw.Crates) (c : ℕ) (t : WithdrawRelay) (p : Poll (Option BridgeChecked))
    → Withdraw.Checked.Reports crates c t p
    → Next (Withdraw.poll crates) withdraw_relay (Withdraw.Checked.HasReported crates) c t p
withdraw-Next crates c t (ready (some (deposit_relay block))) h = absurd h
withdraw-Next crates c t (ready (some (withdraw_relay block))) h = (block, refl, h.0, h.1)
withdraw-Next crates c t (ready (some (withdraw_confirm block))) h = absurd h
withdraw-Next crates c t (ready none) h = h
withdraw-Next crates c t not_ready h = h
withdraw-Next crates c t (failed e) h = tt
withdraw-Next crates c t panicked h = tt

-- Of a withdraw relay that is created from a database, and polled any number of times: each report,
-- taken in order, is no lower than the block that the database with the reports before it has for
-- that relay.
created_withdraws-Ascending :
    (crates : Withdraw.Crates) (db : Database) (confirmations : ℕ) (account : List ℕ) (gas : ℕ)
    (replies : Replies) (fetches : Feed (List (List ℕ) × List (List (List ℕ))))
    (relays : Feed (List (List ℕ))) (cells : List Shared)
    → Ascending
        (reported
          (Withdraw.poll crates)
          cells
          (create_withdraw_relay db confirmations account gas replies fetches relays))
        db
unfolding create_withdraw_relay log_stream
created_withdraws-Ascending crates db confirmations account gas replies fetches relays cells =
    withdraws_climb (Withdraw.poll crates) (Withdraw.Checked.HasReported crates) _ db (
      reported-Climbs (Withdraw.poll crates) withdraw_relay (Withdraw.Checked.HasReported crates)
        (λ shared c s h.
          withdraw-Next crates c (Withdraw.poll crates shared s).0 (Withdraw.poll crates shared s).1
            (withdraw_poll-Reports crates shared c s h))
        cells db.checked_withdraw_relay
        (create_withdraw_relay db confirmations account gas replies fetches relays) (refl, tt))
