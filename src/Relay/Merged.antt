-- ===== src/Relay/Merged.antt =====
-- bridge/src/bridge/mod.rs: the three relays as one stream, as `create_bridge_event_stream` puts them
-- together. Which relays the two `select` combinators poll, in which order, and when the merged stream
-- ends is the choice of the futures crate: a pass, read from a list like the answers of the nodes. What
-- every pass does is documented: an item or an error of a relay is at once that of the merged stream.
pub mod Rising
pub mod Walks
use poa_bridge.Futures.{Poll, ready, not_ready, failed, panicked, map_err}
use poa_bridge.Relay.Deposit
use poa_bridge.Relay.Deposit.{DepositRelay}
use poa_bridge.Relay.Withdraw
use poa_bridge.Relay.Withdraw.{WithdrawRelay}
use poa_bridge.Relay.Confirm
use poa_bridge.Relay.Confirm.{WithdrawConfirm}
use poa_bridge.Relay.Shared.{BridgeChecked, in_context}
use poa_bridge.EventStream.{Cells, BridgePoll}
use poa_bridge.Prelude.{List, [], ◌∷◌, Bool, true, false, Option, none, some}

pub data Turn : Type 0 where
  deposit_turn withdraw_turn confirm_turn : Turn

-- The relays to poll, and whether the stream has ended when none has given an item or an error.
pub record Pass : Type 0 where
  pub turns : List Turn
  pub ended : Bool

pub record Merged : Type 0 where
  pub deposit : DepositRelay
  pub withdraw : WithdrawRelay
  pub confirm : WithdrawConfirm
  pub passes : List Pass

-- A pass that is not mentioned any more polls none.
abbrev pub next_pass : List Pass → Pass × List Pass
next_pass [] = (record { turns = []; ended = false }, [])
next_pass (pass ∷ passes) = (pass, passes)

-- What the merged stream answers when the turns are over.
abbrev pub at_end : Bool → Poll (Option BridgeChecked)
at_end true = ready none
at_end false = not_ready

-- The answer of one relay, before the turns that follow it.
unfoldable pub settled :
    Merged
    → Poll (Option BridgeChecked)
    → Merged × Poll (Option BridgeChecked)
    → Merged × Poll (Option BridgeChecked)
settled m (ready (some check)) later = (m, ready (some check))
settled m (ready none) later = later
settled m not_ready later = later
settled m (failed e) later = (m, failed e)
settled m panicked later = (m, panicked)

-- The withdraw relay uses fewer of the crates.
abbrev pub withdraw_crates : Confirm.Crates → Withdraw.Crates
withdraw_crates crates = record {
  contracts = crates.contracts;
  words = crates.words;
  info_enabled = crates.info_enabled;
}

module _ (crates : Confirm.Crates) where
  open crates use {contracts}

  -- Deposits and confirmations are sent to foreign, withdrawals to home.
  unfoldable pub poll_turn : Turn → Cells → Merged → Merged × Poll (Option BridgeChecked)
  poll_turn deposit_turn c m =
      let (s, p) = Deposit.poll contracts c.foreign m.deposit in
      (record m { deposit = s }, map_err (in_context "deposit_relay") p)
  poll_turn withdraw_turn c m =
      let (s, p) = Withdraw.poll (withdraw_crates crates) c.home m.withdraw in
      (record m { withdraw = s }, map_err (in_context "withdraw_relay") p)
  poll_turn confirm_turn c m =
      let (s, p) = Confirm.poll crates c.foreign m.confirm in
      (record m { confirm = s }, map_err (in_context "withdraw_confirm") p)

  unfoldable pub take_turns :
      List Turn → Bool → Cells → Merged → Merged × Poll (Option BridgeChecked)
  unfolding settled
  take_turns [] ended c m = (m, at_end ended)
  take_turns (turn ∷ turns) ended c m =
      let polled = poll_turn turn c m in
      let later = take_turns turns ended c polled.0 in settled polled.0 polled.1 later

  unfoldable pub merged_poll : BridgePoll Merged
  merged_poll c m =
      let (pass, rest) = next_pass m.passes in
      take_turns pass.turns pass.ended c (record m { passes = rest })
