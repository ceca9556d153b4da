-- ===== src/Process/Relayed.antt =====
-- All that the three relays of a created bridge (bridge/src/bridge/mod.rs) have read and sent while it runs.
use poa_bridge.Relay.Between.{
  StartsAt, DepositsFrom, ConfirmsFrom, WithdrawsFrom, Walks-DepositsFrom, Walks-ConfirmsFrom,
  Walks-WithdrawsFrom, deposits_reported-le, confirms_reported-le, withdraws_reported-le,
}
use mathlib.Core.Path.{subst}
use poa_bridge.Config.{Config}
use poa_bridge.Database.{Database, Bridge}
use poa_bridge.Error.{ok, >>=-eq-ok}
use poa_bridge.EventStream.{BridgeEventStream}
use poa_bridge.LogStream.{log_stream}
use poa_bridge.Prelude.{ℕ, ◌≤◌, ◌≡◌, refl, List, String, Bool}
use poa_bridge.Process.{
  BridgeReplies, Crates, create_bridge, create_bridge_event_stream, create_relays, oracle_stream,
  bridge_poll, running, run_for,
}
use poa_bridge.Process.Checkpoints.{IsBacked, Refines, run_for-Refines}
use poa_bridge.Process.Created.{both-ok}
use poa_bridge.Process.Walks.{WalksTo, run_for-WalksTo}
use poa_bridge.Relay.Confirm
use poa_bridge.Relay.Deposit
use poa_bridge.Relay.Merged.{Merged, withdraw_crates}
use poa_bridge.Relay.Withdraw

-- The relays of a new bridge start above the checkpoints of the database, and have its contracts.
pub record IsFresh (db : Database) (m : Merged) : Type 0 where
  pub deposits : StartsAt db.checked_deposit_relay m.deposit.logs
  pub withdraws : StartsAt db.checked_withdraw_relay m.withdraw.logs
  pub confirms : StartsAt db.checked_withdraw_confirm m.confirm.logs
  pub deposits_to : m.deposit.foreign_contract ≡ db.foreign_contract_address
  pub withdraws_ask : m.withdraw.foreign_contract ≡ db.foreign_contract_address
  pub withdraws_to : m.withdraw.home_contract ≡ db.home_contract_address
  pub confirms_to : m.confirm.foreign_contract ≡ db.foreign_contract_address

module _ (is_uri : String → Bool) where
  relays-IsFresh :
      (config : Config) (db : Database) (replies : BridgeReplies)
      → IsFresh db (create_relays is_uri config db replies)
  unfolding create_relays Deposit.create_deposit_relay Withdraw.create_withdraw_relay
      Confirm.create_withdraw_confirm log_stream
  relays-IsFresh config db replies = record {
    deposits = (refl, tt);
    withdraws = (refl, tt);
    confirms = (refl, tt);
    deposits_to = refl;
    withdraws_ask = refl;
    withdraws_to = refl;
    confirms_to = refl;
  }

  events-IsFresh :
      (config : Config) (db : Database) (replies : BridgeReplies) (s : BridgeEventStream Merged)
      → create_bridge_event_stream is_uri config db replies ≡ ok s
      → IsFresh db s.bridge
  unfolding create_bridge_event_stream
  events-IsFresh config db replies s e =
      both-ok (λ (t : BridgeEventStream Merged). IsFresh db t.bridge) _
        (λ home foreign. relays-IsFresh config db replies)
        (oracle_stream is_uri config.home.gas_price_oracle_url config.home replies.home_oracle)
        (oracle_stream is_uri config.foreign.gas_price_oracle_url config.foreign
          replies.foreign_oracle)
        s e

  pub created-IsFresh :
      (config : Config) (db : Database) (file : List ℕ) (replies : BridgeReplies)
      (b : Bridge (BridgeEventStream Merged))
      → create_bridge is_uri config db file replies ≡ ok b
      → IsFresh b.database b.event_stream.bridge
  unfolding create_bridge
  created-IsFresh config db file replies b e =
      let (events, streaming, made) =
        >>=-eq-ok (create_bridge_event_stream is_uri config db replies) _ e in
      let whole : b
          ≡ record { database = db; file = file; disk = replies.disk; event_stream = events } =
        cc in
      rw whole (events-IsFresh config db replies events streaming)

module _ {N : Type 0} (crates : Crates N) where
  open crates use {relays}

  -- Of a bridge that has run from `b` to `c`: each relay has relayed all that it has read, from the
  -- checkpoint of the first database on, up to a block that is no lower than the checkpoint of the
  -- last one. What it has sent are calls of the contracts of the first database.
  pub record HasRelayed (b c : Bridge (BridgeEventStream Merged)) : Type 0 where
    pub deposits :
        DepositsFrom relays.contracts b.database.foreign_contract_address
          b.database.checked_deposit_relay b.event_stream.bridge.deposit
          c.event_stream.bridge.deposit
    pub deposits_checked :
        c.database.checked_deposit_relay ≤ c.event_stream.bridge.deposit.logs.after
    pub confirms :
        ConfirmsFrom relays b.database.foreign_contract_address b.database.checked_withdraw_confirm
          b.event_stream.bridge.confirm c.event_stream.bridge.confirm
    pub confirms_checked :
        c.database.checked_withdraw_confirm ≤ c.event_stream.bridge.confirm.logs.after
    pub withdraws :
        WithdrawsFrom
          (withdraw_crates relays)
          b.database.foreign_contract_address
          b.database.home_contract_address
          b.database.checked_withdraw_relay
          b.event_stream.bridge.withdraw
          c.event_stream.bridge.withdraw
    pub withdraws_checked :
        c.database.checked_withdraw_relay ≤ c.event_stream.bridge.withdraw.logs.after

  -- A fresh bridge that still runs has relayed all that its relays have read.
  pub run_for-HasRelayed :
      (m : ℕ) (b c : Bridge (BridgeEventStream Merged))
      → IsBacked crates b
      → IsFresh b.database b.event_stream.bridge
      → run_for (bridge_poll crates) m b ≡ running c
      → HasRelayed b c
  run_for-HasRelayed m b c backed fresh e =
      let walk : WalksTo crates b (running c) =
        subst (WalksTo crates b) e (run_for-WalksTo crates m b backed) in
      let refines : Refines crates b.database (running c) =
        subst (Refines crates b.database) e (run_for-Refines crates m b backed) in
      let step = refines.1.0 in
      let last = c.event_stream.bridge in
      record {
        deposits =
            Walks-DepositsFrom relays.contracts _ _ _ _ fresh.deposits_to fresh.deposits
              walk.deposits;
        deposits_checked =
            deposits_reported-le relays.contracts _ last.deposit.state _ step.deposits;
        confirms = Walks-ConfirmsFrom relays _ _ _ _ fresh.confirms_to fresh.confirms walk.confirms;
        confirms_checked = confirms_reported-le relays _ last.confirm.state _ step.confirms;
        withdraws =
            Walks-WithdrawsFrom (withdraw_crates relays) _ _ _ _ _ fresh.withdraws_ask
              fresh.withdraws_to fresh.withdraws walk.withdraws;
        withdraws_checked =
            withdraws_reported-le (withdraw_crates relays) _ last.withdraw.state _ step.withdraws;
      }
