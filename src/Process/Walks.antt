-- ===== src/Process/Walks.antt =====
-- The running bridge (bridge/src/bridge/mod.rs) as rounds of its three relays.
use poa_bridge.Database
use poa_bridge.Database.{
  Bridge, event_arrived, save, next_write, checked, WriteOutcome, written, not_opened, write_failed,
}
use poa_bridge.EventStream
use poa_bridge.EventStream.{BridgeEventStream}
use poa_bridge.EventStream.Gate
use poa_bridge.EventStream.Gate.{event_poll-Passes}
use poa_bridge.Futures.{Poll, ready, not_ready, failed, panicked}
use poa_bridge.Prelude.{ℕ, zero, suc, ◌≡◌, refl, Option, none, some, inl, inr}
use poa_bridge.Process.{
  Crates, bridge_poll, Progress, running, ended, stopped, crashed, run_for, carry_on,
}
use poa_bridge.Process.Checkpoints.{Advances, IsBacked, bridge_poll-Advances}
use poa_bridge.Relay.Merged.{Merged, merged_poll}
use poa_bridge.Relay.Merged.Walks.{AllWalk, AllWalk-refl, AllWalk-trans, merged_poll-AllWalk}
use poa_bridge.Relay.Rounds.{IsFine}
use poa_bridge.Relay.Shared.{BridgeChecked}

module _ {N : Type 0} (crates : Crates N) where
  open crates use {relays, toml, oracle}

  answered-AllWalk :
      (m m' : Merged) (p : Poll (Option BridgeChecked))
      → Gate.Answers oracle (merged_poll relays) m m' p
      → IsFine p
      → AllWalk relays m m'
  answered-AllWalk m m' p (c, known, e) h =
      let walk = merged_poll-AllWalk relays c m in rw e at walk h

  Passes-AllWalk :
      (m : Merged) (s : BridgeEventStream Merged) (p : Poll (Option BridgeChecked))
      → Gate.Passes oracle (merged_poll relays) m s p
      → IsFine p
      → AllWalk relays m s.bridge
  Passes-AllWalk m s (ready r) (a, g) h = answered-AllWalk m s.bridge (ready r) a h
  Passes-AllWalk m s not_ready (inl same, g) h = rw same (AllWalk-refl relays m)
  Passes-AllWalk m s not_ready (inr a, g) h = answered-AllWalk m s.bridge not_ready a h
  Passes-AllWalk m s (failed e) g h = absurd h
  Passes-AllWalk m s panicked g h = absurd h

  -- The relays of a bridge, in the one state and in the other.
  abbrev pub BridgeWalks :
      Bridge (BridgeEventStream Merged) → Bridge (BridgeEventStream Merged) → Type 0
  BridgeWalks b c = AllWalk relays b.event_stream.bridge c.event_stream.bridge

  saved-event_stream :
      (b : Bridge (BridgeEventStream Merged)) (w : WriteOutcome)
      → (save toml b w).0.event_stream ≡ b.event_stream
  unfolding save
  saved-event_stream b (not_opened kind) = refl
  saved-event_stream b (write_failed n kind) = refl
  saved-event_stream b written = refl

  arrived-BridgeWalks :
      (b c : Bridge (BridgeEventStream Merged)) (p : Poll (Option BridgeChecked))
      → (IsFine p → BridgeWalks b c)
      → IsFine (event_arrived toml c p).1
      → BridgeWalks b (event_arrived toml c p).0
  unfolding event_arrived
  arrived-BridgeWalks b c (ready (some check)) k h =
      let (w, rest) = next_write c.disk in
      let c' = record c { database = checked check c.database; disk = rest } in
      rw (saved-event_stream c' w) (k tt)
  arrived-BridgeWalks b c (ready none) k h = k tt
  arrived-BridgeWalks b c not_ready k h = k tt
  arrived-BridgeWalks b c (failed e) k h = absurd h
  arrived-BridgeWalks b c panicked k h = absurd h

  bridge_poll-BridgeWalks :
      (b : Bridge (BridgeEventStream Merged))
      → IsBacked crates b
      → IsFine (bridge_poll crates b).1
      → BridgeWalks b (bridge_poll crates b).0
  unfolding bridge_poll Database.poll
  bridge_poll-BridgeWalks b backed h =
      let r = EventStream.poll oracle (merged_poll relays) b.event_stream in
      arrived-BridgeWalks b (record b { event_stream = r.0 }) r.1
        (Passes-AllWalk b.event_stream.bridge r.0 r.1
          (event_poll-Passes oracle (merged_poll relays) b.event_stream backed.1))
        h

  -- The bridge as the event loop leaves it, unless it has failed.
  abbrev pub WalksTo :
      Bridge (BridgeEventStream Merged) → Progress (Bridge (BridgeEventStream Merged)) → Type 0
  WalksTo b (running c) = BridgeWalks b c
  WalksTo b (ended c) = BridgeWalks b c
  WalksTo b _ = Unit

  WalksTo-trans :
      (b c : Bridge (BridgeEventStream Merged))
      (later : Progress (Bridge (BridgeEventStream Merged)))
      → BridgeWalks b c
      → WalksTo c later
      → WalksTo b later
  WalksTo-trans b c (running d) w v = AllWalk-trans relays w v
  WalksTo-trans b c (ended d) w v = AllWalk-trans relays w v
  WalksTo-trans b c (stopped e) w v = tt
  WalksTo-trans b c crashed w v = tt

  carry_on-WalksTo :
      (b c : Bridge (BridgeEventStream Merged)) (p : Poll (Option (Unit {0})))
      (later : Progress (Bridge (BridgeEventStream Merged)))
      → Advances crates b.database c p
      → (IsFine p → BridgeWalks b c)
      → (IsBacked crates c → WalksTo c later)
      → WalksTo b (carry_on c p later)
  unfolding carry_on
  carry_on-WalksTo b c (ready (some a)) later (s, backed) w k =
      WalksTo-trans b c later (w tt) (k backed)
  carry_on-WalksTo b c (ready none) later (s, backed) w k = w tt
  carry_on-WalksTo b c not_ready later (s, backed) w k = WalksTo-trans b c later (w tt) (k backed)
  carry_on-WalksTo b c (failed e) later h w k = tt
  carry_on-WalksTo b c panicked later h w k = tt

  -- Polled any number of times, the bridge is some rounds of each of its relays, none of which
  -- fails, unless it has failed.
  pub run_for-WalksTo :
      (n : ℕ) (b : Bridge (BridgeEventStream Merged))
      → IsBacked crates b
      → WalksTo b (run_for (bridge_poll crates) n b)
  unfolding run_for
  run_for-WalksTo zero b backed = AllWalk-refl relays b.event_stream.bridge
  run_for-WalksTo (suc n) b backed =
      let polled = bridge_poll crates b in
      carry_on-WalksTo b polled.0 polled.1 (run_for (bridge_poll crates) n polled.0)
        (bridge_poll-Advances crates b backed) (bridge_poll-BridgeWalks b backed)
        (λ k. run_for-WalksTo n polled.0 k)
