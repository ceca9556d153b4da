-- ===== src/Process/Checkpoints.antt =====
-- The running bridge (bridge/src/bridge/mod.rs) against its checkpoints, as an abstract machine.
use poa_bridge.Prelude.{ℕ, zero, suc, ◌≡◌, refl, Option, none, some, ◌⊎◌, inl, inr}
use poa_bridge.Futures.{Poll, ready, not_ready, failed, panicked}
use poa_bridge.Relay.Shared.{BridgeChecked}
use poa_bridge.Database
use poa_bridge.Database.{
  Database, Bridge, checked, event_arrived, save, next_write, WriteOutcome, written, not_opened,
  write_failed,
}
use poa_bridge.EventStream
use poa_bridge.EventStream.{BridgeEventStream}
use poa_bridge.EventStream.Gate
use poa_bridge.EventStream.Gate.{event_poll-Passes}
use poa_bridge.Relay.Merged.{Merged, merged_poll}
use poa_bridge.Relay.Merged.Rising.{Rises, IsInStep, Raises, merged_poll-Raises}
use poa_bridge.Process.{
  Crates, bridge_poll, Progress, running, ended, stopped, crashed, run_for, carry_on,
}

-- The abstract machine: the checkpoints of the three relays, of which a step raises one.
pub data Step (db db' : Database) : Type 0 where
  raise : (c : BridgeChecked) → Rises c db → db' ≡ checked c db → Step db db'

pub data Reach (db : Database) : Database → Type 0 where
  here : Reach db db
  next : {db' db'' : Database} → Reach db db' → Step db' db'' → Reach db db''

Reach-after : {db db' db'' : Database} → Step db db' → Reach db' db'' → Reach db db''
Reach-after s here = next here s
Reach-after s (next r t) = next (Reach-after s r) t

module _ {N : Type 0} (crates : Crates N) where
  open crates use {relays, toml, oracle}

  -- The event stream between two polls.
  abbrev pub IsFlowing : Database → BridgeEventStream Merged → Type 0
  IsFlowing db s = IsInStep relays db s.bridge × Gate.IsGuarded oracle (merged_poll relays) s

  -- What a poll of the event stream yields, and leaves.
  abbrev pub Flows : Database → BridgeEventStream Merged → Poll (Option BridgeChecked) → Type 0
  Flows db s (ready (some check)) = Rises check db × IsFlowing (checked check db) s
  Flows db s (ready none) = IsFlowing db s
  Flows db s not_ready = IsFlowing db s
  Flows db s _ = Unit

  answered :
      (db : Database) (m m' : Merged) (p : Poll (Option BridgeChecked))
      → IsInStep relays db m
      → Gate.Answers oracle (merged_poll relays) m m' p
      → Raises relays db m' p
  answered db m m' p h (c, known, e) = let r = merged_poll-Raises relays c db m h in rw e at r

  pub Passes-Flows :
      (db : Database) (m : Merged) (s : BridgeEventStream Merged) (p : Poll (Option BridgeChecked))
      → IsInStep relays db m
      → Gate.Passes oracle (merged_poll relays) m s p
      → Flows db s p
  Passes-Flows db m s (ready (some check)) h (a, g) =
      let (up, later) = answered db m s.bridge (ready (some check)) h a in (up, (later, g))
  Passes-Flows db m s (ready none) h (a, g) = (answered db m s.bridge (ready none) h a, g)
  Passes-Flows db m s not_ready h (inl same, g) = (rw same h, g)
  Passes-Flows db m s not_ready h (inr a, g) = (answered db m s.bridge not_ready h a, g)
  Passes-Flows db m s (failed e) h g = tt
  Passes-Flows db m s panicked h g = tt

  -- The bridge between two polls: its database is the checkpoints of its relays.
  abbrev pub IsBacked : Bridge (BridgeEventStream Merged) → Type 0
  IsBacked b = IsFlowing b.database b.event_stream

  -- Unless it fails, a poll leaves the checkpoints or raises one.
  abbrev pub Advances :
      Database → Bridge (BridgeEventStream Merged) → Poll (Option (Unit {0})) → Type 0
  Advances db b (ready r) = ((b.database ≡ db) ⊎ Step db b.database) × IsBacked b
  Advances db b not_ready = ((b.database ≡ db) ⊎ Step db b.database) × IsBacked b
  Advances db b _ = Unit

  saved-Advances :
      (db : Database) (check : BridgeChecked) (b : Bridge (BridgeEventStream Merged))
      (w : WriteOutcome)
      → Rises check db
      → b.database ≡ checked check db
      → IsBacked b
      → Advances db (save toml b w).0 (save toml b w).1
  unfolding save
  saved-Advances db check b (not_opened kind) up e h = tt
  saved-Advances db check b (write_failed n kind) up e h = tt
  saved-Advances db check b written up e h = (inr (raise check up e), h)

  arrived-Advances :
      (b : Bridge (BridgeEventStream Merged)) (p : Poll (Option BridgeChecked))
      → Flows b.database b.event_stream p
      → Advances b.database (event_arrived toml b p).0 (event_arrived toml b p).1
  unfolding event_arrived
  arrived-Advances b (ready (some check)) (up, flows) =
      let (w, rest) = next_write b.disk in
      saved-Advances b.database check
        (record b { database = checked check b.database; disk = rest }) w up refl flows
  arrived-Advances b (ready none) h = (inl refl, h)
  arrived-Advances b not_ready h = (inl refl, h)
  arrived-Advances b (failed e) h = tt
  arrived-Advances b panicked h = tt

  pub bridge_poll-Advances :
      (b : Bridge (BridgeEventStream Merged))
      → IsBacked b
      → Advances b.database (bridge_poll crates b).0 (bridge_poll crates b).1
  unfolding bridge_poll Database.poll
  bridge_poll-Advances b h =
      let r = EventStream.poll oracle (merged_poll relays) b.event_stream in
      arrived-Advances (record b { event_stream = r.0 }) r.1
        (Passes-Flows b.database b.event_stream.bridge r.0 r.1 h.0
          (event_poll-Passes oracle (merged_poll relays) b.event_stream h.1))

  -- The bridge as the event loop leaves it, unless it has failed.
  abbrev pub Refines : Database → Progress (Bridge (BridgeEventStream Merged)) → Type 0
  Refines db (running b) = Reach db b.database × IsBacked b
  Refines db (ended b) = Reach db b.database × IsBacked b
  Refines db _ = Unit

  later-Refines :
      (db : Database) (b : Bridge (BridgeEventStream Merged))
      (later : Progress (Bridge (BridgeEventStream Merged)))
      → (b.database ≡ db) ⊎ Step db b.database
      → Refines b.database later
      → Refines db later
  later-Refines db b later (inl e) h = rw e at h
  later-Refines db b (running t) (inr s) h = (Reach-after s h.0, h.1)
  later-Refines db b (ended t) (inr s) h = (Reach-after s h.0, h.1)
  later-Refines db b (stopped e) (inr s) h = tt
  later-Refines db b crashed (inr s) h = tt

  carry_on-Refines :
      (db : Database) (b : Bridge (BridgeEventStream Merged)) (p : Poll (Option (Unit {0})))
      (later : Progress (Bridge (BridgeEventStream Merged)))
      → Advances db b p
      → (IsBacked b → Refines b.database later)
      → Refines db (carry_on b p later)
  unfolding carry_on
  carry_on-Refines db b (ready (some a)) later (s, h) k = later-Refines db b later s (k h)
  carry_on-Refines db b (ready none) later (s, h) k = later-Refines db b (ended b) s (here, h)
  carry_on-Refines db b not_ready later (s, h) k = later-Refines db b later s (k h)
  carry_on-Refines db b (failed e) later h k = tt
  carry_on-Refines db b panicked later h k = tt

  -- The running bridge refines the abstract machine of its checkpoints: of a bridge whose relays
  -- have reported up to the checkpoints of its database, any number of polls that does not fail
  -- leaves a database that raising single checkpoints reaches from the first one, and relays that
  -- have reported up to its checkpoints.
  pub run_for-Refines :
      (n : ℕ) (b : Bridge (BridgeEventStream Merged))
      → IsBacked b
      → Refines b.database (run_for (bridge_poll crates) n b)
  unfolding run_for
  run_for-Refines zero b h = (here, h)
  run_for-Refines (suc n) b h =
      let polled = bridge_poll crates b in
      carry_on-Refines b.database polled.0 polled.1 (run_for (bridge_poll crates) n polled.0)
        (bridge_poll-Advances b h) (λ k. run_for-Refines n polled.0 k)
