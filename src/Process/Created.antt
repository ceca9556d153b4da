-- ===== src/Process/Created.antt =====
-- The bridge that `create_bridge` (bridge/src/bridge/mod.rs) makes from a database, and its file.
use mathlib.Core.Path.{subst}
use poa_bridge.Relay.Merged.Rising.{Rises, IsInStep}
use poa_bridge.Relay.Shared.{BridgeChecked, deposit_relay, withdraw_relay, withdraw_confirm}
use poa_bridge.Process.{
  Progress, running, ended, run_for, bridge_poll, carry_on, Crates, create_bridge,
  create_bridge_event_stream, create_relays, oracle_stream, BridgeReplies,
}
use poa_bridge.Prelude.{
  ℕ, zero, suc, ◌≡◌, refl, ◌∙◌, List, [], Option, none, some, String, Bool, arith,
}
use poa_bridge.Error.{err, panic, ◌>>=◌, Result, ok, >>=-eq-ok}
use poa_bridge.Futures.{Poll, ready, not_ready, failed, panicked}
use poa_bridge.LogStream.{log_stream}
use poa_bridge.Database
use poa_bridge.Config.{Config}
use poa_bridge.Database.{checked, overwrite, event_arrived, save, Database, Bridge}
use poa_bridge.Database.Saved.{Ascends, overwrite_all, NeverShrinks, IsSaved}
use poa_bridge.EventStream
use poa_bridge.EventStream.{BridgeEventStream}
use poa_bridge.EventStream.Gate.{event_poll-Passes}
use poa_bridge.Relay.Deposit.{create_deposit_relay}
use poa_bridge.Relay.Withdraw.{create_withdraw_relay}
use poa_bridge.Relay.Confirm.{create_withdraw_confirm}
use poa_bridge.Relay.Merged.{Merged, merged_poll}
use poa_bridge.Process.Checkpoints.{
  Flows, Passes-Flows, bridge_poll-Advances, Advances, IsFlowing, IsBacked, Refines,
  run_for-Refines,
}

-- What holds of whatever two results are put together to holds of the outcome.
pub both-ok :
    {A B C : Type 0} (P : C → Type 0) (make : A → B → C)
    → ((a : A) (b : B) → P (make a b))
    → (first : Result A) (second : Result B) (c : C)
    → (first >>= λ a. second >>= λ b. ok (make a b)) ≡ ok c
    → P c
both-ok P make holds (ok a) (ok b) c e = let made : make a b ≡ c = cc in subst P made (holds a b)
both-ok P make holds (ok a) (err x) c e = absurd (cc)
both-ok P make holds (ok a) panic c e = absurd (cc)
both-ok P make holds (err x) second c e = absurd (cc)
both-ok P make holds panic second c e = absurd (cc)

module _ {N : Type 0} (is_uri : String → Bool) (crates : Crates N) where
  open crates use {relays, toml, oracle}

  relays-IsInStep :
      (config : Config) (db : Database) (replies : BridgeReplies)
      → IsInStep relays db (create_relays is_uri config db replies)
  unfolding create_relays create_deposit_relay create_withdraw_relay create_withdraw_confirm
      log_stream
  relays-IsInStep config db replies = record {
    deposits = (refl, tt);
    withdraws = (refl, tt);
    confirms = (refl, tt);
  }

  events-IsFlowing :
      (config : Config) (db : Database) (replies : BridgeReplies) (s : BridgeEventStream Merged)
      → create_bridge_event_stream is_uri config db replies ≡ ok s
      → IsFlowing crates db s
  unfolding create_bridge_event_stream
  events-IsFlowing config db replies s e =
      both-ok (IsFlowing crates db) _ (λ home foreign. (relays-IsInStep config db replies, tt))
        (oracle_stream is_uri config.home.gas_price_oracle_url config.home replies.home_oracle)
        (oracle_stream is_uri config.foreign.gas_price_oracle_url config.foreign
          replies.foreign_oracle)
        s e

  pub created-IsBacked :
      (config : Config) (db : Database) (file : List ℕ) (replies : BridgeReplies)
      (b : Bridge (BridgeEventStream Merged))
      → create_bridge is_uri config db file replies ≡ ok b
      → IsBacked crates b × (b.database ≡ db) × (b.file ≡ file) × (b.disk ≡ replies.disk)
  unfolding create_bridge
  created-IsBacked config db file replies b e =
      let (events, flowing, made) =
        >>=-eq-ok (create_bridge_event_stream is_uri config db replies) _ e in
      let whole : b
          ≡ record { database = db; file = file; disk = replies.disk; event_stream = events } =
        cc in
      rw whole (events-IsFlowing config db replies events flowing, refl, refl, refl)

  -- The bridge that is created from a database, polled any number of times, whatever the nodes,
  -- the oracles, the timers and the disk answer and whichever relays are polled: unless it has
  -- failed, its database is reached from the first one by raising single checkpoints, and its relays
  -- have reported up to them.
  pub created-Refines :
      (config : Config) (db : Database) (file : List ℕ) (replies : BridgeReplies)
      (b : Bridge (BridgeEventStream Merged))
      → create_bridge is_uri config db file replies ≡ ok b
      → (n : ℕ) → Refines crates db (run_for (bridge_poll crates) n b)
  created-Refines config db file replies b e n =
      let (backed, same, in_file, on_disk) = created-IsBacked config db file replies b e in
      subst (λ d. Refines crates d (run_for (bridge_poll crates) n b)) same
        (run_for-Refines crates n b backed)

  -- The file is the text of the database, and the disk works.
  abbrev pub FileHolds : Progress (Bridge (BridgeEventStream Merged)) → Type 0
  FileHolds (running b) = IsSaved toml b
  FileHolds (ended b) = IsSaved toml b
  FileHolds _ = Unit

  abbrev Saves : Bridge (BridgeEventStream Merged) → Poll (Option (Unit {0})) → Type 0
  Saves b (ready r) = IsSaved toml b
  Saves b not_ready = IsSaved toml b
  Saves b _ = Unit

  Rises-Ascends : (check : BridgeChecked) (db : Database) → Rises check db → Ascends check db
  Rises-Ascends (deposit_relay n) db h = omega arith
  Rises-Ascends (withdraw_relay n) db h = omega arith
  Rises-Ascends (withdraw_confirm n) db h = omega arith

  arrived-Saves :
      NeverShrinks toml
      → (b : Bridge (BridgeEventStream Merged)) (p : Poll (Option BridgeChecked)) → IsSaved toml b
      → Flows crates b.database b.event_stream p
      → Saves (event_arrived toml b p).0 (event_arrived toml b p).1
  unfolding event_arrived save
  arrived-Saves grows b (ready (some check)) saved (up, flows) =
      let disk_works = saved.disk_works in
      let text = toml.to_string (checked check b.database) in
      let whole : overwrite b.file text ≡ text =
        overwrite_all b.file text
          (rw saved.in_file (grows check b.database (Rises-Ascends check b.database up))) in
      rw disk_works (record { in_file = whole; disk_works = refl })
  arrived-Saves grows b (ready none) saved flows = saved
  arrived-Saves grows b not_ready saved flows = saved
  arrived-Saves grows b (failed e) saved flows = tt
  arrived-Saves grows b panicked saved flows = tt

  bridge_poll-Saves :
      NeverShrinks toml
      → (b : Bridge (BridgeEventStream Merged)) → IsBacked crates b
      → IsSaved toml b
      → Saves (bridge_poll crates b).0 (bridge_poll crates b).1
  unfolding bridge_poll Database.poll
  bridge_poll-Saves grows b h saved =
      let r = EventStream.poll oracle (merged_poll relays) b.event_stream in
      arrived-Saves grows (record b { event_stream = r.0 }) r.1
        (record { in_file = saved.in_file; disk_works = saved.disk_works })
        (Passes-Flows crates b.database b.event_stream.bridge r.0 r.1 h.0
          (event_poll-Passes oracle (merged_poll relays) b.event_stream h.1))

  carry_on-FileHolds :
      (db : Database) (b : Bridge (BridgeEventStream Merged)) (p : Poll (Option (Unit {0})))
      (later : Progress (Bridge (BridgeEventStream Merged)))
      → Advances crates db b p
      → Saves b p
      → (IsBacked crates b → IsSaved toml b → FileHolds later)
      → FileHolds (carry_on b p later)
  unfolding carry_on
  carry_on-FileHolds db b (ready (some a)) later a' s k = k a'.1 s
  carry_on-FileHolds db b (ready none) later a' s k = s
  carry_on-FileHolds db b not_ready later a' s k = k a'.1 s
  carry_on-FileHolds db b (failed e) later a' s k = tt
  carry_on-FileHolds db b panicked later a' s k = tt

  pub run_for-FileHolds :
      NeverShrinks toml
      → (n : ℕ) (b : Bridge (BridgeEventStream Merged)) → IsBacked crates b
      → IsSaved toml b
      → FileHolds (run_for (bridge_poll crates) n b)
  unfolding run_for
  run_for-FileHolds grows zero b h saved = saved
  run_for-FileHolds grows (suc n) b h saved =
      let polled = bridge_poll crates b in
      carry_on-FileHolds b.database polled.0 polled.1 (run_for (bridge_poll crates) n polled.0)
        (bridge_poll-Advances crates b h) (bridge_poll-Saves grows b h saved)
        (λ k s. run_for-FileHolds grows n polled.0 k s)

  -- Where the disk works and a higher block number never has a shorter text: the bridge that is
  -- created from a database whose text is in the file, polled any number of times, has the text of
  -- its database in the file, unless it has failed.
  pub created-FileHolds :
      NeverShrinks toml
      → (config : Config) (db : Database) (replies : BridgeReplies)
        (b : Bridge (BridgeEventStream Merged))
      → create_bridge is_uri config db (toml.to_string db) replies ≡ ok b
      → replies.disk ≡ []
      → (n : ℕ) → FileHolds (run_for (bridge_poll crates) n b)
  created-FileHolds grows config db replies b e works n =
      let (backed, same, in_file, on_disk) =
        created-IsBacked config db (toml.to_string db) replies b e in
      run_for-FileHolds grows n b backed
        (record { in_file = rw same in_file; disk_works = on_disk ∙ works })
