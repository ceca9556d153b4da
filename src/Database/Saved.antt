-- ===== src/Database/Saved.antt =====
-- What the database file holds after the bridge (bridge/src/bridge/mod.rs) has written to it.
use poa_bridge.Database.{parse, contents, checked, Database, Toml, Bridge, poll, load, overwrite}
use poa_bridge.Relay.Shared.{withdraw_confirm, withdraw_relay, deposit_relay, BridgeChecked}
use poa_bridge.Prelude.{
  ◌∙◌, ℕ, zero, suc, ◌≤◌, String, ◌≡◌, refl, ap, Option, some, List, [], ◌∷◌, map, append-nil,
  arith, length, drop,
}
use poa_bridge.Error.{ok}
use poa_bridge.Futures.{feed_poll, ready, Feed}

drop_all : (n : ℕ) (xs : List ℕ) → length xs ≤ n → drop n xs ≡ []
drop_all zero [] h = refl
drop_all zero (x ∷ xs) h = absurd (omega arith)
drop_all (suc n) [] h = refl
drop_all (suc n) (x ∷ xs) h = drop_all n xs (omega arith)

-- A text that is no shorter than the file replaces it.
pub overwrite_all : (old text : List ℕ) → length old ≤ length text → overwrite old text ≡ text
unfolding overwrite
overwrite_all old text h = rw (drop_all (length text) old h) (append-nil text)

-- The block of an event is no lower than the one recorded for that relay.
abbrev pub Ascends : BridgeChecked → Database → Type 0
Ascends (deposit_relay n) db = db.checked_deposit_relay ≤ n
Ascends (withdraw_relay n) db = db.checked_withdraw_relay ≤ n
Ascends (withdraw_confirm n) db = db.checked_withdraw_confirm ≤ n

abbrev pub Ascending : List BridgeChecked → Database → Type 0
Ascending [] db = Unit
Ascending (c ∷ cs) db = Ascends c db × Ascending cs (checked c db)

abbrev pub checked_all : List BridgeChecked → Database → Database
checked_all [] db = db
checked_all (c ∷ cs) db = checked_all cs (checked c db)

-- The block reported last for each relay, or the one recorded where none was reported.
abbrev last_deposit : ℕ → List BridgeChecked → ℕ
last_deposit n [] = n
last_deposit n (deposit_relay m ∷ cs) = last_deposit m cs
last_deposit n (withdraw_relay m ∷ cs) = last_deposit n cs
last_deposit n (withdraw_confirm m ∷ cs) = last_deposit n cs

abbrev last_withdraw : ℕ → List BridgeChecked → ℕ
last_withdraw n [] = n
last_withdraw n (deposit_relay m ∷ cs) = last_withdraw n cs
last_withdraw n (withdraw_relay m ∷ cs) = last_withdraw m cs
last_withdraw n (withdraw_confirm m ∷ cs) = last_withdraw n cs

abbrev last_confirm : ℕ → List BridgeChecked → ℕ
last_confirm n [] = n
last_confirm n (deposit_relay m ∷ cs) = last_confirm n cs
last_confirm n (withdraw_relay m ∷ cs) = last_confirm n cs
last_confirm n (withdraw_confirm m ∷ cs) = last_confirm m cs

-- The database with every block that was reported last.
abbrev pub latest : List BridgeChecked → Database → Database
latest cs db = record db {
  checked_deposit_relay = last_deposit db.checked_deposit_relay cs;
  checked_withdraw_relay = last_withdraw db.checked_withdraw_relay cs;
  checked_withdraw_confirm = last_confirm db.checked_withdraw_confirm cs;
}

checked_all-latest : (cs : List BridgeChecked) (db : Database) → checked_all cs db ≡ latest cs db
unfolding checked
checked_all-latest [] db = refl
checked_all-latest (deposit_relay n ∷ cs) db =
    checked_all-latest cs (record db { checked_deposit_relay = n })
checked_all-latest (withdraw_relay n ∷ cs) db =
    checked_all-latest cs (record db { checked_withdraw_relay = n })
checked_all-latest (withdraw_confirm n ∷ cs) db =
    checked_all-latest cs (record db { checked_withdraw_confirm = n })

module _ (toml : Toml) where
  -- A higher block number is not written with fewer digits.
  abbrev pub NeverShrinks : Type 0
  NeverShrinks =
      (c : BridgeChecked) (db : Database)
      → Ascends c db
      → length (toml.to_string db) ≤ length (toml.to_string (checked c db))

  -- The file is the text of the database, and the disk works.
  pub record IsSaved {ES : Type 0} (b : Bridge ES) : Type 0 where
    pub in_file : b.file ≡ toml.to_string b.database
    pub disk_works : b.disk ≡ []

  unfoldable pub poll_times :
      ℕ → Bridge (Feed (Option BridgeChecked)) → Bridge (Feed (Option BridgeChecked))
  poll_times zero b = b
  poll_times (suc n) b = poll_times n (poll toml feed_poll b).0

  poll-saves :
      NeverShrinks
      → (b : Bridge (Feed (Option BridgeChecked))) (c : BridgeChecked)
        (rest : Feed (Option BridgeChecked))
      → IsSaved b
      → b.event_stream ≡ ready (some c) ∷ rest
      → Ascends c b.database
      → (poll toml feed_poll b).0 ≡ record b {
        database = checked c b.database;
        file = toml.to_string (checked c b.database);
        event_stream = rest;
      }
  unfolding poll
  poll-saves grows b c rest saved e up =
      let disk_works = saved.disk_works in
      let in_file = saved.in_file in
      let whole =
        overwrite_all b.file (toml.to_string (checked c b.database))
          (rw in_file (grows c b.database up)) in
      ground arith

  load-checked_all :
      NeverShrinks
      → (path : String) (cs : List BridgeChecked) (b : Bridge (Feed (Option BridgeChecked)))
      → IsSaved b
      → b.event_stream ≡ map (λ c. ready (some c)) cs
      → Ascending cs b.database
      → load toml path (contents (poll_times (length cs) b).file) ≡ ok (checked_all cs b.database)
  unfolding poll_times load
  load-checked_all grows path [] b saved e up =
      rw (saved.in_file, toml.from_str-to_string b.database, parse)
  load-checked_all grows path (c ∷ cs) b saved e (up, ups) =
      let once = poll-saves grows b c (map (λ c. ready (some c)) cs) saved e up in
      ap
        (λ (b' : Bridge (Feed (Option BridgeChecked))).
          load toml path (contents (poll_times (length cs) b').file))
        once
      ∙ load-checked_all grows path cs _ (record { in_file = refl; disk_works = saved.disk_works })
          refl ups

  -- After the relays have reported any blocks, each no lower than that relay's last, and where the
  -- disk works and a higher block number never has a shorter text: the file can be loaded, and what
  -- is loaded has for each relay the block that it reported last, and all else unchanged.
  pub load-poll_times :
      NeverShrinks
      → (path : String) (cs : List BridgeChecked) (b : Bridge (Feed (Option BridgeChecked)))
      → IsSaved b
      → b.event_stream ≡ map (λ c. ready (some c)) cs
      → Ascending cs b.database
      → load toml path (contents (poll_times (length cs) b).file) ≡ ok (latest cs b.database)
  load-poll_times grows path cs b saved e up =
      load-checked_all grows path cs b saved e up ∙ ap ok (checked_all-latest cs b.database)
