-- ===== src/LogStream/Progress.antt =====
-- What a node must answer for `LogStream` (bridge/src/api.rs) to serve the next blocks.
use poa_bridge.Prelude.{
  ℕ, ◌+◌, ◌-◌, ◌≤◌, ◌<◌, ◌≡◌, refl, List, [], ◌∷◌, Option, none, some, All, lt→ltb, le→not_ltb,
}
use poa_bridge.Futures.{Feed, ready, again}
use poa_bridge.Futures.Loop.{Runs, stop, next, Runs-unique}
use poa_bridge.LogStream.{
  Log, LogStream, LogStreamItem, LogStreamState, Replies, wait, fetch_block_number, fetch_logs,
  next_item, low_u64, block_number_arrived, round, round_in, poll,
}
use poa_bridge.LogStream.Ranges.{poll-Runs}

-- A tick for each of the block numbers, and one more.
abbrev pub with_ticks : List ℕ → Feed (Option (Unit {0})) → Feed (Option (Unit {0}))
with_ticks [] later = ready (some tt) ∷ later
with_ticks (b ∷ bs) later = ready (some tt) ∷ with_ticks bs later

abbrev pub with_numbers : List ℕ → ℕ → Feed ℕ → Feed ℕ
with_numbers [] number later = ready number ∷ later
with_numbers (b ∷ bs) number later = ready b ∷ with_numbers bs number later

module _ (after confirmations : ℕ) where
  abbrev pub in_state : LogStreamState → Replies → LogStream
  in_state state replies = record {
    state = state;
    after = after;
    confirmations = confirmations;
    replies = replies;
  }

  -- The stream waits, and the node will first answer the numbers `bs`, then another, then the logs.
  abbrev pub waiting : List ℕ → ℕ → List Log → Replies → LogStream
  waiting bs number logs later = in_state wait (record {
    ticks = with_ticks bs later.ticks;
    block_numbers = with_numbers bs number later.block_numbers;
    fetched_logs = ready logs ∷ later.fetched_logs;
  })

  -- No block above the last one served is confirmed when the node has mined `b`.
  abbrev pub IsTooLow : ℕ → Type 0
  IsTooLow b = low_u64 b - confirmations ≤ after

  abbrev pub served : ℕ → List Log → LogStreamItem
  served number logs = record {
    from_block = after + 1;
    to_block = low_u64 number - confirmations;
    logs = logs;
  }

  abbrev pub has_served : ℕ → Replies → LogStream
  has_served number later = record {
    state = next_item none;
    after = low_u64 number - confirmations;
    confirmations = confirmations;
    replies = later;
  }

  -- What is left to answer, after a number.
  abbrev asking : ℕ → Replies → LogStream
  asking b replies =
      in_state fetch_block_number
        (record replies { block_numbers = ready b ∷ replies.block_numbers })

  asking_low : (b : ℕ) (r : Replies) → IsTooLow b → round (asking b r) ≡ again (in_state wait r)
  unfolding round round_in block_number_arrived
  asking_low b r low = rw (le→not_ltb _ _ low) refl

  asking_high :
      (b : ℕ) (r : Replies)
      → after < low_u64 b - confirmations
      → round (asking b r) ≡ again (in_state (fetch_logs (after + 1) (low_u64 b - confirmations)) r)
  unfolding round round_in block_number_arrived
  asking_high b r high = rw (lt→ltb _ _ high) refl

  serves-Runs :
      (bs : List ℕ) (number : ℕ) (logs : List Log) (later : Replies)
      → All IsTooLow bs
      → after < low_u64 number - confirmations
      → Runs round
          (has_served number later)
          (ready (some (served number logs)))
          (waiting bs number logs later)
  unfolding round round_in
  serves-Runs [] number logs later low high =
      let r = record later { fetched_logs = ready logs ∷ later.fetched_logs } in
      next refl (next (asking_high number r high) (next refl (stop refl)))
  serves-Runs (b ∷ bs) number logs later (low, lows) high =
      let r = (waiting bs number logs later).replies in
      next refl (next (asking_low b r low) (serves-Runs bs number logs later lows high))

  -- A waiting stream whose node answers any number of block numbers that confirm nothing new, then
  -- one that does, and then the logs, yields the item of the blocks from the one after the last one
  -- served up to the last confirmed one, in the poll that finds these answers.
  pub poll_serves :
      (bs : List ℕ) (number : ℕ) (logs : List Log) (later : Replies)
      → All IsTooLow bs
      → after < low_u64 number - confirmations
      → poll (waiting bs number logs later)
        ≡ (has_served number later, ready (some (served number logs)))
  poll_serves bs number logs later low high =
      Runs-unique round (poll-Runs (waiting bs number logs later)) refl
        (serves-Runs bs number logs later low high)
