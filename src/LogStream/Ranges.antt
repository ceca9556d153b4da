-- ===== src/LogStream/Ranges.antt =====
-- The block ranges of the items that `LogStream` (bridge/src/api.rs) yields.
use poa_bridge.Prelude.{
  ℕ, zero, suc, ◌+◌, ◌≤◌, ◌<◌, ◌≡◌, refl, List, [], ◌∷◌, Option, none, some, arith, ltb, leb, ◌&&◌,
  if◌then◌else◌,
}
use poa_bridge.Futures.{Poll, ready, not_ready, failed, panicked}
use poa_bridge.Futures.Loop.{Runs, Lowers, Keeps, drive-Runs, Runs-Keeps}
use poa_bridge.LogStream.{
  LogStreamItem, LogStreamState, wait, fetch_block_number, fetch_logs, next_item, LogStream, round,
  round_in, budget, poll,
}

round_in-Lowers :
    (state : LogStreamState) (s : LogStream) → s.state ≡ state → Lowers budget s (round_in state s)
unfolding round_in budget
round_in-Lowers wait s e = ground arith
round_in-Lowers fetch_block_number s e = ground arith
round_in-Lowers (fetch_logs from to) s e = ground arith
round_in-Lowers (next_item none) s e = ground arith
round_in-Lowers (next_item (some item)) s e = ground arith

-- Where the timer and the node are ready only a number of times, a poll of the log stream returns what
-- the loop returns, which has no bound on its rounds.
pub poll-Runs : (s : LogStream) → Runs round (poll s).0 (poll s).1 s
unfolding poll round
poll-Runs s =
    drive-Runs round budget (λ s. round_in-Lowers s.state s refl) (suc (budget s)) s (omega arith)

-- Between two polls: what a request for logs asks for begins just above the last block served.
abbrev pub IsSettledAt : LogStreamState → ℕ → Type 0
IsSettledAt (fetch_logs from to) after = (from ≡ after + 1) × (after < to)
IsSettledAt (next_item (some item)) after = ⊥
IsSettledAt _ after = Unit

abbrev pub IsSettled : LogStream → Type 0
IsSettled s = IsSettledAt s.state s.after

-- Within a poll that starts with the blocks up to `a` served.
abbrev At : ℕ → LogStreamState → ℕ → Type 0
At a (fetch_logs from to) after = (after ≡ a) × (from ≡ a + 1) × (a < to)
At a (next_item (some item)) after =
    (item.from_block ≡ a + 1) × (a < item.to_block) × (after ≡ item.to_block)
At a _ after = after ≡ a

-- What a poll returns: an item that starts just above block `a` and moves the stream to its end, or
-- no item and the stream where it was.
abbrev pub Serves : ℕ → LogStream → Poll (Option LogStreamItem) → Type 0
Serves a t (ready (some item)) =
    (item.from_block ≡ a + 1) × (a < item.to_block) × (t.after ≡ item.to_block) × IsSettled t
Serves a t p = (t.after ≡ a) × IsSettled t

round_in-Keeps :
    (a : ℕ) (state : LogStreamState) (s : LogStream)
    → s.state ≡ state
    → At a state s.after
    → Keeps (λ t. At a t.state t.after) (Serves a) (round_in state s)
unfolding round_in
round_in-Keeps a wait s e h = ground arith
round_in-Keeps a fetch_block_number s e h = ground arith
round_in-Keeps a (fetch_logs from to) s e h = ground arith
round_in-Keeps a (next_item none) s e h = ground arith
round_in-Keeps a (next_item (some item)) s e h = ground arith

At-settled : (state : LogStreamState) (after : ℕ) → IsSettledAt state after → At after state after
At-settled wait after h = refl
At-settled fetch_block_number after h = refl
At-settled (fetch_logs from to) after h = (refl, h.0, h.1)
At-settled (next_item none) after h = refl
At-settled (next_item (some item)) after h = absurd h

-- A poll of a settled stream either yields a range that begins one block above the last block
-- served, is not empty, and becomes the last served, or it yields none and has served no more.
pub poll-Serves : (s : LogStream) → IsSettled s → Serves s.after (poll s).0 (poll s).1
unfolding round
poll-Serves s h =
    Runs-Keeps round (λ t. At s.after t.state t.after) (Serves s.after)
      (λ t. round_in-Keeps s.after t.state t refl) (poll-Runs s) (At-settled s.state s.after h)

abbrev add_item : Poll (Option LogStreamItem) → List LogStreamItem → List LogStreamItem
add_item (ready (some item)) items = item ∷ items
add_item _ items = items

-- A consumer that polls a number of times, and collects the items in order.
unfoldable pub collect : ℕ → LogStream → List LogStreamItem × LogStream
collect zero s = ([], s)
collect (suc n) s = (add_item (poll s).1 (collect n (poll s).0).0, (collect n (poll s).0).1)

-- The items join up: each begins one block above the end of the one before.
abbrev pub Consecutive : ℕ → List LogStreamItem → ℕ → Type 0
Consecutive a [] b = a ≡ b
Consecutive a (item ∷ items) b =
    (item.from_block ≡ a + 1) × (a < item.to_block) × Consecutive item.to_block items b

-- In how many of the items block `b` lies.
abbrev pub times_served : ℕ → List LogStreamItem → ℕ
times_served b [] = 0
times_served b (item ∷ items) =
    (if leb item.from_block b && leb b item.to_block then 1 else 0) + times_served b items

collect_step :
    (a b : ℕ) (t : LogStream) (p : Poll (Option LogStreamItem)) (items : List LogStreamItem)
    → Serves a t p
    → Consecutive t.after items b
    → Consecutive a (add_item p items) b
collect_step a b t (ready (some item)) items h c = ground arith
collect_step a b t (ready none) items h c = rw (← h.0) c
collect_step a b t not_ready items h c = rw (← h.0) c
collect_step a b t (failed e) items h c = rw (← h.0) c
collect_step a b t panicked items h c = rw (← h.0) c

Serves-IsSettled :
    (a : ℕ) (t : LogStream) (p : Poll (Option LogStreamItem)) → Serves a t p → IsSettled t
Serves-IsSettled a t (ready (some item)) h = h.3
Serves-IsSettled a t (ready none) h = h.1
Serves-IsSettled a t not_ready h = h.1
Serves-IsSettled a t (failed e) h = h.1
Serves-IsSettled a t panicked h = h.1

poll-IsSettled : (s : LogStream) → IsSettled s → IsSettled (poll s).0
poll-IsSettled s h = Serves-IsSettled s.after (poll s).0 (poll s).1 (poll-Serves s h)

-- Over any number of polls of a settled stream, whatever the node answers, the items join up, each
-- not empty and beginning one block above the end of the one before, from the stream's last served
-- block to that of the stream in the end.
collect-Consecutive :
    (n : ℕ) (s : LogStream)
    → IsSettled s
    → let (items, t) = collect n s in Consecutive s.after items t.after
unfolding collect
collect-Consecutive zero s h = refl
collect-Consecutive (suc n) s h =
    collect_step s.after _ (poll s).0 (poll s).1 _ (poll-Serves s h)
      (collect-Consecutive n (poll s).0 (poll-IsSettled s h))

Consecutive-le : (a b : ℕ) (items : List LogStreamItem) → Consecutive a items b → a ≤ b
Consecutive-le a b [] c = omega arith
Consecutive-le a b (item ∷ items) c = omega (arith, Consecutive-le item.to_block b items c.2)

Consecutive-times :
    (a b : ℕ) (items : List LogStreamItem) (block : ℕ)
    → Consecutive a items b
    → times_served block items ≡ (if ltb a block && leb block b then 1 else 0)
Consecutive-times a b [] block c = ground arith
Consecutive-times a b (item ∷ items) block c = ground (
  arith,
  Consecutive-times item.to_block b items block c.2,
  Consecutive-le item.to_block b items c.2,
)

-- However often a settled stream is polled, and whatever the node answers: every block above the
-- stream's first last-served block and up to its last one is in exactly one of the items, and every
-- other block is in none.
pub collect-times :
    (n : ℕ) (s : LogStream) (block : ℕ)
    → IsSettled s
    → let (items, t) = collect n s in
      times_served block items ≡ (if ltb s.after block && leb block t.after then 1 else 0)
collect-times n s block h =
    Consecutive-times s.after (collect n s).1.after (collect n s).0 block
      (collect-Consecutive n s h)

abbrev pub Spends : ℕ → LogStream → Poll (Option LogStreamItem) → Type 0
Spends b t (ready (some item)) = budget t < b
Spends b t p = budget t ≤ b

round_in-Spends :
    (b : ℕ) (state : LogStreamState) (s : LogStream)
    → s.state ≡ state
    → budget s ≤ b
    → Keeps (λ t. budget t ≤ b) (Spends b) (round_in state s)
unfolding round_in budget
round_in-Spends b wait s e h = ground arith
round_in-Spends b fetch_block_number s e h = ground arith
round_in-Spends b (fetch_logs from to) s e h = ground arith
round_in-Spends b (next_item none) s e h = ground arith
round_in-Spends b (next_item (some item)) s e h = ground arith

-- A poll uses up answers, and one that yields an item does so strictly.
pub poll-Spends : (s : LogStream) → Spends (budget s) (poll s).0 (poll s).1
unfolding round
poll-Spends s =
    Runs-Keeps round (λ t. budget t ≤ budget s) (Spends (budget s))
      (λ t. round_in-Spends (budget s) t.state t refl) (poll-Runs s) (omega arith)
