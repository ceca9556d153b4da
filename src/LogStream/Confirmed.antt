-- ===== src/LogStream/Confirmed.antt =====
-- The confirmations of the blocks that `LogStream` (bridge/src/api.rs) serves.
use poa_bridge.LogStream.Ranges.{poll-Runs}
use poa_bridge.Futures.Loop.{Runs-Keeps, Keeps}
use poa_bridge.LogStream.{
  poll, round, LogStreamItem, LogStreamState, wait, fetch_block_number, fetch_logs, next_item,
  LogStream, round_in,
}
use poa_bridge.Prelude.{ℕ, ◌+◌, ◌≤◌, ◌≡◌, refl, List, [], ◌∷◌, Option, none, some, arith, All}
use poa_bridge.Futures.{Poll, ready}

-- The node reports no block number above `tip`.
abbrev pub AtMost : ℕ → Poll ℕ → Type 0
AtMost tip (ready n) = n ≤ tip
AtMost tip _ = Unit

abbrev pub DeepState : ℕ → ℕ → LogStreamState → Type 0
DeepState tip confirmations (fetch_logs from to) = to + confirmations ≤ tip
DeepState tip confirmations (next_item (some item)) = item.to_block + confirmations ≤ tip
DeepState tip confirmations _ = Unit

-- What the stream asks for or holds has its confirmations, as far as the node has reported.
abbrev pub IsDeep : ℕ → LogStream → Type 0
IsDeep tip s = DeepState tip s.confirmations s.state × All (AtMost tip) s.block_numbers

abbrev pub ServesDeep : ℕ → ℕ → LogStream → Poll (Option LogStreamItem) → Type 0
ServesDeep tip c t (ready (some item)) =
    (item.to_block + c ≤ tip) × (t.confirmations ≡ c) × IsDeep tip t
ServesDeep tip c t p = (t.confirmations ≡ c) × IsDeep tip t

round_in-Keeps :
    (tip c : ℕ) (state : LogStreamState) (s : LogStream)
    → s.state ≡ state
    → s.confirmations ≡ c
    → DeepState tip c state
    → (numbers : List (Poll ℕ)) → s.block_numbers ≡ numbers
    → All (AtMost tip) numbers
    → Keeps (λ t. (t.confirmations ≡ c) × IsDeep tip t) (ServesDeep tip c) (round_in state s)
unfolding round_in
round_in-Keeps tip c wait s e d h ns f g = ground arith
round_in-Keeps tip c fetch_block_number s e d h [] f g = ground arith
round_in-Keeps tip c fetch_block_number s e d h (ready n ∷ ns) f g = ground arith
round_in-Keeps tip c fetch_block_number s e d h (p ∷ ns) f g = ground arith
round_in-Keeps tip c (fetch_logs from to) s e d h ns f g = ground arith
round_in-Keeps tip c (next_item none) s e d h ns f g = ground arith
round_in-Keeps tip c (next_item (some item)) s e d h ns f g = ground arith

-- If no block number that the node still reports exceeds `tip`, and what the stream already asks
-- for or holds has its confirmations below `tip`, then an item that a poll yields ends at least the
-- required confirmations below `tip`, and the same condition holds for the next poll.
pub poll-ServesDeep :
    (tip : ℕ) (s : LogStream) → IsDeep tip s → ServesDeep tip s.confirmations (poll s).0 (poll s).1
unfolding round
poll-ServesDeep tip s h =
    Runs-Keeps round (λ t. (t.confirmations ≡ s.confirmations) × IsDeep tip t)
      (ServesDeep tip s.confirmations)
      (λ t k.
        round_in-Keeps tip s.confirmations t.state t refl k.0 (rw k.0 at k.1.0) t.block_numbers refl
          k.1.1)
      (poll-Runs s) (refl, h)
