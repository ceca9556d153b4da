-- ===== src/Futures.antt =====
-- The polling style of the program: `Poll`, the macros of bridge/src/macros.rs, and the
-- `loop { ... self.state = next_state; }` in which every poll function of the bridge is written.
-- What an embedded future, timer or transport answers is an input: a feed of poll results, read one
-- by one. Where a feed has run out, the embedded future is not ready.
pub mod Loop
use poa_bridge.Prelude.{◌<◌, arith, length, ℕ, zero, suc, List, [], ◌∷◌, Option, none, some}
use poa_bridge.Error.{Error}

-- `Poll<T, Error>`, with a panic as a fourth outcome.
pub data Poll {ℓ} (A : Type ℓ) : Type ℓ where
  ready : A → Poll A
  not_ready : Poll A
  failed : Error → Poll A
  panicked : Poll A

-- `map_err` on a poll result.
abbrev pub map_err {ℓ} : {A : Type ℓ} → (Error → Error) → Poll A → Poll A
map_err f (ready a) = ready a
map_err f not_ready = not_ready
map_err f (failed e) = failed (f e)
map_err f panicked = panicked

abbrev pub Feed {ℓ} : Type ℓ → Type ℓ
Feed A = List (Poll A)

-- One poll of an embedded future.
abbrev pub poll_feed {ℓ} : {A : Type ℓ} → Feed A → Poll A × Feed A
poll_feed [] = (not_ready, [])
poll_feed (p ∷ ps) = (p, ps)

-- The same, as a poll function of a stream.
abbrev pub feed_poll {ℓ} : {A : Type ℓ} → Feed A → Feed A × Poll A
feed_poll feed = ((poll_feed feed).1, (poll_feed feed).0)

-- One iteration of `loop`: go round again in a new state, or return.
pub data Round {ℓ κ} (S : Type ℓ) (A : Type κ) : Type (ℓ ⊔ κ) where
  again : S → Round S A
  done : S → Poll A → Round S A

-- `try_ready!`. The state is the one that the early return leaves.
abbrev pub try_ready {ℓ κ μ} :
    {S : Type ℓ} {A : Type κ} {B : Type μ} → Poll A → S → (A → Round S B) → Round S B
try_ready (ready a) s k = k a
try_ready not_ready s k = done s not_ready
try_ready (failed e) s k = done s (failed e)
try_ready panicked s k = done s panicked

-- `try_stream!`, which also returns the end of the stream.
abbrev pub try_stream {ℓ κ μ} :
    {S : Type ℓ} {A : Type κ} {B : Type μ}
    → Poll (Option A)
    → S
    → (A → Round S (Option B))
    → Round S (Option B)
try_stream (ready (some a)) s k = k a
try_stream (ready none) s k = done s (ready none)
try_stream not_ready s k = done s not_ready
try_stream (failed e) s k = done s (failed e)
try_stream panicked s k = done s panicked

-- The loop, with fuel. `Loop` shows that a fuel above a measure which every round lowers gives the
-- result of the loop without fuel.
unfoldable pub drive {ℓ κ} : {S : Type ℓ} {A : Type κ} → (S → Round S A) → ℕ → S → S × Poll A
drive round zero s = (s, not_ready)
drive round (suc fuel) s = elim (round s) [ again t ↦ drive round fuel t | done t p ↦ (t, p) ]

abbrev pub IsReady {ℓ} : {A : Type ℓ} → Poll A → Type 0
IsReady (ready a) = Unit
IsReady _ = ⊥

pub poll_feed-shorter {ℓ} :
    {A : Type ℓ} (feed : Feed A)
    → IsReady (poll_feed feed).0
    → length (poll_feed feed).1 < length feed
poll_feed-shorter [] r = absurd r
poll_feed-shorter (p ∷ rest) r = omega arith
