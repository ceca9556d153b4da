-- ===== src/EventStream/Gate.antt =====
-- What `BridgeEventStream` (bridge/src/bridge/mod.rs) lets through.
use poa_bridge.EventStream.{
  bridge_polled, prices_checked, round, poll, round_in, load_flag, wait_round, BridgeChecked,
  next_item, balances_checked, wait, BridgeStatus, init, BridgeEventStream, BridgePoll, Cells,
  cells, check_balances, get_gas_prices,
}
use poa_bridge.Error.{shutdown_requested}
use poa_bridge.Futures.Loop.{Runs-unique, stop, Runs, Lowers, drive-Runs, Runs-Keeps, Keeps}
use poa_bridge.Prelude.{
  ◌<◌, sym, ap, ◌⊎◌, inl, inr, Bool, true, false, List, ◌∙◌, ◌∷◌, ℕ, ◌≡◌, refl, Option, none, some,
  arith,
}
use poa_bridge.Futures.{Round, again, try_stream, Poll, ready, not_ready, failed, panicked}
use mathlib.Core.Path.{subst}
use poa_bridge.GasPrice.{Oracle}
use poa_bridge.EventStream.Checks.{IsKnown, BothKnown, Checked, check_balances-Checked}

module _ {N B : Type 0} (oracle : Oracle N) where
  -- Nor does polling the prices touch the balances.
  abbrev SamePrices : BridgeEventStream B → BridgeEventStream B → Type 0
  SamePrices s t =
      (t.state ≡ s.state)
      × (t.bridge ≡ s.bridge)
      × (t.home_balance ≡ s.home_balance)
      × (t.foreign_balance ≡ s.foreign_balance)

  get_gas_prices-Same : (s : BridgeEventStream B) → SamePrices s (get_gas_prices oracle s).0
  unfolding get_gas_prices
  get_gas_prices-Same s = ground arith

module _ {N B : Type 0} (oracle : Oracle N) (poll_bridge : BridgePoll B) where
  -- With `b` the stream of the relays before a poll: it was polled once, knowing both balances, and
  -- answered `p`.
  abbrev pub Answers : B → B → Poll (Option BridgeChecked) → Type 0
  Answers b b' p =
      (c : Cells) × (IsKnown c.home.balance × IsKnown c.foreign.balance)
      × (poll_bridge c b ≡ (b', p))

  abbrev Passing : B → BridgeStatus → BridgeEventStream B → Type 0
  Passing b wait s = (s.bridge ≡ b) × BothKnown s
  Passing b (next_item (some item)) s = Answers b s.bridge (ready (some item)) × BothKnown s
  Passing b _ s = s.bridge ≡ b

  -- Between polls: no item is held, and past `Init` both balances are known.
  abbrev pub IsGuardedIn : BridgeStatus → BridgeEventStream B → Type 0
  IsGuardedIn wait s = BothKnown s
  IsGuardedIn (next_item (some item)) s = ⊥
  IsGuardedIn _ s = Unit

  abbrev pub IsGuarded : BridgeEventStream B → Type 0
  IsGuarded s = IsGuardedIn s.state s

  -- Of a poll: what it returns is the answer of the relays, who are polled at most once.
  abbrev pub Passes : B → BridgeEventStream B → Poll (Option BridgeChecked) → Type 0
  Passes b t (ready r) = Answers b t.bridge (ready r) × IsGuarded t
  Passes b t not_ready = ((t.bridge ≡ b) ⊎ Answers b t.bridge not_ready) × IsGuarded t
  Passes b t p = IsGuarded t

  init-Keeps :
      (b : B) (s : BridgeEventStream B) (r : BridgeEventStream B × Poll (Option (Unit {0})))
      → s.state ≡ init
      → s.bridge ≡ b
      → Checked s r
      → Keeps (λ t. Passing b t.state t) (Passes b) (balances_checked r.0 r.1)
  unfolding balances_checked
  init-Keeps b s (t, ready r) e h c = (c.0.1 ∙ h, c.1)
  init-Keeps b s (t, not_ready) e h c = (inl (c.1 ∙ h), rw (c.0 ∙ e) tt)
  init-Keeps b s (t, failed x) e h c = rw (c.0 ∙ e) tt
  init-Keeps b s (t, panicked) e h c = rw (c.0 ∙ e) tt

  abbrev passed :
      BridgeEventStream B
      → B
      → Poll (Option BridgeChecked)
      → Round (BridgeEventStream B) (Option BridgeChecked)
  passed s b' p =
      try_stream p (record s { bridge = b' })
        (λ item. again (record s { bridge = b'; state = next_item (some item) }))

  bridge_polled-Keeps :
      (b : B) (s : BridgeEventStream B) (p : Poll (Option BridgeChecked)) (b' : B)
      → s.state ≡ wait
      → BothKnown s
      → Answers b b' p
      → Keeps (λ t. Passing b t.state t) (Passes b) (passed s b' p)
  bridge_polled-Keeps b s (ready (some item)) b' e k a = (a, k)
  bridge_polled-Keeps b s (ready none) b' e k a = (a, rw e k)
  bridge_polled-Keeps b s not_ready b' e k a = (inr a, rw e k)
  bridge_polled-Keeps b s (failed x) b' e k a = rw e k
  bridge_polled-Keeps b s panicked b' e k a = rw e k

  asked-Keeps :
      (s : BridgeEventStream B) (b : B)
      → s.state ≡ wait
      → s.bridge ≡ b
      → BothKnown s
      → Keeps (λ t. Passing b t.state t) (Passes b) (bridge_polled oracle poll_bridge s)
  unfolding bridge_polled
  asked-Keeps s b e f k =
      let r = poll_bridge (cells s) s.bridge in
      let asked : Answers b r.0 r.1 =
        (cells s, unfold cells in k, ap (poll_bridge (cells s)) (sym f)) in
      bridge_polled-Keeps b s r.1 r.0 e k asked

  prices_checked-Keeps :
      (s : BridgeEventStream B) (p : Poll (Option (Unit {0}))) (b : B)
      → s.state ≡ wait
      → s.bridge ≡ b
      → BothKnown s
      → Keeps (λ t. Passing b t.state t) (Passes b) (prices_checked oracle poll_bridge s p)
  unfolding prices_checked
  prices_checked-Keeps s (ready r) b e f k = asked-Keeps s b e f k
  prices_checked-Keeps s not_ready b e f k = asked-Keeps s b e f k
  prices_checked-Keeps s (failed x) b e f k = asked-Keeps s b e f k
  prices_checked-Keeps s panicked b e f k = rw e k

  wait_round-Keeps :
      (up : Bool) (s : BridgeEventStream B) (b : B)
      → s.state ≡ wait
      → s.bridge ≡ b
      → BothKnown s
      → Keeps (λ t. Passing b t.state t) (Passes b) (wait_round oracle poll_bridge s up)
  unfolding wait_round
  wait_round-Keeps false s b e f k = rw e k
  wait_round-Keeps true s b e f k =
      let g = get_gas_prices oracle s in
      let same = get_gas_prices-Same oracle s in
      let known : BothKnown g.0 =
        (subst IsKnown (sym same.2) k.0, subst IsKnown (sym same.3) k.1) in
      prices_checked-Keeps g.0 g.1 b (same.0 ∙ e) (same.1 ∙ f) known

  round_in-Keeps :
      (b : B) (state : BridgeStatus) (s : BridgeEventStream B)
      → s.state ≡ state
      → Passing b state s
      → Keeps (λ t. Passing b t.state t) (Passes b) (round_in oracle poll_bridge state s)
  unfolding round_in
  round_in-Keeps b init s e h = init-Keeps b s (check_balances s) e h (check_balances-Checked s)
  round_in-Keeps b wait s e h =
      wait_round-Keeps (load_flag s.running).0 (record s { running = (load_flag s.running).1 }) b e
        h.0 h.1
  round_in-Keeps b (next_item none) s e h = h
  round_in-Keeps b (next_item (some item)) s e h = (h.0, tt)

  abbrev pub stages : BridgeStatus → ℕ
  stages (next_item none) = 3
  stages init = 2
  stages wait = 1
  stages (next_item (some item)) = 0

  init-Lowers :
      (s : BridgeEventStream B) (r : BridgeEventStream B × Poll (Option (Unit {0})))
      → s.state ≡ init
      → Lowers (λ t. stages t.state) s (balances_checked r.0 r.1)
  unfolding balances_checked
  init-Lowers s (t, ready r) e = rw e (omega arith)
  init-Lowers s (t, not_ready) e = tt
  init-Lowers s (t, failed x) e = tt
  init-Lowers s (t, panicked) e = tt

  polled-Lowers :
      (g s : BridgeEventStream B) (b' : B) (p : Poll (Option BridgeChecked))
      → s.state ≡ wait
      → Lowers (λ t. stages t.state) s (passed g b' p)
  polled-Lowers g s b' (ready (some item)) e = rw e (omega arith)
  polled-Lowers g s b' (ready none) e = tt
  polled-Lowers g s b' not_ready e = tt
  polled-Lowers g s b' (failed x) e = tt
  polled-Lowers g s b' panicked e = tt

  prices_checked-Lowers :
      (g s : BridgeEventStream B) (p : Poll (Option (Unit {0})))
      → s.state ≡ wait
      → Lowers (λ t. stages t.state) s (prices_checked oracle poll_bridge g p)
  unfolding prices_checked bridge_polled
  prices_checked-Lowers g s (ready r) e = polled-Lowers g s _ _ e
  prices_checked-Lowers g s not_ready e = polled-Lowers g s _ _ e
  prices_checked-Lowers g s (failed x) e = polled-Lowers g s _ _ e
  prices_checked-Lowers g s panicked e = tt

  wait_round-Lowers :
      (up : Bool) (g s : BridgeEventStream B)
      → s.state ≡ wait
      → Lowers (λ t. stages t.state) s (wait_round oracle poll_bridge g up)
  unfolding wait_round
  wait_round-Lowers false g s e = tt
  wait_round-Lowers true g s e =
      let priced = get_gas_prices oracle g in prices_checked-Lowers priced.0 s priced.1 e

  round_in-Lowers :
      (state : BridgeStatus) (s : BridgeEventStream B)
      → s.state ≡ state
      → Lowers (λ t. stages t.state) s (round_in oracle poll_bridge state s)
  unfolding round_in
  round_in-Lowers init s e = init-Lowers s (check_balances s) e
  round_in-Lowers wait s e =
      wait_round-Lowers (load_flag s.running).0 (record s { running = (load_flag s.running).1 }) s e
  round_in-Lowers (next_item none) s e = rw e (omega arith)
  round_in-Lowers (next_item (some item)) s e = tt

  stages-lt : (state : BridgeStatus) → stages state < 4
  stages-lt init = omega arith
  stages-lt wait = omega arith
  stages-lt (next_item none) = omega arith
  stages-lt (next_item (some item)) = omega arith

  -- A poll of the event stream ends: it returns what the program's loop returns, which has no bound
  -- on its rounds, and the loop goes round at most four times.
  pub event_poll-Runs :
      (s : BridgeEventStream B)
      → Runs
          (round oracle poll_bridge)
          (poll oracle poll_bridge s).0
          (poll oracle poll_bridge s).1
          s
  unfolding poll round
  event_poll-Runs s =
      drive-Runs (round oracle poll_bridge) (λ t. stages t.state)
        (λ t. round_in-Lowers t.state t refl) 4 s (stages-lt s.state)

  IsGuarded-Passing :
      (state : BridgeStatus) (s : BridgeEventStream B)
      → IsGuardedIn state s
      → Passing s.bridge state s
  IsGuarded-Passing init s h = refl
  IsGuarded-Passing wait s h = (refl, h)
  IsGuarded-Passing (next_item none) s h = refl
  IsGuarded-Passing (next_item (some item)) s h = absurd h

  -- Of a stream that holds no item, and past `Init` knows both balances: what a poll yields is what
  -- the stream of the relays answers to one poll that knows both balances, unchanged; a poll that
  -- yields nothing has polled it at most once, and the same condition holds at the next poll.
  pub event_poll-Passes :
      (s : BridgeEventStream B)
      → IsGuarded s
      → Passes s.bridge (poll oracle poll_bridge s).0 (poll oracle poll_bridge s).1
  unfolding round
  event_poll-Passes s h =
      Runs-Keeps (round oracle poll_bridge) (λ t. Passing s.bridge t.state t) (Passes s.bridge)
        (λ t. round_in-Keeps s.bridge t.state t refl) (event_poll-Runs s)
        (IsGuarded-Passing s.state s h)

  -- Once the flag is read as down, a poll of a stream that waits for the relays fails with the
  -- request to shut down and changes nothing but the reading of the flag: neither the relays nor the
  -- oracles are polled.
  event_poll_shutdown :
      (s : BridgeEventStream B) (rest : List Bool)
      → s.state ≡ wait
      → s.running ≡ false ∷ rest
      → poll oracle poll_bridge s ≡ (record s { running = rest }, failed shutdown_requested)
  unfolding round wait_round
  event_poll_shutdown s rest e f =
      Runs-unique (round oracle poll_bridge) (event_poll-Runs s) refl (stop (ground arith))
