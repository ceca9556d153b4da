-- ===== src/GasPrice/Prices.antt =====
-- The prices that bridge/src/bridge/gas_price.rs yields.
use poa_bridge.GasPrice.{
  response_arrived, JsonValue, other_value, get, slow, initial, waiting_for_response, instant,
  GasPriceSpeed, standard, from_str, yield, fast, as_str, GasPriceStream, GasPriceState, Oracle,
  round, round_in, budget, poll,
}
use poa_bridge.Futures.Loop.{Runs-unique, stop, next, Keeps, Runs-Keeps, Runs, Lowers, drive-Runs}
use poa_bridge.Prelude.{
  ◌⊎◌, inl, inr, [], ◌∷◌, All, ℕ, suc, String, ◌≡◌, refl, Option, none, some, List, arith, eq_iff,
}
use poa_bridge.Futures.{not_ready, Feed, again, Poll, ready, failed, panicked}

-- A speed is read back from its own name.
from_str-as_str : (speed : GasPriceSpeed) → from_str (as_str speed) ≡ some speed
unfolding from_str as_str
from_str-as_str instant = refl
from_str-as_str fast = refl
from_str-as_str standard = refl
from_str-as_str slow = refl

-- A text that is read as a speed is the name of that speed: no other text is read as one.
as_str-from_str : (s : String) (speed : GasPriceSpeed) → from_str s ≡ some speed → as_str speed ≡ s
unfolding from_str as_str
as_str-from_str s speed h =
    ground (arith, eq_iff s "instant", eq_iff s "fast", eq_iff s "standard", eq_iff s "slow")

module _ {N : Type 0} (oracle : Oracle N) where
  open oracle use {parse_object}

  round_in-Lowers :
      (state : GasPriceState) (s : GasPriceStream)
      → s.state ≡ state
      → Lowers budget s (round_in oracle state s)
  unfolding round_in budget
  round_in-Lowers initial s e = ground arith
  round_in-Lowers waiting_for_response s e = ground arith
  round_in-Lowers (yield none) s e = ground arith
  round_in-Lowers (yield (some price)) s e = ground arith

  -- A poll of the gas price stream ends: it returns what the program's loop returns, which has no bound on its
  -- rounds, whatever the answers are.
  gas_poll-Runs : (s : GasPriceStream) → Runs (round oracle) (poll oracle s).0 (poll oracle s).1 s
  unfolding poll round
  gas_poll-Runs s =
      drive-Runs (round oracle) budget (λ t. round_in-Lowers t.state t refl) (suc (budget s)) s
        (omega arith)

  -- Neither the timer fails, nor does a task panic.
  abbrev pub TickWorks : Poll (Option (Unit {0})) → Type 0
  TickWorks (failed e) = ⊥
  TickWorks panicked = ⊥
  TickWorks _ = Unit

  abbrev pub NoPanic : Poll (List ℕ) → Type 0
  NoPanic panicked = ⊥
  NoPanic _ = Unit

  abbrev pub TimerWorks : GasPriceStream → Type 0
  TimerWorks s = All TickWorks s.ticks × All NoPanic s.responses

  -- A price and no error; the price is kept as the last one.
  abbrev pub Prices : GasPriceStream → Poll (Option ℕ) → Type 0
  Prices t (ready (some price)) = (t.last_price ≡ price) × TimerWorks t
  Prices t (failed e) = ⊥
  Prices t panicked = ⊥
  Prices t _ = TimerWorks t

  round_in-Keeps :
      (state : GasPriceState) (s : GasPriceStream) (ticks : Feed (Option (Unit {0})))
      (responses : Feed (List ℕ))
      → s.state ≡ state
      → s.ticks ≡ ticks
      → s.responses ≡ responses
      → All TickWorks ticks
      → All NoPanic responses
      → Keeps TimerWorks Prices (round_in oracle state s)
  unfolding round_in
  round_in-Keeps initial s [] rs e f g h k = ground arith
  round_in-Keeps initial s (t ∷ ts) rs e f g h k = ground arith
  round_in-Keeps waiting_for_response s ts [] e f g h k = ground arith
  round_in-Keeps waiting_for_response s ts (r ∷ rs) e f g h k = ground arith
  round_in-Keeps (yield none) s ts rs e f g h k = ground arith
  round_in-Keeps (yield (some price)) s ts rs e f g h k = ground arith

  -- While the timer does not fail and nothing panics, a poll never fails and never panics, whatever
  -- the oracle answers: an error, a text that is no object, or no number under the speed's name. A
  -- price that it yields is kept as the last price.
  pub gas_poll-Prices :
      (s : GasPriceStream) → TimerWorks s → Prices (poll oracle s).0 (poll oracle s).1
  unfolding round
  gas_poll-Prices s h =
      Runs-Keeps (round oracle) TimerWorks Prices
        (λ t k. round_in-Keeps t.state t t.ticks t.responses refl refl refl k.0 k.1)
        (gas_poll-Runs s) h

  -- A response without a price for the speed: an error of the request, a text that is no object,
  -- or an object with no number under the speed's name.
  abbrev pub Unusable : GasPriceSpeed → Poll (List ℕ) → Type 0
  Unusable speed (failed e) = Unit
  Unusable speed (ready chunk) =
      (parse_object chunk ≡ none)
      ⊎ ((entries : List (String × JsonValue N)) × (parse_object chunk ≡ some entries)
          × ((get (as_str speed) entries ≡ none) ⊎ (get (as_str speed) entries ≡ some other_value)))
  Unusable speed _ = ⊥

  response_arrived_falls_back :
      (p : Poll (List ℕ)) (s : GasPriceStream)
      → Unusable s.speed p
      → response_arrived oracle p s ≡ again (record s { state = yield (some s.last_price) })
  unfolding response_arrived
  response_arrived_falls_back (failed e) s h = refl
  response_arrived_falls_back (ready chunk) s (inl h) = rw h
  response_arrived_falls_back (ready chunk) s (inr (entries, h, inl k)) = rw (h, k)
  response_arrived_falls_back (ready chunk) s (inr (entries, h, inr k)) = rw (h, k)
  response_arrived_falls_back not_ready s h = absurd h
  response_arrived_falls_back panicked s h = absurd h

  -- When a stream waits for the oracle and the answer is an error, a text that is no object, or an
  -- object with no number under the speed's name, the poll yields the last price again.
  gas_poll_falls_back :
      (s : GasPriceStream) (p : Poll (List ℕ)) (rest : Feed (List ℕ))
      → s.state ≡ waiting_for_response
      → s.responses ≡ p ∷ rest
      → Unusable s.speed p
      → poll oracle s
        ≡ (record s { state = yield none; responses = rest }, ready (some s.last_price))
  unfolding round round_in
  gas_poll_falls_back s p rest state hr unusable =
      let s1 : GasPriceStream = record s { responses = rest } in
      let s2 : GasPriceStream = record s1 { state = yield (some s.last_price) } in
      let arrived = response_arrived_falls_back p s1 unusable in
      let step : round oracle s ≡ again s2 = ground arith in
      Runs-unique (round oracle) (gas_poll-Runs s) refl (next step (stop refl))
