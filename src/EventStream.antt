-- ===== src/EventStream.antt =====
-- bridge/src/bridge/mod.rs: `BridgeEventStream`, which learns the balances and gas prices and passes on
-- what the relays report. The stream of the relays, a boxed trait object, is any state `B` with a poll
-- function that reads the cells.
pub mod Checks
pub mod Gate
pub mod Stopping
use poa_bridge.Relay.Shared.{BridgeChecked, Shared}
use poa_bridge.Prelude.{ℕ, Bool, true, false, Option, none, some, List, [], ◌∷◌}
use poa_bridge.Error.{shutdown_requested}
use poa_bridge.Futures.{
  Poll, ready, not_ready, failed, panicked, Feed, poll_feed, Round, again, done, try_stream, drive,
}
use poa_bridge.Balance
use poa_bridge.Balance.{BalanceCheck}
use poa_bridge.GasPrice
use poa_bridge.GasPrice.{GasPriceStream, Oracle}

pub data BridgeStatus : Type 0 where
  init wait : BridgeStatus
  next_item : Option BridgeChecked → BridgeStatus

-- The cells that are shared with the relays stand in the stream that writes them. `running` is what
-- the next loads of the flag give, and a flag that is not mentioned any more stays up.
pub record BridgeEventStream (B : Type 0) : Type 0 where
  pub state : BridgeStatus
  pub home_balance_check : BalanceCheck
  pub foreign_balance_check : BalanceCheck
  pub home_balance : Option ℕ
  pub foreign_balance : Option ℕ
  pub home_gas_stream : Option GasPriceStream
  pub foreign_gas_stream : Option GasPriceStream
  pub home_gas_price : ℕ
  pub foreign_gas_price : ℕ
  pub running : List Bool
  pub bridge : B

-- `try_bridge!`: a value or none, or an early return.
pub data Tried {ℓ} (A : Type ℓ) : Type ℓ where
  value : Option A → Tried A
  early : Poll (Option (Unit {0})) → Tried A

abbrev pub try_bridge {ℓ} : {A : Type ℓ} → Poll (Option A) → Tried A
try_bridge (failed e) = early (failed e)
try_bridge not_ready = value none
try_bridge (ready none) = early (ready none)
try_bridge (ready (some a)) = value (some a)
try_bridge panicked = early panicked

-- What a relay reads of the cells: those of the side that it sends to.
pub record Cells : Type 0 where
  pub home : Shared
  pub foreign : Shared

unfoldable pub cells : {B : Type 0} → BridgeEventStream B → Cells
cells s = record {
  home = record { balance = s.home_balance; gas_price = s.home_gas_price };
  foreign = record { balance = s.foreign_balance; gas_price = s.foreign_gas_price };
}

-- `Option::or` and `Option::unwrap_or`.
abbrev pub or_else {ℓ} : {A : Type ℓ} → Option A → Option A → Option A
or_else (some a) o = some a
or_else none o = o

abbrev pub unwrap_or {ℓ} : {A : Type ℓ} → Option A → A → A
unwrap_or (some a) d = a
unwrap_or none d = d

-- The result of `check_balances`, once both checks are polled.
unfoldable pub both_known : Option ℕ → Option ℕ → Poll (Option (Unit {0}))
both_known (some home) (some foreign) = ready none
both_known _ _ = not_ready

unfoldable pub foreign_checked :
    {B : Type 0} → BridgeEventStream B → Tried ℕ → BridgeEventStream B × Poll (Option (Unit {0}))
unfolding both_known
foreign_checked s (value v) =
    let known = or_else v s.foreign_balance in
    (record s { foreign_balance = known }, both_known s.home_balance known)
foreign_checked s (early p) = (s, p)

unfoldable pub home_checked :
    {B : Type 0} → BridgeEventStream B → Tried ℕ → BridgeEventStream B × Poll (Option (Unit {0}))
unfolding foreign_checked
home_checked s (value v) =
    let (check, p) = Balance.poll s.foreign_balance_check in
    foreign_checked
      (record s { home_balance = or_else v s.home_balance; foreign_balance_check = check })
      (try_bridge p)
home_checked s (early p) = (s, p)

unfoldable pub check_balances :
    {B : Type 0} → BridgeEventStream B → BridgeEventStream B × Poll (Option (Unit {0}))
unfolding home_checked
check_balances s =
    let (check, p) = Balance.poll s.home_balance_check in
    home_checked (record s { home_balance_check = check }) (try_bridge p)

-- `self.check_balances()?`, where only `NotReady` keeps the stream from going on.
unfoldable pub balances_checked :
    {B : Type 0}
    → BridgeEventStream B
    → Poll (Option (Unit {0}))
    → Round (BridgeEventStream B) (Option BridgeChecked)
balances_checked s not_ready = done s not_ready
balances_checked s (ready r) = again (record s { state = wait })
balances_checked s (failed e) = done s (failed e)
balances_checked s panicked = done s panicked

abbrev pub load_flag : List Bool → Bool × List Bool
load_flag [] = (true, [])
load_flag (b ∷ bs) = (b, bs)

module _ {N B : Type 0} (oracle : Oracle N) where
  -- The price after one poll of a stream, or an early return, which leaves it alone.
  unfoldable pub foreign_priced :
      BridgeEventStream B → Tried ℕ → BridgeEventStream B × Poll (Option (Unit {0}))
  foreign_priced s (value v) =
      (record s { foreign_gas_price = unwrap_or v s.foreign_gas_price }, ready none)
  foreign_priced s (early p) = (s, p)

  unfoldable pub foreign_price :
      BridgeEventStream B → Option GasPriceStream → BridgeEventStream B × Poll (Option (Unit {0}))
  unfolding foreign_priced
  foreign_price s none = (s, ready none)
  foreign_price s (some stream) =
      let (stream', p) = GasPrice.poll oracle stream in
      foreign_priced (record s { foreign_gas_stream = some stream' }) (try_bridge p)

  -- An early return at the home stream leaves the foreign stream alone.
  unfoldable pub home_priced :
      BridgeEventStream B → Tried ℕ → BridgeEventStream B × Poll (Option (Unit {0}))
  unfolding foreign_price
  home_priced s (value v) =
      foreign_price (record s { home_gas_price = unwrap_or v s.home_gas_price })
        s.foreign_gas_stream
  home_priced s (early p) = (s, p)

  unfoldable pub home_price :
      BridgeEventStream B → Option GasPriceStream → BridgeEventStream B × Poll (Option (Unit {0}))
  unfolding home_priced
  home_price s none = foreign_price s s.foreign_gas_stream
  home_price s (some stream) =
      let (stream', p) = GasPrice.poll oracle stream in
      home_priced (record s { home_gas_stream = some stream' }) (try_bridge p)

  unfoldable pub get_gas_prices :
      BridgeEventStream B → BridgeEventStream B × Poll (Option (Unit {0}))
  unfolding home_price
  get_gas_prices s = home_price s s.home_gas_stream

-- The poll function of the boxed stream, under what the cells hold.
abbrev pub BridgePoll : Type 0 → Type 0
BridgePoll B = Cells → B → B × Poll (Option BridgeChecked)

module _ {N B : Type 0} (oracle : Oracle N) (poll_bridge : BridgePoll B) where
  unfoldable pub bridge_polled :
      BridgeEventStream B → Round (BridgeEventStream B) (Option BridgeChecked)
  unfolding cells
  bridge_polled s =
      let (bridge', p) = poll_bridge (cells s) s.bridge in
      let s' = record s { bridge = bridge' } in
      try_stream p s' (λ item. again (record s' { state = next_item (some item) }))

  -- The result of `get_gas_prices` is dropped, but a panic unwinds.
  unfoldable pub prices_checked :
      BridgeEventStream B
      → Poll (Option (Unit {0}))
      → Round (BridgeEventStream B) (Option BridgeChecked)
  unfolding bridge_polled
  prices_checked s panicked = done s panicked
  prices_checked s _ = bridge_polled s

  unfoldable pub wait_round :
      BridgeEventStream B → Bool → Round (BridgeEventStream B) (Option BridgeChecked)
  unfolding prices_checked get_gas_prices
  wait_round s true = let (s', p) = get_gas_prices oracle s in prices_checked s' p
  wait_round s false = done s (failed shutdown_requested)

  unfoldable pub round_in :
      BridgeStatus → BridgeEventStream B → Round (BridgeEventStream B) (Option BridgeChecked)
  unfolding check_balances balances_checked wait_round
  round_in init s = let (s', p) = check_balances s in balances_checked s' p
  round_in wait s =
      let (up, rest) = load_flag s.running in wait_round (record s { running = rest }) up
  round_in (next_item none) s = again (record s { state = init })
  round_in (next_item (some item)) s =
      done (record s { state = next_item none }) (ready (some item))

  unfoldable pub round : BridgeEventStream B → Round (BridgeEventStream B) (Option BridgeChecked)
  unfolding round_in
  round s = round_in s.state s

  -- `Init`, `Wait` and the two stages of `NextItem`: no poll goes round more often than that.
  unfoldable pub poll : BridgeEventStream B → BridgeEventStream B × Poll (Option BridgeChecked)
  poll s = drive round 4 s
