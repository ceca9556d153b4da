-- ===== src/Balance.antt =====
-- bridge/src/bridge/balance.rs: `BalanceCheck`, and bridge/src/bridge/chain_id.rs: `ChainIdRetrieval`.
pub mod Loops
use poa_bridge.Prelude.{ℕ, suc, ◌+◌, ◌*◌, String, Option, none, some, length}
use poa_bridge.Futures.{
  Poll, ready, panicked, Feed, poll_feed, Round, again, done, try_ready, drive,
}

pub data BalanceCheckState : Type 0 where
  wait balance_request : BalanceCheckState
  yield : Option ℕ → BalanceCheckState

pub record BalanceCheck : Type 0 where
  pub state : BalanceCheckState
  pub balances : Feed ℕ

unfoldable pub round_in : BalanceCheckState → BalanceCheck → Round BalanceCheck (Option ℕ)
round_in wait s = again (record s { state = balance_request })
round_in balance_request s =
    let (p, rest) = poll_feed s.balances in
    let s' = record s { balances = rest } in
    try_ready p s' (λ value. again (record s' { state = yield (some value) }))
round_in (yield none) s = again (record s { state = wait })
round_in (yield (some value)) s = done (record s { state = yield none }) (ready (some value))

unfoldable pub round : BalanceCheck → Round BalanceCheck (Option ℕ)
unfolding round_in
round s = round_in s.state s

abbrev pub idle_rounds : BalanceCheckState → ℕ
idle_rounds wait = 1
idle_rounds balance_request = 0
idle_rounds (yield none) = 2
idle_rounds (yield (some value)) = 0

unfoldable pub budget : BalanceCheck → ℕ
budget s = 3 * length s.balances + idle_rounds s.state

unfoldable pub poll : BalanceCheck → BalanceCheck × Poll (Option ℕ)
poll s = drive round (suc (budget s)) s

pub data ChainIdRetrievalState : Type 0 where
  start chain_id_request : ChainIdRetrievalState

pub record ChainIdRetrieval : Type 0 where
  pub state : ChainIdRetrievalState
  pub versions : Feed String

abbrev pub rounds_left : ChainIdRetrievalState → ℕ
rounds_left start = 1
rounds_left chain_id_request = 0

abbrev pub chain_id_rounds : ChainIdRetrieval → ℕ
chain_id_rounds s = rounds_left s.state

-- `value.parse().unwrap()`: the parser of `u64` is a parameter.
module _ (parse_u64 : String → Option ℕ) where
  unfoldable pub parsed_id : Option ℕ → ChainIdRetrieval → Round ChainIdRetrieval ℕ
  parsed_id (some id) s = done s (ready id)
  parsed_id none s = done s panicked

  unfoldable pub chain_id_round_in :
      ChainIdRetrievalState → ChainIdRetrieval → Round ChainIdRetrieval ℕ
  unfolding parsed_id
  chain_id_round_in start s = again (record s { state = chain_id_request })
  chain_id_round_in chain_id_request s =
      let (p, rest) = poll_feed s.versions in
      let s' = record s { versions = rest } in
      try_ready p s' (λ value. parsed_id (parse_u64 value) s')

  unfoldable pub chain_id_round : ChainIdRetrieval → Round ChainIdRetrieval ℕ
  unfolding chain_id_round_in
  chain_id_round s = chain_id_round_in s.state s

  -- The loop goes round at most twice.
  unfoldable pub chain_id_poll : ChainIdRetrieval → ChainIdRetrieval × Poll ℕ
  chain_id_poll s = drive chain_id_round 2 s

-- Over what the node will answer.
unfoldable pub create_balance_check : Feed ℕ → BalanceCheck
create_balance_check balances = record { state = wait; balances = balances }

unfoldable pub create_chain_id_retrieval : Feed String → ChainIdRetrieval
create_chain_id_retrieval versions = record { state = start; versions = versions }
