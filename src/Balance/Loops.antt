-- ===== src/Balance/Loops.antt =====
-- The polls of bridge/src/bridge/balance.rs and bridge/src/bridge/chain_id.rs end.
use poa_bridge.Balance.{
  chain_id_poll, chain_id_round, rounds_left, ChainIdRetrieval, wait, chain_id_request,
  chain_id_round_in, start, chain_id_rounds, balance_request, yield, ChainIdRetrievalState,
  BalanceCheck, BalanceCheckState, round, round_in, budget, poll,
}
use poa_bridge.Prelude.{◌<◌, ℕ, suc, String, ◌≡◌, refl, ◌≢◌, Option, none, some, arith}
use poa_bridge.Futures.{Poll, ready}
use poa_bridge.Futures.Loop.{Runs, Lowers, Keeps, drive-Runs, Runs-Keeps}

round_in-Lowers :
    (state : BalanceCheckState) (s : BalanceCheck)
    → s.state ≡ state
    → Lowers budget s (round_in state s)
unfolding round_in budget
round_in-Lowers wait s e = ground arith
round_in-Lowers balance_request s e = ground arith
round_in-Lowers (yield none) s e = ground arith
round_in-Lowers (yield (some value)) s e = ground arith

-- A poll of the balance check ends: it returns what the program's loop returns, which has no bound on its
-- rounds, whatever the answers are.
balance_poll-Runs : (s : BalanceCheck) → Runs round (poll s).0 (poll s).1 s
unfolding poll round
balance_poll-Runs s =
    drive-Runs round budget (λ t. round_in-Lowers t.state t refl) (suc (budget s)) s (omega arith)

-- The check never ends as a stream.
abbrev NotEnded : BalanceCheck → Poll (Option ℕ) → Type 0
NotEnded t (ready none) = ⊥
NotEnded t _ = Unit

round_in-Keeps :
    (state : BalanceCheckState) (s : BalanceCheck)
    → s.state ≡ state
    → Keeps (λ t. Unit {0}) NotEnded (round_in state s)
unfolding round_in
round_in-Keeps wait s e = tt
round_in-Keeps balance_request s e = ground arith
round_in-Keeps (yield none) s e = tt
round_in-Keeps (yield (some value)) s e = tt

pub balance_poll-NotEnded : (s : BalanceCheck) → (poll s).1 ≢ ready none
unfolding round
balance_poll-NotEnded s e =
    let kept : NotEnded (poll s).0 (poll s).1 =
      Runs-Keeps round (λ t. Unit {0}) NotEnded (λ t h. round_in-Keeps t.state t refl)
        (balance_poll-Runs s) tt in
    rw e at kept

chain_id_round_in-Lowers :
    (parse_u64 : String → Option ℕ) (state : ChainIdRetrievalState) (s : ChainIdRetrieval)
    → s.state ≡ state
    → Lowers chain_id_rounds s (chain_id_round_in parse_u64 state s)
unfolding chain_id_round_in
chain_id_round_in-Lowers parse_u64 start s e = ground arith
chain_id_round_in-Lowers parse_u64 chain_id_request s e = ground arith

rounds_left-lt : (state : ChainIdRetrievalState) → rounds_left state < 2
rounds_left-lt start = omega arith
rounds_left-lt chain_id_request = omega arith

-- A poll of the chain id ends: the loop goes round at most twice.
chain_id_poll-Runs :
    (parse_u64 : String → Option ℕ) (s : ChainIdRetrieval)
    → Runs (chain_id_round parse_u64) (chain_id_poll parse_u64 s).0 (chain_id_poll parse_u64 s).1 s
unfolding chain_id_poll chain_id_round
chain_id_poll-Runs parse_u64 s =
    drive-Runs (chain_id_round parse_u64) chain_id_rounds
      (λ t. chain_id_round_in-Lowers parse_u64 t.state t refl) 2 s (rounds_left-lt s.state)
