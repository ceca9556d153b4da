-- ===== src/Relay/Withdraw/Sends.antt =====
-- What the withdraw relay (bridge/src/bridge/withdraw_relay.rs) starts for a list of logs: the calls that
-- it asks the foreign node for, and the transactions that it sends to home.
use mathlib.Core.List.{map-append}
use poa_bridge.LogStream.{Log}
use poa_bridge.Prelude.{All, All-append, ◌≡◌, refl, sym, ap, List, [], ◌∷◌, ◌++◌, map, ℕ}
use poa_bridge.Relay.Sent.{IsCall}
use poa_bridge.Relay.Withdraw.{Crates, RelayAssignment, WithdrawRelay}
use poa_bridge.Relay.Withdraw.Relays.{PaysAsked}
use poa_bridge.Relay.Withdraw.TakesUp.{TakesUp, TakesUp-append}
use poa_bridge.Request.{ApiCall, call_contract}
use poa_bridge.Transaction.{Transaction}

-- The call for the message of a withdrawal, and those for its signatures.
abbrev pub Fetch : Type 0
Fetch = ApiCall × List ApiCall

-- What a round starts.
pub data Start : Type 0 where
  asks : Fetch → Start
  sends : Transaction → Start

abbrev pub asked : List Start → List Fetch
asked [] = []
asked (asks a ∷ xs) = a ∷ asked xs
asked (sends tx ∷ xs) = asked xs

abbrev pub sent : List Start → List Transaction
sent [] = []
sent (asks a ∷ xs) = sent xs
sent (sends tx ∷ xs) = tx ∷ sent xs

asked-append : (xs ys : List Start) → asked (xs ++ ys) ≡ asked xs ++ asked ys
asked-append [] ys = refl
asked-append (asks a ∷ xs) ys = ap (◌∷◌ a) (asked-append xs ys)
asked-append (sends tx ∷ xs) ys = asked-append xs ys

sent-append : (xs ys : List Start) → sent (xs ++ ys) ≡ sent xs ++ sent ys
sent-append [] ys = refl
sent-append (asks a ∷ xs) ys = sent-append xs ys
sent-append (sends tx ∷ xs) ys = ap (◌∷◌ tx) (sent-append xs ys)

abbrev pub asking : List ApiCall → List (List ApiCall) → List Start
asking (m ∷ ms) (g ∷ gs) = asks (m, g) ∷ asking ms gs
asking _ _ = []

-- The calls of the foreign contract that fetch an assignment.
abbrev pub fetch : List ℕ → RelayAssignment → Fetch
fetch contract a =
    (call_contract contract a.message_payload, map (call_contract contract) a.signature_payloads)

module _ (crates : Crates) (account contract home : List ℕ) (gas : ℕ) where
  -- What is asked for are the assignments of the withdrawals that the account takes up, by calls of the
  -- foreign contract; what is sent are calls of the home contract.
  abbrev pub Sends : List Log → List Start → Type 0
  Sends logs xs =
      ((assignments : List RelayAssignment) × TakesUp crates account logs assignments
        × (asked xs ≡ map (fetch contract) assignments))
      × All (IsCall home gas) (sent xs)

  pub Sends-nil : Sends [] []
  Sends-nil = (([], TakesUp.nothing, refl), tt)

  pub Sends-append :
      (logs more : List Log) (xs ys : List Start)
      → Sends logs xs
      → Sends more ys
      → Sends (logs ++ more) (xs ++ ys)
  Sends-append logs more xs ys ((found, takes, are), calls) ((rest, takes', are'), calls') = (
    (
      found ++ rest,
      TakesUp-append crates account takes takes',
      rw (asked-append xs ys, are, are') (sym (map-append (fetch contract) found rest)),
    ),
    rw (sent-append xs ys) (All-append (IsCall home gas) (sent xs) (sent ys) calls calls'),
  )

  asked-asking :
      (found : List RelayAssignment)
      → asked (
          asking
            (map (λ a. call_contract contract a.message_payload) found)
            (map (λ a. map (call_contract contract) a.signature_payloads) found))
        ≡ map (fetch contract) found
  asked-asking [] = refl
  asked-asking (a ∷ found) = ap (◌∷◌ (fetch contract a)) (asked-asking found)

  sent-asking : (ms : List ApiCall) (gs : List (List ApiCall)) → sent (asking ms gs) ≡ []
  sent-asking [] gs = refl
  sent-asking (m ∷ ms) [] = refl
  sent-asking (m ∷ ms) (g ∷ gs) = sent-asking ms gs

  -- The calls for the assignments of the logs.
  pub asking-Sends :
      (logs : List Log) (found : List RelayAssignment)
      → TakesUp crates account logs found
      → Sends logs (
          asking
            (map (λ a. call_contract contract a.message_payload) found)
            (map (λ a. map (call_contract contract) a.signature_payloads) found))
  asking-Sends logs found takes =
      ((found, takes, asked-asking found), rw (sent-asking (map _ found) (map _ found)) tt)

  asked-sends : (txs : List Transaction) → asked (map sends txs) ≡ []
  asked-sends [] = refl
  asked-sends (tx ∷ txs) = asked-sends txs

  sends-calls :
      (s : WithdrawRelay) (messages : List (List ℕ)) (txs : List Transaction)
      → s.home_contract ≡ home
      → s.gas ≡ gas
      → PaysAsked crates s messages txs
      → All (IsCall home gas) (sent (map sends txs))
  sends-calls s [] [] to limit h = tt
  sends-calls s [] (tx ∷ txs) to limit h = absurd h
  sends-calls s (m ∷ ms) [] to limit h = absurd h
  sends-calls s (m ∷ ms) (tx ∷ txs) to limit ((parsed, reads, price, is_call), rest) = (
    (rw to at (is_call.0), rw limit at (is_call.1), is_call.2),
    sends-calls s ms txs to limit rest,
  )

  -- Transactions for messages that were fetched answer no logs.
  pub sends-Sends :
      (s : WithdrawRelay) (messages : List (List ℕ)) (txs : List Transaction)
      → s.home_contract ≡ home
      → s.gas ≡ gas
      → PaysAsked crates s messages txs
      → Sends [] (map sends txs)
  sends-Sends s messages txs to limit h =
      (([], TakesUp.nothing, asked-sends txs), sends-calls s messages txs to limit h)
