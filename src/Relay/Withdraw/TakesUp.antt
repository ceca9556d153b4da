-- ===== src/Relay/Withdraw/TakesUp.antt =====
-- Which withdrawals the withdraw relay (bridge/src/bridge/withdraw_relay.rs) takes up out of a list of
-- logs, said without the code's tests and lists of options.
use poa_bridge.Error.{ok, >>=-eq-ok, traverse, traverse-cons}
use poa_bridge.LogStream.{Log}
use poa_bridge.Prelude.{
  Bool-cases, inl, inr, ℕ, ◌≡◌, ◌≢◌, Option, none, some, List, [], ◌∷◌, ◌++◌, arith,
}
use poa_bridge.Relay.Shared.{CollectedSignatures}
use poa_bridge.Relay.Withdraw.{
  Crates, RelayAssignment, relay_assignment, other_authority, signatures_payload, assigned,
  same_bytes,
}
use poa_bridge.Relay.Withdraw.Assignments.{same_bytes_iff}

module _ (crates : Crates) (me : List ℕ) where
  open crates use {contracts}

  -- The relay takes up each withdrawal whose event names this authority, in order, and skips those
  -- that name another one.
  pub data TakesUp : List Log → List RelayAssignment → Type 0 where
    nothing : TakesUp [] []
    own :
        {log : Log} {logs : List Log} {assignments : List RelayAssignment}
        (collected : CollectedSignatures)
        → contracts.parse_collected_signatures log.topics log.log_data ≡ ok collected
        → collected.authority_responsible_for_relay ≡ me
        → TakesUp logs assignments
        → TakesUp (log ∷ logs) (relay_assignment crates collected ∷ assignments)
    other :
        {log : Log} {logs : List Log} {assignments : List RelayAssignment}
        (collected : CollectedSignatures)
        → contracts.parse_collected_signatures log.topics log.log_data ≡ ok collected
        → collected.authority_responsible_for_relay ≢ me
        → TakesUp logs assignments
        → TakesUp (log ∷ logs) assignments

  pub TakesUp-append :
      {logs more : List Log} {assignments rest : List RelayAssignment}
      → TakesUp logs assignments
      → TakesUp more rest
      → TakesUp (logs ++ more) (assignments ++ rest)
  TakesUp-append nothing k = k
  TakesUp-append (own collected parsed mine h) k = own collected parsed mine (TakesUp-append h k)
  TakesUp-append (other collected parsed foreign h) k =
      other collected parsed foreign (TakesUp-append h k)

  other_authority-skips :
      (hash : Option (List ℕ)) {found : Option RelayAssignment}
      → other_authority crates hash ≡ ok found
      → found ≡ none
  unfolding other_authority
  other_authority-skips none e = ground arith
  other_authority-skips (some hash) e = ground arith

  -- One log, before those that follow it.
  one-TakesUp :
      (log : Log) (logs : List Log) (found : Option RelayAssignment)
      (rest : List (Option RelayAssignment))
      → signatures_payload crates me log ≡ ok found
      → TakesUp logs (assigned crates rest)
      → TakesUp (log ∷ logs) (assigned crates (found ∷ rest))
  unfolding signatures_payload assigned
  one-TakesUp log logs found rest e h =
      let (collected, parsed, decided) =
        >>=-eq-ok (contracts.parse_collected_signatures log.topics log.log_data) _ e in
      let named = collected.authority_responsible_for_relay in
      elim (Bool-cases (same_bytes named me)) [
        | inl same ↦
            let taken : found ≡ some (relay_assignment crates collected) =
              (let d = rw same at decided in ground arith) in
            rw taken (own collected parsed ((same_bytes_iff named me).0 same) h)
        | inr differ ↦
            let skipped : found ≡ none =
              other_authority-skips log.transaction_hash (rw differ at decided) in
            let foreign : named ≢ me = λ same. (let s = (same_bytes_iff named me).1 same in cc) in
            rw skipped (other collected parsed foreign h)
      ]

  pub assigned-TakesUp :
      (logs : List Log) (found : List (Option RelayAssignment))
      → traverse (signatures_payload crates me) logs ≡ ok found
      → TakesUp logs (assigned crates found)
  unfolding traverse assigned
  assigned-TakesUp [] found e = let none_found : found ≡ [] = ground arith in rw none_found nothing
  assigned-TakesUp (log ∷ logs) found e =
      let (first, rest, head, tail, split) =
        traverse-cons (signatures_payload crates me) log logs e in
      rw split (one-TakesUp log logs first rest head (assigned-TakesUp logs rest tail))
