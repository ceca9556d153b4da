-- ===== src/Relay/Confirm/Submitted.antt =====
-- What a withdraw confirmation (bridge/src/bridge/withdraw_confirm.rs) submits for one log, and that its
-- passes over all logs of a batch give the same.
use poa_bridge.Error.{traverse, traverse-cons, Result, ok, ◌>>=◌}
use poa_bridge.LogStream.{Log}
use poa_bridge.Prelude.{ℕ, ◌≡◌, refl, sym, ap, List, [], ◌∷◌, map, zip, arith}
use poa_bridge.Relay.Confirm.{
  Crates, withdraw_message, sign_message, withdraw_submit_signature_payload,
}
use poa_bridge.Relay.Confirm.Submits.{submission, payload-submission, withdraw_message-length}

zipped : {xs ys vs ws : List (List ℕ)} → xs ≡ vs → ys ≡ ws → zip xs ys ≡ zip vs ws
zipped e h = cc

module _ (crates : Crates) (account : List ℕ) where
  -- The call data for a log: its message, with the account's signature of the hash of that message.
  abbrev pub submitted : Log → Result (List ℕ)
  submitted log = do
    message ← withdraw_message crates log
    signature ← sign_message crates account message
    withdraw_submit_signature_payload crates (message, signature)

  pub traverse-submitted :
      (logs : List Log) (messages signatures : List (List ℕ))
      → traverse (withdraw_message crates) logs ≡ ok messages
      → traverse (sign_message crates account) messages ≡ ok signatures
      → traverse submitted logs ≡ ok (map (submission crates) (zip messages signatures))
  unfolding traverse
  traverse-submitted [] messages signatures em es =
      let none_read : messages ≡ [] = ground arith in rw none_read refl
  traverse-submitted (log ∷ logs) messages signatures em es =
      let (m, ms, read, rest, split) = traverse-cons (withdraw_message crates) log logs em in
      let (g, gs, signed, others, split') =
        traverse-cons (sign_message crates account) m ms (rw split at es) in
      let head : submitted log ≡ ok (submission crates (m, g)) =
        rw (read, signed)
          (payload-submission crates (m, g) (withdraw_message-length crates log m read)) in
      rw (head, traverse-submitted logs ms gs rest others)
        (ap ok (
          ap (λ (pairs : List (List ℕ × List ℕ)). map (submission crates) pairs)
            (sym (zipped split split'))))
