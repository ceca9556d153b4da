-- ===== src/Relay/Confirm/Submits.antt =====
-- What the withdraw confirmation (bridge/src/bridge/withdraw_confirm.rs) submits.
use poa_bridge.LogStream.{LogStreamItem, Log}
use poa_bridge.Prelude.{
  suc, ◌≤◌, refl, ap, ◌∙◌, Option, none, some, [], ◌∷◌, map, arith, ltb, Bool-cases, All,
  length-map, zip, ℕ, ◌≡◌, inl, inr, List, length,
}
use poa_bridge.Error.{All-traverse, traverse, traverse-map, Result, err, panic, ok, >>=-eq-ok}
use poa_bridge.Futures.{again}
use poa_bridge.Relay.Fees.{total_fee-call_transaction, length-traverse, total_fee}
use poa_bridge.Relay.Confirm.{
  withdraw_payloads, payloads_ready, withdraws_arrived, call_transaction, balance_required,
  WithdrawConfirmState, confirm_withdraws, withdraw_submit_signature_payload, WithdrawConfirm,
  mined_message, sign_message, submissions, Crates, withdraw_message,
}
use poa_bridge.Message.{from_log, message_length}
use poa_bridge.Message
use poa_bridge.Message.RoundTrip.{length-to_bytes}

module _ (crates : Crates) where
  open crates use {contracts, words, signer, keccak, info_enabled}

  mined_message-length :
      (hash : Option (List ℕ)) (log : Log) (bytes : List ℕ)
      → mined_message crates hash log ≡ ok bytes
      → length bytes ≡ message_length
  unfolding mined_message
  mined_message-length none log bytes e = elim (Bool-cases info_enabled) [
    | inl on ↦ let e' = rw on at e in cc
    | inr off ↦
        let e' = rw off at e in
        let (m, parsed, written) = >>=-eq-ok (Message.from_log contracts.parse_withdraw log) _ e' in
        length-to_bytes words m written
  ]
  mined_message-length (some hash) log bytes e =
      let (m, parsed, written) = >>=-eq-ok (Message.from_log contracts.parse_withdraw log) _ e in
      length-to_bytes words m written

  pub withdraw_message-length :
      (log : Log) (bytes : List ℕ)
      → withdraw_message crates log ≡ ok bytes
      → length bytes ≡ message_length
  unfolding withdraw_message
  withdraw_message-length log bytes e = mined_message-length log.transaction_hash log bytes e

  -- The call data of a submission.
  abbrev pub submission : List ℕ × List ℕ → List ℕ
  submission (message, signature) = contracts.submit_signature_input signature message

  pub payload-submission :
      (pair : List ℕ × List ℕ)
      → length pair.0 ≡ message_length
      → withdraw_submit_signature_payload crates pair ≡ ok (submission pair)
  unfolding withdraw_submit_signature_payload
  payload-submission (message, signature) h = ground arith

  All-zip :
      (messages signatures : List (List ℕ))
      → All (λ message. length message ≡ message_length) messages
      → All (λ (pair : List ℕ × List ℕ). length pair.0 ≡ message_length) (zip messages signatures)
  All-zip [] signatures h = tt
  All-zip (m ∷ ms) [] h = tt
  All-zip (m ∷ ms) (s ∷ ss) (h, hs) = (h, All-zip ms ss hs)

  -- For each log a message and its signature under the account, in order; one call for each.
  abbrev pub Submits : ℕ → ℕ → WithdrawConfirm → List Log → WithdrawConfirmState → Type 0
  Submits balance gas_price s logs (confirm_withdraws txs block) =
      (messages : List (List ℕ)) × (signatures : List (List ℕ)) × (traverse
          (withdraw_message crates) logs
        ≡ ok messages)
      × (traverse (sign_message crates s.account) messages ≡ ok signatures)
      × (txs
          ≡ map (call_transaction s.gas gas_price s.foreign_contract)
              (map submission (zip messages signatures)))
      × (length txs ≡ length logs)
      × (total_fee txs ≤ balance)
  Submits balance gas_price s logs _ = ⊥

  length-zip : (xs ys : List (List ℕ)) → length ys ≡ length xs → length (zip xs ys) ≡ length ys
  length-zip [] [] h = refl
  length-zip [] (y ∷ ys) h = absurd (omega arith)
  length-zip (x ∷ xs) [] h = refl
  length-zip (x ∷ xs) (y ∷ ys) h = ap suc (length-zip xs ys (omega arith))

  submissions-ok :
      (balance gas_price : ℕ) (s : WithdrawConfirm) (messages signatures payloads : List (List ℕ))
      → All (λ message. length message ≡ message_length) messages
      → submissions crates balance gas_price s messages signatures ≡ ok payloads
      → (payloads ≡ map submission (zip messages signatures))
        × (balance_required s.gas gas_price (length signatures) ≤ balance)
  unfolding submissions
  submissions-ok balance gas_price s messages signatures payloads h e =
      let submits =
        traverse-map _ _ submission payload-submission (zip messages signatures)
          (All-zip messages signatures h) in
      elim (Bool-cases (ltb balance (balance_required s.gas gas_price (length signatures)))) [
        | inl short ↦ let e' = rw short at e in cc
        | inr enough ↦ let e' = rw (enough, submits) at e in (ground arith, ground arith)
      ]

  payloads-Submits :
      (balance gas_price block : ℕ) (s t : WithdrawConfirm) (logs : List Log)
      (r : Result (List (List ℕ)))
      → withdraw_payloads crates balance gas_price s logs ≡ r
      → payloads_ready crates gas_price block s r ≡ again t
      → Submits balance gas_price s logs t.state
  unfolding withdraw_payloads payloads_ready
  payloads-Submits balance gas_price block s t logs (ok payloads) e h =
      let (messages, em, e1) = >>=-eq-ok (traverse (withdraw_message crates) logs) _ e in
      let (signatures, es, e2) =
        >>=-eq-ok (traverse (sign_message crates s.account) messages) _ e1 in
      let sized = All-traverse _ _ withdraw_message-length logs messages em in
      let (shape, fits) =
        submissions-ok balance gas_price s messages signatures payloads sized e2 in
      let txs = map (call_transaction s.gas gas_price s.foreign_contract) payloads in
      let state : t.state ≡ confirm_withdraws txs block = ground arith in
      let count : length payloads ≡ length signatures =
        ap length shape
        ∙ length-map submission (zip messages signatures)
        ∙ length-zip messages signatures (length-traverse _ messages es) in
      let fee = total_fee-call_transaction s.gas gas_price s.foreign_contract payloads in
      rw state (
        messages,
        signatures,
        em,
        es,
        ap (map _) shape,
        length-map _ payloads ∙ count ∙ length-traverse _ messages es ∙ length-traverse _ logs em,
        rw (fee, count) fits,
      )
  payloads-Submits balance gas_price block s t logs (err x) e h = cc
  payloads-Submits balance gas_price block s t logs panic e h = cc

  -- When logs have arrived and the relay goes on, it submits one call to the foreign contract for
  -- each log: the message of the log with the account's signature of that message's hash, in the
  -- order of the logs. All the fees together are within the balance.
  pub withdraws_arrived-Submits :
      (balance gas_price : ℕ) (s t : WithdrawConfirm) (item : LogStreamItem)
      → withdraws_arrived crates balance gas_price s item ≡ again t
      → Submits balance gas_price s item.logs t.state
  unfolding withdraws_arrived
  withdraws_arrived-Submits balance gas_price s t item h =
      payloads-Submits balance gas_price item.to_block s t item.logs _ refl h
