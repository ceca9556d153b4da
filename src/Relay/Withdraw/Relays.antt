-- ===== src/Relay/Withdraw/Relays.antt =====
-- The transactions of the withdraw relay (bridge/src/bridge/withdraw_relay.rs) and what they cost.
use poa_bridge.Relay.Shared.{call_transaction, balance_required}
use poa_bridge.Prelude.{
  map, ℕ, ◌*◌, ◌≤◌, ◌<◌, ◌≡◌, refl, inl, inr, false, List, [], ◌∷◌, arith, ltb, ◌==◌, Bool-cases,
  length, zip,
}
use poa_bridge.Error.{ok, >>=-eq-ok, traverse, traverse-cons}
use poa_bridge.Relay.Withdraw.{
  decode_signature, WithdrawRelay, Crates, withdraw_transaction, withdraw_transactions,
}
use poa_bridge.Message.{from_bytes, MessageToMainnet}
use poa_bridge.Message
use poa_bridge.Signature.{Signature}
use poa_bridge.Transaction.{Transaction, call}
use poa_bridge.Relay.Fees.{total_fee, length-traverse}

module _ (crates : Crates) where
  open crates use {contracts, words}

  -- A call of the home contract that moves no value, with the gas of the configuration.
  abbrev pub IsHomeCall : WithdrawRelay → Transaction → Type 0
  IsHomeCall s tx = (tx.action ≡ call s.home_contract) × (tx.gas ≡ s.gas) × (tx.value ≡ 0)

  -- The transactions belong to the messages one by one: a call each, at the message's gas price.
  abbrev pub PaysAsked : WithdrawRelay → List (List ℕ) → List Transaction → Type 0
  PaysAsked s [] [] = Unit
  PaysAsked s (message ∷ messages) (tx ∷ txs) =
      ((m : MessageToMainnet) × (Message.from_bytes words message ≡ ok m)
        × (tx.gas_price ≡ m.mainnet_gas_price)
        × IsHomeCall s tx)
      × PaysAsked s messages txs
  PaysAsked s _ _ = ⊥

  one_PaysAsked :
      (s : WithdrawRelay) (message : List ℕ) (signatures : List Signature) (tx : Transaction)
      → withdraw_transaction crates s (message, signatures) ≡ ok tx
      → (m : MessageToMainnet) × (Message.from_bytes words message ≡ ok m)
        × (tx.gas_price ≡ m.mainnet_gas_price)
        × IsHomeCall s tx
  unfolding withdraw_transaction call_transaction
  one_PaysAsked s message signatures tx e =
      let (m, parsed, made) = >>=-eq-ok (Message.from_bytes words message) _ e in
      (m, parsed, ground arith, ground arith)

  zip-PaysAsked :
      (s : WithdrawRelay) (messages : List (List ℕ)) (signatures : List (List Signature))
      (txs : List Transaction)
      → length messages ≡ length signatures
      → traverse (withdraw_transaction crates s) (zip messages signatures) ≡ ok txs
      → PaysAsked s messages txs
  zip-PaysAsked s [] signatures txs h e =
      let none_left : txs ≡ [] = unfold traverse in ground arith in rw none_left tt
  zip-PaysAsked s (m ∷ ms) [] txs h e = absurd (omega arith)
  zip-PaysAsked s (m ∷ ms) (g ∷ gs) txs h e =
      let (tx, rest, head, tail, split) =
        traverse-cons (withdraw_transaction crates s) (m, g) (zip ms gs) e in
      rw split (one_PaysAsked s m g tx head, zip-PaysAsked s ms gs rest (omega arith) tail)

  -- When the relay goes on, it makes one call of the home contract for each fetched message, in
  -- order, at the gas price that the message names; and the balance covers as many calls at the
  -- price of the oracle.
  pub withdraw_transactions-PaysAsked :
      (balance gas_price : ℕ) (s : WithdrawRelay) (messages_raw : List (List ℕ))
      (signatures_raw : List (List (List ℕ))) (txs : List Transaction)
      → withdraw_transactions crates balance gas_price s messages_raw signatures_raw ≡ ok txs
      → (messages : List (List ℕ)) × (traverse contracts.message_output messages_raw ≡ ok messages)
        × (length messages ≡ length messages_raw)
        × PaysAsked s messages txs
        × (balance_required s.gas gas_price (length messages_raw) ≤ balance)
  unfolding withdraw_transactions
  withdraw_transactions-PaysAsked balance gas_price s messages_raw signatures_raw txs e =
      elim (Bool-cases (length messages_raw == length signatures_raw)) [
        | inr differ ↦ let e' = rw differ at e in cc
        | inl same ↦
            elim (Bool-cases
              (ltb balance (balance_required s.gas gas_price (length messages_raw)))) [
                | inl short ↦ let e' = rw (same, short) at e in cc
                | inr enough ↦
                    let e0 = rw (same, enough) at e in
                    let (messages, em, e1) =
                      >>=-eq-ok (traverse contracts.message_output messages_raw) _ e0 in
                    let (signatures, es, e2) =
                      >>=-eq-ok (traverse (traverse (decode_signature crates)) signatures_raw) _
                        e1 in
                    let lm = length-traverse _ messages_raw em in
                    let ls = length-traverse _ signatures_raw es in
                    (
                      messages,
                      em,
                      lm,
                      zip-PaysAsked s messages signatures txs (ground (arith, lm, ls)) e2,
                      ground arith,
                    )
              ]
      ]

  -- Where one message and its signatures are fetched and read, the balance covers the call at the
  -- price of the oracle but not at the price that the message names: the relay makes the
  -- transaction all the same, and its fee is above the balance.
  pub withdraw_transactions_overdraw :
      (balance gas_price : ℕ) (s : WithdrawRelay) (raw message : List ℕ) (raws : List (List ℕ))
      (signatures : List Signature) (m : MessageToMainnet)
      → contracts.message_output raw ≡ ok message
      → Message.from_bytes words message ≡ ok m
      → traverse (decode_signature crates) raws ≡ ok signatures
      → s.gas * gas_price ≤ balance
      → balance < s.gas * m.mainnet_gas_price
      → (tx : Transaction) × (withdraw_transactions crates balance gas_price s
            (raw ∷ [])
            (raws ∷ [])
          ≡ ok (tx ∷ []))
        × (balance < total_fee (tx ∷ []))
  unfolding withdraw_transactions withdraw_transaction traverse call_transaction
  withdraw_transactions_overdraw balance gas_price s raw message raws signatures m em parsed es low
        high =
      let enough : ltb balance (balance_required s.gas gas_price 1) ≡ false = ground arith in
      let payload =
        contracts.withdraw_input (map (λ (g : Signature). g.v) signatures)
          (map (λ (g : Signature). g.r) signatures) (map (λ (g : Signature). g.s) signatures)
          message in
      (
        call_transaction s.gas m.mainnet_gas_price s.home_contract payload,
        rw (enough, em, es, parsed) refl,
        omega arith,
      )
