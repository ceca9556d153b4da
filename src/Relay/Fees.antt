-- ===== src/Relay/Fees.antt =====
-- The fees of a batch of transactions, as the relays of bridge/src/bridge bound them.
use poa_bridge.Error.{traverse-cons, traverse, Result, ok}
use poa_bridge.Relay.Shared.{call_transaction, balance_required}
use poa_bridge.Prelude.{
  ℕ, suc, ◌+◌, ◌*◌, ◌^◌, ◌≤◌, ◌<◌, ◌≡◌, ap, ◌∙◌, List, [], ◌∷◌, map, arith, length,
}
use poa_bridge.Transaction.{Transaction}

-- The most that the transactions can cost.
abbrev pub total_fee : List Transaction → ℕ
total_fee [] = 0
total_fee (tx ∷ txs) = tx.gas * tx.gas_price + total_fee txs

pub total_fee-call_transaction :
    (gas gas_price : ℕ) (contract : List ℕ) (payloads : List (List ℕ))
    → total_fee (map (call_transaction gas gas_price contract) payloads)
      ≡ balance_required gas gas_price (length payloads)
unfolding call_transaction
total_fee-call_transaction gas gas_price contract [] = grind arith
total_fee-call_transaction gas gas_price contract (payload ∷ payloads) =
    grind (arith, total_fee-call_transaction gas gas_price contract payloads)

mul-le : (a b c : ℕ) → a ≤ b → a * c ≤ b * c
mul-le a b c h = grind arith

-- The product of two 64-bit numbers and a length of 64 bits fits a `U256`: computing the required
-- balance never overflows.
balance_required-lt :
    (gas gas_price len : ℕ)
    → gas < 2 ^ 64
    → gas_price < 2 ^ 64
    → len < 2 ^ 64
    → balance_required gas gas_price len < 2 ^ 256
balance_required-lt gas gas_price len hg hp hl =
    let square : gas * gas_price ≤ 2 ^ 64 * gas_price =
      mul-le gas (2 ^ 64) gas_price (omega arith) in
    let cube : gas * gas_price * len ≤ 2 ^ 128 * len =
      mul-le (gas * gas_price) (2 ^ 128) len (omega arith) in
    omega arith

pub length-traverse {ℓ κ} :
    {A : Type ℓ} {B : Type κ} (f : A → Result B) (xs : List A) {ys : List B}
    → traverse f xs ≡ ok ys
    → length ys ≡ length xs
unfolding traverse
length-traverse f [] e = ground arith
length-traverse f (x ∷ xs) e =
    let (y, zs, head, rest, split) = traverse-cons f x xs e in
    ap length split ∙ ap suc (length-traverse f xs rest)
