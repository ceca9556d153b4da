-- ===== src/ExitCode/Classes.antt =====
-- The exit codes of cli/src/main.rs by the errors that cause them.
use poa_bridge.ExitCode.{
  negsuc, is_server_error, err_gas_price_too_low, refused_with, rpc_exit_code, user_facing,
  root_cause,
}
use poa_bridge.Prelude.{
  ℕ, String, inl, inr, Bool, false, ◌&&◌, List, Bool-cases, is_prefix, true, arith, starts_with,
  codes, is_prefix-append, is_prefix_total, ◌≡◌, refl,
}
use poa_bridge.Error.{RpcError, web3, contextualized_error, Error}

-- The code and the error shown are those of the root cause: no context hides either.
pub user_facing-root_cause : (e : Error) → user_facing (root_cause e) ≡ user_facing e
unfolding user_facing
user_facing-root_cause (contextualized_error e context) = user_facing-root_cause e
user_facing-root_cause (web3 e) = refl
user_facing-root_cause e = refl

abbrev another_nonce : String
another_nonce = "Transaction gas price is too low. There is another"

-- A message that begins with one text and not with another.
clash :
    (xs ys zs : List ℕ)
    → is_prefix xs ys ≡ false
    → is_prefix ys xs ≡ false
    → is_prefix ys zs ≡ true
    → is_prefix xs zs ≡ false
clash xs ys zs n m h = elim (Bool-cases (is_prefix xs zs)) [
  | inr no_prefix ↦ no_prefix
  | inl p ↦ elim (is_prefix_total xs ys zs p h) [ inl q ↦ cc | inr q ↦ cc ]
]

and_left : (a b c : Bool) → a && b ≡ true → (b ≡ true → c ≡ true) → a && c ≡ true
and_left a b c h k = ground arith

and_false : (a b c : Bool) → a && b ≡ true → (b ≡ true → c ≡ false) → a && c ≡ false
and_false a b c h k = ground arith

-- A node's refusal that begins with the complaint about another transaction under the same nonce
-- gets the exit code of a low gas price, whose text is a beginning of it and is tested first.
pub rpc_exit_code_another :
    (e : RpcError) → refused_with e another_nonce ≡ true → rpc_exit_code e ≡ err_gas_price_too_low
unfolding rpc_exit_code refused_with starts_with
rpc_exit_code_another e h =
    let text = codes e.message in
    let refused = is_server_error e.error_code (negsuc 32009) in
    let funds : refused && is_prefix (codes "Insufficient funds") text ≡ false =
      and_false refused (is_prefix (codes another_nonce) text) _ h (
        clash (codes "Insufficient funds") (codes another_nonce) text (unfold is_prefix in refl)
          (unfold is_prefix in refl)) in
    let gas : refused && is_prefix (codes "Transaction gas is too low") text ≡ false =
      and_false refused (is_prefix (codes another_nonce) text) _ h (
        clash (codes "Transaction gas is too low") (codes another_nonce) text
          (unfold is_prefix in refl) (unfold is_prefix in refl)) in
    let low : refused && is_prefix (codes "Transaction gas price is too low") text ≡ true =
      and_left refused (is_prefix (codes another_nonce) text) _ h (
        is_prefix-append (codes "Transaction gas price is too low") (codes ". There is another")
          text) in
    rw (funds, gas, low)
