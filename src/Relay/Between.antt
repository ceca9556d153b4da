-- ===== src/Relay/Between.antt =====
-- What each relay of bridge/src/bridge has relayed between two of its states, from a block on.
use mathlib.Core.Path.{subst}
use poa_bridge.LogStream.{LogStream}
use poa_bridge.LogStream.Ranges.{IsSettled}
use poa_bridge.Prelude.{ℕ, ◌≤◌, ◌≡◌, refl, List, none, some, arith}
use poa_bridge.Relay.Confirm
use poa_bridge.Relay.Confirm.{WithdrawConfirm, WithdrawConfirmState}
use poa_bridge.Relay.Confirm.Submitted.{submitted}
use poa_bridge.Relay.Confirm.Once.{confirms-DeliversTo}
use poa_bridge.Relay.Deposit
use poa_bridge.Relay.Deposit.{DepositRelay, DepositRelayState, deposit_relay_payload}
use poa_bridge.Relay.Deposit.Once.{deposits-DeliversTo}
use poa_bridge.Relay.Rounds.{walked, Walks, DeliversTo}
use poa_bridge.Relay.Sent.{Pays, relayed}
use poa_bridge.Relay.Shared.{Shared, Contracts}
use poa_bridge.Relay.Withdraw
use poa_bridge.Relay.Withdraw.{WithdrawRelay, WithdrawRelayState}
use poa_bridge.Relay.Withdraw.Once.{withdraws-DeliversTo}
use poa_bridge.Relay.Withdraw.Sends.{Sends}

-- A log stream that has served up to a block and holds no item.
abbrev pub StartsAt : ℕ → LogStream → Type 0
StartsAt a logs = (logs.after ≡ a) × IsSettled logs

module _ (contracts : Contracts) where
  -- Rounds that do not fail lead from the one state to the other. In them the relay has read the logs of
  -- ranges that join up, from block `a` to the last one that its log stream has served; and the data of
  -- what it has sent are the payloads of all these logs, in order. It has sent them to this contract.
  abbrev pub DepositsFrom : List ℕ → ℕ → DepositRelay → DepositRelay → Type 0
  DepositsFrom contract a s t =
      (cs : List Shared) × (walked (Deposit.round contracts) cs s ≡ some t)
      × DeliversTo (Pays contract s.gas (deposit_relay_payload contracts)) a t.logs.after (
          relayed Deposit.Once.state_of Deposit.Once.started_in (Deposit.round contracts)
            Deposit.Once.taken cs s)

  pub Walks-DepositsFrom :
      (contract : List ℕ) (a : ℕ) (s t : DepositRelay)
      → s.foreign_contract ≡ contract
      → StartsAt a s.logs
      → Walks (Deposit.round contracts) s t
      → DepositsFrom contract a s t
  Walks-DepositsFrom contract a s t to (at, settled) w =
      subst (λ k. DepositsFrom k a s t) to
        (subst (λ n. DepositsFrom s.foreign_contract n s t) at
          (w.contents, w.leads, deposits-DeliversTo contracts w.contents s t settled w.leads))

  -- A relay has reported no block above those that its log stream has served.
  pub deposits_reported-le :
      (n : ℕ) (state : DepositRelayState) (logs : LogStream)
      → Deposit.Checked.At contracts n state logs
      → n ≤ logs.after
  deposits_reported-le n Deposit.wait logs h = omega arith
  deposits_reported-le n (Deposit.relay_deposits txs block) logs h = omega arith
  deposits_reported-le n (Deposit.yield none) logs h = omega arith
  deposits_reported-le n (Deposit.yield (some block)) logs h = omega arith

module _ (crates : Confirm.Crates) where
  -- The same of a withdraw confirmation, which sends the signed messages of the logs.
  abbrev pub ConfirmsFrom : List ℕ → ℕ → WithdrawConfirm → WithdrawConfirm → Type 0
  ConfirmsFrom contract a s t =
      (cs : List Shared) × (walked (Confirm.round crates) cs s ≡ some t)
      × DeliversTo (Pays contract s.gas (submitted crates s.account)) a t.logs.after (
          relayed Confirm.Once.state_of Confirm.Once.started_in (Confirm.round crates)
            Confirm.Once.taken cs s)

  pub Walks-ConfirmsFrom :
      (contract : List ℕ) (a : ℕ) (s t : WithdrawConfirm)
      → s.foreign_contract ≡ contract
      → StartsAt a s.logs
      → Walks (Confirm.round crates) s t
      → ConfirmsFrom contract a s t
  Walks-ConfirmsFrom contract a s t to (at, settled) w =
      subst (λ k. ConfirmsFrom k a s t) to
        (subst (λ n. ConfirmsFrom s.foreign_contract n s t) at
          (
            w.contents,
            w.leads,
            confirms-DeliversTo crates s.account w.contents s t settled refl w.leads,
          ))

  pub confirms_reported-le :
      (n : ℕ) (state : WithdrawConfirmState) (logs : LogStream)
      → Confirm.Checked.At crates n state logs
      → n ≤ logs.after
  confirms_reported-le n Confirm.wait logs h = omega arith
  confirms_reported-le n (Confirm.confirm_withdraws txs block) logs h = omega arith
  confirms_reported-le n (Confirm.yield none) logs h = omega arith
  confirms_reported-le n (Confirm.yield (some block)) logs h = omega arith

module _ (crates : Withdraw.Crates) where
  -- The same of a withdraw relay, which asks the foreign contract for the withdrawals that name its
  -- account, and sends to the home contract.
  abbrev pub WithdrawsFrom : List ℕ → List ℕ → ℕ → WithdrawRelay → WithdrawRelay → Type 0
  WithdrawsFrom contract home a s t =
      (cs : List Shared) × (walked (Withdraw.round crates) cs s ≡ some t)
      × DeliversTo (Sends crates s.foreign_account contract home s.gas) a t.logs.after (
          relayed Withdraw.Once.state_of Withdraw.Once.started_in (Withdraw.round crates)
            Withdraw.Once.taken cs s)

  pub Walks-WithdrawsFrom :
      (contract home : List ℕ) (a : ℕ) (s t : WithdrawRelay)
      → s.foreign_contract ≡ contract
      → s.home_contract ≡ home
      → StartsAt a s.logs
      → Walks (Withdraw.round crates) s t
      → WithdrawsFrom contract home a s t
  Walks-WithdrawsFrom contract home a s t to to_home (at, settled) w =
      subst (λ k. WithdrawsFrom k home a s t) to
        (subst (λ k. WithdrawsFrom s.foreign_contract k a s t) to_home
          (subst (λ n. WithdrawsFrom s.foreign_contract s.home_contract n s t) at
            (
              w.contents,
              w.leads,
              withdraws-DeliversTo crates s.foreign_account w.contents s t settled refl w.leads,
            )))

  pub withdraws_reported-le :
      (n : ℕ) (state : WithdrawRelayState) (logs : LogStream)
      → Withdraw.Checked.At crates n state logs
      → n ≤ logs.after
  withdraws_reported-le n Withdraw.wait logs h = omega arith
  withdraws_reported-le n (Withdraw.fetch_messages_signatures messages signatures block) logs h =
      omega arith
  withdraws_reported-le n (Withdraw.relay_withdraws txs block) logs h = omega arith
  withdraws_reported-le n (Withdraw.yield none) logs h = omega arith
  withdraws_reported-le n (Withdraw.yield (some block)) logs h = omega arith
