-- ===== src/Relay/Sent.antt =====
-- What a relay of bridge/src/bridge reads and sends in the rounds of its loop, and the rule by which all
-- that it sends is compared with all that it reads.
use mathlib.Core.Path.{subst}
use mathlib.Core.List.{map-append}
use poa_bridge.Error.{traverse, traverse-append, Result, ok}
use poa_bridge.Futures.{Poll, ready, not_ready, failed, panicked, Round, again, done}
use poa_bridge.Futures.Loop.{Keeps}
use poa_bridge.LogStream.{Log, LogStream, LogStreamItem}
use poa_bridge.LogStream.Ranges.{IsSettled, Consecutive}
use poa_bridge.Prelude.{
  All, All-append, ℕ, ◌+◌, ◌<◌, ◌≡◌, refl, sym, ap, ◌∙◌, List, [], ◌∷◌, ◌++◌, map, Option, some,
}
use poa_bridge.Relay.Shared.{BridgeChecked, Shared, call_transaction}
use poa_bridge.Transaction.{Transaction, call}

-- The item in an answer of the log stream.
abbrev pub items_in : Poll (Option LogStreamItem) → List LogStreamItem
items_in (ready (some item)) = item ∷ []
items_in _ = []

abbrev pub logs_of : List LogStreamItem → List Log
logs_of [] = []
logs_of (item ∷ items) = item.logs ++ logs_of items

abbrev pub data_of : List Transaction → List (List ℕ)
data_of txs = map (λ tx. tx.tx_data) txs

pub data_of-call_transaction :
    (gas gas_price : ℕ) (contract : List ℕ) (payloads : List (List ℕ))
    → data_of (map (call_transaction gas gas_price contract) payloads) ≡ payloads
unfolding call_transaction
data_of-call_transaction gas gas_price contract [] = refl
data_of-call_transaction gas gas_price contract (payload ∷ payloads) =
    ap (◌∷◌ payload) (data_of-call_transaction gas gas_price contract payloads)

module _ {S K X : Type 0} (mark : S → K) (started : K → S → List X) where
  -- What a round adds to what the later ones read and send: an error or a panic ends the relay.
  abbrev pub after_round :
      List LogStreamItem
      → K
      → Round S (Option BridgeChecked)
      → (S → List LogStreamItem × List X)
      → List LogStreamItem × List X
  after_round items k (again t) later = (items ++ (later t).0, started k t ++ (later t).1)
  after_round items k (done t (failed e)) later = ([], [])
  after_round items k (done t panicked) later = ([], [])
  after_round items k (done t (ready r)) later = later t
  after_round items k (done t not_ready) later = later t

  -- The items that are read in rounds under these contents of the cells, and what the
  -- relay starts, in order.
  unfoldable pub relayed :
      (Shared → S → Round S (Option BridgeChecked))
      → (Shared → S → List LogStreamItem)
      → List Shared
      → S
      → List LogStreamItem × List X
  relayed round taken [] s = ([], [])
  relayed round taken (c ∷ cs) s =
      after_round (taken c s) (mark s) (round c s) (λ t. relayed round taken cs t)

-- A call of this contract that moves no value, with this gas.
abbrev pub IsCall : List ℕ → ℕ → Transaction → Type 0
IsCall contract gas tx = (tx.action ≡ call contract) × (tx.gas ≡ gas) × (tx.value ≡ 0)

pub All-call_transaction :
    (gas gas_price : ℕ) (contract : List ℕ) (payloads : List (List ℕ))
    → All (IsCall contract gas) (map (call_transaction gas gas_price contract) payloads)
unfolding call_transaction
All-call_transaction gas gas_price contract [] = tt
All-call_transaction gas gas_price contract (payload ∷ payloads) =
    ((refl, refl, refl), All-call_transaction gas gas_price contract payloads)

module _ (contract : List ℕ) (gas : ℕ) (payload : Log → Result (List ℕ)) where
  -- The payloads of the logs are the data of the transactions, which are calls of this contract.
  abbrev pub Pays : List Log → List Transaction → Type 0
  Pays arrived txs = (traverse payload arrived ≡ ok (data_of txs)) × All (IsCall contract gas) txs

  pub Pays-nil : Pays [] []
  unfolding traverse
  Pays-nil = (refl, tt)

  pub Pays-append :
      (arrived more : List Log) (txs rest : List Transaction)
      → Pays arrived txs
      → Pays more rest
      → Pays (arrived ++ more) (txs ++ rest)
  Pays-append arrived more txs rest (parsed, calls) (pays, others) = (
    traverse-append payload arrived more parsed pays
        ∙ ap ok (sym (map-append (λ tx. tx.tx_data) txs rest)),
    All-append (IsCall contract gas) txs rest calls others,
  )

-- What is read joins up from block `a` on, and is answered by what is started.
abbrev pub Delivers :
    {X : Type 0} → (List Log → List X → Type 0) → ℕ → List LogStreamItem × List X → Type 0
Delivers Answered a (items, xs) = ((b : ℕ) × Consecutive a items b) × Answered (logs_of items) xs

module _ {S K X : Type 0} (logs : S → LogStream) (Inv : S → Type 0)
    (Answered : List Log → List X → Type 0) (mark : S → K) (started : K → S → List X) where
  -- Between two rounds: the log stream has served up to block `a`.
  abbrev pub Stays : ℕ → S → Type 0
  Stays a t = ((logs t).after ≡ a) × IsSettled (logs t) × Inv t

  -- After a round that goes on.
  abbrev pub Took : ℕ → List LogStreamItem → K → S → Type 0
  Took a [] k t = Stays a t × Answered [] (started k t)
  Took a (item ∷ other ∷ items) k t = ⊥
  Took a (item ∷ []) k t =
      (item.from_block ≡ a + 1)
      × (a < item.to_block)
      × Stays item.to_block t
      × Answered item.logs (started k t)

  abbrev pub GoesOn : ℕ → S → Poll (Option BridgeChecked) → Type 0
  GoesOn a t (failed e) = Unit
  GoesOn a t panicked = Unit
  GoesOn a t _ = Stays a t

  module _ (nothing : Answered [] [])
      (join : (arrived more : List Log) (xs ys : List X)
        → Answered arrived xs
        → Answered more ys
        → Answered (arrived ++ more) (xs ++ ys)) where
    later-Delivers :
        (a : ℕ) (items : List LogStreamItem) (j : K) (r : Round S (Option BridgeChecked))
        (later : S → List LogStreamItem × List X)
        → Keeps (Took a items j) (GoesOn a) r
        → ((t : S) → IsSettled (logs t) → Inv t → Delivers Answered (logs t).after (later t))
        → Delivers Answered a (after_round mark started items j r later)
    later-Delivers a [] j (again t) later ((at, settled, kept), sent) k =
        let (joined, answered) = subst (λ n. Delivers Answered n (later t)) at (k t settled kept) in
        (joined, join [] (logs_of (later t).0) (started j t) (later t).1 sent answered)
    later-Delivers a (item ∷ other ∷ items) j (again t) later h k = absurd h
    later-Delivers a (item ∷ []) j (again t) later (from, up, (at, settled, kept), parsed) k =
        let ((b, joined), answered) =
          subst (λ n. Delivers Answered n (later t)) at (k t settled kept) in
        (
          (b, (from, up, joined)),
          join item.logs (logs_of (later t).0) (started j t) (later t).1 parsed answered,
        )
    later-Delivers a items j (done t (ready r)) later (at, settled, kept) k =
        subst (λ n. Delivers Answered n (later t)) at (k t settled kept)
    later-Delivers a items j (done t not_ready) later (at, settled, kept) k =
        subst (λ n. Delivers Answered n (later t)) at (k t settled kept)
    later-Delivers a items j (done t (failed e)) later h k = ((a, refl), nothing)
    later-Delivers a items j (done t panicked) later h k = ((a, refl), nothing)

    -- If every round keeps to this, so do any number of rounds.
    pub relayed-rounds :
        (round : Shared → S → Round S (Option BridgeChecked))
        (taken : Shared → S → List LogStreamItem)
        → ((c : Shared) (s : S)
            → IsSettled (logs s)
            → Inv s
            → Keeps (Took (logs s).after (taken c s) (mark s)) (GoesOn (logs s).after) (round c s))
        → (cs : List Shared) (s : S) → IsSettled (logs s)
        → Inv s
        → Delivers Answered (logs s).after (relayed mark started round taken cs s)
    unfolding relayed
    relayed-rounds round taken step [] s settled kept = (((logs s).after, refl), nothing)
    relayed-rounds round taken step (c ∷ cs) s settled kept =
        later-Delivers (logs s).after (taken c s) (mark s) (round c s)
          (relayed mark started round taken cs) (step c s settled kept)
          (λ t h i. relayed-rounds round taken step cs t h i)
