-- ===== src/Relay/Rounds.antt =====
-- Rounds of the loop of a relay of bridge/src/bridge that do not fail: where they lead to, and what the
-- relay has read and sent by then.
use mathlib.Core.Path.{subst}
use poa_bridge.Futures.{Poll, ready, not_ready, failed, panicked, Round, again, done, drive}
use poa_bridge.Futures.Loop.{Keeps}
use poa_bridge.LogStream.{Log, LogStream, LogStreamItem}
use poa_bridge.LogStream.Ranges.{IsSettled, Consecutive}
use poa_bridge.Prelude.{ap, ℕ, zero, suc, ◌≡◌, refl, List, [], ◌∷◌, ◌++◌, Option, none, some}
use poa_bridge.Relay.Sent.{after_round, relayed, logs_of, Took, GoesOn}
use poa_bridge.Relay.Shared.{BridgeChecked, Shared}

-- A poll that neither fails nor panics.
abbrev pub IsFine {ℓ} : {A : Type ℓ} → Poll A → Type 0
IsFine (failed e) = ⊥
IsFine panicked = ⊥
IsFine _ = Unit

abbrev on_round {ℓ} :
    {S : Type 0} {T : Type ℓ} → Round S (Option BridgeChecked) → (S → Option T) → Option T
on_round (again t) rest = rest t
on_round (done t (failed e)) rest = none
on_round (done t panicked) rest = none
on_round (done t (ready r)) rest = rest t
on_round (done t not_ready) rest = rest t

module _ {S : Type 0} (round : Shared → S → Round S (Option BridgeChecked)) where
  -- The state after rounds under these contents of the cells, if none fails.
  unfoldable pub walked : List Shared → S → Option S
  walked [] s = some s
  walked (c ∷ cs) s = on_round (round c s) (walked cs)

  -- One state leads to the other in some rounds that do not fail.
  pub record Walks (s t : S) : Type 0 where
    pub contents : List Shared
    pub leads : walked contents s ≡ some t

  on_round-append :
      (r : Round S (Option BridgeChecked)) (cs ds : List Shared) (t u : S)
      → ((s : S) → walked cs s ≡ some t → walked (cs ++ ds) s ≡ some u)
      → on_round r (walked cs) ≡ some t
      → on_round r (walked (cs ++ ds)) ≡ some u
  on_round-append (again s) cs ds t u k e = k s e
  on_round-append (done s (failed x)) cs ds t u k e = absurd (cc)
  on_round-append (done s panicked) cs ds t u k e = absurd (cc)
  on_round-append (done s (ready r)) cs ds t u k e = k s e
  on_round-append (done s not_ready) cs ds t u k e = k s e

  walked-append :
      (cs ds : List Shared) (s t u : S)
      → walked ds t ≡ some u
      → walked cs s ≡ some t
      → walked (cs ++ ds) s ≡ some u
  unfolding walked
  walked-append [] ds s t u h e = let same : s ≡ t = cc in rw same h
  walked-append (c ∷ cs) ds s t u h e =
      on_round-append (round c s) cs ds t u (λ v k. walked-append cs ds v t u h k) e

  pub Walks-refl : (s : S) → Walks s s
  unfolding walked
  Walks-refl s = record { contents = []; leads = refl }

  pub Walks-trans : {s t u : S} → Walks s t → Walks t u → Walks s u
  Walks-trans {s} {t} {u} w v = record {
    contents = w.contents ++ v.contents;
    leads = walked-append w.contents v.contents s t u v.leads w.leads;
  }

  one-Walks :
      (c : Shared) (s t : S) (r : Round S (Option BridgeChecked))
      → round c s ≡ r
      → on_round r (λ v. some v) ≡ some t
      → Walks s t
  unfolding walked
  one-Walks c s t r e h = record { contents = c ∷ []; leads = rw e h }

  driven-Walks :
      (c : Shared) (fuel : ℕ) (s : S) (r : Round S (Option BridgeChecked))
      → round c s ≡ r
      → ((t : S) → IsFine (drive (round c) fuel t).1 → Walks t (drive (round c) fuel t).0)
      → let driven : S × Poll (Option BridgeChecked) = elim r [
        | again t ↦ drive (round c) fuel t
        | done t p ↦ (t, p)
      ] in
        IsFine driven.1 → Walks s driven.0
  driven-Walks c fuel s (again t) e later h =
      Walks-trans (one-Walks c s t (again t) e refl) (later t h)
  driven-Walks c fuel s (done t (ready r)) e later h = one-Walks c s t (done t (ready r)) e refl
  driven-Walks c fuel s (done t not_ready) e later h = one-Walks c s t (done t not_ready) e refl
  driven-Walks c fuel s (done t (failed x)) e later h = absurd h
  driven-Walks c fuel s (done t panicked) e later h = absurd h

  -- A poll that does not fail is a number of such rounds.
  pub drive-Walks :
      (c : Shared) (fuel : ℕ) (s : S)
      → IsFine (drive (round c) fuel s).1
      → Walks s (drive (round c) fuel s).0
  unfolding drive
  drive-Walks c zero s h = Walks-refl s
  drive-Walks c (suc fuel) s h =
      driven-Walks c fuel s (round c s) refl (λ t k. drive-Walks c fuel t k) h

-- What is read joins up from block `a` to block `b`, and is answered by what is started.
abbrev pub DeliversTo :
    {X : Type 0} → (List Log → List X → Type 0) → ℕ → ℕ → List LogStreamItem × List X → Type 0
DeliversTo Answered a b (items, xs) = Consecutive a items b × Answered (logs_of items) xs

module _ {S K X : Type 0} (logs : S → LogStream) (Inv : S → Type 0)
    (Answered : List Log → List X → Type 0) (mark : S → K) (started : K → S → List X)
    (nothing : Answered [] [])
    (join : (arrived more : List Log) (xs ys : List X)
      → Answered arrived xs
      → Answered more ys
      → Answered (arrived ++ more) (xs ++ ys)) where
  abbrev Remains : ℕ → S → List LogStreamItem × List X → Type 0
  Remains b t later = DeliversTo Answered (logs t).after b later

  later-DeliversTo :
      (a b : ℕ) (items : List LogStreamItem) (j : K) (r : Round S (Option BridgeChecked))
      (later : S → List LogStreamItem × List X) (walk : S → Option S) (u : S)
      → Keeps
          (Took logs Inv Answered mark started a items j)
          (GoesOn logs Inv Answered mark started a)
          r
      → on_round r walk ≡ some u
      → ((t : S) → IsSettled (logs t) → Inv t → walk t ≡ some u → Remains b t (later t))
      → DeliversTo Answered a b (after_round mark started items j r later)
  later-DeliversTo a b [] j (again t) later walk u ((at, settled, kept), sent) e k =
      let (joined, answered) =
        subst (λ n. DeliversTo Answered n b (later t)) at (k t settled kept e) in
      (joined, join [] (logs_of (later t).0) (started j t) (later t).1 sent answered)
  later-DeliversTo a b (item ∷ other ∷ items) j (again t) later walk u h e k = absurd h
  later-DeliversTo a b (item ∷ []) j (again t) later walk u (from, up, (at, settled, kept), parsed)
        e k =
      let (joined, answered) =
        subst (λ n. DeliversTo Answered n b (later t)) at (k t settled kept e) in
      (
        (from, up, joined),
        join item.logs (logs_of (later t).0) (started j t) (later t).1 parsed answered,
      )
  later-DeliversTo a b items j (done t (ready r)) later walk u (at, settled, kept) e k =
      subst (λ n. DeliversTo Answered n b (later t)) at (k t settled kept e)
  later-DeliversTo a b items j (done t not_ready) later walk u (at, settled, kept) e k =
      subst (λ n. DeliversTo Answered n b (later t)) at (k t settled kept e)
  later-DeliversTo a b items j (done t (failed x)) later walk u h e k = absurd (cc)
  later-DeliversTo a b items j (done t panicked) later walk u h e k = absurd (cc)

  -- Where every round keeps to what a relay delivers: rounds that do not fail deliver all up to the
  -- last block that the log stream has served in the end.
  pub walked-DeliversTo :
      (round : Shared → S → Round S (Option BridgeChecked))
      (taken : Shared → S → List LogStreamItem)
      → ((c : Shared) (s : S)
          → IsSettled (logs s)
          → Inv s
          → Keeps
              (Took logs Inv Answered mark started (logs s).after (taken c s) (mark s))
              (GoesOn logs Inv Answered mark started (logs s).after)
              (round c s))
      → (cs : List Shared) (s u : S) → IsSettled (logs s)
      → Inv s
      → walked round cs s ≡ some u
      → DeliversTo Answered (logs s).after (logs u).after (relayed mark started round taken cs s)
  unfolding relayed walked
  walked-DeliversTo round taken step [] s u settled kept e =
      let same : s ≡ u = cc in (ap (λ (t : S). (logs t).after) same, nothing)
  walked-DeliversTo round taken step (c ∷ cs) s u settled kept e =
      later-DeliversTo (logs s).after (logs u).after (taken c s) (mark s) (round c s)
        (relayed mark started round taken cs) (walked round cs) u (step c s settled kept) e
        (λ t h i w. walked-DeliversTo round taken step cs t u h i w)
