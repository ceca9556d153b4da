-- ===== src/Futures/Loop.antt =====
-- The loop without fuel, as a relation, and the rules by which the poll functions are proved.
use poa_bridge.Prelude.{ℕ, zero, suc, ◌<◌, ◌≡◌, refl, ◌⊎◌, inl, inr, arith}
use poa_bridge.Futures.{Poll, Round, again, done, drive}

-- `Runs round t p s`: the loop started in `s` returns `p` and leaves `t`, after some rounds.
pub data Runs {ℓ κ} {S : Type ℓ} {A : Type κ} (round : S → Round S A) (t : S) (p : Poll A)
    : S → Type (ℓ ⊔ κ) where
  stop : {s : S} → round s ≡ done t p → Runs round t p s
  next : {s u : S} → round s ≡ again u → Runs round t p u → Runs round t p s

-- Every round that goes on lowers a measure.
abbrev pub Lowers {ℓ κ} : {S : Type ℓ} {A : Type κ} → (S → ℕ) → S → Round S A → Type 0
Lowers measure s (again t) = measure t < measure s
Lowers measure s (done t p) = Unit

-- An invariant that every round keeps, and a postcondition that every return establishes.
abbrev pub Keeps {ℓ κ μ} :
    {S : Type ℓ} {A : Type κ} → (S → Type μ) → (S → Poll A → Type μ) → Round S A → Type μ
Keeps P Q (again t) = P t
Keeps P Q (done t p) = Q t p

Round-cases {ℓ κ} :
    {S : Type ℓ} {A : Type κ} (r : Round S A)
    → ((t : S) × (r ≡ again t)) ⊎ ((t : S) × (p : Poll A) × (r ≡ done t p))
Round-cases (again t) = inl (t, refl)
Round-cases (done t p) = inr (t, p, refl)

module _ {ℓ κ} {S : Type ℓ} {A : Type κ} (round : S → Round S A) where
  -- With fuel above a measure that the rounds lower, `drive` is the loop without fuel.
  pub drive-Runs :
      (measure : S → ℕ)
      → ((s : S) → Lowers measure s (round s))
      → (fuel : ℕ) (s : S) → measure s < fuel
      → Runs round (drive round fuel s).0 (drive round fuel s).1 s
  unfolding drive
  drive-Runs measure lower zero s h = absurd (omega arith)
  drive-Runs measure lower (suc fuel) s h = elim (Round-cases (round s)) [
    | inl (t, e) ↦
        let l : measure t < measure s = rw e at (lower s) in
        rw (e, drive) (next e (drive-Runs measure lower fuel t (omega arith)))
    | inr (t, p, e) ↦ rw (e, drive) (stop e)
  ]

  -- The result of the loop is the only one.
  pub Runs-unique :
      {t u : S} {p q : Poll A} {s r : S}
      → Runs round t p s
      → s ≡ r
      → Runs round u q r
      → ◌≡◌ {A = S × Poll A} (t, p) (u, q)
  Runs-unique (stop e) h (stop f) = let f' = rw (← h) at f in cc
  Runs-unique (stop e) h (next f r) = let f' = rw (← h) at f in cc
  Runs-unique (next e r) h (stop f) = let f' = rw (← h) at f in cc
  Runs-unique (next e r) h (next f r') = let f' = rw (← h) at f in Runs-unique r (cc) r'

  -- The rule for a loop: from its invariant its postcondition.
  pub Runs-Keeps {μ} :
      (P : S → Type μ) (Q : S → Poll A → Type μ)
      → ((s : S) → P s → Keeps P Q (round s))
      → {t : S} {p : Poll A} {s : S} → Runs round t p s
      → P s
      → Q t p
  Runs-Keeps P Q keep (stop {s} e) h = rw e at (keep s h)
  Runs-Keeps P Q keep (next {s} {u} e r) h = Runs-Keeps P Q keep r (rw e at (keep s h))

  -- Both at once, for `drive` itself.
  pub drive-Keeps {μ} :
      (P : S → Type μ) (Q : S → Poll A → Type μ) (measure : S → ℕ)
      → ((s : S) → Lowers measure s (round s))
      → ((s : S) → P s → Keeps P Q (round s))
      → (fuel : ℕ) (s : S) → measure s < fuel
      → P s
      → Q (drive round fuel s).0 (drive round fuel s).1
  drive-Keeps P Q measure lower keep fuel s h =
      Runs-Keeps P Q keep (drive-Runs measure lower fuel s h)
