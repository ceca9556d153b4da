-- ===== src/Filter/Trim.antt =====
-- What `trim_filter` (bridge/src/api.rs) takes off, and what it keeps.
use poa_bridge.Filter.{object, array, scalar, Value, null, pop_nulls, trim_filter1}
use poa_bridge.Prelude.{ℕ, zero, suc, ◌≡◌, refl, sym, ap, ◌∙◌, List, [], ◌∷◌, ◌++◌, replicate}
use mathlib.Core.List.{reverse, reverse-append, reverse-cons, reverse-reverse}

abbrev pub EndsInNull : List Value → Type 0
EndsInNull [] = ⊥
EndsInNull (null ∷ vals) = Unit
EndsInNull (v ∷ vals) = ⊥

pop_nulls_split :
    (vals : List Value)
    → (n : ℕ) × (vals ≡ replicate n null ++ pop_nulls vals) × ¬ EndsInNull (pop_nulls vals)
unfolding pop_nulls
pop_nulls_split [] = (0, refl, λ h. h)
pop_nulls_split (null ∷ vals) =
    let (n, split, ends) = pop_nulls_split vals in (suc n, ap (◌∷◌ null) split, ends)
pop_nulls_split (scalar s ∷ vals) = (0, refl, λ h. h)
pop_nulls_split (array vs ∷ vals) = (0, refl, λ h. h)
pop_nulls_split (object es ∷ vals) = (0, refl, λ h. h)

replicate-append : (n : ℕ) → replicate n null ++ null ∷ [] ≡ null ∷ replicate n null
replicate-append zero = refl
replicate-append (suc n) = ap (◌∷◌ null) (replicate-append n)

reverse-replicate : (n : ℕ) → reverse (replicate n null) ≡ replicate n null
reverse-replicate zero = refl
reverse-replicate (suc n) =
    reverse-cons null (replicate n null)
    ∙ ap (λ vals. vals ++ null ∷ []) (reverse-replicate n)
    ∙ replicate-append n

-- Trimming a list of values takes off nulls at its end only, and leaves none there.
trim_filter1_split :
    (vals : List Value)
    → (n : ℕ) × (vals ≡ trim_filter1 vals ++ replicate n null)
      × ¬ EndsInNull (reverse (trim_filter1 vals))
unfolding trim_filter1
trim_filter1_split vals =
    let (n, split, ends) = pop_nulls_split (reverse vals) in
    (
      n,
      sym (reverse-reverse vals)
          ∙ ap reverse split
          ∙ reverse-append (replicate n null) (pop_nulls (reverse vals))
          ∙ ap (◌++◌ (reverse (pop_nulls (reverse vals)))) (reverse-replicate n),
      rw (reverse-reverse (pop_nulls (reverse vals))) ends,
    )
