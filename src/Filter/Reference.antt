-- ===== src/Filter/Reference.antt =====
-- `trim_filter1` (bridge/src/api.rs) against a definition that does not look at the end of the list.
use poa_bridge.Filter.{Value, null, scalar, array, object, trim_filter1, pop_nulls}
use mathlib.Core.List.{reverse, reverse-append, reverse-cons}
use poa_bridge.Prelude.{◌≡◌, refl, sym, ◌∙◌, ap, List, [], ◌∷◌, ◌++◌}

-- A null stays only in front of something that stays.
abbrev pub kept_before : Value → List Value → List Value
kept_before null [] = []
kept_before v vals = v ∷ vals

abbrev pub trimmed : List Value → List Value
trimmed [] = []
trimmed (v ∷ vals) = kept_before v (trimmed vals)

-- Popping off a list with one more value at its end.
abbrev popped_before : List Value → Value → List Value
popped_before [] v = pop_nulls (v ∷ [])
popped_before (w ∷ vals) v = (w ∷ vals) ++ v ∷ []

pop_nulls-snoc :
    (vals : List Value) (v : Value) → pop_nulls (vals ++ v ∷ []) ≡ popped_before (pop_nulls vals) v
unfolding pop_nulls
pop_nulls-snoc [] v = refl
pop_nulls-snoc (null ∷ vals) v = pop_nulls-snoc vals v
pop_nulls-snoc (scalar s ∷ vals) v = refl
pop_nulls-snoc (array vs ∷ vals) v = refl
pop_nulls-snoc (object es ∷ vals) v = refl

kept_before-snoc :
    (v w : Value) (vals : List Value) → kept_before v (vals ++ w ∷ []) ≡ v ∷ (vals ++ w ∷ [])
kept_before-snoc null w [] = refl
kept_before-snoc null w (x ∷ vals) = refl
kept_before-snoc (scalar s) w vals = refl
kept_before-snoc (array vs) w vals = refl
kept_before-snoc (object es) w vals = refl

reverse-popped_before :
    (vals : List Value) (v : Value) → reverse (popped_before vals v) ≡ kept_before v (reverse vals)
unfolding pop_nulls
reverse-popped_before [] null = refl
reverse-popped_before [] (scalar s) = refl
reverse-popped_before [] (array vs) = refl
reverse-popped_before [] (object es) = refl
reverse-popped_before (w ∷ vals) v =
    reverse-append (w ∷ vals) (v ∷ [])
    ∙ ap (◌∷◌ v) (reverse-cons w vals)
    ∙ sym (kept_before-snoc v w (reverse vals))
    ∙ ap (kept_before v) (sym (reverse-cons w vals))

-- Popping nulls off the end of a list of values, as the code does, is the same as keeping, from the
-- front, each null that stands before something kept and everything that is no null.
pub trim_filter1-trimmed : (vals : List Value) → trim_filter1 vals ≡ trimmed vals
unfolding trim_filter1 pop_nulls
trim_filter1-trimmed [] = refl
trim_filter1-trimmed (v ∷ vals) =
    ap (λ l. reverse (pop_nulls l)) (reverse-cons v vals)
    ∙ ap reverse (pop_nulls-snoc (reverse vals) v)
    ∙ reverse-popped_before (pop_nulls (reverse vals)) v
    ∙ ap (kept_before v) (trim_filter1-trimmed vals)
