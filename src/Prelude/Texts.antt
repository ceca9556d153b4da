-- ===== src/Prelude/Texts.antt =====
-- Texts: equality is the library's; `starts_with` and `ends_with` are those of Rust's `str`, over the
-- code points.
use Prim.Native.Nat.{ℕ}
use Prim.Native.Char.{code}
use Prim.Native.String.{String}
use mathlib.Core.Path.{◌≡◌, refl}
use mathlib.Core.Logic.{◌⊎◌, inl, inr}
use native.Mathlib.Omega.{arith}
use mathlib.Core.Bool.{Bool, true, false, ◌&&◌}
use mathlib.Core.List.{List, [], ◌∷◌, ◌++◌, reverse}
use poa_bridge.Prelude.Tests.{◌==◌}
pub use text.Mathlib.Text.{◌==◌ as str_eq}

-- The code points of a text.
abbrev pub codes : String → List ℕ
codes String.[] = []
codes (String.◌∷◌ c s) = code c ∷ codes s

unfoldable pub is_prefix : List ℕ → List ℕ → Bool
is_prefix [] ys = true
is_prefix (x ∷ xs) [] = false
is_prefix (x ∷ xs) (y ∷ ys) = x == y && is_prefix xs ys

unfoldable pub starts_with : String → String → Bool
unfolding is_prefix
starts_with s t = is_prefix (codes t) (codes s)

unfoldable pub ends_with : String → String → Bool
unfolding is_prefix
ends_with s t = is_prefix (reverse (codes t)) (reverse (codes s))

-- A prefix of a prefix is a prefix.
pub is_prefix-append : (xs ys zs : List ℕ) → is_prefix (xs ++ ys) zs ≡ true → is_prefix xs zs ≡ true
unfolding is_prefix
is_prefix-append [] ys zs h = refl
is_prefix-append (x ∷ xs) ys [] h = h
is_prefix-append (x ∷ xs) ys (z ∷ zs) h = ground (arith, is_prefix-append xs ys zs)

-- Of two prefixes of one list, one is a prefix of the other.
pub is_prefix_total :
    (xs ys zs : List ℕ)
    → is_prefix xs zs ≡ true
    → is_prefix ys zs ≡ true
    → (is_prefix xs ys ≡ true) ⊎ (is_prefix ys xs ≡ true)
unfolding is_prefix
is_prefix_total [] ys zs h k = inl refl
is_prefix_total (x ∷ xs) [] zs h k = inr refl
is_prefix_total (x ∷ xs) (y ∷ ys) [] h k = cc
is_prefix_total (x ∷ xs) (y ∷ ys) (z ∷ zs) h k = ground (arith, is_prefix_total xs ys zs)
