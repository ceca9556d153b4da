-- ===== src/Bytes.antt =====
-- Byte strings as the program handles them: slices and `copy_from_slice` of Rust's `[u8]`, which panic
-- out of bounds, and the 256-bit words, whose conversion to bytes is a library's.
use poa_bridge.Prelude.{
  some, Option, All, inl, inr, Bool-cases, length-take, length-drop, zero, suc, refl, ap, ◌∙◌, [],
  ◌∷◌, ltb, append_assoc, drop-beyond, take-append, drop-append, length-append, arith, true, ◌≤◌,
  ◌+◌, ℕ, ◌-◌, ◌<◌, ◌^◌, ◌≡◌, List, ◌++◌, length, take, drop, leb, ◌==◌, ◌&&◌, if◌then◌else◌,
}
use poa_bridge.Error.{Result, ok, panic}

-- `bytes[lo..hi]`.
unfoldable pub slice : List ℕ → ℕ → ℕ → Result (List ℕ)
slice bytes lo hi =
    if leb lo hi && leb hi (length bytes) then ok (take (hi - lo) (drop lo bytes)) else panic

-- `bytes[lo..hi].copy_from_slice(src)`.
unfoldable pub copy_into : List ℕ → ℕ → ℕ → List ℕ → Result (List ℕ)
copy_into bytes lo hi src =
    if leb lo hi && leb hi (length bytes) && length src == hi - lo
    then ok (take lo bytes ++ src ++ drop hi bytes)
    else panic

-- A byte is a number below 256.
abbrev pub AreBytes : List ℕ → Type 0
AreBytes bytes = All (λ b. b < 256) bytes

-- `H256::from(U256)` and `U256::from(&[u8; 32])` of the `ethereum_types` crate: the two are inverse
-- on words of 32 bytes, which are numbers below 2 ^ 256.
pub record Word256 : Type 0 where
  pub to_h256 : ℕ → List ℕ
  pub from_h256 : List ℕ → ℕ
  pub length-to_h256 : (n : ℕ) → length (to_h256 n) ≡ 32
  pub from_h256-to_h256 : (n : ℕ) → n < 2 ^ 256 → from_h256 (to_h256 n) ≡ n
  pub to_h256-from_h256 :
      (bytes : List ℕ) → length bytes ≡ 32 → AreBytes bytes → to_h256 (from_h256 bytes) ≡ bytes
  pub from_h256-lt :
      (bytes : List ℕ) → length bytes ≡ 32 → AreBytes bytes → from_h256 bytes < 2 ^ 256

-- A part of a concatenation, by its length and the length of what stands before it.
slice-middle :
    (a b c : List ℕ) (lo hi : ℕ)
    → length a ≡ lo
    → lo + length b ≡ hi
    → slice (a ++ (b ++ c)) lo hi ≡ ok b
unfolding slice
slice-middle a b c lo hi ha hb =
    let inside : leb lo hi && leb hi (length (a ++ (b ++ c))) ≡ true =
      ground (arith, length-append a (b ++ c), length-append b c) in
    rw (inside, drop-append lo a (b ++ c) ha, take-append (hi - lo) b c (omega arith))

-- Writing the next field of a buffer whose first fields are written.
pub copy_into-next :
    (a src rest : List ℕ) (lo hi : ℕ)
    → length a ≡ lo
    → lo + length src ≡ hi
    → length src ≤ length rest
    → copy_into (a ++ rest) lo hi src ≡ ok ((a ++ src) ++ drop (hi - lo) rest)
unfolding copy_into
copy_into-next a src rest lo hi ha hs fits =
    let inside : leb lo hi && leb hi (length (a ++ rest)) && length src == hi - lo ≡ true =
      ground (arith, length-append a rest) in
    rw (inside, take-append lo a rest ha, drop-beyond a rest hi (omega arith), ha, append_assoc)

pub slice-of :
    (bytes a b c : List ℕ) (lo hi : ℕ)
    → bytes ≡ a ++ (b ++ c)
    → length a ≡ lo
    → lo + length b ≡ hi
    → slice bytes lo hi ≡ ok b
slice-of bytes a b c lo hi e ha hb = rw e (slice-middle a b c lo hi ha hb)

-- `bytes[i]`, and `bytes[i] = v`.
unfoldable pub index : List ℕ → ℕ → Result ℕ
index [] i = panic
index (x ∷ xs) zero = ok x
index (x ∷ xs) (suc i) = index xs i

unfoldable pub assign : List ℕ → ℕ → ℕ → Result (List ℕ)
assign bytes i v =
    if ltb i (length bytes) then ok (take i bytes ++ v ∷ drop (i + 1) bytes) else panic

pub index-middle : (a b : List ℕ) (x i : ℕ) → length a ≡ i → index (a ++ x ∷ b) i ≡ ok x
unfolding index
index-middle [] b x zero h = refl
index-middle [] b x (suc i) h = absurd (omega arith)
index-middle (y ∷ a) b x zero h = absurd (omega arith)
index-middle (y ∷ a) b x (suc i) h = index-middle a b x i (omega arith)

pub assign-last :
    (a : List ℕ) (x v i : ℕ) → length a ≡ i → assign (a ++ x ∷ []) i v ≡ ok (a ++ v ∷ [])
unfolding assign
assign-last a x v i h =
    let inside : ltb i (length (a ++ x ∷ [])) ≡ true = ground (arith, length-append a (x ∷ [])) in
    let after : drop (i + 1) (a ++ x ∷ []) ≡ [] =
      drop-beyond a (x ∷ []) (i + 1) (omega arith)
      ∙ ap (λ k. drop k (x ∷ [])) (let e : i + 1 - length a ≡ suc zero = omega arith in e) in
    rw (inside, take-append i a (x ∷ []) h, after)

length-spliced :
    (bytes : List ℕ) (lo hi : ℕ) (src : List ℕ)
    → leb lo hi && leb hi (length bytes) && length src == hi - lo ≡ true
    → length (take lo bytes ++ src ++ drop hi bytes) ≡ length bytes
length-spliced bytes lo hi src h = ground (
  arith,
  length-append (take lo bytes ++ src) (drop hi bytes),
  length-append (take lo bytes) src,
  length-take lo bytes,
  length-drop hi bytes,
)

-- A write keeps the length of the buffer.
pub length-copy_into :
    (bytes : List ℕ) (lo hi : ℕ) (src : List ℕ) {r : List ℕ}
    → copy_into bytes lo hi src ≡ ok r
    → length r ≡ length bytes
unfolding copy_into
length-copy_into bytes lo hi src {r} e =
    elim (Bool-cases (leb lo hi && leb hi (length bytes) && length src == hi - lo)) [
      | inl inside ↦
          let e' : ok (take lo bytes ++ src ++ drop hi bytes) ≡ ok r = rw inside at e in
          let spliced : take lo bytes ++ src ++ drop hi bytes ≡ r = cc in
          rw (← spliced) (length-spliced bytes lo hi src inside)
      | inr outside ↦ let e' : panic ≡ ok r = rw outside at e in cc
    ]

-- The ethabi crate for one token of type `bytes`: `encode`, and `decode`, which may fail. What is
-- encoded is decoded again.
pub record Abi : Type 0 where
  pub encode_bytes : List ℕ → List ℕ
  pub decode_bytes : List ℕ → Option (List ℕ)
  pub decode_bytes-encode_bytes : (bytes : List ℕ) → decode_bytes (encode_bytes bytes) ≡ some bytes
