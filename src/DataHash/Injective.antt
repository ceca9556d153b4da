-- ===== src/DataHash/Injective.antt =====
-- The data that `eth_data_hash` (bridge/src/api.rs) hashes determines what is signed.
use poa_bridge.DataHash.{decimal_digits, decimal, message_data, signed_message_prefix}
use poa_bridge.Prelude.{
  ℕ, zero, suc, ◌+◌, ◌/◌, ◌%◌, ◌≤◌, ◌<◌, ◌≡◌, refl, sym, ap, ◌∙◌, List, [], ◌∷◌, ◌++◌, ltb, length,
  length-append, drop, drop-append, Bool-cases, inl, inr, true, false, arith,
}

length-decimal_digits_small : (fuel n : ℕ) → n < 10 → length (decimal_digits (suc fuel) n) ≡ 1
unfolding decimal_digits
length-decimal_digits_small fuel n h = let small : ltb n 10 ≡ true = ground arith in rw small refl

length-decimal_digits_large :
    (fuel n : ℕ)
    → 10 ≤ n
    → length (decimal_digits (suc fuel) n) ≡ suc (length (decimal_digits fuel (n / 10)))
unfolding decimal_digits
length-decimal_digits_large fuel n h =
    let large : ltb n 10 ≡ false = ground arith in
    rw large (length-append (decimal_digits fuel (n / 10)) ((48 + n % 10) ∷ []) ∙ omega arith)

-- A higher number has no fewer digits.
length-decimal_digits_mono :
    (f g n m : ℕ)
    → n < f
    → m < g
    → n ≤ m
    → length (decimal_digits f n) ≤ length (decimal_digits g m)
length-decimal_digits_mono zero g n m hf hg h = absurd (omega arith)
length-decimal_digits_mono (suc f) zero n m hf hg h = absurd (omega arith)
length-decimal_digits_mono (suc f) (suc g) n m hf hg h = elim (Bool-cases (ltb n 10)) [
  | inl small ↦ elim (Bool-cases (ltb m 10)) [
    | inl below ↦ omega (
      arith,
      length-decimal_digits_small f n (ground arith),
      length-decimal_digits_small g m (ground arith),
    )
    | inr above ↦ omega (
      arith,
      length-decimal_digits_small f n (ground arith),
      length-decimal_digits_large g m (ground arith),
    )
  ]
  | inr large ↦
      let many : 10 ≤ n = ground arith in
      let rest =
        length-decimal_digits_mono f g (n / 10) (m / 10) (omega arith) (omega arith)
          (omega arith) in
      omega (
        arith,
        length-decimal_digits_large f n many,
        length-decimal_digits_large g m (omega arith),
        rest,
      )
]

length-decimal_mono : (n m : ℕ) → n ≤ m → length (decimal n) ≤ length (decimal m)
unfolding decimal
length-decimal_mono n m h =
    length-decimal_digits_mono (n + 1) (m + 1) n m (omega arith) (omega arith) h

length-message_data :
    (xs : List ℕ)
    → length (message_data xs)
      ≡ length signed_message_prefix + length (decimal (length xs)) + length xs
unfolding message_data
length-message_data xs = omega (
  arith,
  length-append (signed_message_prefix ++ decimal (length xs)) xs,
  length-append signed_message_prefix (decimal (length xs)),
)

-- Data of one length is that of messages of one length.
length_eq_of_message_data : (n m : ℕ) → length (decimal n) + n ≡ length (decimal m) + m → n ≡ m
length_eq_of_message_data n m h = elim (Bool-cases (ltb n m)) [
  | inl less ↦
      let up = length-decimal_mono n m (ground arith) in
      let below : n < m = ground arith in absurd (omega arith)
  | inr more ↦
      let above : m ≤ n = ground arith in let up = length-decimal_mono m n above in omega arith
]

-- Two lists of bytes with the same data to hash are the same, although their length stands right before
-- them, with nothing in between.
pub message_data_inj : (xs ys : List ℕ) → message_data xs ≡ message_data ys → xs ≡ ys
unfolding message_data
message_data_inj xs ys e =
    let head : List ℕ = signed_message_prefix ++ decimal (length xs) in
    let same : length xs ≡ length ys =
      length_eq_of_message_data (length xs) (length ys)
        (omega (arith, ap length e, length-message_data xs, length-message_data ys)) in
    let tail : (signed_message_prefix ++ decimal (length ys)) ++ ys ≡ head ++ ys = rw same refl in
    sym (drop-append (length head) head xs refl)
    ∙ ap (drop (length head)) (e ∙ tail)
    ∙ drop-append (length head) head ys refl
