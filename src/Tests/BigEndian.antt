-- ===== src/Tests/BigEndian.antt =====
-- The bytes of 256-bit words, big end first, as the words of the tests.
use mathlib.Core.List.{reverse, reverse-cons, reverse-reverse}
use poa_bridge.Prelude.{
  ℕ, zero, suc, ◌+◌, ◌*◌, ◌/◌, ◌%◌, ◌<◌, ◌≡◌, refl, ap, ◌∙◌, List, [], ◌∷◌, arith, length,
  length-append, All-append,
}
use poa_bridge.Bytes.{AreBytes, Word256}

-- The powers of 256.
abbrev range_of : ℕ → ℕ
range_of zero = 1
range_of (suc k) = 256 * range_of k

-- Little end first.
abbrev bytes_of : ℕ → ℕ → List ℕ
bytes_of zero n = []
bytes_of (suc k) n = n % 256 ∷ bytes_of k (n / 256)

abbrev value_of : List ℕ → ℕ
value_of [] = 0
value_of (b ∷ bs) = b + 256 * value_of bs

pub length-bytes_of : (k n : ℕ) → length (bytes_of k n) ≡ k
length-bytes_of zero n = refl
length-bytes_of (suc k) n = ap suc (length-bytes_of k (n / 256))

pub value_of-bytes_of : (k n : ℕ) → n < range_of k → value_of (bytes_of k n) ≡ n
value_of-bytes_of zero n h = omega arith
value_of-bytes_of (suc k) n h =
    let high = value_of-bytes_of k (n / 256) (omega arith) in omega (arith, high)

pub bytes_of-value_of :
    (k : ℕ) (bs : List ℕ) → length bs ≡ k → AreBytes bs → bytes_of k (value_of bs) ≡ bs
bytes_of-value_of zero [] e h = refl
bytes_of-value_of zero (b ∷ bs) e h = absurd (omega arith)
bytes_of-value_of (suc k) [] e h = absurd (omega arith)
bytes_of-value_of (suc k) (b ∷ bs) e (h, hs) =
    let low : (b + 256 * value_of bs) % 256 ≡ b = omega arith in
    let high : (b + 256 * value_of bs) / 256 ≡ value_of bs = omega arith in
    rw (low, high) (ap (◌∷◌ b) (bytes_of-value_of k bs (omega arith) hs))

pub value_of-lt : (bs : List ℕ) → AreBytes bs → value_of bs < range_of (length bs)
value_of-lt [] h = omega arith
value_of-lt (b ∷ bs) (h, hs) = omega (arith, value_of-lt bs hs)

pub length-reverse : (bs : List ℕ) → length (reverse bs) ≡ length bs
length-reverse [] = refl
length-reverse (b ∷ bs) =
    ap length (reverse-cons b bs)
    ∙ length-append (reverse bs) (b ∷ [])
    ∙ omega (arith, length-reverse bs)

pub AreBytes-reverse : (bs : List ℕ) → AreBytes bs → AreBytes (reverse bs)
AreBytes-reverse [] h = tt
AreBytes-reverse (b ∷ bs) (h, hs) =
    rw (reverse-cons b bs) (All-append _ (reverse bs) (b ∷ []) (AreBytes-reverse bs hs) (h, tt))

abbrev pub big_endian : Word256
big_endian = record {
  to_h256 = λ n. reverse (bytes_of 32 n);
  from_h256 = λ bytes. value_of (reverse bytes);
  length-to_h256 = λ n. length-reverse (bytes_of 32 n) ∙ length-bytes_of 32 n;
  from_h256-to_h256 =
      λ n h. ap value_of (reverse-reverse (bytes_of 32 n)) ∙ value_of-bytes_of 32 n h;
  to_h256-from_h256 = λ bytes e h.
      ap reverse
        (bytes_of-value_of 32 (reverse bytes) (length-reverse bytes ∙ e) (AreBytes-reverse bytes h))
      ∙ reverse-reverse bytes;
  from_h256-lt = λ bytes e h.
      let size : length (reverse bytes) ≡ 32 = length-reverse bytes ∙ e in
      let below = value_of-lt (reverse bytes) (AreBytes-reverse bytes h) in rw size at below;
}
