-- ===== src/Message/RoundTrip.antt =====
-- Round trips of bridge/src/message_to_mainnet.rs: the signed bytes and the message determine one another.
use poa_bridge.Prelude.{
  All-take, All-drop, sym, ap, ◌∙◌, true, append_assoc, ◌==◌, take, drop, length-take, length-drop,
  take-append-drop, ◌≢◌, append-nil, [], length-append, arith, ◌++◌, ℕ, ◌<◌, ◌^◌, ◌≡◌, refl,
}
use poa_bridge.Error.{>>=-eq-ok, ◌>>=◌, ok, panic}
use poa_bridge.Bytes.{
  AreBytes, copy_into, length-copy_into, slice-of, slice, Word256, copy_into-next,
}
use poa_bridge.Message.{
  List, replicate, length, MessageToMainnet, message_length, from_bytes, to_bytes,
}

-- The sizes that Rust's types give: an address, a hash and two `U256`.
pub record IsMessage (m : MessageToMainnet) : Type 0 where
  pub recipient_size : length m.recipient ≡ 20
  pub hash_size : length m.sidenet_transaction_hash ≡ 32
  pub value_range : m.value < 2 ^ 256
  pub price_range : m.mainnet_gas_price < 2 ^ 256

-- The four fields of 116 bytes.
record IsSplit (bytes : List ℕ) : Type 0 where
  a : List ℕ
  b : List ℕ
  c : List ℕ
  d : List ℕ
  whole : ((a ++ b) ++ c) ++ d ≡ bytes
  size_a : length a ≡ 20
  size_b : length b ≡ 32
  size_c : length c ≡ 32
  size_d : length d ≡ 32
  bytes_b : AreBytes b
  bytes_d : AreBytes d

message-IsSplit : (bytes : List ℕ) → length bytes ≡ message_length → AreBytes bytes → IsSplit bytes
message-IsSplit bytes h small =
    let bcd = drop 20 bytes in
    let cd = drop 32 bcd in
    let sbcd : AreBytes bcd = All-drop _ 20 bytes small in
    record {
      a = take 20 bytes;
      b = take 32 bcd;
      c = take 32 cd;
      d = drop 32 cd;
      whole = simp (append_assoc, take-append-drop);
      size_a = omega (arith, length-take 20 bytes);
      size_b = omega (arith, length-take 32 bcd, length-drop 20 bytes);
      size_c = omega (arith, length-take 32 cd, length-drop 32 bcd, length-drop 20 bytes);
      size_d = omega (arith, length-drop 32 cd, length-drop 32 bcd, length-drop 20 bytes);
      bytes_b = All-take _ 32 bcd sbcd;
      bytes_d = All-drop _ 32 cd (All-drop _ 32 bcd sbcd);
    }

module _ (w : Word256) where
  -- The layout of the buffer: recipient, value, hash, gas price.
  to_bytes_parts :
      (m : MessageToMainnet)
      → length m.recipient ≡ 20
      → length m.sidenet_transaction_hash ≡ 32
      → to_bytes w m
        ≡ ok (
            ((m.recipient ++ w.to_h256 m.value) ++ m.sidenet_transaction_hash)
            ++ w.to_h256 m.mainnet_gas_price)
  unfolding to_bytes
  to_bytes_parts m hr hh =
      let hv = w.length-to_h256 m.value in
      let hp = w.length-to_h256 m.mainnet_gas_price in
      let hrv : length (m.recipient ++ w.to_h256 m.value) ≡ 52 =
        omega (arith, length-append m.recipient (w.to_h256 m.value)) in
      let hrvh : length ((m.recipient ++ w.to_h256 m.value) ++ m.sidenet_transaction_hash) ≡ 84 =
        omega
          (arith, length-append (m.recipient ++ w.to_h256 m.value) m.sidenet_transaction_hash) in
      rw (copy_into-next [] m.recipient (replicate 116 0) 0 20 refl (omega arith) (omega arith)) (
        rw
          (copy_into-next m.recipient (w.to_h256 m.value) (replicate 96 0) 20 52 hr (omega arith)
            (omega arith))
          (rw
            (copy_into-next (m.recipient ++ w.to_h256 m.value) m.sidenet_transaction_hash
              (replicate 64 0) 52 84 hrv (omega arith) (omega arith))
            (rw
              (copy_into-next ((m.recipient ++ w.to_h256 m.value) ++ m.sidenet_transaction_hash)
                (w.to_h256 m.mainnet_gas_price) (replicate 32 0) 84 116 hrvh (omega arith)
                (omega arith))
              (rw append-nil))))

  from_bytes_parts :
      (a b c d : List ℕ)
      → length a ≡ 20
      → length b ≡ 32
      → length c ≡ 32
      → length d ≡ 32
      → from_bytes w (((a ++ b) ++ c) ++ d)
        ≡ ok (record {
          recipient = a;
          value = w.from_h256 b;
          sidenet_transaction_hash = c;
          mainnet_gas_price = w.from_h256 d;
        })
  unfolding from_bytes
  from_bytes_parts a b c d ha hb hc hd =
      let bytes : List ℕ = ((a ++ b) ++ c) ++ d in
      let hab : length (a ++ b) ≡ 52 = omega (arith, length-append a b) in
      let habc : length ((a ++ b) ++ c) ≡ 84 = omega (arith, length-append (a ++ b) c) in
      let size : length bytes == message_length ≡ true =
        ground (arith, length-append ((a ++ b) ++ c) d) in
      let first : slice bytes 0 20 ≡ ok a =
        slice-of bytes [] a ((b ++ c) ++ d) 0 20 (simp append_assoc) refl (omega arith) in
      let second : slice bytes 20 52 ≡ ok b =
        slice-of bytes a b (c ++ d) 20 52 (simp append_assoc) ha (omega arith) in
      let third : slice bytes 52 84 ≡ ok c =
        slice-of bytes (a ++ b) c d 52 84 (simp append_assoc) hab (omega arith) in
      let fourth : slice bytes 84 116 ≡ ok d =
        slice-of bytes ((a ++ b) ++ c) d [] 84 116 (simp (append_assoc, append-nil)) habc
          (omega arith) in
      rw (size, first, second, third, fourth)

  -- A message with an address of 20 bytes, a hash of 32 and numbers below 2 ^ 256 is written
  -- without a panic, and what is read back from its bytes is that message.
  pub from_bytes-to_bytes :
      (m : MessageToMainnet) → IsMessage m → (to_bytes w m >>= from_bytes w) ≡ ok m
  from_bytes-to_bytes m v = rw (to_bytes_parts m v.recipient_size v.hash_size) (
      rw
        (from_bytes_parts m.recipient (w.to_h256 m.value) m.sidenet_transaction_hash
          (w.to_h256 m.mainnet_gas_price) v.recipient_size (w.length-to_h256 m.value) v.hash_size
          (w.length-to_h256 m.mainnet_gas_price))
        (rw (
          w.from_h256-to_h256 m.value v.value_range,
          w.from_h256-to_h256 m.mainnet_gas_price v.price_range,
        )))

  -- Any 116 bytes are read as a message without a panic, and writing that message gives the same
  -- bytes.
  pub to_bytes-from_bytes :
      (bytes : List ℕ)
      → length bytes ≡ message_length
      → AreBytes bytes
      → (from_bytes w bytes >>= to_bytes w) ≡ ok bytes
  to_bytes-from_bytes bytes h small =
      let p = message-IsSplit bytes h small in
      let read = from_bytes_parts p.a p.b p.c p.d p.size_a p.size_b p.size_c p.size_d in
      let write =
        to_bytes_parts
          (record {
            recipient = p.a;
            value = w.from_h256 p.b;
            sidenet_transaction_hash = p.c;
            mainnet_gas_price = w.from_h256 p.d;
          })
          p.size_a p.size_c in
      ap (λ bs. from_bytes w bs >>= to_bytes w) (sym p.whole)
      ∙ rw read (
          rw
            (
              write,
              w.to_h256-from_h256 p.b p.size_b p.bytes_b,
              w.to_h256-from_h256 p.d p.size_d p.bytes_d,
            )
            (ap ok p.whole))

  -- Any 116 bytes are read without a panic, and what is read has the sizes and ranges that Rust's types
  -- give a message: an address, a hash and two words of 256 bits.
  pub from_bytes-IsMessage :
      (bytes : List ℕ)
      → length bytes ≡ message_length
      → AreBytes bytes
      → (m : MessageToMainnet) × (from_bytes w bytes ≡ ok m) × IsMessage m
  from_bytes-IsMessage bytes h small =
      let p = message-IsSplit bytes h small in
      (
        _,
        ap (from_bytes w) (sym p.whole)
            ∙ from_bytes_parts p.a p.b p.c p.d p.size_a p.size_b p.size_c p.size_d,
        record {
          recipient_size = p.size_a;
          hash_size = p.size_c;
          value_range = w.from_h256-lt p.b p.size_b p.bytes_b;
          price_range = w.from_h256-lt p.d p.size_d p.bytes_d;
        },
      )

  -- A slice of any other length is refused by the assertion.
  from_bytes-panic : (bytes : List ℕ) → length bytes ≢ message_length → from_bytes w bytes ≡ panic
  unfolding from_bytes
  from_bytes-panic bytes h = ground arith

  -- Whatever the message, its bytes are as many as the length that the contract accepts.
  pub length-to_bytes :
      (m : MessageToMainnet) {bytes : List ℕ}
      → to_bytes w m ≡ ok bytes
      → length bytes ≡ message_length
  unfolding to_bytes
  length-to_bytes m e =
      let v = w.to_h256 m.value in
      let (a, ea, e1) = >>=-eq-ok (copy_into (replicate message_length 0) 0 20 m.recipient) _ e in
      let (b, eb, e2) = >>=-eq-ok (copy_into a 20 52 v) _ e1 in
      let (c, ec, e3) = >>=-eq-ok (copy_into b 52 84 m.sidenet_transaction_hash) _ e2 in
      length-copy_into c 84 message_length (w.to_h256 m.mainnet_gas_price) e3
      ∙ length-copy_into b 52 84 m.sidenet_transaction_hash ec
      ∙ length-copy_into a 20 52 v eb
      ∙ length-copy_into (replicate message_length 0) 0 20 m.recipient ea
