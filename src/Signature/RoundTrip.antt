-- ===== src/Signature/RoundTrip.antt =====
-- Round trips of bridge/src/signature.rs.
use poa_bridge.Error.{message_error, ok, err, ◌>>=◌}
use poa_bridge.Prelude.{
  ℕ, ◌≡◌, refl, ◌≢◌, true, List, [], ◌∷◌, ◌++◌, append_assoc, arith, ◌==◌, length, replicate,
  length-append,
}
use poa_bridge.Bytes.{slice, slice-of, copy_into-next, index, index-middle, assign-last}
use poa_bridge.Signature.{Signature, signature_length, from_bytes, to_bytes}

pub record IsSignature (g : Signature) : Type 0 where
  pub r_size : length g.r ≡ 32
  pub s_size : length g.s ≡ 32

to_bytes_parts : (g : Signature) → IsSignature g → to_bytes g ≡ ok ((g.r ++ g.s) ++ g.v ∷ [])
unfolding to_bytes
to_bytes_parts g h =
    let hrs : length (g.r ++ g.s) ≡ 64 = omega (arith, length-append g.r g.s, h.r_size, h.s_size) in
    rw (copy_into-next [] g.r (replicate 65 0) 0 32 refl (omega arith) (omega arith)) (
      rw (copy_into-next g.r g.s (replicate 33 0) 32 64 h.r_size (omega arith) (omega arith))
        (assign-last (g.r ++ g.s) 0 g.v 64 hrs))

from_bytes_parts : (g : Signature) → IsSignature g → from_bytes ((g.r ++ g.s) ++ g.v ∷ []) ≡ ok g
unfolding from_bytes
from_bytes_parts g h =
    let bytes : List ℕ = (g.r ++ g.s) ++ g.v ∷ [] in
    let hrs : length (g.r ++ g.s) ≡ 64 = omega (arith, length-append g.r g.s, h.r_size, h.s_size) in
    let size : length bytes == signature_length ≡ true =
      ground (arith, length-append (g.r ++ g.s) (g.v ∷ [])) in
    let last : index bytes 64 ≡ ok g.v = index-middle (g.r ++ g.s) [] g.v 64 hrs in
    let first : slice bytes 0 32 ≡ ok g.r =
      slice-of bytes [] g.r (g.s ++ g.v ∷ []) 0 32 (simp append_assoc) refl (omega arith) in
    let second : slice bytes 32 64 ≡ ok g.s =
      slice-of bytes g.r g.s (g.v ∷ []) 32 64 (simp append_assoc) h.r_size (omega arith) in
    rw (size, last, first, second)

-- A signature with `r` and `s` of 32 bytes each is written without a panic, and what is read back
-- from its bytes is that signature.
pub sig_from_bytes-to_bytes : (g : Signature) → IsSignature g → (to_bytes g >>= from_bytes) ≡ ok g
sig_from_bytes-to_bytes g h = rw (to_bytes_parts g h) (from_bytes_parts g h)

-- Reading fails with an error, and without a panic, on every length but 65.
sig_from_bytes-err :
    (bytes : List ℕ)
    → length bytes ≢ signature_length
    → from_bytes bytes ≡ err (message_error "`bytes`.len() must be 65")
unfolding from_bytes
sig_from_bytes-err bytes h = ground arith
