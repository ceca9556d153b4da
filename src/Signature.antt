-- ===== src/Signature.antt =====
-- bridge/src/signature.rs: ECDSA signatures as 65 bytes.
pub mod RoundTrip
use poa_bridge.Error.{◌>>=◌, message_error, Result, ok, err}
use poa_bridge.Prelude.{ℕ, List, ◌==◌, if◌then◌else◌, length, replicate}
use poa_bridge.Bytes.{Abi, slice, copy_into, index, assign}

-- `v` is a byte, `r` and `s` are hashes of 32 bytes.
pub record Signature : Type 0 where
  pub v : ℕ
  pub r : List ℕ
  pub s : List ℕ

abbrev pub signature_length : ℕ
signature_length = 65

unfoldable pub from_bytes : List ℕ → Result Signature
from_bytes bytes =
    if length bytes == signature_length
    then (do
      v ← index bytes 64
      r ← slice bytes 0 32
      s ← slice bytes 32 64
      ok (record { v = v; r = r; s = s }))
    else err (message_error "`bytes`.len() must be 65")

unfoldable pub to_bytes : Signature → Result (List ℕ)
to_bytes signature = do
  let blank = replicate signature_length 0
  a ← copy_into blank 0 32 signature.r
  b ← copy_into a 32 64 signature.s
  assign b 64 signature.v

unfoldable pub to_payload : Abi → Signature → Result (List ℕ)
unfolding to_bytes
to_payload abi signature = do bytes ← to_bytes signature; ok (abi.encode_bytes bytes)
