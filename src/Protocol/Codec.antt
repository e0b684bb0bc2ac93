-- ===== src/Protocol/Codec.antt =====
-- frame.rs, `encode`, `decode` and `fits`: frames around the text of a serializer. What serde_json
-- does is a parameter: the pieces that it writes, whether it then completes, and what it reads.
pub mod RoundTrip
pub mod Received
pub mod Fits
use eliot_search.Prelude.{
  ℕ, ◌+◌, ◌-◌, Bool, true, false, not, ◌||◌, Option, none, some, List, [], ◌∷◌, ◌++◌, Bytes, length,
  take, drop, ltb, leb, ◌==◌, if◌then◌else◌,
}
use eliot_search.Prelude.Words.{checked_add, to_le_bytes, from_le_bytes}
use eliot_search.Exec.{Result, ok, err, Exec, pure, ok_or, refuse_if, reserve_with, ◌>>=◌, ◌>>◌}
use eliot_search.Protocol.{
  ProtocolError, invalid_frame, frame_too_large, invalid_message, resource_exhausted, serialization,
  frame_prefix_bytes, max_body_bytes,
}
use eliot_search.Protocol.Buffer.{zeros, copy_into}

abbrev pub max_u32 : ℕ
max_u32 = 4294967295

-- `CappedWriter::write`: the failure that it notes is the one that `encode` returns. The writer never
-- holds more than its ceiling, which is 4 at least, so that the subtraction is exact.
unfoldable pub write : ℕ → Bytes → Bytes → Exec ProtocolError Bytes
write maximum input bytes = do
  refuse_if (ltb (maximum - length bytes) (length input)) frame_too_large
  reserve_with resource_exhausted
  pure (bytes ++ input)

unfoldable pub write_pieces : ℕ → List Bytes → Bytes → Exec ProtocolError Bytes
unfolding write
write_pieces maximum [] bytes = pure bytes
write_pieces maximum (p ∷ ps) bytes = do
  bytes' ← write maximum p bytes
  write_pieces maximum ps bytes'

-- `CountWriter::write`, up to the first excess.
unfoldable pub count_pieces : List Bytes → ℕ → Option ℕ
count_pieces [] len = some len
count_pieces (p ∷ ps) len =
    let rest = count_pieces ps (len + length p) in
    if ltb (max_body_bytes - len) (length p) then none else rest

abbrev pub is_length : Option ℕ → ℕ → Bool
is_length none n = false
is_length (some m) n = m == n

module _ {ℓ} {A : Type ℓ} (pieces : A → List Bytes) (completes : A → Bool) where
  unfoldable pub encode : A → ℕ → Exec ProtocolError Bytes
  unfolding write_pieces copy_into
  encode value maximum = do
    reserve_with resource_exhausted
    bytes ← write_pieces maximum (pieces value) (zeros frame_prefix_bytes)
    refuse_if (not (completes value)) serialization
    let body = length bytes - frame_prefix_bytes
    refuse_if (ltb max_u32 body) frame_too_large
    pure (copy_into bytes 0 (to_le_bytes 4 body))

  unfoldable pub fits : A → Result ProtocolError Bool
  unfolding count_pieces
  fits value = elim (count_pieces (pieces value) 0) [
    | none ↦ ok false
    | some len ↦ if completes value then ok true else err serialization
  ]

module _ {ℓ} {A : Type ℓ} (from_slice : Bytes → Option A) where
  unfoldable pub decode : Bytes → ℕ → Exec ProtocolError A
  decode frame maximum = do
    refuse_if (ltb maximum (length frame)) frame_too_large
    prefix ←
        ok_or
          (if leb frame_prefix_bytes (length frame)
            then some (take frame_prefix_bytes frame)
            else none)
          invalid_frame
    let body = from_le_bytes prefix
    refuse_if (body == 0 || not (is_length (checked_add body frame_prefix_bytes) (length frame)))
        invalid_frame
    ok_or (from_slice (drop frame_prefix_bytes frame)) invalid_message
