-- ===== src/Protocol/Buffer.antt =====
-- frame.rs, `FrameBuffer`: incremental reception of exactly one length-prefixed frame.
pub mod Received
pub mod Bodies
pub mod Pushes
pub mod Fragments
use eliot_search.Prelude.{
  ℕ, zero, suc, ◌+◌, ◌-◌, min, Bool, true, false, not, ◌&&◌, Option, none, some, [], ◌∷◌, ◌++◌,
  Bytes, length, take, drop, ltb, leb, ◌==◌, if◌then◌else◌,
}
use eliot_search.Prelude.Words.{checked_add, from_le_bytes}
use eliot_search.Exec.{Result, ok, err}
use eliot_search.Protocol.{
  ProtocolError, invalid_frame, frame_too_large, resource_exhausted, frame_prefix_bytes,
  max_frame_bytes,
}

pub record FrameBuffer : Type 0 where
  pub prefix : Bytes
  pub prefix_used : ℕ
  pub bytes : Bytes
  pub used : ℕ
  pub maximum : ℕ

-- `[0; n]` and `resize(n, 0)` of an empty vector.
abbrev pub zeros : ℕ → Bytes
zeros zero = []
zeros (suc n) = 0 ∷ zeros n

unfoldable pub new : ℕ → Result ProtocolError FrameBuffer
new maximum =
    if leb (frame_prefix_bytes + 1) maximum && leb maximum max_frame_bytes
    then ok (record {
      prefix = zeros frame_prefix_bytes;
      prefix_used = 0;
      bytes = [];
      used = 0;
      maximum = maximum;
    })
    else err frame_too_large

-- `target[at..at + source.len()].copy_from_slice(source)`
unfoldable pub copy_into : Bytes → ℕ → Bytes → Bytes
copy_into target at source = take at target ++ (source ++ drop (at + length source) target)

unfoldable pub fill_prefix : ℕ → Bytes → FrameBuffer → FrameBuffer
unfolding copy_into
fill_prefix count input b = record b {
  prefix = copy_into b.prefix b.prefix_used (take count input);
  prefix_used = b.prefix_used + count;
}

-- The checks of the declared length, and then the allocation; `memory` says whether it is granted.
unfoldable pub open_body : Bool → FrameBuffer → Result ProtocolError FrameBuffer
unfolding copy_into
open_body memory b = elim (checked_add (from_le_bytes b.prefix) frame_prefix_bytes) [
  | none ↦ err frame_too_large
  | some total ↦
      if from_le_bytes b.prefix == 0
      then err invalid_frame
      else if ltb b.maximum total
      then err frame_too_large
      else if memory
      then ok (record b { bytes = copy_into (zeros total) 0 b.prefix; used = frame_prefix_bytes })
      else err resource_exhausted
]

unfoldable pub receive : ℕ → Bytes → FrameBuffer → Result ProtocolError ℕ × FrameBuffer
unfolding copy_into
receive consumed input b =
    let count = min (length b.bytes - b.used) (length input - consumed) in
    (
      ok (consumed + count),
      record b {
        bytes = copy_into b.bytes b.used (take count (drop consumed input));
        used = b.used + count;
      },
    )

abbrev pub received :
    ℕ
    → Bytes
    → FrameBuffer
    → Result ProtocolError FrameBuffer
    → Result ProtocolError ℕ × FrameBuffer
received consumed input b (err e) = (err e, b)
received consumed input b (ok b') = receive consumed input b'

-- The result, and the buffer behind the call, also where it fails.
unfoldable pub push : Bool → Bytes → FrameBuffer → Result ProtocolError ℕ × FrameBuffer
unfolding fill_prefix open_body receive
push memory input b =
    if ltb b.prefix_used frame_prefix_bytes
    then (let count = min (frame_prefix_bytes - b.prefix_used) (length input) in
        let b' = fill_prefix count input b in
        if not (b'.prefix_used == frame_prefix_bytes)
        then (ok count, b')
        else received count input b' (open_body memory b'))
    else receive 0 input b

unfoldable pub is_empty : FrameBuffer → Bool
is_empty b = b.prefix_used == 0

abbrev no_bytes : Bytes → Bool
no_bytes [] = true
no_bytes (x ∷ xs) = false

unfoldable pub is_complete : FrameBuffer → Bool
is_complete b = not (no_bytes b.bytes) && (b.used == length b.bytes)

unfoldable pub frame : FrameBuffer → Option Bytes
unfolding is_complete
frame b = if is_complete b then some b.bytes else none
