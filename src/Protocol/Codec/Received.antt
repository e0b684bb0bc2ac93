-- ===== src/Protocol/Codec/Received.antt =====
-- A frame that was written is received whole from any cut of the stream that it begins.
use eliot_search.Prelude.{
  ℕ, ◌+◌, ◌-◌, ◌≤◌, ◌<◌, ◌≡◌, refl, sym, ap, ◌∙◌, some, List, [], ◌++◌, append-nil, arith, Bytes,
  length, take, length-append, take-length, ==_refl, suc, ◌∷◌,
}
use eliot_search.Prelude.Words.{from_le_bytes, from_le_bytes-to_le_bytes}
use eliot_search.Exec.{ok}
use eliot_search.Protocol.{max_frame_bytes}
use eliot_search.Protocol.Buffer.{FrameBuffer, zeros, new, frame, is_complete}
use eliot_search.Protocol.Buffer.Received.{
  declared, accept, accept-short, accept-fits, holding, holding-open, open_with, take_prefix,
}
use eliot_search.Protocol.Buffer.Fragments.{concat, map_ok, push_all, push_all-accept}
use eliot_search.Protocol.Codec.{max_u32}
use eliot_search.Protocol.Codec.RoundTrip.{framed, take_word, length-framed}

new-holding :
    (maximum : ℕ) (b : FrameBuffer)
    → new maximum ≡ ok b
    → (b ≡ holding maximum []) × (maximum ≤ max_frame_bytes)
unfolding new
new-holding maximum b h = (ground arith, ground arith)

declared-framed :
    (body rest : Bytes) → length body ≤ max_u32 → declared (framed body ++ rest) ≡ length body + 4
declared-framed body rest word =
    ap (λ n. n + 4)
      (ap (λ l. from_le_bytes l)
          (take_prefix 4 (framed body) rest (omega (arith, length-framed body)) ∙ take_word body)
        ∙ from_le_bytes-to_le_bytes 4 (length body) (omega arith))

frame-full :
    (b : FrameBuffer) (w : Bytes)
    → 0 < length w
    → b.bytes ≡ w
    → b.used ≡ length w
    → frame b ≡ some w
unfolding frame is_complete
frame-full b [] h hb hu = absurd (omega arith)
frame-full b (x ∷ xs) h hb hu = rw (hb, hu, ==_refl (suc (length xs))) refl

frame-open :
    (maximum : ℕ) (w : Bytes)
    → 4 ≤ length w
    → declared w ≡ length w
    → frame (holding maximum w) ≡ some w
frame-open maximum w long whole =
    let full : w ++ zeros (declared w - length w) ≡ w =
      let none_left : declared w - length w ≡ 0 = omega arith in
      ap (λ n. w ++ zeros n) none_left ∙ append-nil w in
    rw (holding-open maximum w long) (frame-full (open_with maximum w) w (omega arith) full refl)

-- A new buffer that is pushed the fragments of a stream, memory being granted, ends with the frame
-- that the stream begins with, complete and without a byte behind it, if its body is not empty and the
-- frame is within the ceiling of the buffer.
pub push_all-framed :
    (maximum : ℕ) (fresh : FrameBuffer) (fragments : List Bytes) (body rest : Bytes)
    → new maximum ≡ ok fresh
    → concat fragments ≡ framed body ++ rest
    → 0 < length body
    → length body + 4 ≤ maximum
    → (b : FrameBuffer) × (push_all fragments fresh ≡ ok b) × (frame b ≡ some (framed body))
push_all-framed maximum fresh fragments body rest made stream some_body inside =
    let (same, small) = new-holding maximum fresh made in
    let s : Bytes = framed body ++ rest in
    let size : length (framed body) ≡ length body + 4 = omega (arith, length-framed body) in
    let length_read : declared s ≡ length (framed body) =
      declared-framed body rest (omega arith) ∙ sym size in
    let taken : accept maximum s ≡ ok (framed body) =
      accept-fits maximum s (omega (arith, length-append (framed body) rest)) (omega arith)
        (omega arith)
      ∙ ap ok (ap (λ n. take n s) length_read ∙ take-length (framed body) rest) in
    let whole : declared (framed body) ≡ length (framed body) =
      ap (λ l. declared l) (sym (append-nil (framed body)))
      ∙ (declared-framed body [] (omega arith) ∙ sym size) in
    (
      holding maximum (framed body),
      ap (push_all fragments) same
          ∙ (push_all-accept maximum [] fragments (omega arith)
                (accept-short maximum [] (omega arith))
              ∙ ap (map_ok (holding maximum)) (ap (accept maximum) stream ∙ taken)),
      frame-open maximum (framed body) (omega arith) whole,
    )
