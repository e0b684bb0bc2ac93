-- ===== src/Examples/Frames.antt =====
-- Frames written, cut and received; a serializer that writes a number as one byte.
use eliot_search.Prelude.{
  ◌≤◌, ◌<◌, ℕ, ◌≡◌, refl, Bool, true, Option, none, some, List, [], ◌∷◌, ◌++◌, arith, Bytes, leb,
  if◌then◌else◌, length,
}
use eliot_search.Prelude.Words.{to_le_bytes, from_le_bytes}
use eliot_search.Exec.{Result, ok, err, calm, ◌>>=◌}
use eliot_search.Protocol.{ProtocolError, frame_too_large, max_body_bytes, max_frame_bytes}
use eliot_search.Protocol.Buffer.{
  FrameBuffer, new, copy_into, fill_prefix, open_body, receive, push, frame,
}
use eliot_search.Protocol.Buffer.Received.{accept, holding}
use eliot_search.Protocol.Buffer.Bodies.{Agrees}
use eliot_search.Protocol.Buffer.Pushes.{push-accept}
use eliot_search.Protocol.Buffer.Fragments.{concat, map_ok, push_all, push_all-accept}
use eliot_search.Protocol.Codec.{write, write_pieces, encode, fits, decode}
use eliot_search.Protocol.Codec.RoundTrip.{framed, decode-encode}
use eliot_search.Protocol.Codec.Received.{push_all-framed}
use eliot_search.Protocol.Codec.Fits.{fits-encode}
use eliot_search.Protocol.Complete.{size, encode_longest, encode_longest_lem}
use eliot_search.Protocol.Prefix.{IsDownward, IsLongest, search_prefix, search_prefix-IsLongest}

abbrev fresh : FrameBuffer
fresh = record { prefix = 0 ∷ 0 ∷ 0 ∷ 0 ∷ []; prefix_used = 0; bytes = []; used = 0; maximum = 16 }

-- A frame of three bytes and one byte of the next, in three fragments.
abbrev fragments : List Bytes
fragments = (3 ∷ 0 ∷ []) ∷ (0 ∷ 0 ∷ 7 ∷ []) ∷ (8 ∷ 9 ∷ 5 ∷ []) ∷ []

fragments_received :
    push_all fragments fresh
    ≡ ok (record {
      prefix = 3 ∷ 0 ∷ 0 ∷ 0 ∷ [];
      prefix_used = 4;
      bytes = 3 ∷ 0 ∷ 0 ∷ 0 ∷ 7 ∷ 8 ∷ 9 ∷ [];
      used = 7;
      maximum = 16;
    })
unfolding push_all push fill_prefix open_body receive copy_into from_le_bytes
fragments_received = refl

push-accept_example :
    Agrees 16 2
      (accept 16 (3 ∷ 0 ∷ 0 ∷ 0 ∷ 7 ∷ []))
      (push true (0 ∷ 0 ∷ 7 ∷ []) (holding 16 (3 ∷ 0 ∷ [])))
unfolding accept
push-accept_example = push-accept 16 (3 ∷ 0 ∷ []) (0 ∷ 0 ∷ 7 ∷ []) (omega arith) refl

push_all-accept_example :
    push_all fragments (holding 16 []) ≡ map_ok (holding 16) (accept 16 ([] ++ concat fragments))
unfolding accept
push_all-accept_example = push_all-accept 16 [] fragments (omega arith) refl

push_all-framed_example :
    (b : FrameBuffer) × (push_all fragments fresh ≡ ok b)
    × (frame b ≡ some (framed (7 ∷ 8 ∷ 9 ∷ [])))
unfolding new to_le_bytes
push_all-framed_example =
    push_all-framed 16 fresh fragments (7 ∷ 8 ∷ 9 ∷ []) (5 ∷ []) refl refl (omega arith)
      (omega arith)

abbrev one_byte : ℕ → List Bytes
one_byte n = (n ∷ []) ∷ []

abbrev always : ℕ → Bool
always n = true

abbrev read_byte : Bytes → Option ℕ
read_byte (b ∷ []) = some b
read_byte _ = none

seven_written : encode one_byte always 7 16 calm ≡ ok (1 ∷ 0 ∷ 0 ∷ 0 ∷ 7 ∷ [], calm)
unfolding encode write_pieces write copy_into to_le_bytes ◌>>=◌
seven_written = refl

decode-encode_example : decode read_byte (1 ∷ 0 ∷ 0 ∷ 0 ∷ 7 ∷ []) 16 calm ≡ ok (7, calm)
decode-encode_example =
    decode-encode one_byte always read_byte 7 16 calm calm calm (1 ∷ 0 ∷ 0 ∷ 0 ∷ 7 ∷ [])
      (omega arith) refl (omega arith) seven_written

fits-encode_example :
    (fits one_byte always 7 ≡ ok (leb (length (concat (one_byte 7))) max_body_bytes))
    × (encode one_byte always 7 max_frame_bytes calm ≡ (
        if leb (length (concat (one_byte 7))) max_body_bytes
        then ok (framed (concat (one_byte 7)), calm)
        else err frame_too_large))
fits-encode_example = fits-encode one_byte always 7 refl

-- Three of five items fit.
abbrev up_to_three : ℕ → Bool
up_to_three n = leb n 3

abbrev fits_three : ℕ → Result ProtocolError Bool
fits_three n = ok (up_to_three n)

up_to_three-IsDownward : IsDownward up_to_three 5
up_to_three-IsDownward m n h k e = ground arith

three_of_five : search_prefix fits_three 5 0 5 ≡ ok 3
unfolding search_prefix
three_of_five = refl

search_prefix-IsLongest_example :
    (n : ℕ) × (search_prefix fits_three 5 0 5 ≡ ok n) × IsLongest up_to_three 5 n
search_prefix-IsLongest_example =
    search_prefix-IsLongest fits_three up_to_three 5 (λ n h. refl) up_to_three-IsDownward refl

-- Two items; the terminal with the first n of them is the number n.
encode_longest_lem_example :
    (n : ℕ) × (encode_longest one_byte always (λ k. k) 2 calm
      ≡ ok (framed (concat (one_byte n)), calm))
    × (n ≤ 2)
    × (size one_byte (λ k. k) n ≤ max_body_bytes)
    × ((m : ℕ) → n < m → m ≤ 2 → max_body_bytes < size one_byte (λ k. k) m)
encode_longest_lem_example =
    encode_longest_lem one_byte always (λ k. k) 2 (λ n h. refl) (λ m n h k. omega arith)
      (omega arith)
