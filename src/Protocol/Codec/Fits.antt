-- ===== src/Protocol/Codec/Fits.antt =====
-- The count of `fits` decides whether a frame within the common ceiling is written.
use eliot_search.Prelude.{
  ℕ, ◌+◌, ◌-◌, ◌≤◌, ◌<◌, ◌≡◌, refl, sym, ap, ◌∙◌, Bool, Bool-cases, inl, inr, true, false, none,
  some, List, [], ◌∷◌, ◌++◌, append-nil, append_assoc, arith, Bytes, length, length-append, ltb,
  leb, le→ltb, lt→ltb, lt→leb, if◌then◌else◌,
}
use eliot_search.Exec.{ok, err, calm, continue, ◌>>=◌}
use eliot_search.Protocol.{frame_too_large, max_body_bytes, max_frame_bytes}
use eliot_search.Protocol.Buffer.{zeros}
use eliot_search.Protocol.Buffer.Fragments.{concat}
use eliot_search.Protocol.Codec.{write, write_pieces, count_pieces, encode, fits, max_u32}
use eliot_search.Protocol.Codec.RoundTrip.{framed, framed_by}

write-full :
    (maximum : ℕ) (p bytes : Bytes)
    → length bytes ≤ maximum
    → maximum < length bytes + length p
    → write maximum p bytes calm ≡ err frame_too_large
unfolding write ◌>>=◌
write-full maximum p bytes h full =
    rw (lt→ltb (maximum - length bytes) (length p) (omega arith)) refl

write-room :
    (maximum : ℕ) (p bytes : Bytes)
    → length bytes + length p ≤ maximum
    → write maximum p bytes calm ≡ ok (bytes ++ p, calm)
unfolding write ◌>>=◌
write-room maximum p bytes room = rw (le→ltb (maximum - length bytes) (length p) (omega arith)) refl

write_pieces-room :
    (maximum : ℕ) (ps : List Bytes) (bytes : Bytes)
    → length bytes + length (concat ps) ≤ maximum
    → write_pieces maximum ps bytes calm ≡ ok (bytes ++ concat ps, calm)
unfolding write_pieces ◌>>=◌
write_pieces-room maximum [] bytes h = ap (λ b. ok (b, calm)) (sym (append-nil bytes))
write_pieces-room maximum (p ∷ ps) bytes h =
    let here : length bytes + length p ≤ maximum = omega (arith, length-append p (concat ps)) in
    let rest : length (bytes ++ p) + length (concat ps) ≤ maximum =
      omega (arith, length-append p (concat ps), length-append bytes p) in
    ap (λ r. continue r (λ b. write_pieces maximum ps b)) (write-room maximum p bytes here)
    ∙ (write_pieces-room maximum ps (bytes ++ p) rest
        ∙ ap (λ b. ok (b, calm)) (append_assoc bytes p (concat ps)))

write_pieces-full :
    (maximum : ℕ) (ps : List Bytes) (bytes : Bytes)
    → length bytes ≤ maximum
    → maximum < length bytes + length (concat ps)
    → write_pieces maximum ps bytes calm ≡ err frame_too_large
unfolding write_pieces ◌>>=◌
write_pieces-full maximum [] bytes h full = absurd (omega arith)
write_pieces-full maximum (p ∷ ps) bytes h full =
    elim (Bool-cases (leb (length bytes + length p) maximum)) [
      | inl room ↦
          let here : length bytes + length p ≤ maximum = ground arith in
          ap (λ r. continue r (λ b. write_pieces maximum ps b)) (write-room maximum p bytes here)
          ∙ write_pieces-full maximum ps (bytes ++ p) (omega (arith, length-append bytes p))
              (omega (arith, length-append bytes p, length-append p (concat ps)))
      | inr over ↦
          ap (λ r. continue r (λ b. write_pieces maximum ps b))
            (write-full maximum p bytes h (ground arith))
    ]

count_pieces_lem :
    (ps : List Bytes) (len : ℕ)
    → len ≤ max_body_bytes
    → count_pieces ps len ≡ (
        if leb (len + length (concat ps)) max_body_bytes
        then some (len + length (concat ps))
        else none)
unfolding count_pieces
count_pieces_lem [] len h = ground arith
count_pieces_lem (p ∷ ps) len h =
    let joined : len + length (p ++ concat ps) ≡ (len + length p) + length (concat ps) =
      omega (arith, length-append p (concat ps)) in
    elim (Bool-cases (ltb (max_body_bytes - len) (length p))) [
      | inl over ↦
          let large : max_body_bytes < len + length (p ++ concat ps) = ground (arith, joined) in
          rw (over, lt→leb (len + length (p ++ concat ps)) max_body_bytes large) refl
      | inr room ↦ rw (room, joined) (count_pieces_lem ps (len + length p) (ground arith))
    ]

module _ {ℓ} {A : Type ℓ} (pieces : A → List Bytes) (completes : A → Bool) (value : A) where
  encode-room :
      completes value ≡ true
      → length (concat (pieces value)) ≤ max_body_bytes
      → encode pieces completes value max_frame_bytes calm
        ≡ ok (framed (concat (pieces value)), calm)
  unfolding encode ◌>>=◌
  encode-room done room =
      let body : Bytes = concat (pieces value) in
      let short : ltb max_u32 (length (zeros 4 ++ body) - 4) ≡ false =
        le→ltb max_u32 (length (zeros 4 ++ body) - 4)
          (omega (arith, length-append (zeros 4) body)) in
      rw (write_pieces-room max_frame_bytes (pieces value) (zeros 4) (omega arith), done, short)
        (ap (λ b. ok (b, calm)) (framed_by (zeros 4 ++ body) body refl))

  encode-full :
      max_body_bytes < length (concat (pieces value))
      → encode pieces completes value max_frame_bytes calm ≡ err frame_too_large
  unfolding encode ◌>>=◌
  encode-full over =
      rw (write_pieces-full max_frame_bytes (pieces value) (zeros 4) (omega arith) (omega arith))
        refl

-- Undisturbed, for a value that the serializer completes: `fits` says whether its text is within the
-- ceiling of a body, and `encode` at the ceiling of a frame then writes the frame of the text, and
-- otherwise refuses it.
pub fits-encode {ℓ} :
    {A : Type ℓ} (pieces : A → List Bytes) (completes : A → Bool) (value : A)
    → completes value ≡ true
    → (fits pieces completes value ≡ ok (leb (length (concat (pieces value))) max_body_bytes))
      × (encode pieces completes value max_frame_bytes calm ≡ (
          if leb (length (concat (pieces value))) max_body_bytes
          then ok (framed (concat (pieces value)), calm)
          else err frame_too_large))
unfolding fits
fits-encode pieces completes value done =
    let counted = count_pieces_lem (pieces value) 0 (omega arith) in
    let same : 0 + length (concat (pieces value)) ≡ length (concat (pieces value)) = omega arith in
    elim (Bool-cases (leb (length (concat (pieces value))) max_body_bytes)) [
      | inl room ↦ (
        rw (counted, same, room, done, fits) refl,
        rw room (encode-room pieces completes value done (ground arith)),
      )
      | inr over ↦ (
        rw (counted, same, over, fits) refl,
        rw over (encode-full pieces completes value (ground arith)),
      )
    ]
