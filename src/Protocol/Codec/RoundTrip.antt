-- ===== src/Protocol/Codec/RoundTrip.antt =====
-- Frames that are written are read back.
use eliot_search.Prelude.{
  not, ◌||◌, ℕ, ◌+◌, ◌-◌, ◌≤◌, ◌<◌, ◌≡◌, refl, sym, ap, ap₂, ◌∙◌, subst, Bool, false, Option, some,
  List, [], ◌∷◌, ◌++◌, append-nil, append_assoc, arith, Bytes, length, take, drop, length-append,
  take-length, drop-length, le→ltb, le→leb, ◌==◌,
}
use eliot_search.Prelude.Words.{
  checked_add, to_le_bytes, from_le_bytes, length-to_le_bytes, from_le_bytes-to_le_bytes,
}
use eliot_search.Exec.{ok, Env, ◌>>=◌}
use eliot_search.Exec.Ensures.{
  Ensures, Ensures-pure, Ensures-bind, Ensures-then, Ensures-refuse_if, Ensures-weaken,
}
use eliot_search.Protocol.Buffer.{zeros, copy_into}
use eliot_search.Protocol.Buffer.Fragments.{concat}
use eliot_search.Protocol.Codec.{max_u32, is_length, write, write_pieces, encode, decode}

-- The frame of a body.
abbrev pub framed : Bytes → Bytes
framed body = to_le_bytes 4 (length body) ++ body

write-Ensures :
    (maximum : ℕ) (p bytes : Bytes)
    → length bytes ≤ maximum
    → Ensures (λ out. (out ≡ bytes ++ p) × (length out ≤ maximum)) (write maximum p bytes)
unfolding write
write-Ensures maximum p bytes h =
    Ensures-refuse_if _ _ _
      λ room. Ensures-then _ _ λ _. Ensures-pure _ (refl, ground (arith, length-append bytes p))

write_pieces-Ensures :
    (maximum : ℕ) (ps : List Bytes) (bytes : Bytes)
    → length bytes ≤ maximum
    → Ensures
        (λ out. (out ≡ bytes ++ concat ps) × (length out ≤ maximum))
        (write_pieces maximum ps bytes)
unfolding write_pieces
write_pieces-Ensures maximum [] bytes h = Ensures-pure bytes (sym (append-nil bytes), h)
write_pieces-Ensures maximum (p ∷ ps) bytes h =
    Ensures-bind _ _ (write-Ensures maximum p bytes h) λ out found.
      Ensures-weaken _ (write_pieces-Ensures maximum ps out (found.1)) λ all last.
        (last.0 ∙ (ap (λ l. l ++ concat ps) found.0 ∙ append_assoc bytes p (concat ps)), last.1)

-- The length is written over the zeros in front of the body.
pub framed_by :
    (out body : Bytes)
    → out ≡ zeros 4 ++ body
    → copy_into out 0 (to_le_bytes 4 (length out - 4)) ≡ framed body
unfolding copy_into
framed_by out body e =
    let size : length out - 4 ≡ length body =
      omega (arith, ap (λ (l : Bytes). length l) e, length-append (zeros 4) body) in
    let skip : 0 + length (to_le_bytes 4 (length out - 4)) ≡ 4 =
      omega (arith, length-to_le_bytes 4 (length out - 4)) in
    ap₂ (λ n l. to_le_bytes 4 n ++ l) size (ap₂ (λ k l. drop k l) skip e)

module _ {ℓ} {A : Type ℓ} (pieces : A → List Bytes) (completes : A → Bool) where
  encode-Ensures :
      (value : A) (maximum : ℕ)
      → 4 ≤ maximum
      → Ensures
          (λ frame.
            (frame ≡ framed (concat (pieces value)))
            × (length (concat (pieces value)) ≤ max_u32)
            × (length (concat (pieces value)) + 4 ≤ maximum))
          (encode pieces completes value maximum)
  unfolding encode
  encode-Ensures value maximum room = Ensures-then _ _ λ _.
      Ensures-bind _ _ (write_pieces-Ensures maximum (pieces value) (zeros 4) (omega arith))
        λ out found. Ensures-refuse_if _ _ _ λ _. Ensures-refuse_if _ _ _ λ short.
          let body : Bytes = concat (pieces value) in
          let size : length out ≡ 4 + length body =
            ap (λ (l : Bytes). length l) (found.0) ∙ length-append (zeros 4) body in
          Ensures-pure _
            (framed_by out body (found.0), ground (arith, size), omega (arith, size, found.1))

pub take_word : (body : Bytes) → take 4 (framed body) ≡ to_le_bytes 4 (length body)
take_word body =
    ap (λ n. take n (framed body)) (sym (length-to_le_bytes 4 (length body)))
    ∙ take-length (to_le_bytes 4 (length body)) body

drop_word : (body : Bytes) → drop 4 (framed body) ≡ body
drop_word body =
    ap (λ n. drop n (framed body)) (sym (length-to_le_bytes 4 (length body)))
    ∙ drop-length (to_le_bytes 4 (length body)) body

pub length-framed : (body : Bytes) → length (framed body) ≡ 4 + length body
length-framed body =
    omega
      (arith, length-append (to_le_bytes 4 (length body)) body, length-to_le_bytes 4 (length body))

pub decode-framed {ℓ} :
    {A : Type ℓ} (from_slice : Bytes → Option A) (body : Bytes) (maximum : ℕ) (other : Env)
    (value : A)
    → 0 < length body
    → length body ≤ max_u32
    → length body + 4 ≤ maximum
    → from_slice body ≡ some value
    → decode from_slice (framed body) maximum other ≡ ok (value, other)
unfolding decode ◌>>=◌
decode-framed from_slice body maximum other value some_body word inside reads =
    let count : from_le_bytes (to_le_bytes 4 (length body)) ≡ length body =
      from_le_bytes-to_le_bytes 4 (length body) (omega arith) in
    let good : ((length body == 0)
          || not (is_length (checked_add (length body) 4) (length (framed body))))
        ≡ false =
      ground (arith, length-framed body) in
    rw
      (
        le→ltb maximum (length (framed body)) (omega (arith, length-framed body)),
        le→leb 4 (length (framed body)) (omega (arith, length-framed body)),
        take_word body,
        count,
        drop_word body,
        reads,
        good,
      )
      refl

-- A frame that was written is read as what is read of its text.
pub decode-written {ℓ κ} :
    {A : Type ℓ} {S : Type κ} (pieces : A → List Bytes) (completes : A → Bool)
    (from_slice : Bytes → Option S) (value : A) (shape : S) (maximum : ℕ) (env env' other : Env)
    (frame : Bytes)
    → 4 ≤ maximum
    → from_slice (concat (pieces value)) ≡ some shape
    → 0 < length (concat (pieces value))
    → encode pieces completes value maximum env ≡ ok (frame, env')
    → decode from_slice frame maximum other ≡ ok (shape, other)
decode-written pieces completes from_slice value shape maximum env env' other frame room reads body
      h =
    let (same, word, inside) =
      (encode-Ensures pieces completes value maximum room).at env frame env' h in
    subst (λ f. decode from_slice f maximum other ≡ ok (shape, other)) (sym same)
      (decode-framed from_slice (concat (pieces value)) maximum other shape body word inside reads)

-- A frame that was written is read back by a serializer that reads what it wrote.
pub decode-encode {ℓ} :
    {A : Type ℓ} (pieces : A → List Bytes) (completes : A → Bool) (from_slice : Bytes → Option A)
    (value : A) (maximum : ℕ) (env env' other : Env) (frame : Bytes)
    → 4 ≤ maximum
    → from_slice (concat (pieces value)) ≡ some value
    → 0 < length (concat (pieces value))
    → encode pieces completes value maximum env ≡ ok (frame, env')
    → decode from_slice frame maximum other ≡ ok (value, other)
decode-encode pieces completes from_slice value maximum env env' other frame room reads body h =
    decode-written pieces completes from_slice value value maximum env env' other frame room reads
      body h
