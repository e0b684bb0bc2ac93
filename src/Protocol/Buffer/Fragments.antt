-- ===== src/Protocol/Buffer/Fragments.antt =====
-- A stream is cut into fragments in any way and pushed one after another.
use eliot_search.Prelude.{
  ℕ, ◌+◌, ◌-◌, ◌≤◌, ◌<◌, ◌≡◌, refl, sym, ap, ◌∙◌, subst, min, true, List, [], ◌∷◌, ◌++◌, append-nil,
  append_assoc, arith, Bytes, length, take, drop, take_all, length-take, inl, inr, ◌⊎◌, Bool-cases,
  length-append, take-append-drop, ltb, leb,
}
use eliot_search.Prelude.Words.{from_le_bytes, max_u64}
use eliot_search.Exec.{Result, ok, err}
use eliot_search.Protocol.{ProtocolError}
use eliot_search.Protocol.Buffer.{FrameBuffer, push}
use eliot_search.Protocol.Buffer.Received.{
  declared, accept, holding, take_prefix, accept-short, accept-fits,
}
use eliot_search.Protocol.Buffer.Bodies.{Agrees}
use eliot_search.Protocol.Buffer.Pushes.{push-accept}

abbrev pub concat : List Bytes → Bytes
concat [] = []
concat (f ∷ fs) = f ++ concat fs

abbrev pub map_ok :
    (Bytes → FrameBuffer) → Result ProtocolError Bytes → Result ProtocolError FrameBuffer
map_ok f (ok w) = ok (f w)
map_ok f (err e) = err e

abbrev next :
    (FrameBuffer → Result ProtocolError FrameBuffer)
    → Result ProtocolError ℕ × FrameBuffer
    → Result ProtocolError FrameBuffer
next f (ok n, b) = f b
next f (err e, b) = err e

next-err :
    (f : FrameBuffer → Result ProtocolError FrameBuffer) (r : Result ProtocolError ℕ × FrameBuffer)
    (e : ProtocolError)
    → r.0 ≡ err e
    → next f r ≡ err e
next-err f (ok n, b) e h = absurd (cc)
next-err f (err e', b) e h = cc

Result-cases :
    (r : Result ProtocolError Bytes)
    → ((e : ProtocolError) × (r ≡ err e)) ⊎ ((w : Bytes) × (r ≡ ok w))
Result-cases (ok w) = inr (w, refl)
Result-cases (err e) = inl (e, refl)

-- The pushes of a caller that is granted memory, up to the first error.
unfoldable pub push_all : List Bytes → FrameBuffer → Result ProtocolError FrameBuffer
push_all [] b = ok b
push_all (f ∷ fs) b = next (λ b'. push_all fs b') (push true f b)

accept-long :
    (maximum : ℕ) (s : Bytes) (w : Bytes)
    → 4 ≤ length s
    → accept maximum s ≡ ok w
    → (4 < declared s) × (declared s ≤ maximum) × (w ≡ take (declared s) s)
unfolding accept
accept-long maximum s w long h = (ground arith, ground arith, ground arith)

declared-append : (s t : Bytes) → 4 ≤ length s → declared (s ++ t) ≡ declared s
declared-append s t long = ap (λ l. from_le_bytes l + 4) (take_prefix 4 s t long)

declared-take : (d : ℕ) (s : Bytes) → 4 ≤ length (take d s) → declared (take d s) ≡ declared s
declared-take d s long =
    sym (declared-append (take d s) (drop d s) long) ∙ ap (λ l. declared l) (take-append-drop d s)

take-take-append : (d : ℕ) (s t : Bytes) → take d (take d s ++ t) ≡ take d (s ++ t)
take-take-append d s t = elim (Bool-cases (leb d (length s))) [
  | inl h ↦
      let size : length (take d s) ≡ d = ground (arith, length-take d s) in
      take_prefix d (take d s) t (omega arith)
      ∙ (take_all d (take d s) (omega arith) ∙ sym (take_prefix d s t (ground arith)))
  | inr h ↦ ap (λ l. take d (l ++ t)) (take_all d s (ground arith))
]

-- What is accepted is accepted again, and stands for the stream that it comes from.
accept-again :
    (maximum : ℕ) (s t : Bytes)
    → 4 ≤ length s
    → 4 < declared s
    → declared s ≤ maximum
    → (accept maximum (take (declared s) s) ≡ ok (take (declared s) s))
      × (accept maximum (take (declared s) s ++ t) ≡ accept maximum (s ++ t))
accept-again maximum s t long some_body fits =
    let w : Bytes = take (declared s) s in
    let size : length w ≡ min (declared s) (length s) = length-take (declared s) s in
    let long' : 4 ≤ length w = omega arith in
    let same : declared w ≡ declared s = declared-take (declared s) s long' in
    let same_w : declared (w ++ t) ≡ declared s = declared-append w t long' ∙ same in
    let same_s : declared (s ++ t) ≡ declared s = declared-append s t long in
    (
      accept-fits maximum w long' (omega arith) (omega arith)
          ∙ ap ok (take_all (declared w) w (omega arith)),
      accept-fits maximum (w ++ t) (omega (arith, length-append w t)) (omega arith) (omega arith)
          ∙ (ap ok (
                ap (λ n. take n (w ++ t)) same_w
                ∙ (take-take-append (declared s) s t ∙ ap (λ n. take n (s ++ t)) (sym same_s)))
              ∙ sym (
                  accept-fits maximum (s ++ t) (omega (arith, length-append s t)) (omega arith)
                    (omega arith))),
    )

accept-ok :
    (maximum : ℕ) (s w t : Bytes)
    → accept maximum s ≡ ok w
    → (accept maximum w ≡ ok w) × (accept maximum (w ++ t) ≡ accept maximum (s ++ t))
accept-ok maximum s w t h = elim (Bool-cases (ltb (length s) 4)) [
  | inl short ↦
      let same : w ≡ s = let e = accept-short maximum s (ground arith) in cc in
      (ap (accept maximum) same ∙ (h ∙ refl), ap (λ l. accept maximum (l ++ t)) same)
  | inr long ↦
      let (some_body, fits, same) = accept-long maximum s w (ground arith) h in
      subst (λ l. (accept maximum l ≡ ok l) × (accept maximum (l ++ t) ≡ accept maximum (s ++ t)))
        (sym same) (accept-again maximum s t (ground arith) some_body fits)
]

accept-err :
    (maximum : ℕ) (s t : Bytes) (e : ProtocolError)
    → accept maximum s ≡ err e
    → accept maximum (s ++ t) ≡ err e
unfolding accept
accept-err maximum s t e h =
    let long : 4 ≤ length s = ground arith in
    let same : from_le_bytes (take 4 (s ++ t)) ≡ from_le_bytes (take 4 s) =
      ap (λ l. from_le_bytes l) (take_prefix 4 s t long) in
    ground (arith, same, length-append s t)

-- However a stream is cut: a buffer that is pushed its fragments one after another, memory being
-- granted, ends as the buffer that holds what of the whole stream belongs to its first frame, or
-- refuses what the whole stream is refused for.
pub push_all-accept :
    (maximum : ℕ) (bytes : Bytes) (fragments : List Bytes)
    → maximum ≤ max_u64
    → accept maximum bytes ≡ ok bytes
    → push_all fragments (holding maximum bytes)
      ≡ map_ok (holding maximum) (accept maximum (bytes ++ concat fragments))
unfolding push_all
push_all-accept maximum bytes [] small before = rw (append-nil bytes, before) refl
push_all-accept maximum bytes (f ∷ fs) small before =
    subst
      (λ s.
        next (λ b. push_all fs b) (push true f (holding maximum bytes))
        ≡ map_ok (holding maximum) (accept maximum s))
      (append_assoc bytes f (concat fs))
      (elim (Result-cases (accept maximum (bytes ++ f))) [
        | inl (e, h) ↦
            let failed : (push true f (holding maximum bytes)).0 ≡ err e =
              subst (λ r. Agrees maximum (length bytes) r (push true f (holding maximum bytes))) h
                (push-accept maximum bytes f small before) in
            rw (accept-err maximum (bytes ++ f) (concat fs) e h)
              (next-err (λ b. push_all fs b) (push true f (holding maximum bytes)) e failed)
        | inr (w, h) ↦
            let pushed : push true f (holding maximum bytes)
                ≡ (ok (length w - length bytes), holding maximum w) =
              subst (λ r. Agrees maximum (length bytes) r (push true f (holding maximum bytes))) h
                (push-accept maximum bytes f small before) in
            let (again, through) = accept-ok maximum (bytes ++ f) w (concat fs) h in
            rw (pushed, sym through) (push_all-accept maximum w fs small again)
      ])
