-- ===== src/Protocol/Buffer/Pushes.antt =====
-- What one push makes of a buffer.
use eliot_search.Prelude.{
  ℕ, ◌+◌, ◌-◌, ◌≤◌, ◌<◌, ◌≡◌, sym, ap, ap₂, ◌∙◌, subst, min, true, false, [], ◌++◌, append-nil,
  append_assoc, arith, Bytes, length, take, drop, take_all, length-take, inl, inr, Bool-cases,
  lt→ltb, length-append, take-append-drop, ltb, ◌==◌,
}
use eliot_search.Prelude.Words.{max_u64}
use eliot_search.Exec.{Result, ok}
use eliot_search.Protocol.{ProtocolError}
use eliot_search.Protocol.Buffer.{FrameBuffer, zeros, fill_prefix, open_body, received, push}
use eliot_search.Protocol.Buffer.Received.{
  accept, started_with, holding, copy_into-zeros, accept-short, prefixed,
}
use eliot_search.Protocol.Buffer.Bodies.{Agrees, open_body-Agrees, push-open-Agrees}

same_start :
    (maximum : ℕ) {n n' u u' : ℕ} {p p' : Bytes}
    → n ≡ n'
    → p ≡ p'
    → u ≡ u'
    → ◌≡◌ {A = Result ProtocolError ℕ × FrameBuffer}
        (ok n, record { prefix = p; prefix_used = u; bytes = []; used = 0; maximum = maximum })
        (ok n', record { prefix = p'; prefix_used = u'; bytes = []; used = 0; maximum = maximum })
same_start maximum hn hp hu = cc

push-start-short :
    (maximum : ℕ) (bytes input : Bytes)
    → length bytes + length input < 4
    → push true input (started_with maximum bytes)
      ≡ (ok (length (bytes ++ input) - length bytes), started_with maximum (bytes ++ input))
unfolding push fill_prefix
push-start-short maximum bytes input short =
    let count : min (4 - length bytes) (length input) ≡ length input = omega arith in
    let unfilled : ((length bytes + length input) == 4) ≡ false = ground arith in
    let all : take (length input) input ≡ input = take_all (length input) input (omega arith) in
    let left : (4 - length bytes) - length (take (length input) input)
        ≡ 4 - length (bytes ++ input) =
      omega (arith, length-append bytes input, length-take (length input) input) in
    rw (lt→ltb (length bytes) 4 (omega arith), count, unfilled)
      (same_start maximum (omega (arith, length-append bytes input))
        (copy_into-zeros bytes (take (length input) input) (4 - length bytes)
          ∙ ap₂ (λ l n. (bytes ++ l) ++ zeros n) all left)
        (sym (length-append bytes input)))

push-start-full :
    (maximum : ℕ) (bytes input : Bytes)
    → length bytes < 4
    → 4 ≤ length bytes + length input
    → push true input (started_with maximum bytes)
      ≡ received
          (4 - length bytes)
          input
          (prefixed maximum (bytes ++ take (4 - length bytes) input))
          (open_body true (prefixed maximum (bytes ++ take (4 - length bytes) input)))
unfolding push fill_prefix
push-start-full maximum bytes input short long =
    let count : min (4 - length bytes) (length input) ≡ 4 - length bytes = omega arith in
    let filled : length bytes + (4 - length bytes) ≡ 4 = omega arith in
    let taken : Bytes = take (4 - length bytes) input in
    let left : (4 - length bytes) - length taken ≡ 0 =
      omega (arith, length-take (4 - length bytes) input) in
    rw (lt→ltb (length bytes) 4 (omega arith), count, filled)
      (ap
        (λ p.
          received (4 - length bytes) input (prefixed maximum p)
            (open_body true (prefixed maximum p)))
        (copy_into-zeros bytes taken (4 - length bytes)
          ∙ (ap (λ n. (bytes ++ taken) ++ zeros n) left ∙ append-nil (bytes ++ taken))))

push-start-Agrees :
    (maximum : ℕ) (bytes input : Bytes)
    → maximum ≤ max_u64
    → length bytes < 4
    → Agrees maximum
        (length bytes)
        (accept maximum (bytes ++ input))
        (push true input (started_with maximum bytes))
push-start-Agrees maximum bytes input small short =
    elim (Bool-cases (ltb (length bytes + length input) 4)) [
      | inl h ↦
          let few : length bytes + length input < 4 = ground arith in
          let few' : length (bytes ++ input) < 4 = omega (arith, length-append bytes input) in
          rw (accept-short maximum (bytes ++ input) few', lt→ltb (length (bytes ++ input)) 4 few')
            (push-start-short maximum bytes input few)
      | inr h ↦
          let many : 4 ≤ length bytes + length input = ground arith in
          let count : ℕ = 4 - length bytes in
          let p : Bytes = bytes ++ take count input in
          let split : p ++ drop count input ≡ bytes ++ input =
            append_assoc bytes (take count input) (drop count input)
            ∙ ap (λ l. bytes ++ l) (take-append-drop count input) in
          let full : length p ≡ 4 =
            omega (arith, length-append bytes (take count input), length-take count input) in
          rw (push-start-full maximum bytes input short many) (
            subst
              (λ s.
                Agrees maximum (length bytes) (accept maximum s)
                  (received count input (prefixed maximum p) (open_body true (prefixed maximum p))))
              split
              (open_body-Agrees maximum count (length bytes) p input small full (omega arith)))
    ]

-- In a buffer that holds what a stream has brought so far, memory being granted, a push of more takes
-- what belongs to the first frame and no byte behind it, and refuses a declared length of zero or
-- above the ceiling: the buffer then holds the stream with the input, up to the end of its frame.
pub push-accept :
    (maximum : ℕ) (bytes input : Bytes)
    → maximum ≤ max_u64
    → accept maximum bytes ≡ ok bytes
    → Agrees maximum
        (length bytes)
        (accept maximum (bytes ++ input))
        (push true input (holding maximum bytes))
push-accept maximum bytes input small before = elim (Bool-cases (ltb (length bytes) 4)) [
  | inl h ↦ rw h (push-start-Agrees maximum bytes input small (ground arith))
  | inr h ↦ rw h (push-open-Agrees maximum bytes input (ground arith) before)
]
