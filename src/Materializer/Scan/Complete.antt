-- ===== src/Materializer/Scan/Complete.antt =====
-- In a calm environment the scan succeeds exactly when the lines of the text are not too many.
use eliot_search.Prelude.{
  ℕ, zero, suc, ◌+◌, ◌-◌, ◌%◌, ◌≤◌, ◌≡◌, inl, inr, refl, ap, ◌∙◌, Bool, true, false, Option, none,
  some, List, [], ◌∷◌, ◌++◌, append-nil, append_assoc, arith, Bytes, length, length-append, ltb,
  leb, lt→leb, le→leb, leb→le, leb→lt, ◌==◌, if◌then◌else◌, Bool-cases,
}
use eliot_search.Prelude.Words.{max_u64, checked_add, checked_add-some}
use eliot_search.Exec.{Env, Result, ok, err, Exec, calm, pure, ok_or, ◌>>=◌}
use eliot_search.Materializer.Scan.{
  E, MaterializationError, LineSpan, span, check, poll, terminator, push_line, last_line, scan_from,
  scan_lines,
}
use eliot_search.Materializer.Scan.Inventory.{spans, lines_of, Lies, terminator-Lies}

pub poll-calm : (index : ℕ) → poll index calm ≡ ok (tt, calm)
unfolding poll ◌>>=◌
poll-calm index = go (index % 1024 == 0)
  where
    go : (b : Bool) → (if b then check else pure tt) calm ≡ ok (tt, calm)
    go true = refl
    go false = refl

-- The lines that the rest of a round finds.
abbrev spans_on : Bytes → ℕ → ℕ → ℕ → Option ℕ → List LineSpan
spans_on rest start index k o = elim o [
  | none ↦ spans rest 0 start (index + 1) k
  | some n ↦ span k start index (index + n) ∷ spans rest (n - 1) (index + n) (index + n) (k + 1)
]

module _ (maximum : ℕ) where
  abbrev Outcome : Type 0
  Outcome = Result E (List LineSpan × Env)

  abbrev pub outcome : List LineSpan → Outcome
  outcome ls =
      if leb (length ls) maximum then ok (ls, calm) else err MaterializationError.too_many_lines

  push_line-calm :
      (lines : List LineSpan) (start content_end end : ℕ)
      → push_line lines start content_end end maximum calm
        ≡ outcome (lines ++ span (length lines) start content_end end ∷ [])
  unfolding push_line ◌>>=◌
  push_line-calm lines start content_end end =
      ground (arith, length-append lines (span (length lines) start content_end end ∷ []))

  last_line-calm :
      (lines : List LineSpan) (skip start index : ℕ)
      → length lines ≤ maximum
      → last_line maximum lines start index calm
        ≡ outcome (lines ++ spans [] skip start index (length lines))
  unfolding last_line spans pure
  last_line-calm lines skip start index h = elim (Bool-cases (ltb start index)) [
    | inl t ↦ rw t (push_line-calm lines start index index)
    | inr f ↦ rw (f, append-nil, le→leb (length lines) maximum h)
  ]

  abbrev Completes : Bytes → Type 0
  Completes bytes =
      (skip start index : ℕ) (lines : List LineSpan)
      → length lines ≤ maximum
      → index + length bytes ≤ max_u64 + skip
      → scan_from maximum bytes skip start index lines calm
        ≡ outcome (lines ++ spans bytes skip start index (length lines))

  -- A round of the scan behind the look at the environment.
  abbrev scan_on : Bytes → ℕ → ℕ → List LineSpan → Option ℕ → Exec E (List LineSpan)
  scan_on rest start index lines o = elim o [
    | none ↦ scan_from maximum rest 0 start (index + 1) lines
    | some n ↦ do
      end ← ok_or (checked_add index n) MaterializationError.offset_overflow
      lines' ← push_line lines start index end maximum
      scan_from maximum rest (n - 1) end end lines'
  ]

  scan_step_calm :
      (rest : Bytes)
      → Completes rest
      → (start index : ℕ) (lines : List LineSpan) → length lines ≤ maximum
      → index + suc (length rest) ≤ max_u64
      → (o : Option ℕ) → Lies rest o
      → scan_on rest start index lines o calm
        ≡ outcome (lines ++ spans_on rest start index (length lines) o)
  unfolding ◌>>=◌
  scan_step_calm rest ih start index lines h fits none in_text =
      ih 0 start (index + 1) lines h (omega arith)
  scan_step_calm rest ih start index lines h fits (some n) in_text =
      let line = span (length lines) start index (index + n) in
      let count : length (lines ++ line ∷ []) ≡ length lines + 1 =
        length-append lines (line ∷ []) ∙ (omega arith) in
      let total : length
            (lines ++ line ∷ spans rest (n - 1) (index + n) (index + n) (length lines + 1))
          ≡ length lines
            + suc (length (spans rest (n - 1) (index + n) (index + n) (length lines + 1))) =
        length-append lines
          (line ∷ spans rest (n - 1) (index + n) (index + n) (length lines + 1)) in
      elim (Bool-cases (leb (length (lines ++ line ∷ [])) maximum)) [
        | inl room ↦
            rw
              (
                checked_add-some index n (omega arith),
                push_line-calm lines start index (index + n),
                room,
              )
              (ih (n - 1) (index + n) (index + n) (lines ++ line ∷ []) (leb→le _ _ room)
                  (omega arith)
                ∙ ap outcome (
                    append_assoc lines (line ∷ []) _
                    ∙ ap (λ k. lines ++ line ∷ spans rest (n - 1) (index + n) (index + n) k) count))
        | inr full ↦
            rw
              (
                checked_add-some index n (omega arith),
                push_line-calm lines start index (index + n),
                full,
              )
              (rw
                (lt→leb
                  (length
                    (lines ++ line ∷ spans rest (n - 1) (index + n) (index + n) (length lines + 1)))
                  maximum (omega (arith, total, count, leb→lt _ _ full)))
                refl)
      ]

  scan_from-calm : (bytes : Bytes) → Completes bytes
  unfolding scan_from spans ◌>>=◌
  scan_from-calm [] skip start index lines h fits = last_line-calm lines skip start index h
  scan_from-calm (b ∷ rest) (suc skip) start index lines h fits =
      scan_from-calm rest skip start index lines h (omega arith)
  scan_from-calm (b ∷ rest) zero start index lines h fits = rw poll-calm (
      scan_step_calm rest (scan_from-calm rest) start index lines h (omega arith)
        (terminator b rest) (terminator-Lies b rest))

-- In a calm environment, on a text that fits a word, the scan returns the lines of the text if they
-- are at most the maximum, and `too_many_lines` otherwise.
pub scan_lines-calm :
    (maximum : ℕ) (bytes : Bytes)
    → length bytes ≤ max_u64
    → scan_lines maximum bytes calm ≡ (
        if leb (length (lines_of bytes)) maximum
        then ok (lines_of bytes, calm)
        else err MaterializationError.too_many_lines)
unfolding scan_lines ◌>>=◌ check
scan_lines-calm maximum bytes fits =
    rw (scan_from-calm maximum bytes 0 0 0 [] (omega arith) (omega arith))
      (elim (Bool-cases (leb (length (lines_of bytes)) maximum)) [ inl t ↦ rw t | inr f ↦ rw f ])
