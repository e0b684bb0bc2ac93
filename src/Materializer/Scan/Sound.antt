-- ===== src/Materializer/Scan/Sound.antt =====
-- The scan finds the lines of the text: whatever the environment does, and always in a calm one.
use eliot_search.Prelude.{
  ℕ, zero, suc, ◌+◌, ◌-◌, ◌≤◌, ◌≡◌, refl, sym, ap, subst, ◌∙◌, Bool, true, false, Option, none,
  some, List, [], ◌∷◌, ◌++◌, append-nil, append_assoc, arith, Bytes, length, length-append, ltb,
  if◌then◌else◌,
}
use eliot_search.Prelude.Words.{checked_add, checked_add-eq}
use eliot_search.Exec.{Env, ok, pure, ok_or, ◌>>=◌}
use eliot_search.Exec.Ensures.{
  Ensures, Ensures-pure, Ensures-ok_or, Ensures-bind, Ensures-then, Ensures-weaken,
  Ensures-refuse_if,
}
use eliot_search.Materializer.Scan.{
  MaterializationError, LineSpan, span, poll, terminator, push_line, last_line, scan_from,
  scan_lines,
}
use eliot_search.Materializer.Scan.Inventory.{spans, lines_of, Inventory, lines_of-Inventory}

-- A push appends one span, and stays within the maximum.
push_line-Ensures :
    (lines : List LineSpan) (start content_end end maximum : ℕ)
    → Ensures
        (λ ls.
          (ls ≡ lines ++ span (length lines) start content_end end ∷ []) × (length ls ≤ maximum))
        (push_line lines start content_end end maximum)
unfolding push_line
push_line-Ensures lines start content_end end maximum = Ensures-refuse_if _ _ _ λ room.
    Ensures-then _ _ λ _.
      Ensures-pure _
        (refl, ground (arith, length-append lines (span (length lines) start content_end end ∷ [])))

module _ (maximum : ℕ) where
  abbrev Finds : Bytes → ℕ → ℕ → ℕ → List LineSpan → List LineSpan → Type 0
  Finds bytes skip start index lines ls =
      (ls ≡ lines ++ spans bytes skip start index (length lines)) × (length ls ≤ maximum)

  last_line_if :
      (lines : List LineSpan) (start index : ℕ)
      → length lines ≤ maximum
      → (b : Bool)
      → Ensures
          (λ ls.
            (ls ≡ lines ++ (if b then span (length lines) start index index ∷ [] else []))
            × (length ls ≤ maximum))
          (if b then push_line lines start index index maximum else pure lines)
  last_line_if lines start index h true = push_line-Ensures lines start index index maximum
  last_line_if lines start index h false = Ensures-pure lines (sym (append-nil lines), h)

  -- Appending the found line and scanning on appends the lines of the rest.
  Finds-next :
      (bytes : Bytes) (skip start index end : ℕ) (lines ls : List LineSpan)
      → Finds bytes skip end end (lines ++ span (length lines) start index end ∷ []) ls
      → (ls
          ≡ lines
            ++ span (length lines) start index end ∷ spans bytes skip end end (length lines + 1))
        × (length ls ≤ maximum)
  Finds-next bytes skip start index end lines ls h =
      let line = span (length lines) start index end in
      let count : length (lines ++ line ∷ []) ≡ length lines + 1 =
        length-append lines (line ∷ []) ∙ (omega arith) in
      (
        h.0
            ∙ append_assoc lines (line ∷ []) _
            ∙ ap (λ k. lines ++ line ∷ spans bytes skip end end k) count,
        h.1,
      )

  abbrev Scans : Bytes → Type 0
  Scans bytes =
      (skip start index : ℕ) (lines : List LineSpan)
      → length lines ≤ maximum
      → Ensures (Finds bytes skip start index lines)
          (scan_from maximum bytes skip start index lines)

  scan_step :
      (rest : Bytes)
      → Scans rest
      → (start index : ℕ) (lines : List LineSpan) → length lines ≤ maximum
      → (o : Option ℕ)
      → Ensures
          (λ ls.
            (ls
              ≡ lines ++ elim o [
                | none ↦ spans rest 0 start (index + 1) (length lines)
                | some n ↦
                    span (length lines) start index (index + n)
                    ∷ spans rest (n - 1) (index + n) (index + n) (length lines + 1)
              ])
            × (length ls ≤ maximum))
          (elim o [
            | none ↦ scan_from maximum rest 0 start (index + 1) lines
            | some n ↦ do
              end ← ok_or (checked_add index n) MaterializationError.offset_overflow
              lines' ← push_line lines start index end maximum
              scan_from maximum rest (n - 1) end end lines'
          ])
  scan_step rest ih start index lines h none = ih 0 start (index + 1) lines h
  scan_step rest ih start index lines h (some n) =
      Ensures-bind _ _
        (Ensures-ok_or (checked_add index n) _ (λ end e. checked_add-eq index n end e))
        λ end at.
          Ensures-bind _ _ (push_line-Ensures lines start index end maximum) λ lines' pushed.
            Ensures-weaken _ (ih (n - 1) end end lines' pushed.1) λ ls found.
              subst
                (λ e.
                  (ls
                    ≡ lines
                      ++ span (length lines) start index e
                        ∷ spans rest (n - 1) e e (length lines + 1))
                  × (length ls ≤ maximum))
                at
                (Finds-next rest (n - 1) start index end lines ls
                  (subst (λ l. Finds rest (n - 1) end end l ls) pushed.0 found))

  scan_from-Ensures : (bytes : Bytes) → Scans bytes
  unfolding scan_from spans last_line
  scan_from-Ensures [] skip start index lines h = last_line_if lines start index h (ltb start index)
  scan_from-Ensures (b ∷ rest) (suc skip) start index lines h =
      scan_from-Ensures rest skip start index lines h
  scan_from-Ensures (b ∷ rest) zero start index lines h =
      Ensures-then (poll index) _
        λ _. scan_step rest (scan_from-Ensures rest) start index lines h (terminator b rest)

pub scan_lines-Ensures :
    (maximum : ℕ) (bytes : Bytes)
    → Ensures (λ ls. (ls ≡ lines_of bytes) × (length ls ≤ maximum)) (scan_lines maximum bytes)
unfolding scan_lines
scan_lines-Ensures maximum bytes =
    Ensures-bind _ _ (scan_from-Ensures maximum bytes 0 0 0 [] (omega arith))
      λ lines found. Ensures-then _ _ λ _. Ensures-pure lines found

-- Whatever the environment does: the lines that a scan returns cut the whole text into lines, each
-- behind a terminator, in order and numbered from zero, and they are no more than the maximum.
pub scan_lines-Inventory :
    (maximum : ℕ) (bytes : Bytes) (env env' : Env) (lines : List LineSpan)
    → scan_lines maximum bytes env ≡ ok (lines, env')
    → Inventory 0 0 bytes lines × (length lines ≤ maximum)
scan_lines-Inventory maximum bytes env env' lines h =
    let (same, few) = (scan_lines-Ensures maximum bytes).at env lines env' h in
    (subst (Inventory 0 0 bytes) (sym same) (lines_of-Inventory bytes), few)
