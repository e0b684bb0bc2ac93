-- ===== src/Unitizer/Decode/Walker.antt =====
-- The decoder's walk over the lines meets the inventory of the text, line by line.
use mathlib.Core.Option.{some-injective}
use eliot_search.Prelude.{
  ℕ, zero, suc, ◌+◌, ◌-◌, ◌≤◌, ◌<◌, ◌≡◌, ◌⊎◌, inl, inr, refl, sym, ap, ap₂, ◌∙◌, Bool, true, false,
  Option, none, some, List, [], ◌∷◌, ◌++◌, append_assoc, arith, Bytes, length, length-append,
  length-drop, drop, drop_all, drop-drop, ◌==◌, Bool-cases,
}
use eliot_search.Prelude.Words.{checked_add-eq}
use eliot_search.Exec.Ensures.{
  Ensures, Ensures-pure, Ensures-ok_or, Ensures-found, Ensures-if, Ensures-bind, Ensures-then,
  Ensures-refuse_if, Ensures-weaken,
}
use eliot_search.Materializer.Scan.{LineSpan, span}
use eliot_search.Materializer.Scan.Inventory.{spans, lines_of}
use eliot_search.Unitizer.Decode.{Line, Lines, next_line, seek}
use eliot_search.Unitizer.Decode.Walk.{spans_done, walk-Ensures}

abbrev pub line_of : LineSpan → Line
line_of l = record { start = l.source_start; end = l.source_end; index = l.line_index }

-- The lines from `lines` on are those of `rest`.
pub record Walks (text : Bytes) (lines : Lines) (rest : List LineSpan) : Type 0 where
  pub same : lines.bytes ≡ text
  pub inside : lines.offset ≤ length text
  pub remaining : rest ≡ spans (drop lines.offset text) 0 lines.offset lines.offset lines.index

-- What a call of `next` returns at a place with the lines `rest`.
pub data Next (text : Bytes) (lines : Lines) (rest : List LineSpan) (r : Option Line × Lines)
    : Type 0 where
  done : r.0 ≡ none → rest ≡ [] → Next text lines rest r
  found :
      (l : LineSpan) (ls : List LineSpan)
      → r.0 ≡ some (line_of l)
      → rest ≡ l ∷ ls
      → Walks text r.1 ls
      → l.source_start ≡ lines.offset
      → l.line_index ≡ lines.index
      → r.1.offset ≡ l.source_end
      → r.1.index ≡ lines.index + 1
      → l.source_start < l.source_end
      → Next text lines rest r

pub next_line-Ensures :
    (text : Bytes) (maximum : ℕ) (lines : Lines) (rest : List LineSpan)
    → Walks text lines rest
    → Ensures (Next text lines rest) (next_line maximum lines)
unfolding next_line
next_line-Ensures text maximum lines rest w = Ensures-then _ _ λ _.
    Ensures-if (lines.offset == length lines.bytes) _ _
      (λ end. Ensures-pure _ (
        done refl (
          w.remaining
          ∙ ap (λ b. spans b 0 lines.offset lines.offset lines.index)
              (drop_all lines.offset text (ground (arith, size)))
          ∙ spans_done lines.offset lines.index)))
      λ more. Ensures-refuse_if _ _ _ λ room.
        Ensures-bind _ _
          (walk-Ensures (drop lines.offset lines.bytes) lines.offset lines.offset lines.index
            (omega arith)
            (inr (λ e. absurd (
              ground (
                arith,
                size,
                ap (λ (b : Bytes). length b) e,
                length-drop lines.offset lines.bytes,
              )))))
          λ end (content_end, begins, low, grows, high).
            Ensures-bind _ _ (Ensures-ok_or _ _ (checked_add-eq lines.index 1)) λ index counted.
              Ensures-pure _ (
                found (span lines.index lines.offset content_end end)
                  (spans (drop (end - lines.offset) (drop lines.offset lines.bytes)) 0 end end
                    (lines.index + 1))
                  refl
                  (w.remaining
                    ∙ ap (λ b. spans (drop lines.offset b) 0 lines.offset lines.offset lines.index)
                        (sym w.same)
                    ∙ begins)
                  (record {
                    same = w.same;
                    inside = omega (arith, size, length-drop lines.offset lines.bytes);
                    remaining =
                        ap₂ (λ b k. spans b 0 end end k)
                          (drop-drop lines.offset (end - lines.offset) end lines.bytes (omega arith)
                            ∙ ap (drop end) w.same)
                          (sym counted);
                  })
                  refl refl refl counted grows)
  where
    size : length lines.bytes ≡ length text
    size = ap (λ (b : Bytes). length b) w.same

-- `line` is one of the text's lines and `lines` stands behind it.
pub record OnLine (text : Bytes) (line : Line) (lines : Lines) : Type 0 where
  pub before : List LineSpan
  pub here : LineSpan
  pub after : List LineSpan
  pub whole : lines_of text ≡ before ++ here ∷ after
  pub counted : length before ≡ here.line_index
  pub is_here : line ≡ line_of here
  pub walks : Walks text lines after
  pub offset : lines.offset ≡ here.source_end
  pub index : lines.index ≡ here.line_index + 1

OnLine-Next :
    (text : Bytes) (line line' : Line) (lines : Lines) (r : Option Line × Lines)
    → (on : OnLine text line lines) → Next text lines on.after r
    → r.0 ≡ some line'
    → OnLine text line' r.1 × (line'.start ≡ line.end) × (lines.offset < r.1.offset)
OnLine-Next text line line' lines r on (done e f) some_ = absurd (cc)
OnLine-Next text line line' lines r on (found l ls e f w start index end next grows) some_ =
    let here : line' ≡ line_of l = some-injective line' (line_of l) (sym some_ ∙ e) in
    (
      record {
        before = on.before ++ on.here ∷ [];
        here = l;
        after = ls;
        whole =
            on.whole
            ∙ ap (λ a. on.before ++ on.here ∷ a) f
            ∙ sym (append_assoc on.before (on.here ∷ []) (l ∷ ls));
        counted = omega (arith, length-append on.before (on.here ∷ []), on.counted, on.index);
        is_here = here;
        walks = w;
        offset = end;
        index = omega arith;
      },
      ap (λ (x : Line). x.start) here
          ∙ start
          ∙ on.offset
          ∙ sym (ap (λ (x : Line). x.end) on.is_here),
      omega arith,
    )

-- The search ends on a line that the test does not pass; if it moved, the line begins where the
-- test still passed.
pub seek-Ensures :
    (text : Bytes) (maximum : ℕ) (test : ℕ → Bool) (rounds : ℕ) (line : Line) (lines : Lines)
    → OnLine text line lines
    → length text < lines.offset + rounds
    → Ensures
        (λ r.
          OnLine text r.0 r.1
          × (test r.0.end ≡ false)
          × ((r.0.start ≡ line.start) ⊎ (test r.0.start ≡ true)))
        (seek maximum test rounds line lines)
unfolding seek
seek-Ensures text maximum test zero line lines on h = absurd (omega (arith, on.walks.inside))
seek-Ensures text maximum test (suc rounds) line lines on h = elim (Bool-cases (test line.end)) [
  | inr stop ↦ rw (stop, seek) (Ensures-pure (line, lines) (on, stop, inl refl))
  | inl go ↦
      rw (go, seek)
        (Ensures-bind _ _ (next_line-Ensures text maximum lines on.after on.walks) λ r next.
          Ensures-bind _ _ (Ensures-found r.0 _) λ line' some_.
            let moved = OnLine-Next text line line' lines r on next some_ in
            Ensures-weaken _
              (seek-Ensures text maximum test rounds line' r.1 moved.0 (omega (arith, moved.2)))
              λ r' reached. (
                reached.0,
                reached.1,
                elim reached.2 [ inl s ↦ inr (ap test (s ∙ moved.1) ∙ go) | inr t ↦ inr t ],
              ))
]
