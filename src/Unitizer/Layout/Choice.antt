-- ===== src/Unitizer/Layout/Choice.antt =====
-- The end that is chosen for a unit is a boundary between characters.
use eliot_search.Prelude.{
  ℕ, zero, suc, ◌+◌, ◌-◌, ◌≤◌, ◌<◌, min, ◌≡◌, ◌⊎◌, inl, inr, refl, sym, subst, true, ◌&&◌, Option,
  none, some, List, arith, Bytes, length, get_elem?, All, All-get_elem?, leb, ◌==◌,
}
use eliot_search.Prelude.Words.{checked_add-eq}
use eliot_search.Exec.{Exec}
use eliot_search.Exec.Ensures.{
  Ensures, Ensures-pure, Ensures-ok_or, Ensures-if, Ensures-bind, Ensures-then, Ensures-refuse_if,
}
use eliot_search.Utf8.{is_char_boundary}
use eliot_search.Utf8.Boundary.{is_char_boundary→IsFront}
use eliot_search.Materializer.Scan.{LineSpan}
use eliot_search.Unitizer.Errors.{E}
use eliot_search.Unitizer.Layout.{
  descend, ascend, climb, choose_character, line_within, line_before, line_behind, or_else,
  choose_end,
}
use eliot_search.Unitizer.Layout.Boundaries.{IsBoundary, IsBoundary-end}

descend_stops :
    (text : Bytes) (start n : ℕ)
    → (descend text start n ≤ start) ⊎ (is_char_boundary text (descend text start n) ≡ true)
unfolding descend
descend_stops text start zero = inl (omega arith)
descend_stops text start (suc n) = ground (arith, descend_stops text start n)

-- The rounds are enough: the loop ends by its test.
ascend_stops :
    (text : Bytes) (hard rounds end : ℕ)
    → hard < end + rounds
    → (hard < ascend text hard rounds end)
      ⊎ (is_char_boundary text (ascend text hard rounds end) ≡ true)
unfolding ascend
ascend_stops text hard zero end h = inl (omega arith)
ascend_stops text hard (suc rounds) end h = ground (arith, ascend_stops text hard rounds (end + 1))

module _ (text : Bytes) (start hard : ℕ) (fits : hard ≤ length text) where
  abbrev Stops : ℕ → Type 0
  Stops end = (end ≤ start) ⊎ (hard < end) ⊎ (is_char_boundary text end ≡ true)

  climb-Ensures :
      (end : ℕ)
      → (end ≤ start) ⊎ (is_char_boundary text end ≡ true)
      → Ensures Stops (climb text start hard end)
  unfolding climb
  climb-Ensures end h =
      Ensures-if (leb end start) _ _
        (λ low. Ensures-bind _ _ (Ensures-ok_or _ _ (checked_add-eq start 1)) λ next at.
          Ensures-pure _ (inr (ascend_stops text hard (hard + 1 - next) next (omega arith))))
        (λ high. Ensures-pure end (ground arith))

  choose_character-Ensures :
      (preferred : ℕ) → Ensures (IsBoundary text) (choose_character text start preferred hard)
  unfolding choose_character
  choose_character-Ensures preferred =
      Ensures-bind _ _ (climb-Ensures _ (descend_stops text start preferred)) λ end stops.
        Ensures-refuse_if _ _ _ λ accepted. Ensures-pure end (record {
          inside = ground arith;
          front = is_char_boundary→IsFront text end (ground arith) (ground arith);
        })

or_else-Ensures :
    {P : ℕ → Type 0} (o : Option ℕ) (m : Exec E ℕ)
    → ((end : ℕ) → o ≡ some end → P end)
    → Ensures P m
    → Ensures P (or_else o m)
or_else-Ensures none m h k = k
or_else-Ensures (some end) m h k = Ensures-pure end (h end refl)

line_within-some :
    (hard : ℕ) (o : Option LineSpan) (end : ℕ)
    → line_within hard o ≡ some end
    → (l : LineSpan) × (o ≡ some l) × (end ≡ l.source_end)
line_within-some hard none end h = absurd (cc)
line_within-some hard (some l) end h = (l, refl, ground arith)

line_behind-some :
    (start : ℕ) (o : Option LineSpan) (end : ℕ)
    → line_behind start o ≡ some end
    → (l : LineSpan) × (o ≡ some l) × (end ≡ l.source_end)
line_behind-some start none end h = absurd (cc)
line_behind-some start (some l) end h = (l, refl, ground arith)

module _ (text : Bytes) (lines : List LineSpan)
    (ends : All (λ (l : LineSpan). IsBoundary text l.source_end) lines) where
  line_at :
      (i : ℕ) (l : LineSpan) (end : ℕ)
      → get_elem? lines i ≡ some l
      → end ≡ l.source_end
      → IsBoundary text end
  line_at i l end e at =
      subst (IsBoundary text) (sym at)
        (All-get_elem? (λ (l : LineSpan). IsBoundary text l.source_end) lines i l ends e)

  line_before_at :
      (before : Option ℕ) (l : LineSpan) (end : ℕ)
      → line_before lines before ≡ some l
      → end ≡ l.source_end
      → IsBoundary text end
  line_before_at none l end e at = absurd (cc)
  line_before_at (some i) l end e at = line_at i l end e at

  pub choose_end-Ensures :
      (start preferred_bytes hard_bytes : ℕ)
      → Ensures (IsBoundary text) (choose_end text lines start preferred_bytes hard_bytes)
  unfolding choose_end
  choose_end-Ensures start preferred_bytes hard_bytes = Ensures-then _ _ λ preferred_end.
      Ensures-then _ _ λ hard_end.
        Ensures-if
          (min hard_end (length text) == length text && leb (length text - start) preferred_bytes) _
          _ (λ whole. Ensures-pure _ (IsBoundary-end text))
          λ part.
            or_else-Ensures _ _
              (λ end found.
                let (l, e, at) = line_behind-some start _ end found in line_before_at _ l end e at)
              (or_else-Ensures _ _
                (λ end found.
                  let (l, e, at) = line_within-some _ _ end found in line_at _ l end e at)
                (choose_character-Ensures text start (min hard_end (length text)) (omega arith)
                  (min preferred_end (length text))))
