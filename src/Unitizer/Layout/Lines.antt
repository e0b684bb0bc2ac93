-- ===== src/Unitizer/Layout/Lines.antt =====
-- The lines that the searches of layout.rs for a byte position find.
use native.Mathlib.Nat.{add-zero}
use mathlib.Core.Option.{some-injective}
use eliot_search.Prelude.{
  ℕ, ◌+◌, ◌≤◌, ◌<◌, ◌≡◌, inl, inr, sym, ap, ◌∙◌, some, List, [], ◌∷◌, arith, Bytes, length,
  get_elem?, ltb, leb, ltb→le, ltb→lt, leb→lt, leb→le, Bool-cases,
}
use eliot_search.Materializer.Scan.{LineSpan}
use eliot_search.Materializer.Scan.Inventory.{Inventory}
use eliot_search.Unitizer.Layout.{partition_point}

-- The line that the search for a byte position finds holds that byte.
pub line_of_byte :
    (k start : ℕ) (bytes : Bytes) (ls : List LineSpan) (p : ℕ) (l : LineSpan)
    → Inventory k start bytes ls
    → start ≤ p
    → get_elem? ls (partition_point (λ s. leb s.source_end p) ls) ≡ some l
    → (l.line_index ≡ k + partition_point (λ s. leb s.source_end p) ls)
      × (l.source_start ≤ p)
      × (p < l.source_end)
unfolding partition_point
line_of_byte k start bytes [] p l inv h e = absurd (cc)
line_of_byte k start bytes (s ∷ ls) p l (content, mark, rest, whole, plain, ends, at, tail) h e =
    elim (Bool-cases (leb s.source_end p)) [
      | inl before ↦
          let ih =
            line_of_byte (k + 1) (start + length content + length mark) rest ls p l tail
              (omega (arith, ap (λ (s : LineSpan). s.source_end) at, leb→le _ _ before))
              (rw before at e) in
          rw before (ih.0 ∙ (omega arith), ih.1, ih.2)
      | inr found ↦
          let same : l ≡ s = sym (some-injective s l (rw found at e)) in
          rw (found, same, add-zero)
            (
              ap (λ (s : LineSpan). s.line_index) at,
              omega (arith, ap (λ (s : LineSpan). s.source_start) at),
              leb→lt _ _ found,
            )
    ]

-- The line that the search for an end finds holds the byte before it.
pub line_of_end :
    (k start : ℕ) (bytes : Bytes) (ls : List LineSpan) (p : ℕ) (l : LineSpan)
    → Inventory k start bytes ls
    → start < p
    → get_elem? ls (partition_point (λ s. ltb s.source_end p) ls) ≡ some l
    → (l.line_index ≡ k + partition_point (λ s. ltb s.source_end p) ls)
      × (l.source_start < p)
      × (p ≤ l.source_end)
unfolding partition_point
line_of_end k start bytes [] p l inv h e = absurd (cc)
line_of_end k start bytes (s ∷ ls) p l (content, mark, rest, whole, plain, ends, at, tail) h e =
    elim (Bool-cases (ltb s.source_end p)) [
      | inl before ↦
          let ih =
            line_of_end (k + 1) (start + length content + length mark) rest ls p l tail
              (omega (arith, ap (λ (s : LineSpan). s.source_end) at, ltb→lt _ _ before))
              (rw before at e) in
          rw before (ih.0 ∙ (omega arith), ih.1, ih.2)
      | inr found ↦
          let same : l ≡ s = sym (some-injective s l (rw found at e)) in
          rw (found, same, add-zero)
            (
              ap (λ (s : LineSpan). s.line_index) at,
              omega (arith, ap (λ (s : LineSpan). s.source_start) at),
              ltb→le _ _ found,
            )
    ]
