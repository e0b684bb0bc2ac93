-- ===== src/Unitizer/Layout/Boundaries.antt =====
-- The ends of the lines of a text are boundaries between characters.
use eliot_search.Prelude.{
  ℕ, ◌+◌, ◌-◌, ◌≤◌, ◌≡◌, sym, subst, List, [], ◌∷◌, ◌++◌, append_assoc, arith, Bytes, length, take,
  drop, length-append, drop-length, drop_all, drop-drop, take-append-drop, All,
}
use eliot_search.Utf8.Boundary.{IsText, IsFront, IsText-cut, IsText-ascii, IsText-IsFront}
use eliot_search.Materializer.Scan.{LineSpan, line_feed, carriage_return}
use eliot_search.Materializer.Scan.Inventory.{
  Ends, crlf, lf, cr, eof, Inventory, lines_of, lines_of-Inventory,
}

-- A position in a text at which no character is cut.
pub record IsBoundary (text : Bytes) (i : ℕ) : Type 0 where
  pub inside : i ≤ length text
  pub front : IsFront (drop i text)

pub IsBoundary-end : (text : Bytes) → IsBoundary text (length text)
IsBoundary-end text = record {
  inside = omega arith;
  front = rw (drop_all (length text) text (omega arith)) tt;
}

IsFront-append : (pre rest : Bytes) → IsFront rest → IsBoundary (pre ++ rest) (length pre)
IsFront-append pre rest f = record {
  inside = omega (arith, length-append pre rest);
  front = rw (drop-length pre rest) f;
}

-- A text goes on with whole characters behind a line.
IsFront-line :
    (pre content mark rest : Bytes)
    → Ends content rest mark
    → IsText (pre ++ (content ++ (mark ++ rest)))
    → IsFront rest
IsFront-line pre content mark rest (crlf e) t =
    IsText-IsFront rest
      (IsText-ascii (pre ++ (content ++ carriage_return ∷ [])) line_feed rest (omega arith)
        (subst IsText (simp (e, append_assoc)) t)).1
IsFront-line pre content mark rest (lf e) t =
    IsText-IsFront rest
      (IsText-ascii (pre ++ content) line_feed rest (omega arith)
        (subst IsText (simp (e, append_assoc)) t)).1
IsFront-line pre content mark rest (cr e n) t =
    IsText-IsFront rest
      (IsText-ascii (pre ++ content) carriage_return rest (omega arith)
        (subst IsText (simp (e, append_assoc)) t)).1
IsFront-line pre content mark rest (eof e at_end n) t = rw at_end tt

pub Inventory-IsBoundary :
    (k : ℕ) (pre bytes : Bytes) (ls : List LineSpan)
    → IsText (pre ++ bytes)
    → Inventory k (length pre) bytes ls
    → All (λ (l : LineSpan). IsBoundary (pre ++ bytes) l.source_end) ls
Inventory-IsBoundary k pre bytes [] t h = tt
Inventory-IsBoundary k pre bytes (l ∷ ls) t (content, mark, rest, whole, plain, ends, at, tail) = (
  subst (λ (s : LineSpan). IsBoundary (pre ++ bytes) s.source_end) (sym at)
      (subst (IsBoundary (pre ++ bytes)) size
        (subst (λ text. IsBoundary text (length upto)) same (IsFront-append upto rest front))),
  subst (λ text. All (λ (s : LineSpan). IsBoundary text s.source_end) ls) same
      (Inventory-IsBoundary (k + 1) upto rest ls (subst IsText (sym same) t)
        (subst (λ start. Inventory (k + 1) start rest ls) (sym size) tail)),
)
  where
    upto : Bytes
    upto = pre ++ (content ++ mark)

    same : upto ++ rest ≡ pre ++ bytes
    same = simp (whole, append_assoc)

    size : length upto ≡ length pre + length content + length mark
    size = omega (arith, length-append pre (content ++ mark), length-append content mark)

    front : IsFront rest
    front = IsFront-line pre content mark rest ends (subst (λ b. IsText (pre ++ b)) whole t)

-- The lines of a text end at boundaries.
pub lines_of-IsBoundary :
    (text : Bytes)
    → IsText text
    → All (λ (l : LineSpan). IsBoundary text l.source_end) (lines_of text)
lines_of-IsBoundary text t =
    Inventory-IsBoundary 0 [] text (lines_of text) t (lines_of-Inventory text)

-- What stands between two boundaries is a text.
pub IsText-between :
    (text : Bytes) (start end : ℕ)
    → IsText text
    → start ≤ end
    → IsBoundary text start
    → IsBoundary text end
    → IsText (take (end - start) (drop start text))
IsText-between text start end t h from to =
    let cut = subst IsText (sym (take-append-drop start text)) t in
    let tail = (IsText-cut (take start text) (drop start text) cut from.front).1 in
    let parts = subst IsText (sym (take-append-drop (end - start) (drop start text))) tail in
    (IsText-cut (take (end - start) (drop start text)) (drop (end - start) (drop start text)) parts
      (rw (drop-drop start (end - start) end text (omega arith)) to.front)).0
