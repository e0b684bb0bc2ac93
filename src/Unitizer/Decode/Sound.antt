-- ===== src/Unitizer/Decode/Sound.antt =====
-- The units that the decoder accepts cut the text as those of the unitizer do.
use mathlib.Core.Option.{some-injective}
use eliot_search.Prelude.{
  ℕ, zero, suc, ◌-◌, ◌≤◌, ◌<◌, ◌≡◌, refl, sym, ap, ◌∙◌, subst, Option, some, List, [], ◌∷◌, ◌++◌,
  append-nil, append_assoc, arith, Bytes, length, ltb, leb, ltb→le, ◌==◌,
}
use eliot_search.Exec.Ensures.{
  Ensures, Ensures-pure, Ensures-found, Ensures-bind, Ensures-then, Ensures-refuse_if,
  Ensures-weaken,
}
use eliot_search.Utf8.Boundary.{IsText, IsText-IsFront, is_char_boundary→IsFront}
use eliot_search.Registry.{PreparationSettings}
use eliot_search.Materializer.Scan.Inventory.{lines_of}
use eliot_search.Unitizer.Errors.{PreparationLimits}
use eliot_search.Unitizer.Layout.{UnitSpan}
use eliot_search.Unitizer.Layout.Boundaries.{IsBoundary, IsText-between}
use eliot_search.Unitizer.Layout.Partition.{IsUnit, IsLocated, Partition}
use eliot_search.Unitizer.Wire.{Reader}
use eliot_search.Unitizer.Decode.{Line, Lines, Cursor, accept_unit, accept_units, read_units}
use eliot_search.Unitizer.Decode.Walker.{
  line_of, Next, done, found, OnLine, next_line-Ensures, seek-Ensures,
}
use eliot_search.Unitizer.Decode.Units.{
  Chain, Chain-Partition, IsPlaced, IsPlaced-of, IsNamed, IsNamed-of, OnLine-at,
}

module _ (text : Bytes) (t : IsText text) (hard max_lines : ℕ) where
  -- Between two rounds of the loop over the units.
  record IsReady (c : Cursor) : Type 0 where
    from : IsBoundary text c.expected_start
    line : (l : Line) → c.current ≡ some l → OnLine text l c.lines × (l.start ≤ c.expected_start)

  unit-IsBoundary :
      (start : ℕ) (u : UnitSpan) → IsPlaced text hard start u → IsBoundary text u.source_end
  unit-IsBoundary start u p = record {
    inside = p.inside;
    front = is_char_boundary→IsFront text u.source_end (omega (arith, p.grows)) p.boundary;
  }

  located :
      (start : ℕ) (u : UnitSpan) (first last : Line) (lines lines' : Lines)
      → IsPlaced text hard start u
      → IsNamed u first last
      → OnLine text first lines
      → OnLine text last lines'
      → first.start ≤ start
      → start < first.end
      → last.start < u.source_end
      → u.source_end ≤ last.end
      → IsLocated (lines_of text) u
  located start u first last lines lines' p n on on' a b c d = record {
    first = on.here;
    last = on'.here;
    first_at = OnLine-at text first lines on u.logical_line_start n.first_line;
    first_from = ground (arith, on.is_here, p.at);
    first_to = ground (arith, on.is_here, p.at);
    last_at = OnLine-at text last lines' on' (u.logical_line_end - 1) (omega (arith, n.last_line));
    last_from = ground (arith, on'.is_here);
    last_to = ground (arith, on'.is_here);
    starts = n.starts ∙ ap (λ (l : Line). l.start == u.source_start) on.is_here;
    ends = n.ends ∙ ap (λ (l : Line). l.end == u.source_end) on'.is_here;
  }

  accepted :
      (start : ℕ) (u : UnitSpan)
      → IsBoundary text start
      → IsPlaced text hard start u
      → IsLocated (lines_of text) u
      → IsUnit text (lines_of text) hard start u
  accepted start u from p l = record {
    at = p.at;
    grows = p.grows;
    bounded = p.bounded;
    boundary = unit-IsBoundary start u p;
    whole_characters =
        IsText-between text start u.source_end t (omega (arith, p.grows)) from
          (unit-IsBoundary start u p);
    located = l;
  }

  -- A round takes one unit.
  record Accepts (c c' : Cursor) : Type 0 where
    unit : UnitSpan
    appended : c'.units ≡ c.units ++ unit ∷ []
    is_unit : IsUnit text (lines_of text) hard c.expected_start unit
    next_start : c'.expected_start ≡ unit.source_end
    ready : IsReady c'

  accept_unit-Ensures :
      (c : Cursor) → IsReady c → Ensures (Accepts c) (accept_unit text hard max_lines c)
  unfolding accept_unit
  accept_unit-Ensures c ready = Ensures-then _ _ λ _. Ensures-then _ _ λ unit.
      Ensures-refuse_if _ _ _ λ placed_.
        let u = unit.0 in
        let placed = IsPlaced-of text hard c.expected_start u placed_ in
        Ensures-bind _ _ (Ensures-found c.current _) λ current at.
          let (on, low) = ready.line current at in
          Ensures-bind _ _
            (seek-Ensures text max_lines (λ end. leb end u.source_start) (suc (length text)) current
              c.lines on (omega arith))
            λ first onf.
              Ensures-bind _ _
                (seek-Ensures text max_lines (λ end. ltb end u.source_end) (suc (length text))
                  first.0 first.1 onf.0 (omega arith))
                λ last onl. Ensures-refuse_if _ _ _ λ named_.
                  let from : first.0.start ≤ c.expected_start =
                    ground (arith, onf.2, placed.at, low) in
                  let to : c.expected_start < first.0.end = ground (arith, onf.1, placed.at) in
                  let last_from : last.0.start < u.source_end =
                    ground (arith, onl.2, placed.grows, from) in
                  Ensures-pure _ (record {
                    unit = u;
                    appended = refl;
                    is_unit = accepted c.expected_start u ready.from placed (
                        located c.expected_start u first.0 last.0 first.1 last.1 placed
                          (IsNamed-of u first.0 last.0 named_) onf.0 onl.0 from to last_from
                          (ltb→le _ _ onl.1));
                    next_start = refl;
                    ready = record {
                      from = unit-IsBoundary c.expected_start u placed;
                      line = λ l e.
                          subst (λ (x : Line). OnLine text x last.1 × (x.start ≤ u.source_end))
                            (some-injective last.0 l e) (onl.0, omega (arith, last_from));
                    };
                  })

  -- So many rounds take so many units, one behind the other.
  record AcceptsMany (count : ℕ) (c c' : Cursor) : Type 0 where
    new : List UnitSpan
    appended : c'.units ≡ c.units ++ new
    counted : length new ≡ count
    chain : Chain text hard c.expected_start new c'.expected_start

  accept_units-Ensures :
      (count : ℕ) (c : Cursor)
      → IsReady c
      → Ensures (AcceptsMany count c) (accept_units text hard max_lines count c)
  unfolding accept_units
  accept_units-Ensures zero c ready =
      Ensures-pure c
        (record { new = []; appended = sym (append-nil c.units); counted = refl; chain = refl })
  accept_units-Ensures (suc count) c ready =
      Ensures-bind _ _ (accept_unit-Ensures c ready) λ c' one.
        Ensures-weaken _ (accept_units-Ensures count c' one.ready) λ end many. record {
          new = one.unit ∷ many.new;
          appended =
              many.appended
              ∙ ap (λ us. us ++ many.new) one.appended
              ∙ append_assoc c.units (one.unit ∷ []) many.new;
          counted = ap suc many.counted;
          chain = (
            one.is_unit,
            subst (λ start. Chain text hard start many.new end.expected_start) one.next_start
                many.chain,
          );
        }

  first_line :
      (r : Option Line × Lines) (l : Line)
      → Next text (record { bytes = text; offset = 0; index = 0 }) (lines_of text) r
      → r.0 ≡ some l
      → OnLine text l r.1 × (l.start ≤ 0)
  first_line r l (done e f) at = absurd (cc)
  first_line r l (found here after e f w start index offset next grows) at =
      let same : l ≡ line_of here = some-injective l (line_of here) (sym at ∙ e) in
      (
        record {
          before = [];
          here = here;
          after = after;
          whole = f;
          counted = sym index;
          is_here = same;
          walks = w;
          offset = offset;
          index = omega arith;
        },
        ground arith,
      )

  first-IsReady :
      (reader : Reader) (r : Option Line × Lines)
      → Next text (record { bytes = text; offset = 0; index = 0 }) (lines_of text) r
      → IsReady
          (record { reader = reader; lines = r.1; current = r.0; expected_start = 0; units = [] })
  first-IsReady reader r next = record {
    from = record { inside = omega arith; front = IsText-IsFront text t };
    line = λ l e. first_line r l next e;
  }

pub read_units-Ensures :
    (text : Bytes) (reader : Reader) (count : ℕ) (settings : PreparationSettings)
    (limits : PreparationLimits)
    → IsText text
    → Ensures
        (λ r. Partition text (lines_of text) settings.max_unit_bytes 0 r.0 × (length r.0 ≡ count))
        (read_units reader text count settings limits)
unfolding read_units
read_units-Ensures text reader count settings limits t = Ensures-refuse_if _ _ _ λ _.
    Ensures-then _ _ λ _.
      Ensures-bind _ _
        (next_line-Ensures text limits.max_lines (record { bytes = text; offset = 0; index = 0 })
          (lines_of text) (record { same = refl; inside = omega arith; remaining = refl }))
        λ first next.
          Ensures-bind _ _
            (accept_units-Ensures text t settings.max_unit_bytes limits.max_lines count _
              (first-IsReady text t settings.max_unit_bytes limits.max_lines reader first next))
            λ end many. Ensures-refuse_if _ _ _ λ whole.
              let all : end.expected_start ≡ length text = ground arith in
              let chain = subst (Chain text settings.max_unit_bytes 0 many.new) all many.chain in
              Ensures-pure _ (
                subst
                  (λ us.
                    Partition text (lines_of text) settings.max_unit_bytes 0 us
                    × (length us ≡ count))
                  (sym many.appended)
                  (Chain-Partition text settings.max_unit_bytes 0 many.new chain, many.counted))
