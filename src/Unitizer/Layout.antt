-- ===== src/Unitizer/Layout.antt =====
-- layout.rs: the text cut into units that end, where they can, at the end of a line.
pub mod Boundaries
pub mod Choice
pub mod Lines
pub mod Partition
use eliot_search.Prelude.{
  ℕ, zero, suc, ◌+◌, ◌-◌, min, Bool, not, ◌&&◌, ◌||◌, Option, none, some, List, [], ◌∷◌, ◌++◌,
  Bytes, length, get_elem?, ltb, leb, ◌==◌, if◌then◌else◌,
}
use eliot_search.Prelude.Words.{checked_add, checked_sub}
use eliot_search.Exec.{Exec, pure, fail, ok_or, ◌>>=◌, ◌>>◌, refuse_if, reserve_with}
use eliot_search.Utf8.{is_char_boundary}
use eliot_search.Registry.{PreparationSettings}
use eliot_search.Materializer.{MaterializedText}
use eliot_search.Materializer.Scan.{LineSpan}
use eliot_search.Unitizer.Errors.{E, PreparationError, PreparationLimits, check}

pub record UnitSpan : Type 0 where
  pub source_start : ℕ
  pub source_end : ℕ
  pub logical_line_start : ℕ
  pub logical_line_end : ℕ
  pub starts_at_line_boundary : Bool
  pub ends_at_line_boundary : Bool

-- `lines.partition_point(test)` on lines of which a prefix passes the test.
unfoldable pub partition_point : (LineSpan → Bool) → List LineSpan → ℕ
partition_point test [] = 0
partition_point test (l ∷ ls) = if test l then suc (partition_point test ls) else 0

-- `while end > start && !text.is_char_boundary(end) { end -= 1; }`
unfoldable pub descend : Bytes → ℕ → ℕ → ℕ
descend text start zero = zero
descend text start (suc n) =
    if ltb start (suc n) && not (is_char_boundary text (suc n)) then descend text start n else suc n

-- `while end <= hard && !text.is_char_boundary(end) { end += 1; }`; the rounds left are at most
-- `hard + 1 - end`.
unfoldable pub ascend : Bytes → ℕ → ℕ → ℕ → ℕ
ascend text hard zero end = end
ascend text hard (suc rounds) end =
    if leb end hard && not (is_char_boundary text end)
    then ascend text hard rounds (end + 1)
    else end

unfoldable pub climb : Bytes → ℕ → ℕ → ℕ → Exec E ℕ
climb text start hard end =
    if leb end start
    then (do
      next ← ok_or (checked_add start 1) PreparationError.offset_overflow
      pure (ascend text hard (hard + 1 - next) next))
    else pure end

-- The cut between characters.
unfoldable pub choose_character : Bytes → ℕ → ℕ → ℕ → Exec E ℕ
unfolding climb
choose_character text start preferred hard = do
  end ← climb text start hard (descend text start preferred)
  refuse_if (leb end start || ltb hard end) PreparationError.unit_too_large
  pure end

-- `lines.get(after).filter(|line| line.source_end <= hard)`
abbrev pub line_within : ℕ → Option LineSpan → Option ℕ
line_within hard none = none
line_within hard (some l) = if leb l.source_end hard then some l.source_end else none

-- `after.checked_sub(1).and_then(|index| lines.get(index)).filter(|line| line.source_end > start)`
abbrev pub line_before : List LineSpan → Option ℕ → Option LineSpan
line_before lines none = none
line_before lines (some index) = get_elem? lines index

abbrev pub line_behind : ℕ → Option LineSpan → Option ℕ
line_behind start none = none
line_behind start (some l) = if ltb start l.source_end then some l.source_end else none

abbrev pub or_else : Option ℕ → Exec E ℕ → Exec E ℕ
or_else none other = other
or_else (some end) other = pure end

unfoldable pub choose_end : Bytes → List LineSpan → ℕ → ℕ → ℕ → Exec E ℕ
choose_end text lines start preferred_bytes hard_bytes = do
  preferred_end ← ok_or (checked_add start preferred_bytes) PreparationError.offset_overflow
  hard_end ← ok_or (checked_add start hard_bytes) PreparationError.offset_overflow
  let preferred = min preferred_end (length text)
  let hard = min hard_end (length text)
  let after = partition_point (λ l. leb l.source_end preferred) lines
  if hard == length text && leb (length text - start) preferred_bytes
      then pure (length text)
      else or_else (line_behind start (line_before lines (checked_sub after 1))) (
          or_else (line_within hard (get_elem? lines after))
            (choose_character text start preferred hard))

-- The unit from `start` to `end`, with the lines of its first and its last byte.
unfoldable pub describe : List LineSpan → ℕ → ℕ → Exec E UnitSpan
unfolding partition_point
describe lines start end = do
  first ←
      ok_or (get_elem? lines (partition_point (λ l. leb l.source_end start) lines))
        PreparationError.invalid_artifact
  last ←
      ok_or (get_elem? lines (partition_point (λ l. ltb l.source_end end) lines))
        PreparationError.invalid_artifact
  reserve_with PreparationError.allocation_failed
  line_end ← ok_or (checked_add last.line_index 1) PreparationError.offset_overflow
  pure (record {
    source_start = start;
    source_end = end;
    logical_line_start = first.line_index;
    logical_line_end = line_end;
    starts_at_line_boundary = first.source_start == start;
    ends_at_line_boundary = last.source_end == end;
  })

module _ (text : Bytes) (lines : List LineSpan) (settings : PreparationSettings)
    (max_units : ℕ) where
  -- One round of the loop: the next unit.
  unfoldable pub next_unit : ℕ → List UnitSpan → Exec E UnitSpan
  unfolding choose_end describe
  next_unit start units = do
    check
    refuse_if (leb max_units (length units)) PreparationError.too_many_units
    end ← choose_end text lines start settings.preferred_unit_bytes settings.max_unit_bytes
    refuse_if (leb end start || ltb settings.max_unit_bytes (end - start))
        PreparationError.unit_too_large
    describe lines start end

  -- `while start < text.len()`; each round moves `start` on, so as many rounds as bytes suffice.
  unfoldable pub unitize_from : ℕ → ℕ → List UnitSpan → Exec E (List UnitSpan)
  unfolding next_unit
  unitize_from zero start units = pure units
  unitize_from (suc rounds) start units = elim (ltb start (length text)) [
    | Bool.false ↦ pure units
    | Bool.true ↦ do
      unit ← next_unit start units
      unitize_from rounds unit.source_end (units ++ unit ∷ [])
  ]

unfoldable pub unitize_text :
    MaterializedText → PreparationSettings → PreparationLimits → Exec E (List UnitSpan)
unfolding unitize_from
unitize_text product settings limits = do
  units ←
      unitize_from product.text product.lines settings limits.max_units (length product.text) 0 []
  check
  pure units
