-- ===== src/Unitizer/Decode.antt =====
-- prepared/decode.rs: a saved artifact is accepted against its source and settings.
pub mod Walk
pub mod Walker
pub mod Units
pub mod Sound
use eliot_search.Prelude.{
  ℕ, zero, suc, ◌+◌, ◌-◌, ◌%◌, Bool, true, false, not, ◌&&◌, ◌||◌, Option, none, some, List, [],
  ◌∷◌, ◌++◌, Bytes, length, drop, bytes_eq, ltb, leb, ◌==◌, if◌then◌else◌,
}
use eliot_search.Prelude.Words.{checked_add}
use eliot_search.Exec.{Exec, pure, ok_or, ◌>>=◌, ◌>>◌, refuse_if, reserve_with}
use eliot_search.Utf8.{from_utf8, is_char_boundary}
use eliot_search.Registry.{CurrentSourceRecord, PreparationSettings, tag}
use eliot_search.Materializer.Scan.{terminator}
use eliot_search.Unitizer.Errors.{
  E, PreparationLimits, check, check_text_length, encoded_too_large, invalid_artifact,
  binding_mismatch, integrity_failure, too_many_units, too_many_lines, offset_overflow,
  allocation_failed,
}
use eliot_search.Unitizer.Layout.{UnitSpan}
use eliot_search.Unitizer.Wire.{
  magic, version, header_bytes, encoded_size, Reader, new_reader, take_bytes, u16, u32, u64, usize,
  boolean, at_end,
}
use eliot_search.Unitizer.Encode.{poll_chunk}

pub record PreparedUtf8 : Type 0 where
  pub text : Bytes
  pub units : List UnitSpan

pub record Line : Type 0 where
  pub start : ℕ
  pub end : ℕ
  pub index : ℕ

pub record Lines : Type 0 where
  pub bytes : Bytes
  pub offset : ℕ
  pub index : ℕ

unfoldable pub poll : ℕ → Exec E (Unit {0})
poll offset = if offset % 1024 == 0 then check else pure tt

-- The offset behind the line that the bytes begin with; `offset` is that of the bytes.
unfoldable pub walk : Bytes → ℕ → Exec E ℕ
unfolding poll
walk [] offset = pure offset
walk (b ∷ rest) offset =
    poll offset
    >> elim (terminator b rest) [ none ↦ walk rest (offset + 1) | some n ↦ pure (offset + n) ]

unfoldable pub next_line : ℕ → Lines → Exec E (Option Line × Lines)
unfolding walk
next_line maximum lines = do
  check
  if lines.offset == length lines.bytes then pure (none, lines) else do
    refuse_if (leb maximum lines.index) too_many_lines
    end ← walk (drop lines.offset lines.bytes) lines.offset
    index ← ok_or (checked_add lines.index 1) offset_overflow
    pure (
      some (record { start = lines.offset; end = end; index = lines.index }),
      record lines { offset = end; index = index },
    )

-- `while test(line.end) { line = lines.next(…)?.ok_or(…)?; }`; each round passes a byte at least.
unfoldable pub seek : ℕ → (ℕ → Bool) → ℕ → Line → Lines → Exec E (Line × Lines)
unfolding next_line
seek maximum test zero line lines = pure (line, lines)
seek maximum test (suc rounds) line lines = elim (test line.end) [
  | false ↦ pure (line, lines)
  | true ↦ do
    found ← next_line maximum lines
    line' ← ok_or found.0 invalid_artifact
    seek maximum test rounds line' found.1
]

abbrev pub bool_eq : Bool → Bool → Bool
bool_eq true b = b
bool_eq false b = not b

abbrev is_index : Option ℕ → ℕ → Bool
is_index none n = false
is_index (some m) n = m == n

unfoldable pub read_unit : Reader → Exec E (UnitSpan × Reader)
read_unit reader = do
  source_start ← usize reader
  source_end ← usize source_start.1
  logical_line_start ← u64 source_end.1
  logical_line_end ← u64 logical_line_start.1
  starts ← boolean logical_line_end.1
  ends ← boolean starts.1
  pure (
    record {
      source_start = source_start.0;
      source_end = source_end.0;
      logical_line_start = logical_line_start.0;
      logical_line_end = logical_line_end.0;
      starts_at_line_boundary = starts.0;
      ends_at_line_boundary = ends.0;
    },
    ends.1,
  )

-- The range of a unit is not the next whole one.
unfoldable pub is_misplaced : Bytes → ℕ → ℕ → UnitSpan → Bool
is_misplaced text hard expected_start u =
    not (u.source_start == expected_start)
    || leb u.source_end u.source_start
    || ltb (length text) u.source_end
    || ltb hard (u.source_end - u.source_start)
    || not (is_char_boundary text u.source_start)
    || not (is_char_boundary text u.source_end)

-- The lines of a unit are not those that it names.
unfoldable pub is_misnamed : UnitSpan → Line → Line → Bool
is_misnamed u first last =
    not (u.logical_line_start == first.index)
    || not (is_index (checked_add last.index 1) u.logical_line_end)
    || not (bool_eq u.starts_at_line_boundary (u.source_start == first.start))
    || not (bool_eq u.ends_at_line_boundary (u.source_end == last.end))

-- Where the loop over the units stands.
pub record Cursor : Type 0 where
  pub reader : Reader
  pub lines : Lines
  pub current : Option Line
  pub expected_start : ℕ
  pub units : List UnitSpan

module _ (text : Bytes) (hard max_lines : ℕ) where
  unfoldable pub accept_unit : Cursor → Exec E Cursor
  unfolding seek read_unit is_misplaced is_misnamed
  accept_unit c = do
    check
    unit ← read_unit c.reader
    refuse_if (is_misplaced text hard c.expected_start unit.0) invalid_artifact
    current ← ok_or c.current invalid_artifact
    first ← seek max_lines (λ end. leb end unit.0.source_start) (suc (length text)) current c.lines
    last ← seek max_lines (λ end. ltb end unit.0.source_end) (suc (length text)) first.0 first.1
    refuse_if (is_misnamed unit.0 first.0 last.0) invalid_artifact
    pure (record {
      reader = unit.1;
      lines = last.1;
      current = some last.0;
      expected_start = unit.0.source_end;
      units = c.units ++ unit.0 ∷ [];
    })

  unfoldable pub accept_units : ℕ → Cursor → Exec E Cursor
  unfolding accept_unit
  accept_units zero c = pure c
  accept_units (suc count) c = do c' ← accept_unit c; accept_units count c'

abbrev is_empty : Bytes → Bool
is_empty [] = true
is_empty (b ∷ bs) = false

unfoldable pub read_units :
    Reader → Bytes → ℕ → PreparationSettings → PreparationLimits → Exec E (List UnitSpan × Reader)
unfolding accept_units
read_units reader text count settings limits = do
  refuse_if (not (bool_eq (is_empty text) (count == 0))) invalid_artifact
  reserve_with allocation_failed
  first ← next_line limits.max_lines (record { bytes = text; offset = 0; index = 0 })
  end ← accept_units text settings.max_unit_bytes limits.max_lines count (record {
    reader = reader;
    lines = first.1;
    current = first.0;
    expected_start = 0;
    units = [];
  })
  refuse_if (not (end.expected_start == length text)) invalid_artifact
  pure (end.units, end.reader)
