-- ===== src/Materializer.antt =====
-- crates/search-prep/search-materializer/src/utf8: `model.rs` (limits and product) and
-- `materialize.rs`. The child `Scan` models `scan.rs`, the others prove.
pub mod Scan
pub mod Controls
pub mod Product
use eliot_search.Prelude.{
  ℕ, ◌||◌, List, Option, none, some, Bytes, length, ltb, leb, ◌==◌, if◌then◌else◌,
}
use eliot_search.Prelude.Words.{max_isize, checked_mul}
use eliot_search.Exec.{Exec, pure, ok_or, ◌>>=◌, ◌>>◌, refuse_if}
use eliot_search.Utf8.{from_utf8}
use eliot_search.Materializer.Scan.{
  E, MaterializationError, LineSpan, check, reject_binary_controls, scan_lines,
}

pub record MaterializationLimits : Type 0 where
  pub max_input_bytes : ℕ
  pub max_output_bytes : ℕ
  pub max_lines : ℕ

pub record MaterializedText : Type 0 where
  pub text : Bytes
  pub lines : List LineSpan

-- `size_of::<LineSpan>()`: four words of 8 bytes.
abbrev pub line_span_size : ℕ
line_span_size = 32

-- `count.checked_mul(size).filter(|bytes| *bytes <= isize::MAX)`
unfoldable pub allocation : ℕ → ℕ → Option ℕ
allocation count size = elim (checked_mul count size) [
  | none ↦ none
  | some bytes ↦ if leb bytes max_isize then some bytes else none
]

unfoldable pub validate : MaterializationLimits → Exec E (Unit {0})
unfolding allocation
validate limits = do
  refuse_if (limits.max_input_bytes == 0 || limits.max_output_bytes == 0 || limits.max_lines == 0)
      MaterializationError.invalid_limits
  ok_or (allocation limits.max_lines line_span_size) MaterializationError.offset_overflow
  pure tt

unfoldable pub materialize_utf8 : Bytes → MaterializationLimits → Exec E MaterializedText
unfolding validate
materialize_utf8 bytes limits = do
  check
  validate limits
  refuse_if (ltb limits.max_input_bytes (length bytes)) MaterializationError.input_too_large
  refuse_if (ltb limits.max_output_bytes (length bytes)) MaterializationError.output_too_large
  reject_binary_controls bytes
  text ← ok_or (from_utf8 bytes) MaterializationError.invalid_utf8
  check
  lines ← scan_lines limits.max_lines text
  pure (record { text = text; lines = lines })
