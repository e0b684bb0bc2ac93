-- ===== src/Unitizer/Errors.antt =====
-- error.rs, the shared `check` and the ceilings of prepared.rs.
use eliot_search.Prelude.{ℕ, ◌||◌, ltb, ◌==◌}
use eliot_search.Exec.{Exec, pure, ok_or, ◌>>◌, refuse_if, check_with}
use eliot_search.Materializer.{line_span_size, allocation}
use eliot_search.Materializer.Scan.{MaterializationError}

pub data PreparationError : Type 0 where
  binary_content invalid_utf8 input_too_large output_too_large : PreparationError
  too_many_lines too_many_units unit_too_large encoded_too_large : PreparationError
  invalid_settings invalid_limits allocation_failed offset_overflow : PreparationError
  cancelled deadline : PreparationError
  invalid_artifact binding_mismatch integrity_failure : PreparationError

abbrev pub E : Type 0
E = PreparationError

unfoldable pub from_materialization : MaterializationError → PreparationError
from_materialization MaterializationError.invalid_limits = invalid_limits
from_materialization MaterializationError.input_too_large = input_too_large
from_materialization MaterializationError.output_too_large = output_too_large
from_materialization MaterializationError.binary_content = binary_content
from_materialization MaterializationError.invalid_utf8 = invalid_utf8
from_materialization MaterializationError.too_many_lines = too_many_lines
from_materialization MaterializationError.allocation_failed = allocation_failed
from_materialization MaterializationError.offset_overflow = offset_overflow
from_materialization MaterializationError.cancelled = cancelled
from_materialization MaterializationError.deadline = deadline

unfoldable pub check : Exec E (Unit {0})
check = check_with cancelled deadline

pub record PreparationLimits : Type 0 where
  pub max_input_bytes : ℕ
  pub max_output_bytes : ℕ
  pub max_lines : ℕ
  pub max_units : ℕ
  pub max_encoded_bytes : ℕ

-- `size_of::<UnitSpan>()`: four words and two Booleans, aligned to 8 bytes.
abbrev pub unit_span_size : ℕ
unit_span_size = 40

unfoldable pub validate_limits : PreparationLimits → Exec E (Unit {0})
validate_limits limits = do
  refuse_if
      (limits.max_input_bytes == 0
        || limits.max_output_bytes == 0
        || limits.max_lines == 0
        || limits.max_units == 0
        || limits.max_encoded_bytes == 0)
      invalid_limits
  ok_or (allocation limits.max_lines line_span_size) offset_overflow
  ok_or (allocation limits.max_units unit_span_size) offset_overflow
  pure tt

unfoldable pub check_text_length : PreparationLimits → ℕ → Exec E (Unit {0})
check_text_length limits len = do
  refuse_if (ltb limits.max_input_bytes len) input_too_large
  refuse_if (ltb limits.max_output_bytes len) output_too_large
  pure tt
