-- ===== src/Materializer/Product.antt =====
-- What `materialize_utf8` returns, and when it succeeds.
use eliot_search.Prelude.{
  ◌*◌, ◌≤◌, ◌<◌, ◌≡◌, true, some, arith, Bytes, length, ltb→le, le→ltb, lt→leb, le→leb, ap, ◌∙◌,
}
use eliot_search.Prelude.Words.{max_u64, max_isize}
use eliot_search.Exec.{Env, ok, calm, ◌>>=◌}
use eliot_search.Exec.Ensures.{
  Ensures, Ensures-pure, Ensures-then, Ensures-bind, Ensures-refuse_if, Ensures-ok_or,
}
use eliot_search.Utf8.{is_utf8, from_utf8}
use eliot_search.Materializer.{
  MaterializationLimits, MaterializedText, line_span_size, validate, materialize_utf8,
}
use eliot_search.Materializer.Scan.{threshold, check}
use eliot_search.Materializer.Scan.Inventory.{lines_of, Inventory, lines_of-Inventory}
use eliot_search.Materializer.Scan.Sound.{scan_lines-Ensures}
use eliot_search.Materializer.Scan.Complete.{scan_lines-calm}
use eliot_search.Materializer.Controls.{
  count_controls, IsTextual, reject_binary_controls-Ensures, reject_binary_controls-calm,
}

from_utf8-some :
    (bytes text : Bytes) → from_utf8 bytes ≡ some text → (text ≡ bytes) × (is_utf8 bytes ≡ true)
unfolding from_utf8
from_utf8-some bytes text h = ground arith

-- What holds of a product of `bytes` under `limits`.
pub record IsProduct (bytes : Bytes) (limits : MaterializationLimits) (product : MaterializedText)
    : Type 0 where
  pub unchanged : product.text ≡ bytes
  pub valid : is_utf8 bytes ≡ true
  pub textual : IsTextual bytes
  pub inventory : product.lines ≡ lines_of bytes
  pub few_lines : length product.lines ≤ limits.max_lines
  pub fits_input : length bytes ≤ limits.max_input_bytes
  pub fits_output : length bytes ≤ limits.max_output_bytes

pub materialize_utf8-Ensures :
    (bytes : Bytes) (limits : MaterializationLimits)
    → Ensures (IsProduct bytes limits) (materialize_utf8 bytes limits)
unfolding materialize_utf8
materialize_utf8-Ensures bytes limits = Ensures-then _ _ λ _. Ensures-then _ _ λ _.
    Ensures-refuse_if _ _ _ λ input. Ensures-refuse_if _ _ _ λ output.
      Ensures-bind _ _ (reject_binary_controls-Ensures bytes) λ _ textual.
        Ensures-bind _ _ (Ensures-ok_or _ _ (from_utf8-some bytes)) λ text decoded.
          Ensures-then _ _ λ _.
            Ensures-bind _ _ (scan_lines-Ensures limits.max_lines text) λ lines found.
              Ensures-pure _ (record {
                unchanged = decoded.0;
                valid = decoded.1;
                textual = textual;
                inventory = found.0 ∙ ap lines_of decoded.0;
                few_lines = found.1;
                fits_input = ltb→le _ _ input;
                fits_output = ltb→le _ _ output;
              })

-- Whatever the environment does: a product has the given bytes unchanged, which are UTF-8 and pass
-- the binary classification, and the inventory of their lines; all ceilings are kept.
pub materialize_utf8-IsProduct :
    (bytes : Bytes) (limits : MaterializationLimits) (env env' : Env) (product : MaterializedText)
    → materialize_utf8 bytes limits env ≡ ok (product, env')
    → IsProduct bytes limits product × Inventory 0 0 product.text product.lines
materialize_utf8-IsProduct bytes limits env env' product h =
    let p = (materialize_utf8-Ensures bytes limits).at env product env' h in
    (p, rw (p.unchanged, p.inventory) (lines_of-Inventory bytes))

-- Ceilings that `validate` accepts.
pub record IsValid (limits : MaterializationLimits) : Type 0 where
  pub input : 0 < limits.max_input_bytes
  pub output : 0 < limits.max_output_bytes
  pub lines : 0 < limits.max_lines
  pub allocable : limits.max_lines * line_span_size ≤ max_isize

validate-calm :
    (limits : MaterializationLimits) → IsValid limits → validate limits calm ≡ ok (tt, calm)
unfolding validate ◌>>=◌
validate-calm limits v = ground arith

-- In a calm environment, a text within valid ceilings that is UTF-8, passes the classification and
-- has no more lines than the ceiling becomes the product of its own bytes and lines.
pub materialize_utf8-calm :
    (bytes : Bytes) (limits : MaterializationLimits)
    → IsValid limits
    → length bytes ≤ max_u64
    → length bytes ≤ limits.max_input_bytes
    → length bytes ≤ limits.max_output_bytes
    → IsTextual bytes
    → is_utf8 bytes ≡ true
    → length (lines_of bytes) ≤ limits.max_lines
    → materialize_utf8 bytes limits calm
      ≡ ok (record { text = bytes; lines = lines_of bytes }, calm)
unfolding materialize_utf8 ◌>>=◌ from_utf8 check
materialize_utf8-calm bytes limits v word input output (nul, few) valid lines = rw (
  validate-calm limits v,
  le→ltb limits.max_input_bytes (length bytes) input,
  le→ltb limits.max_output_bytes (length bytes) output,
  reject_binary_controls-calm bytes,
  nul,
  lt→leb (threshold (length bytes)) (count_controls bytes) few,
  valid,
  scan_lines-calm limits.max_lines bytes word,
  le→leb (length (lines_of bytes)) limits.max_lines lines,
)
