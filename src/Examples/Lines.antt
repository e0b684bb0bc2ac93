-- ===== src/Examples/Lines.antt =====
-- The line inventory, the classification and the materialized product on short texts.
use eliot_search.Prelude.{◌≤◌, ◌≡◌, refl, [], ◌∷◌, arith, Bytes, length, leb, if◌then◌else◌, ◌||◌}
use eliot_search.Exec.{ok, err, calm, ◌>>=◌}
use eliot_search.Utf8.{from_utf8, is_utf8}
use eliot_search.Materializer.{MaterializationLimits, materialize_utf8}
use eliot_search.Materializer.Scan.{
  MaterializationError, span, threshold, check, poll, is_control, reject_from,
  reject_binary_controls, terminator, push_line, last_line, scan_from, scan_lines,
}
use eliot_search.Materializer.Scan.Inventory.{Inventory, spans, lines_of}
use eliot_search.Materializer.Scan.Sound.{scan_lines-Inventory}
use eliot_search.Materializer.Scan.Complete.{scan_lines-calm}
use eliot_search.Materializer.Controls.{
  IsTextual, has_nul, count_controls, reject_binary_controls-IsTextual, reject_binary_controls-calm,
}
use eliot_search.Materializer.Product.{IsProduct, materialize_utf8-IsProduct, materialize_utf8-calm}

-- "α\r\nβ\n"
abbrev greek : Bytes
greek = 206 ∷ 177 ∷ 13 ∷ 10 ∷ 206 ∷ 178 ∷ 10 ∷ []

greek_lines : scan_lines 2 greek calm ≡ ok (span 0 0 2 4 ∷ span 1 4 6 7 ∷ [], calm)
unfolding scan_lines scan_from ◌>>=◌ poll check push_line last_line terminator
greek_lines = refl

no_final_line : scan_lines 2 (97 ∷ 10 ∷ 98 ∷ []) calm ≡ ok (span 0 0 1 2 ∷ span 1 2 3 3 ∷ [], calm)
unfolding scan_lines scan_from ◌>>=◌ poll check push_line last_line terminator
no_final_line = refl

one_too_many : scan_lines 1 (97 ∷ 10 ∷ 98 ∷ []) calm ≡ err MaterializationError.too_many_lines
unfolding scan_lines scan_from ◌>>=◌ poll check push_line last_line terminator
one_too_many = refl

abbrev limits : MaterializationLimits
limits = record { max_input_bytes = 1024; max_output_bytes = 1024; max_lines = 64 }

greek_product :
    materialize_utf8 greek limits calm
    ≡ ok (record { text = greek; lines = span 0 0 2 4 ∷ span 1 4 6 7 ∷ [] }, calm)
unfolding materialize_utf8 reject_binary_controls reject_from is_control from_utf8 scan_lines
    scan_from ◌>>=◌ poll check push_line last_line terminator
greek_product = refl

binary : reject_binary_controls (97 ∷ 0 ∷ 98 ∷ []) calm ≡ err MaterializationError.binary_content
unfolding reject_binary_controls reject_from is_control ◌>>=◌ poll check
binary = refl

greek_textual : reject_binary_controls greek calm ≡ ok (tt, calm)
unfolding reject_binary_controls reject_from is_control ◌>>=◌ poll check
greek_textual = refl

scan_lines-Inventory_example :
    Inventory 0 0 greek (span 0 0 2 4 ∷ span 1 4 6 7 ∷ [])
    × (length (span 0 0 2 4 ∷ span 1 4 6 7 ∷ []) ≤ 2)
scan_lines-Inventory_example =
    scan_lines-Inventory 2 greek calm calm (span 0 0 2 4 ∷ span 1 4 6 7 ∷ []) greek_lines

scan_lines-calm_example : scan_lines 1 greek calm ≡ (
    if leb (length (lines_of greek)) 1
    then ok (lines_of greek, calm)
    else err MaterializationError.too_many_lines)
scan_lines-calm_example = scan_lines-calm 1 greek (omega arith)

reject_binary_controls-IsTextual_example : IsTextual greek
reject_binary_controls-IsTextual_example =
    reject_binary_controls-IsTextual greek calm calm greek_textual

reject_binary_controls-calm_example : reject_binary_controls greek calm ≡ (
    if has_nul greek || leb (threshold (length greek)) (count_controls greek)
    then err MaterializationError.binary_content
    else ok (tt, calm))
reject_binary_controls-calm_example = reject_binary_controls-calm greek

materialize_utf8-IsProduct_example :
    IsProduct greek limits (record { text = greek; lines = span 0 0 2 4 ∷ span 1 4 6 7 ∷ [] })
    × Inventory 0 0 greek (span 0 0 2 4 ∷ span 1 4 6 7 ∷ [])
materialize_utf8-IsProduct_example =
    materialize_utf8-IsProduct greek limits calm calm
      (record { text = greek; lines = span 0 0 2 4 ∷ span 1 4 6 7 ∷ [] }) greek_product

materialize_utf8-calm_example :
    materialize_utf8 greek limits calm ≡ ok (record { text = greek; lines = lines_of greek }, calm)
unfolding spans terminator is_control is_utf8
materialize_utf8-calm_example =
    materialize_utf8-calm greek limits (omega arith) (omega arith) (omega arith) (omega arith)
      (refl, omega arith) refl (omega arith)
