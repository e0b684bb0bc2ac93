-- ===== src/Materializer/Scan.antt =====
-- utf8/model.rs, utf8/scan.rs and error.rs: line spans, the binary classification and the scan for
-- logical lines. A loop over byte positions recurs on the bytes from that position on.
pub mod Inventory
pub mod Sound
pub mod Complete
use eliot_search.Prelude.{
  ℕ, zero, suc, ◌+◌, ◌-◌, ◌/◌, ◌%◌, max, Bool, false, not, ◌&&◌, ◌||◌, Option, none, some, List, [],
  ◌∷◌, ◌++◌, Bytes, length, ltb, leb, ◌==◌, if◌then◌else◌,
}
use eliot_search.Prelude.Words.{checked_add}
use eliot_search.Exec.{Exec, pure, ok_or, ◌>>=◌, ◌>>◌, refuse_if, check_with, reserve_with}

pub data MaterializationError : Type 0 where
  invalid_limits input_too_large output_too_large binary_content : MaterializationError
  invalid_utf8 too_many_lines allocation_failed offset_overflow : MaterializationError
  cancelled deadline : MaterializationError

pub record LineSpan : Type 0 where
  pub line_index : ℕ
  pub source_start : ℕ
  pub source_end : ℕ
  pub content_end : ℕ

abbrev pub E : Type 0
E = MaterializationError

unfoldable pub check : Exec E (Unit {0})
check = check_with cancelled deadline

-- `if index.is_multiple_of(1024) { check(…)?; }`; the head of a chunk of 1024 bytes is such a place.
unfoldable pub poll : ℕ → Exec E (Unit {0})
unfolding check
poll index = if index % 1024 == 0 then check else pure tt

abbrev pub tab : ℕ
tab = b'\t'

abbrev pub line_feed : ℕ
line_feed = b'\n'

abbrev pub carriage_return : ℕ
carriage_return = b'\r'

abbrev form_feed : ℕ
form_feed = 0x0c

unfoldable pub is_control : ℕ → Bool
is_control b =
    ltb b 0x20 && not (b == tab || b == line_feed || b == carriage_return || b == form_feed)

-- `len.div_ceil(100).max(4)`
abbrev pub threshold : ℕ → ℕ
threshold len = max ((len + 99) / 100) 4

unfoldable pub reject_from : ℕ → Bytes → ℕ → ℕ → Exec E (Unit {0})
reject_from limit [] index controls = pure tt
reject_from limit (b ∷ rest) index controls = do
  poll index
  refuse_if (b == 0) binary_content
  refuse_if (is_control b && leb limit (controls + 1)) binary_content
  reject_from limit rest (index + 1) (if is_control b then controls + 1 else controls)

unfoldable pub reject_binary_controls : Bytes → Exec E (Unit {0})
reject_binary_controls bytes = reject_from (threshold (length bytes)) bytes 0 0

abbrev pub starts_with_feed : Bytes → Bool
starts_with_feed [] = false
starts_with_feed (c ∷ rest) = c == line_feed

-- The length of the line terminator that begins with the byte `b`, if one does.
unfoldable pub terminator : ℕ → Bytes → Option ℕ
terminator b rest =
    if b == carriage_return && starts_with_feed rest
    then some 2
    else if b == line_feed || b == carriage_return
    then some 1
    else none

abbrev pub span : ℕ → ℕ → ℕ → ℕ → LineSpan
span index start content_end end = record {
  line_index = index;
  source_start = start;
  source_end = end;
  content_end = content_end;
}

-- Each push may find the vector full and has to reserve.
unfoldable pub push_line : List LineSpan → ℕ → ℕ → ℕ → ℕ → Exec E (List LineSpan)
push_line lines start content_end end maximum = do
  refuse_if (leb maximum (length lines)) too_many_lines
  reserve_with allocation_failed
  pure (lines ++ span (length lines) start content_end end ∷ [])

unfoldable pub last_line : ℕ → List LineSpan → ℕ → ℕ → Exec E (List LineSpan)
last_line maximum lines start len =
    if ltb start len then push_line lines start len len maximum else pure lines

-- `skip` counts the bytes of a terminator that `index` has already passed.
unfoldable pub scan_from : ℕ → Bytes → ℕ → ℕ → ℕ → List LineSpan → Exec E (List LineSpan)
scan_from maximum [] skip start index lines = last_line maximum lines start index
scan_from maximum (b ∷ rest) (suc skip) start index lines =
    scan_from maximum rest skip start index lines
scan_from maximum (b ∷ rest) zero start index lines = poll index >> elim (terminator b rest) [
  | none ↦ scan_from maximum rest 0 start (index + 1) lines
  | some n ↦ do
    end ← ok_or (checked_add index n) offset_overflow
    lines' ← push_line lines start index end maximum
    scan_from maximum rest (n - 1) end end lines'
]

unfoldable pub scan_lines : ℕ → Bytes → Exec E (List LineSpan)
scan_lines maximum bytes = do lines ← scan_from maximum bytes 0 0 0 []; check; pure lines
