-- ===== src/Unitizer/Wire.antt =====
-- prepared/wire.rs: the primitive framing of a prepared artifact.
use eliot_search.Prelude.{
  ℕ, ◌+◌, ◌-◌, Bool, true, false, Option, none, some, [], ◌∷◌, Bytes, length, take, drop, leb, ◌==◌,
  if◌then◌else◌,
}
use eliot_search.Prelude.Words.{checked_add, checked_mul, to_le_bytes, from_le_bytes}
use eliot_search.Exec.{Exec, pure, ok_or, ◌>>=◌}
use eliot_search.Unitizer.Errors.{E, invalid_artifact, offset_overflow}

-- b"ELSPRP01"
abbrev pub magic : Bytes
magic = 69 ∷ 76 ∷ 83 ∷ 80 ∷ 82 ∷ 80 ∷ 48 ∷ 49 ∷ []

abbrev pub version : ℕ
version = 1

abbrev binding_bytes : ℕ
binding_bytes = 16 + 16 + 8 + 2 + 1 + 32 + 8

abbrev settings_bytes : ℕ
settings_bytes = 2 + 2 + 4 + 4

abbrev pub header_bytes : ℕ
header_bytes = 8 + 2 + binding_bytes + settings_bytes + 8 + 8

abbrev pub unit_bytes : ℕ
unit_bytes = 8 + 8 + 8 + 8 + 1 + 1

abbrev and_then : Option ℕ → (ℕ → Option ℕ) → Option ℕ
and_then none f = none
and_then (some n) f = f n

unfoldable pub encoded_size : ℕ → ℕ → Exec E ℕ
encoded_size text units =
    ok_or
      (and_then (and_then (checked_mul units unit_bytes) (λ size. checked_add size header_bytes))
        (λ size. checked_add size text))
      offset_overflow

-- `put_usize`: a `usize` is written as a `u64`.
unfoldable pub put_usize : ℕ → Bytes
put_usize value = to_le_bytes 8 value

pub record Reader : Type 0 where
  pub bytes : Bytes
  pub position : ℕ

unfoldable pub new_reader : Bytes → Reader
new_reader bytes = record { bytes = bytes; position = 0 }

-- `bytes.get(from..to)` with `from <= to`
unfoldable pub get_range : Bytes → ℕ → ℕ → Option Bytes
get_range bytes from to =
    if leb to (length bytes) then some (take (to - from) (drop from bytes)) else none

unfoldable pub take_bytes : ℕ → Reader → Exec E (Bytes × Reader)
unfolding get_range
take_bytes count reader = do
  end ← ok_or (checked_add reader.position count) offset_overflow
  bytes ← ok_or (get_range reader.bytes reader.position end) invalid_artifact
  pure (bytes, record reader { position = end })

-- A little-endian word of `width` bytes.
unfoldable pub word : ℕ → Reader → Exec E (ℕ × Reader)
word width reader = do taken ← take_bytes width reader; pure (from_le_bytes taken.0, taken.1)

abbrev pub u16 : Reader → Exec E (ℕ × Reader)
u16 = word 2

abbrev pub u32 : Reader → Exec E (ℕ × Reader)
u32 = word 4

abbrev pub u64 : Reader → Exec E (ℕ × Reader)
u64 = word 8

abbrev pub usize : Reader → Exec E (ℕ × Reader)
usize = u64

abbrev bool_of : Bytes → Option Bool
bool_of (b ∷ []) = if b == 0 then some false else if b == 1 then some true else none
bool_of _ = none

unfoldable pub boolean : Reader → Exec E (Bool × Reader)
boolean reader = do
  taken ← take_bytes 1 reader
  value ← ok_or (bool_of taken.0) invalid_artifact
  pure (value, taken.1)

unfoldable pub at_end : Reader → Bool
at_end reader = reader.position == length reader.bytes
