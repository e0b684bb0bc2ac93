-- ===== src/Contracts.antt =====
-- crates/search-contracts/src: `error.rs` and the identifiers of `ids.rs`. A text is its bytes.
pub mod Uuid
pub mod Kept
pub mod Spelling
use eliot_search.Prelude.{
  ℕ, ◌+◌, ◌-◌, ◌*◌, ◌/◌, ◌%◌, Bool, true, not, ◌&&◌, ◌||◌, Option, none, some, [], ◌∷◌, ◌++◌, Bytes,
  length, get_elem?, take, drop, ltb, leb, ◌==◌, if◌then◌else◌,
}
use eliot_search.Exec.{Result, ok, err}

-- A `ContractError` about a UUID is its kind: its field is always "uuid".
pub data ContractErrorKind : Type 0 where
  malformed_payload invalid_character : ContractErrorKind

-- b"0123456789abcdef"
abbrev hex_digits : Bytes
hex_digits = 48 ∷ 49 ∷ 50 ∷ 51 ∷ 52 ∷ 53 ∷ 54 ∷ 55 ∷ 56 ∷ 57 ∷ 97 ∷ 98 ∷ 99 ∷ 100 ∷ 101 ∷ 102 ∷ []

abbrev or_zero : Option ℕ → ℕ
or_zero none = 0
or_zero (some n) = n

-- `HEX[n]`, where n is four bits wide.
unfoldable pub digit : ℕ → ℕ
digit n = or_zero (get_elem? hex_digits n)

unfoldable pub hex_encode : Bytes → Bytes
hex_encode [] = []
hex_encode (b ∷ bs) = digit (b / 16) ∷ digit (b % 16) ∷ hex_encode bs

abbrev pub between : ℕ → ℕ → ℕ → Bool
between lo hi b = leb lo b && leb b hi

unfoldable pub lower_hex : ℕ → Option ℕ
lower_hex value =
    if between 48 57 value
    then some (value - 48)
    else if between 97 102 value
    then some (value - 97 + 10)
    else none

-- `hex[from..to]`
abbrev pub slice : Bytes → ℕ → ℕ → Bytes
slice bytes from to = take (to - from) (drop from bytes)

unfoldable pub display : Bytes → Bytes
unfolding hex_encode
display bytes =
    let hex = hex_encode bytes in
    slice hex 0 8
    ++ 45
      ∷ (slice hex 8 12 ++ 45 ∷ (slice hex 12 16 ++ 45 ∷ (slice hex 16 20 ++ 45 ∷ slice hex 20 32)))

abbrev pub is_byte : Option ℕ → ℕ → Bool
is_byte none n = Bool.false
is_byte (some m) n = m == n

unfoldable pub is_dashed : Bytes → Bool
is_dashed bytes =
    length bytes == 36
    && is_byte (get_elem? bytes 8) 45
    && is_byte (get_elem? bytes 13) 45
    && is_byte (get_elem? bytes 18) 45
    && is_byte (get_elem? bytes 23) 45

abbrev pub is_dash_position : ℕ → Bool
is_dash_position position = position == 8 || position == 13 || position == 18 || position == 23

abbrev pub is_hex : ℕ → Bool
is_hex byte = between 48 57 byte || between 97 102 byte

abbrev pub prepend : Bytes → Result ContractErrorKind Bytes → Result ContractErrorKind Bytes
prepend xs (ok ys) = ok (xs ++ ys)
prepend xs (err e) = err e

-- The loop over the bytes with their positions.
unfoldable pub compact_from : ℕ → Bytes → Result ContractErrorKind Bytes
compact_from position [] = ok []
compact_from position (b ∷ rest) =
    let others = compact_from (position + 1) rest in
    if is_dash_position position
    then others
    else if is_hex b
    then prepend (b ∷ []) others
    else err invalid_character

abbrev pub join :
    Option ℕ → Option ℕ → Result ContractErrorKind Bytes → Result ContractErrorKind Bytes
join (some high) (some low) others = prepend ((high * 16 + low) ∷ []) others
join _ _ others = err malformed_payload

-- The loop over the pairs of digits; `(high << 4) | low` of four-bit values.
unfoldable pub from_pairs : Bytes → Result ContractErrorKind Bytes
unfolding lower_hex
from_pairs (high ∷ low ∷ rest) = join (lower_hex high) (lower_hex low) (from_pairs rest)
from_pairs _ = ok []

abbrev pub bind_pairs : Result ContractErrorKind Bytes → Result ContractErrorKind Bytes
bind_pairs (ok compact) = from_pairs compact
bind_pairs (err e) = err e

unfoldable pub parse : Bytes → Result ContractErrorKind Bytes
unfolding is_dashed compact_from from_pairs
parse value =
    if not (is_dashed value) then err invalid_character else bind_pairs (compact_from 0 value)
