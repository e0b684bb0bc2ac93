-- ===== src/Examples/Identifiers.antt =====
-- An identifier, displayed and parsed.
use eliot_search.Prelude.{◌≡◌, refl, [], ◌∷◌, Bytes, length, arith}
use eliot_search.Exec.{ok, err}
use eliot_search.Contracts.{
  invalid_character, digit, hex_encode, lower_hex, display, is_dashed, compact_from, from_pairs,
  parse,
}
use eliot_search.Contracts.Uuid.{parse-display}
use eliot_search.Contracts.Spelling.{display-parse}

abbrev identifier : Bytes
identifier =
    0 ∷ 17 ∷ 34 ∷ 51 ∷ 68 ∷ 85 ∷ 102 ∷ 119 ∷ 136 ∷ 153 ∷ 170 ∷ 187 ∷ 204 ∷ 221 ∷ 238 ∷ 255 ∷ []

-- "00112233-4455-6677-8899-aabbccddeeff"
displayed :
    display identifier
    ≡ 48 ∷ 48 ∷ 49 ∷ 49 ∷ 50 ∷ 50 ∷ 51 ∷ 51 ∷ 45 ∷ 52 ∷ 52 ∷ 53 ∷ 53 ∷ 45 ∷ 54 ∷ 54 ∷ 55 ∷ 55 ∷ 45
      ∷ 56 ∷ 56 ∷ 57 ∷ 57 ∷ 45 ∷ 97 ∷ 97 ∷ 98 ∷ 98 ∷ 99 ∷ 99 ∷ 100 ∷ 100 ∷ 101 ∷ 101 ∷ 102 ∷ 102
      ∷ []
unfolding display hex_encode digit
displayed = refl

not_dashed : parse (48 ∷ 49 ∷ []) ≡ err invalid_character
unfolding parse is_dashed
not_dashed = refl

parse-display_example : parse (display identifier) ≡ ok identifier
parse-display_example = parse-display identifier refl (ground arith)

-- "00112233-4455-6677-8899-aabbccddeeff"
abbrev spelling : Bytes
spelling =
    48 ∷ 48 ∷ 49 ∷ 49 ∷ 50 ∷ 50 ∷ 51 ∷ 51 ∷ 45 ∷ 52 ∷ 52 ∷ 53 ∷ 53 ∷ 45 ∷ 54 ∷ 54 ∷ 55 ∷ 55 ∷ 45
    ∷ 56 ∷ 56 ∷ 57 ∷ 57 ∷ 45 ∷ 97 ∷ 97 ∷ 98 ∷ 98 ∷ 99 ∷ 99 ∷ 100 ∷ 100 ∷ 101 ∷ 101 ∷ 102 ∷ 102 ∷ []

parsed : parse spelling ≡ ok identifier
unfolding parse is_dashed compact_from from_pairs lower_hex
parsed = refl

-- "00112233-4455-6677-8899-AABBCCDDEEFF"
upper_case :
    parse (
      48 ∷ 48 ∷ 49 ∷ 49 ∷ 50 ∷ 50 ∷ 51 ∷ 51 ∷ 45 ∷ 52 ∷ 52 ∷ 53 ∷ 53 ∷ 45 ∷ 54 ∷ 54 ∷ 55 ∷ 55 ∷ 45
      ∷ 56 ∷ 56 ∷ 57 ∷ 57 ∷ 45 ∷ 65 ∷ 65 ∷ 66 ∷ 66 ∷ 67 ∷ 67 ∷ 68 ∷ 68 ∷ 69 ∷ 69 ∷ 70 ∷ 70 ∷ [])
    ≡ err invalid_character
unfolding parse is_dashed compact_from
upper_case = refl

display-parse_example : (display identifier ≡ spelling) × (length identifier ≡ 16)
display-parse_example = display-parse spelling identifier parsed
