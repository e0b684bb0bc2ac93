-- ===== src/Protocol/Message/Text.antt =====
-- dto.rs, `lower_hex`, `canonical_uuid` and `FailureCode`: tests on text, which is its bytes.
use eliot_search.Prelude.{
  ℕ, ◌+◌, Bool, true, false, not, ◌&&◌, ◌||◌, Option, none, some, List, [], ◌∷◌, Bytes, length,
  bytes_eq, ltb, ◌==◌, if◌then◌else◌,
}
use eliot_search.Exec.{Exec, pure, refuse_if, ◌>>◌}
use eliot_search.Contracts.{is_hex, is_dash_position, between}
use eliot_search.Protocol.{ProtocolError, invalid_message}

abbrev pub bool_eq : Bool → Bool → Bool
bool_eq true b = b
bool_eq false b = not b

abbrev pub no_items {ℓ} : {A : Type ℓ} → List A → Bool
no_items [] = true
no_items (x ∷ xs) = false

-- `all` and `any` of an iterator.
abbrev pub all {ℓ} : {A : Type ℓ} → (A → Bool) → List A → Bool
all test [] = true
all test (x ∷ xs) = test x && all test xs

abbrev pub any {ℓ} : {A : Type ℓ} → (A → Bool) → List A → Bool
any test [] = false
any test (x ∷ xs) = test x || any test xs

-- `list.contains(text)`
abbrev pub contains : List Bytes → Bytes → Bool
contains texts text = any (λ t. bytes_eq t text) texts

-- `left < right` on texts.
abbrev pub bytes_lt : Bytes → Bytes → Bool
bytes_lt [] [] = false
bytes_lt [] (y ∷ ys) = true
bytes_lt (x ∷ xs) [] = false
bytes_lt (x ∷ xs) (y ∷ ys) = ltb x y || ((x == y) && bytes_lt xs ys)

abbrev pub is_length : Option ℕ → ℕ → Bool
is_length none n = false
is_length (some m) n = m == n

unfoldable pub lower_hex : Bytes → ℕ → Bool
lower_hex value len = (length value == len) && all is_hex value

abbrev pub is_spelled : ℕ → Bytes → Bool
is_spelled position [] = true
is_spelled position (b ∷ rest) =
    (if is_dash_position position then b == 45 else is_hex b) && is_spelled (position + 1) rest

unfoldable pub canonical_uuid : Bytes → Bool
canonical_uuid value =
    (length value == 36) && is_spelled 0 value && any (λ b. not (b == 48) && not (b == 45)) value

abbrev pub FailureCode : Type 0
FailureCode = Bytes

abbrev is_code_byte : ℕ → Bool
is_code_byte b = between 65 90 b || between 48 57 b || b == 95

unfoldable pub new_failure_code : Bytes → Exec ProtocolError FailureCode
new_failure_code code = do
  refuse_if (no_items code || ltb 64 (length code) || not (all is_code_byte code)) invalid_message
  pure code

-- "SOURCE_OBJECT_MISSING"
abbrev pub source_object_missing : FailureCode
source_object_missing =
    83 ∷ 79 ∷ 85 ∷ 82 ∷ 67 ∷ 69 ∷ 95 ∷ 79 ∷ 66 ∷ 74 ∷ 69 ∷ 67 ∷ 84 ∷ 95 ∷ 77 ∷ 73 ∷ 83 ∷ 83 ∷ 73
    ∷ 78 ∷ 71 ∷ []

-- "PREPARED_OBJECT_MISSING"
abbrev pub prepared_object_missing : FailureCode
prepared_object_missing =
    80 ∷ 82 ∷ 69 ∷ 80 ∷ 65 ∷ 82 ∷ 69 ∷ 68 ∷ 95 ∷ 79 ∷ 66 ∷ 74 ∷ 69 ∷ 67 ∷ 84 ∷ 95 ∷ 77 ∷ 73 ∷ 83
    ∷ 83 ∷ 73 ∷ 78 ∷ 71 ∷ []

-- "PREPARATION_GAP"
abbrev pub preparation_gap : FailureCode
preparation_gap = 80 ∷ 82 ∷ 69 ∷ 80 ∷ 65 ∷ 82 ∷ 65 ∷ 84 ∷ 73 ∷ 79 ∷ 78 ∷ 95 ∷ 71 ∷ 65 ∷ 80 ∷ []
