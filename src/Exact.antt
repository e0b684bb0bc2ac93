-- ===== src/Exact.antt =====
-- exact_literal.rs of the daemon: the search for a literal in bytes. A loop over byte positions
-- recurs on the bytes from that position on.
pub mod Calm
pub mod Border
pub mod Fall
pub mod Table
pub mod Occurrences
pub mod Scan
pub mod Visits
pub mod Select
pub mod RawExact
use eliot_search.Prelude.{
  ℕ, zero, suc, ◌+◌, ◌-◌, ◌%◌, Bool, true, false, Option, none, some, List, [], ◌∷◌, Bytes, length,
  get_elem?, drop, ◌==◌, if◌then◌else◌,
}
use eliot_search.Exec.{Exec, pure, ok_or, refuse_if, check_with, reserve_with, ◌>>=◌, ◌>>◌}
use eliot_search.Protocol.Buffer.{zeros}
use eliot_search.Protocol.Message.Text.{no_items}

-- `panic` is an index out of range, or a loop that does not end.
pub data QueryFailure : Type 0 where
  cancelled deadline panic : QueryFailure
  code : Bytes → QueryFailure

-- "EXACT_LITERAL_INVALID"
abbrev pub exact_literal_invalid : QueryFailure
exact_literal_invalid = code (
    69 ∷ 88 ∷ 65 ∷ 67 ∷ 84 ∷ 95 ∷ 76 ∷ 73 ∷ 84 ∷ 69 ∷ 82 ∷ 65 ∷ 76 ∷ 95 ∷ 73 ∷ 78 ∷ 86 ∷ 65 ∷ 76
    ∷ 73 ∷ 68 ∷ [])

-- "QUERY_ALLOCATION_FAILED"
abbrev pub query_allocation_failed : QueryFailure
query_allocation_failed = code (
    81 ∷ 85 ∷ 69 ∷ 82 ∷ 89 ∷ 95 ∷ 65 ∷ 76 ∷ 76 ∷ 79 ∷ 67 ∷ 65 ∷ 84 ∷ 73 ∷ 79 ∷ 78 ∷ 95 ∷ 70 ∷ 65
    ∷ 73 ∷ 76 ∷ 69 ∷ 68 ∷ [])

unfoldable pub check : Exec QueryFailure (Unit {0})
check = check_with cancelled deadline

abbrev pub block_bytes : ℕ
block_bytes = 8192

-- The head of a block: `check(deadline, cancel)?`.
unfoldable pub poll : ℕ → Exec QueryFailure (Unit {0})
unfolding check
poll at = if at % block_bytes == 0 then check else pure tt

pub record Literal : Type 0 where
  pub bytes : Bytes
  pub prefix : List ℕ

-- `prefix[index] = matched`
abbrev pub set_elem : List ℕ → ℕ → ℕ → List ℕ
set_elem [] index matched = []
set_elem (x ∷ xs) zero matched = matched ∷ xs
set_elem (x ∷ xs) (suc index) matched = x ∷ set_elem xs index matched

-- `while matched != 0 && byte != bytes[matched] { matched = prefix[matched - 1]; }` and the test
-- `byte == bytes[matched]` behind it.
unfoldable pub fall_back : Bytes → List ℕ → ℕ → ℕ → ℕ → Option ℕ
fall_back bytes prefix byte zero matched = none
fall_back bytes prefix byte (suc fuel) matched = elim (get_elem? bytes matched) [
  | none ↦ none
  | some c ↦ elim (byte == c) [
    | true ↦ some (matched + 1)
    | false ↦ elim (matched == 0) [
      | true ↦ some 0
      | false ↦ elim (get_elem? prefix (matched - 1)) [
        | none ↦ none
        | some next ↦ fall_back bytes prefix byte fuel next
      ]
    ]
  ]
]

-- Each fall makes `matched` smaller.
unfoldable pub advance : Bytes → List ℕ → ℕ → ℕ → Option ℕ
unfolding fall_back
advance bytes prefix byte matched = fall_back bytes prefix byte (matched + 1) matched

-- The loop over the positions from `index` on.
unfoldable pub compile : Bytes → Bytes → ℕ → List ℕ → ℕ → Option (List ℕ)
unfolding advance
compile bytes [] index prefix matched = some prefix
compile bytes (byte ∷ rest) index prefix matched = elim (advance bytes prefix byte matched) [
  | none ↦ none
  | some next ↦ compile bytes rest (index + 1) (set_elem prefix index next) next
]

unfoldable pub new : Bytes → Exec QueryFailure Literal
unfolding check compile
new bytes = do
  check
  refuse_if (no_items bytes) exact_literal_invalid
  reserve_with query_allocation_failed
  prefix ← ok_or (compile bytes (drop 1 bytes) 1 (zeros (length bytes)) 0) panic
  check
  pure (record { bytes = bytes; prefix = prefix })

-- A scan hands what it finds to `found`, which keeps a state of its own.
module _ {S : Type 0} (literal : Literal) (found : S → ℕ → ℕ → Exec QueryFailure S) where
  -- `if matched == self.bytes.len() { … }`: the state and the length that is matched behind `end`.
  unfoldable pub report : ℕ → ℕ → S → Exec QueryFailure (S × ℕ)
  report end matched s =
      if matched == length literal.bytes
      then (found s (end - length literal.bytes) end >>= λ s'.
          ok_or (get_elem? literal.prefix (matched - 1)) panic >>= λ next. pure (s', next))
      else pure (s, matched)

  unfoldable pub scan_from : Bytes → ℕ → ℕ → S → Exec QueryFailure S
  unfolding poll advance report
  scan_from [] at matched s = check >> pure s
  scan_from (byte ∷ rest) at matched s = do
    poll at
    next ← ok_or (advance literal.bytes literal.prefix byte matched) panic
    reported ← report (at + 1) next s
    scan_from rest (at + 1) reported.1 reported.0

  unfoldable pub scan : Bytes → S → Exec QueryFailure S
  unfolding scan_from
  scan input s = scan_from input 0 0 s
