-- ===== src/Examples/Literals.antt =====
-- Scans for a literal that overlaps itself.
use eliot_search.Prelude.{ℕ, ◌≡◌, refl, List, [], ◌∷◌, ◌++◌, Bytes, length}
use eliot_search.Exec.{ok, calm, Exec, pure, ok_or, ◌>>=◌, check_with, reserve_with, refuse_if}
use eliot_search.Exact.{
  QueryFailure, Literal, new, scan, check, poll, scan_from, report, compile, advance, fall_back,
}
use eliot_search.Exact.Occurrences.{occurrences}
use eliot_search.Exact.Visits.{visit, scan-new}
use eliot_search.Exact.Calm.{KeepsCalm}

-- The ranges that were found so far.
abbrev record_range : List (ℕ × ℕ) → ℕ → ℕ → Exec QueryFailure (List (ℕ × ℕ))
record_range ranges start end = pure (ranges ++ (start, end) ∷ [])

record_range-KeepsCalm : (s : List (ℕ × ℕ)) (a b : ℕ) → KeepsCalm (record_range s a b)
unfolding pure
record_range-KeepsCalm s a b = record { at = λ s' env' h. cc }

-- "aba" in "ababa", with the borders 0, 0 and 1.
abbrev aba : Literal
aba = record { bytes = 97 ∷ 98 ∷ 97 ∷ []; prefix = 0 ∷ 0 ∷ 1 ∷ [] }

aba_compiled : new (97 ∷ 98 ∷ 97 ∷ []) calm ≡ ok (aba, calm)
unfolding new check compile advance fall_back ok_or pure ◌>>=◌ check_with reserve_with refuse_if
aba_compiled = refl

aba_found :
    scan aba record_range (97 ∷ 98 ∷ 97 ∷ 98 ∷ 97 ∷ []) [] calm ≡ ok ((0, 3) ∷ (2, 5) ∷ [], calm)
unfolding scan scan_from report poll check advance fall_back ok_or pure ◌>>=◌ check_with
aba_found = refl

scan-new_example :
    (literal : Literal) × (new (97 ∷ 98 ∷ 97 ∷ []) calm ≡ ok (literal, calm))
    × ((input : Bytes) (s : List (ℕ × ℕ))
        → scan literal record_range input s calm
          ≡ visit record_range s (occurrences (97 ∷ 98 ∷ 97 ∷ []) input 0 (length input)) calm)
scan-new_example = scan-new record_range 97 (98 ∷ 97 ∷ []) record_range-KeepsCalm
