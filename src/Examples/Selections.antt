-- ===== src/Examples/Selections.antt =====
-- Two of three sources selected, in another order.
use eliot_search.Prelude.{ℕ, zero, suc, ◌≡◌, refl, some, List, [], ◌∷◌, Bytes, arith}
use eliot_search.Exec.{ok, calm}
use eliot_search.Contracts.{display}
use eliot_search.Contracts.Uuid.{parse-display}
use eliot_search.Exact.Select.{select_sources}
use eliot_search.Exact.Select.Found.{Parses, IsSelection, select_sources-IsSelection}

-- Sixteen equal bytes.
abbrev bytes_of : ℕ → ℕ → Bytes
bytes_of zero b = []
bytes_of (suc n) b = b ∷ bytes_of n b

abbrev source : ℕ → Bytes
source b = bytes_of 16 b

last-Parses : Parses (display (source 1) ∷ []) (source 1 ∷ [])
last-Parses = (parse-display (source 1) refl (ground arith), tt)

select_sources-IsSelection_example :
    (selected : List Bytes) × (select_sources
        (λ s. s)
        (source 1 ∷ source 2 ∷ source 3 ∷ [])
        (some (display (source 3) ∷ display (source 1) ∷ []))
        calm
      ≡ ok (selected, calm))
    × IsSelection (λ s. s) (source 1 ∷ source 2 ∷ source 3 ∷ []) (source 3 ∷ source 1 ∷ []) selected
select_sources-IsSelection_example =
    select_sources-IsSelection (λ s. s) (source 1 ∷ source 2 ∷ source 3 ∷ [])
      (display (source 3) ∷ display (source 1) ∷ []) (source 3 ∷ source 1 ∷ [])
      ((refl, (refl, tt)), ((refl, tt), (tt, tt)))
      (parse-display (source 3) refl (ground arith), last-Parses) ((2, refl), ((0, refl), tt))
