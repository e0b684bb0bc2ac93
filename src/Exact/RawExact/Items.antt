-- ===== src/Exact/RawExact/Items.antt =====
-- What the callback of a raw scan makes of the ranges that it is handed.
use eliot_search.Prelude.{
  inl, inr, ℕ, zero, suc, ◌+◌, ◌-◌, ◌≤◌, ◌≡◌, refl, sym, ap, ap₂, ◌∙◌, true, false, some, List, [],
  ◌∷◌, ◌++◌, append-nil, append_assoc, arith, Bytes, length, take, drop, take-length, take_all,
  length-append, ltb, ltb→lt, ltb→le, Bool-cases, if◌then◌else◌,
}
use eliot_search.Prelude.Words.{max_u64, checked_add, checked_add-some}
use eliot_search.Exec.{Env, Result, ok, calm, pure, ok_or, reserve_with, ◌>>=◌}
use eliot_search.Exec.Ensures.{bind-at}
use eliot_search.Protocol.Message.Object.{RawSourceRef}
use eliot_search.Protocol.Message.Raw.{RawExactItem, RawExactResult}
use eliot_search.Exact.{QueryFailure}
use eliot_search.Exact.RawExact.{
  exact_input_limit, evidence_range_invalid, hex_text, hex, get_range, keep_match, on_match,
}
use eliot_search.Exact.Visits.{visit}

-- The item of a range.
abbrev pub match_of : RawSourceRef → Bytes → ℕ → ℕ → RawExactItem
match_of binding bytes start end = RawExactItem.match (record {
  source = binding;
  start = start;
  end = end;
  bytes_hex = hex_text (take (end - start) (drop start bytes));
})

abbrev pub matches_of : RawSourceRef → Bytes → List (ℕ × ℕ) → List RawExactItem
matches_of binding bytes [] = []
matches_of binding bytes ((start, end) ∷ ranges) =
    match_of binding bytes start end ∷ matches_of binding bytes ranges

-- The items that are kept, of those so far and those that follow.
pub keep : ℕ → List RawExactItem → RawExactItem → List RawExactItem
keep limit items item = if ltb (length items) limit then items ++ item ∷ [] else items

-- Ranges within a text of so many bytes.
abbrev pub AreInside : ℕ → List (ℕ × ℕ) → Type 0
AreInside size [] = Unit
AreInside size ((start, end) ∷ ranges) = (start ≤ end) × (end ≤ size) × AreInside size ranges

pub take-append_full :
    (limit : ℕ) (xs ys : List RawExactItem) → length xs ≡ limit → take limit (xs ++ ys) ≡ xs
take-append_full limit xs ys h = ap (λ n. take n (xs ++ ys)) (sym h) ∙ take-length xs ys

pub take-take-append :
    (limit : ℕ) (xs ys : List RawExactItem)
    → take limit (take limit xs ++ ys) ≡ take limit (xs ++ ys)
take-take-append zero xs ys = refl
take-take-append (suc limit) [] ys = refl
take-take-append (suc limit) (x ∷ xs) ys = ap (λ l. x ∷ l) (take-take-append limit xs ys)

module _ (binding : RawSourceRef) (bytes : Bytes) (limit : ℕ) where
  hex-calm : (text : Bytes) → hex text calm ≡ ok (hex_text text, calm)
  unfolding hex reserve_with pure ◌>>=◌
  hex-calm text = refl

  get_range-inside :
      (start end : ℕ)
      → start ≤ end
      → end ≤ length bytes
      → get_range bytes start end ≡ some (take (end - start) (drop start bytes))
  get_range-inside start end low high = ground arith

  -- With room for it the item is kept, and otherwise the result stays.
  keep_match-room :
      (result : RawExactResult) (start end : ℕ)
      → ltb (length result.items) limit ≡ true
      → start ≤ end
      → end ≤ length bytes
      → keep_match binding bytes limit result start end calm
        ≡ ok (record result { items = result.items ++ match_of binding bytes start end ∷ [] }, calm)
  unfolding keep_match pure ok_or
  keep_match-room result start end room low high =
      rw (room, keep_match)
        (bind-at (ok_or (get_range bytes start end) evidence_range_invalid) _
            (ap (λ o. ok_or o evidence_range_invalid calm) (get_range-inside start end low high))
          ∙ bind-at (hex (take (end - start) (drop start bytes))) _ (hex-calm _))

  keep_match-full :
      (result : RawExactResult) (start end : ℕ)
      → ltb (length result.items) limit ≡ false
      → keep_match binding bytes limit result start end calm ≡ ok (result, calm)
  unfolding keep_match pure
  keep_match-full result start end full = rw (full, keep_match) refl

  -- A result with so many matches more and other items.
  abbrev pub grown : RawExactResult → ℕ → List RawExactItem → RawExactResult
  grown result n items = record result { matches = result.matches + n; items = items }

  counted :
      (result : RawExactResult)
      → result.matches + 1 ≤ max_u64
      → ok_or (checked_add result.matches 1) exact_input_limit calm ≡ ok (result.matches + 1, calm)
  unfolding ok_or pure
  counted result small =
      ap (λ o. ok_or o exact_input_limit calm) (checked_add-some result.matches 1 small)

  abbrev returned : RawExactResult → Result QueryFailure (RawExactResult × Env)
  returned result = ok (result, calm)

  grown-grown :
      (result : RawExactResult) (n : ℕ) (first items last : List RawExactItem)
      → items ≡ last
      → result.matches + 1 + n ≡ result.matches + suc n
      → returned (grown (grown result 1 first) n items) ≡ returned (grown result (suc n) last)
  grown-grown result n first items last same sum =
      ap₂ (λ m l. returned (record result { matches = m; items = l })) sum same

  pub visit-on_match :
      (ranges : List (ℕ × ℕ)) (result : RawExactResult)
      → AreInside (length bytes) ranges
      → result.matches + length ranges ≤ max_u64
      → length result.items ≤ limit
      → visit (on_match binding bytes limit) result ranges calm
        ≡ ok (
          grown result
              (length ranges)
              (take limit (result.items ++ matches_of binding bytes ranges)),
          calm,
        )
  unfolding visit on_match pure
  visit-on_match [] result inside small few =
      ap₂ (λ m l. ok (record result { matches = m; items = l }, calm)) (omega arith)
        (sym (ap (take limit) (append-nil result.items) ∙ take_all limit result.items few))
  visit-on_match ((start, end) ∷ ranges) result (low, high, inside) small few =
      elim (Bool-cases (ltb (length result.items) limit)) [
        | inl room ↦
            let item : RawExactItem = match_of binding bytes start end in
            let first : List RawExactItem = result.items ++ item ∷ [] in
            bind-at (on_match binding bytes limit result start end) _ (
              bind-at (ok_or (checked_add result.matches 1) exact_input_limit) _
                (counted result (omega arith))
              ∙ keep_match-room (record result { matches = result.matches + 1 }) start end room low
                  high)
            ∙ (visit-on_match ranges (grown result 1 first) inside (omega arith) (
                  let less = ltb→lt _ _ room in
                  omega (arith, length-append result.items (item ∷ [])))
                ∙ grown-grown result (length ranges) first _ _
                    (ap (take limit)
                      (append_assoc result.items (item ∷ []) (matches_of binding bytes ranges)))
                    (omega arith))
        | inr full ↦
            let at_limit : length result.items ≡ limit = let le = ltb→le _ _ full in omega arith in
            bind-at (on_match binding bytes limit result start end) _ (
              bind-at (ok_or (checked_add result.matches 1) exact_input_limit) _
                (counted result (omega arith))
              ∙ keep_match-full (record result { matches = result.matches + 1 }) start end full)
            ∙ (visit-on_match ranges (grown result 1 result.items) inside (omega arith) few
                ∙ grown-grown result (length ranges) result.items _ _
                    (take-append_full limit result.items _ at_limit
                      ∙ sym (take-append_full limit result.items _ at_limit))
                    (omega arith))
      ]
