-- ===== src/Exact/Select.antt =====
-- exact_literal.rs, `select_sources`: the published inventory cut down to the sources that a request
-- selects. An entry of the inventory is any value with the identity of its source.
pub mod Search
pub mod Found
use eliot_search.Prelude.{
  ℕ, zero, suc, ◌+◌, ◌/◌, Bool, true, false, not, Option, none, some, List, [], ◌∷◌, Bytes, map,
  length, get_elem?, bytes_eq, leb, if◌then◌else◌,
}
use eliot_search.Exec.{Exec, Result, ok, err, pure, fail, refuse_if, reserve_with, ◌>>=◌, ◌>>◌}
use eliot_search.Contracts.{ContractErrorKind, parse}
use eliot_search.Protocol.Message.Text.{bytes_lt, contains}
use eliot_search.Exact.{QueryFailure, code, query_allocation_failed, check}

-- "EXACT_SELECTION_INVALID"
abbrev pub exact_selection_invalid : QueryFailure
exact_selection_invalid = code (
    69 ∷ 88 ∷ 65 ∷ 67 ∷ 84 ∷ 95 ∷ 83 ∷ 69 ∷ 76 ∷ 69 ∷ 67 ∷ 84 ∷ 73 ∷ 79 ∷ 78 ∷ 95 ∷ 73 ∷ 78 ∷ 86
    ∷ 65 ∷ 76 ∷ 73 ∷ 68 ∷ [])

-- "EXACT_SOURCE_NOT_PUBLISHED"
abbrev pub exact_source_not_published : QueryFailure
exact_source_not_published = code (
    69 ∷ 88 ∷ 65 ∷ 67 ∷ 84 ∷ 95 ∷ 83 ∷ 79 ∷ 85 ∷ 82 ∷ 67 ∷ 69 ∷ 95 ∷ 78 ∷ 79 ∷ 84 ∷ 95 ∷ 80 ∷ 85
    ∷ 66 ∷ 76 ∷ 73 ∷ 83 ∷ 72 ∷ 69 ∷ 68 ∷ [])

-- The key in the middle is the one, or the search goes on to its right or to its left.
unfoldable pub probe : Option Bytes → Bytes → Bool → Bool → Bool
probe none id left right = false
probe (some key) id left right =
    if bytes_eq key id then true else if bytes_lt key id then right else left

-- `binary_search_by_key(&id, …).is_ok()` in the keys from `low` to before `high`. Each round makes what
-- lies between them shorter.
unfoldable pub search_between : List Bytes → Bytes → ℕ → ℕ → ℕ → Bool
unfolding probe
search_between keys id zero low high = false
search_between keys id (suc fuel) low high =
    let middle = (low + high) / 2 in
    let right = search_between keys id fuel (middle + 1) high in
    let left = search_between keys id fuel low middle in
    if leb high low then false else probe (get_elem? keys middle) id left right

unfoldable pub is_published : List Bytes → Bytes → Bool
unfolding search_between
is_published keys id = search_between keys id (length keys) 0 (length keys)

abbrev pub parsed : Result ContractErrorKind Bytes → Exec QueryFailure Bytes
parsed (ok id) = pure id
parsed (err e) = fail exact_selection_invalid

-- The loop over the identities of the request.
unfoldable pub select_ids : List Bytes → List Bytes → Exec QueryFailure (List Bytes)
unfolding is_published parse
select_ids keys [] = pure []
select_ids keys (text ∷ texts) = do
  check
  id ← parsed (parse text)
  refuse_if (not (is_published keys id)) exact_source_not_published
  ids ← select_ids keys texts
  pure (id ∷ ids)

module _ {A : Type 0} (id_of : A → Bytes) where
  -- `inventory.retain(|entry| selected.contains(&entry.source.source_id))`
  unfoldable pub retain : List Bytes → List A → List A
  retain ids [] = []
  retain ids (entry ∷ entries) =
      let rest = retain ids entries in if contains ids (id_of entry) then entry ∷ rest else rest

  unfoldable pub select_sources : List A → Option (List Bytes) → Exec QueryFailure (List A)
  unfolding select_ids retain
  select_sources inventory none = check >> pure inventory
  select_sources inventory (some texts) = do
    reserve_with query_allocation_failed
    ids ← select_ids (map id_of inventory) texts
    check
    pure (retain ids inventory)
