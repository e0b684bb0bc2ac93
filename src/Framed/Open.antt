-- ===== src/Framed/Open.antt =====
-- framed_search/window.rs, the operations of a window that read what the store holds: `open` and
-- `expand`. The root and its published view, the searches but for their results, and the reading of a
-- context are parameters.
use eliot_search.Prelude.{
  ℕ, Option, none, some, List, [], ◌∷◌, Bytes, length, map, ltb, leb, get_elem?,
}
use eliot_search.Exec.{Exec, pure, ok_or, refuse_if, reserve_with, map_err, ◌>>=◌, ◌>>◌}
use eliot_search.Protocol.Message.Request.{SearchRequest, RawExactRequest, DecodedUtf8Request}
use eliot_search.Protocol.Message.Item.{SearchItem, StopReason}
use eliot_search.Protocol.Message.Raw.{RawExactResult}
use eliot_search.Protocol.Message.Decoded.{DecodedUtf8Result}
use eliot_search.Protocol.Message.Session.{WindowQuery, search, raw, decoded_utf8, validate_query}
use eliot_search.Protocol.Message.Window.{WindowItem, WindowSummary}
use eliot_search.Protocol.Message.Expansion.{WindowExpansion}
use eliot_search.Exact.{QueryFailure, code, query_allocation_failed, check}
use eliot_search.Exact.RawExact.{refuse}
use eliot_search.Framed.{Window, window_item_limit}

-- "QUERY_ENDPOINT_REQUIRED"
abbrev pub query_endpoint_required : QueryFailure
query_endpoint_required = code (
    81 ∷ 85 ∷ 69 ∷ 82 ∷ 89 ∷ 95 ∷ 69 ∷ 78 ∷ 68 ∷ 80 ∷ 79 ∷ 73 ∷ 78 ∷ 84 ∷ 95 ∷ 82 ∷ 69 ∷ 81 ∷ 85
    ∷ 73 ∷ 82 ∷ 69 ∷ 68 ∷ [])

-- "WINDOW_ITEM_NOT_EMITTED"
abbrev pub window_item_not_emitted : QueryFailure
window_item_not_emitted = code (
    87 ∷ 73 ∷ 78 ∷ 68 ∷ 79 ∷ 87 ∷ 95 ∷ 73 ∷ 84 ∷ 69 ∷ 77 ∷ 95 ∷ 78 ∷ 79 ∷ 84 ∷ 95 ∷ 69 ∷ 77 ∷ 73
    ∷ 84 ∷ 84 ∷ 69 ∷ 68 ∷ [])

-- The items of a result, and what its summary says of them.
abbrev pub Retrieved : Type 0
Retrieved = List WindowItem × WindowSummary

abbrev ranked_summary : ℕ → WindowSummary
ranked_summary generation = record {
  generation = generation;
  retained_items = 0;
  found_matches = none;
  scan_complete = none;
  complete_negative = none;
  result_stop = StopReason.complete;
}

abbrev raw_summary : ℕ → RawExactResult → WindowSummary
raw_summary generation result = record (ranked_summary generation) {
  found_matches = some result.matches;
  scan_complete = some result.scan_complete;
  complete_negative = some result.complete_negative;
  result_stop = result.stop;
}

abbrev decoded_summary : ℕ → DecodedUtf8Result → WindowSummary
decoded_summary generation result = record (ranked_summary generation) {
  found_matches = some result.matches;
  scan_complete = some result.scan_complete;
  complete_negative = some result.complete_negative;
  result_stop = result.stop;
}

-- `pinned` opens the root, pins its published view and says the generation of it; the searches are of
-- that view.
pub record Searches : Type 0 where
  pub pinned : Exec QueryFailure ℕ
  pub endpoint : Option Bytes
  pub verified : Bytes → SearchRequest → Exec QueryFailure (List SearchItem)
  pub raw_exact : ℕ → RawExactRequest → Exec QueryFailure RawExactResult
  pub decoded_exact : ℕ → DecodedUtf8Request → Exec QueryFailure DecodedUtf8Result

module _ (s : Searches) where
  -- The `match` on the query.
  unfoldable pub retrieve : ℕ → WindowQuery → Exec QueryFailure Retrieved
  retrieve generation (search request) = do
    endpoint ← ok_or s.endpoint query_endpoint_required
    items ← s.verified endpoint request
    pure (map WindowItem.search items, ranked_summary generation)
  retrieve generation (raw request) = do
    result ← s.raw_exact generation request
    pure (map WindowItem.raw result.items, raw_summary generation result)
  retrieve generation (decoded_utf8 request) = do
    result ← s.decoded_exact generation request
    pure (map WindowItem.decoded_utf8 result.items, decoded_summary generation result)

  -- `Window::open`
  unfoldable pub opened_window : WindowQuery → Exec QueryFailure Window
  unfolding retrieve
  opened_window query = do
    check
    map_err refuse (validate_query query)
    reserve_with query_allocation_failed
    generation ← s.pinned
    retrieved ← retrieve generation query
    refuse_if (ltb 255 (length retrieved.0)) window_item_limit
    check
    pure (record {
      items = retrieved.0;
      summary = record retrieved.1 { retained_items = length retrieved.0 };
      cursor = 0;
    })

-- `Window::expand`; `context` is `expand::execute` for a place, an item and the bytes before and behind.
module _ (context : ℕ → WindowItem → ℕ → ℕ → Exec QueryFailure WindowExpansion) where
  unfoldable pub expand_item : ℕ → ℕ → ℕ → Window → Exec QueryFailure WindowExpansion
  expand_item item_index before after window = do
    refuse_if (leb window.cursor item_index) window_item_not_emitted
    item ← ok_or (get_elem? window.items item_index) window_item_not_emitted
    context item_index item before after
