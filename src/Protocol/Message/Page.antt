-- ===== src/Protocol/Message/Page.antt =====
-- dto.rs, `validate_request` of `WindowItem` and `WindowPage`: a page against the query and the pages
-- before it.
pub mod Ordered
use eliot_search.Prelude.{
  ℕ, ◌+◌, ◌-◌, min, Bool, true, false, not, ◌&&◌, ◌||◌, Option, none, some, List, [], ◌∷◌, ◌++◌,
  Bytes, length, bytes_eq, ltb, ◌==◌, if◌then◌else◌,
}
use eliot_search.Prelude.Words.{checked}
use eliot_search.Exec.{Exec, pure, fail, refuse_if, ◌>>=◌, ◌>>◌}
use eliot_search.Protocol.{ProtocolError, invalid_message}
use eliot_search.Protocol.Message.Text.{bool_eq, contains, bytes_lt, is_length}
use eliot_search.Protocol.Message.Object.{RawSourceRef, source_eq}
use eliot_search.Protocol.Message.Item.{SearchItem, rank_of, evidence_of, is_complete}
use eliot_search.Protocol.Message.Raw
use eliot_search.Protocol.Message.Raw.{RawExactItem, raw_source, is_other_literal}
use eliot_search.Protocol.Message.Decoded
use eliot_search.Protocol.Message.Decoded.{DecodedUtf8Item, decoded_source, is_other_text}
use eliot_search.Protocol.Message.Session.{
  WindowQuery, validate_query, validate_page_size, limit_of,
}
use eliot_search.Protocol.Message.Window.{
  WindowItem, WindowEntry, WindowSummary, WindowPage, validate_window_item, validate_page, is_none,
  is_true,
}

-- The source is not one of those selected.
abbrev pub is_outside : Option (List Bytes) → RawSourceRef → Bool
is_outside none s = false
is_outside (some ids) s = not (contains ids s.source_id)

unfoldable pub match_query : WindowItem → WindowQuery → Exec ProtocolError (Unit {0})
unfolding raw_source decoded_source is_other_literal
match_query (WindowItem.search item) (WindowQuery.search request) = pure tt
match_query (WindowItem.raw item) (WindowQuery.raw request) = do
  refuse_if (is_other_literal request.literal item) invalid_message
  refuse_if (is_outside request.source_ids (raw_source item)) invalid_message
match_query (WindowItem.decoded_utf8 item) (WindowQuery.decoded_utf8 request) = do
  refuse_if (is_other_text request.literal item) invalid_message
  refuse_if (is_outside request.source_ids (decoded_source item)) invalid_message
match_query _ _ = fail invalid_message

unfoldable pub validate_item_request : WindowItem → WindowQuery → ℕ → Exec ProtocolError (Unit {0})
unfolding match_query
validate_item_request item query generation = do
  validate_window_item item generation
  match_query item query

abbrev pub follows_source : RawSourceRef → RawSourceRef → Bool → Bool
follows_source left right before =
    bytes_eq left.source_namespace_id right.source_namespace_id
    && (bytes_lt left.source_id right.source_id || (source_eq left right && before))

-- `rank.checked_add(1)` of an eight-bit rank.
abbrev pub checked_next : ℕ → Option ℕ
checked_next rank = if ltb rank 255 then some (rank + 1) else none

unfoldable pub is_ordered : WindowItem → WindowItem → Bool
unfolding rank_of raw_source decoded_source
is_ordered (WindowItem.search a) (WindowItem.search b) =
    is_length (checked_next (rank_of a)) (rank_of b)
is_ordered (WindowItem.raw a) (WindowItem.raw b) =
    follows_source (raw_source a) (raw_source b) (Raw.is_before a b)
is_ordered (WindowItem.decoded_utf8 a) (WindowItem.decoded_utf8 b) =
    follows_source (decoded_source a) (decoded_source b) (Decoded.is_before a b)
is_ordered _ _ = false

-- What the loop over the entries keeps: matches, gaps, the points so far and the item before.
pub record Tally : Type 0 where
  pub found : ℕ
  pub gaps : ℕ
  pub points : List Bytes
  pub previous : Option WindowItem

abbrev pub fresh_tally : Tally
fresh_tally = record { found = 0; gaps = 0; points = []; previous = none }

unfoldable pub count_item : WindowItem → Tally → Exec ProtocolError Tally
unfolding evidence_of
count_item (WindowItem.search item) t = do
  refuse_if (contains t.points (evidence_of item).point_id) invalid_message
  pure (record t { points = t.points ++ (evidence_of item).point_id ∷ [] })
count_item (WindowItem.raw item) t =
    pure (
      if Raw.is_match item
      then record t { found = t.found + 1 }
      else record t { gaps = t.gaps + 1 })
count_item (WindowItem.decoded_utf8 item) t = pure (
    if Decoded.is_match item
    then record t { found = t.found + 1 }
    else record t { gaps = t.gaps + 1 })

unfoldable pub validate_order : Option WindowItem → WindowItem → Exec ProtocolError (Unit {0})
unfolding is_ordered
validate_order none item = pure tt
validate_order (some left) item = refuse_if (not (is_ordered left item)) invalid_message

unfoldable pub tally_entries : WindowQuery → ℕ → List WindowEntry → Tally → Exec ProtocolError Tally
unfolding validate_item_request count_item validate_order
tally_entries query generation [] t = pure t
tally_entries query generation (entry ∷ entries) t = do
  validate_item_request entry.item query generation
  t' ← count_item entry.item t
  validate_order t'.previous entry.item
  tally_entries query generation entries (record t' { previous = some entry.item })

abbrev pub is_search_query : WindowQuery → Bool
is_search_query (WindowQuery.search request) = true
is_search_query _ = false

-- `flag == Some(b)`
abbrev is_flag : Option Bool → Bool → Bool
is_flag none b = false
is_flag (some a) b = bool_eq a b

-- The items so far contradict the counts of the summary.
unfoldable pub is_miscounted : WindowPage → ℕ → ℕ → Bool
is_miscounted page found gaps = elim page.summary.found_matches [
  | none ↦ false
  | some total ↦
      ltb total found
      || (ltb 0 gaps && is_true page.summary.scan_complete)
      || (page.next_index == page.summary.retained_items
          && is_complete page.summary.result_stop
          && (not (found == total) || not (is_flag page.summary.scan_complete (gaps == 0))))
]

unfoldable pub validate_page_request :
    WindowPage → WindowQuery → List WindowEntry → ℕ → Exec ProtocolError (Unit {0})
unfolding tally_entries is_miscounted
validate_page_request page query emitted page_size = do
  validate_page page
  validate_query query
  validate_page_size page_size
  let expected = min page_size (page.summary.retained_items - length emitted)
  refuse_if
      (not (page.start_index == length emitted)
        || ltb (limit_of query) page.summary.retained_items
        || ltb expected (length page.items)
        || not (bool_eq (is_complete page.page_stop) (length page.items == expected))
        || not (bool_eq (is_search_query query) (is_none page.summary.found_matches)))
      invalid_message
  t ← tally_entries query page.summary.generation (emitted ++ page.items) fresh_tally
  refuse_if (is_miscounted page t.found t.gaps) invalid_message
