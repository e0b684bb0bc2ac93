-- ===== src/Examples/Messages.antt =====
-- Messages that pass their validation: a raw result, a decoded result, a terminal and two pages.
use eliot_search.Prelude.{
  ◌+◌, ℕ, zero, suc, ◌≤◌, ◌≡◌, refl, true, false, none, some, [], ◌∷◌, Bytes,
}
use eliot_search.Exec.{ok, calm, pure, fail, ok_or, refuse_if, ◌>>=◌}
use eliot_search.Contracts
use eliot_search.Protocol.{query_request_id, max_items}
use eliot_search.Protocol.Message.Text.{lower_hex, canonical_uuid}
use eliot_search.Protocol.Message.Request.{
  RawExactRequest, DecodedUtf8Request, validate_search_request, validate_raw_request,
  validate_decoded_request, validate_ids,
}
use eliot_search.Protocol.Message.Object.{
  ObjectKindDto, ObjectRefDto, validate_object, from_hex, validate_evidence, RawSourceRef,
  validate_source,
}
use eliot_search.Protocol.Message.Item.{
  SearchItem, StopReason, rank_of, evidence_of, validate_score, validate_item,
}
use eliot_search.Protocol.Message.Raw.{
  RawExactItem, RawExactResult, raw_source, validate_raw_range, validate_raw_item, is_misaccounted,
  compare_raw, count_raw_items, validate_raw_result, is_other_literal, validate_raw_answer,
}
use eliot_search.Protocol.Message.Raw.Literal as RawLiteral
use eliot_search.Protocol.Message.Decoded.{
  DecodedUtf8Item, DecodedUtf8Result, decoded_source, validate_decoded_range, validate_decoded_item,
  compare_decoded, count_decoded_items, validate_decoded_result, validate_decoded_answer,
}
use eliot_search.Protocol.Message.Decoded.Ordered as DecodedOrdered
use eliot_search.Protocol.Message.Terminal.{
  QueryOutcome, Terminal, validate_ranked, validate_outcome, validate_terminal,
}
use eliot_search.Protocol.Message.Terminal.Ranked.{IsOutcome, validate_terminal-IsOutcome}
use eliot_search.Protocol.Message.Session.{
  WindowQuery, validate_query, limit_of, validate_page_size, validate_window_id,
}
use eliot_search.Protocol.Message.Window.{
  WindowItem, WindowEntry, WindowPage, validate_window_item, is_inconsistent, validate_entries,
  validate_page,
}
use eliot_search.Protocol.Message.Window.Entries.{IsPage, validate_page-IsPage}
use eliot_search.Protocol.Message.Page.{
  match_query, validate_item_request, is_ordered, count_item, validate_order, tally_entries,
  is_miscounted, validate_page_request,
}
use eliot_search.Protocol.Message.Page.Ordered.{IsNext, validate_page_request-IsNext}

-- A number of zeros in ASCII before a text.
abbrev padded : ℕ → Bytes → Bytes
padded zero text = text
padded (suc n) text = 48 ∷ padded n text

-- 00000000-0000-0000-0000-00000000000d
abbrev uuid : ℕ → Bytes
uuid d = padded 8 (45 ∷ padded 4 (45 ∷ padded 4 (45 ∷ padded 4 (45 ∷ padded 11 (d ∷ [])))))

abbrev source_object : ObjectRefDto
source_object = record {
  version = 1;
  kind = ObjectKindDto.source;
  digest = padded 64 [];
  bytes = 10;
}

abbrev prepared_object : ObjectRefDto
prepared_object = record {
  version = 1;
  kind = ObjectKindDto.prepared;
  digest = padded 64 [];
  bytes = 90;
}

abbrev pub cited_source : RawSourceRef
cited_source = record {
  source_namespace_id = uuid 49;
  source_id = uuid 50;
  row_revision = 1;
  registration_revision = 1;
  input = source_object;
}

-- "ab", found at 2 and at 6.
abbrev pub raw_match : ℕ → RawExactItem
raw_match start = RawExactItem.match (record {
  source = cited_source;
  start = start;
  end = start + 2;
  bytes_hex = 54 ∷ 49 ∷ 54 ∷ 50 ∷ [];
})

abbrev raw_result : RawExactResult
raw_result = record {
  generation = 1;
  selected_sources = 1;
  scanned_sources = 1;
  missing_sources = 0;
  scanned_bytes = 10;
  matches = 2;
  items = raw_match 2 ∷ raw_match 6 ∷ [];
  scan_complete = true;
  complete_negative = false;
  stop = StopReason.complete;
}

abbrev raw_request : RawExactRequest
raw_request = record { literal = 97 ∷ 98 ∷ []; source_ids = some (uuid 50 ∷ []); limit = 5 }

raw_answer_valid : validate_raw_answer raw_result raw_request calm ≡ ok (tt, calm)
unfolding Contracts.digit validate_raw_answer validate_raw_request validate_ids is_other_literal
    validate_raw_result is_misaccounted count_raw_items compare_raw validate_raw_item
    validate_raw_range raw_source validate_source validate_object canonical_uuid lower_hex refuse_if
    ok_or pure fail ◌>>=◌
raw_answer_valid = refl

validate_raw_answer-IsAnswer_example : RawLiteral.IsAnswer raw_result raw_request
validate_raw_answer-IsAnswer_example =
    RawLiteral.validate_raw_answer-IsAnswer raw_result raw_request calm calm raw_answer_valid

abbrev decoded_match : ℕ → DecodedUtf8Item
decoded_match start = DecodedUtf8Item.match (record {
  source = cited_source;
  prepared_object = prepared_object;
  representation_start = start;
  representation_end = start + 2;
  source_start = start;
  source_end = start + 2;
  text = 97 ∷ 98 ∷ [];
})

abbrev decoded_result : DecodedUtf8Result
decoded_result = record {
  generation = 1;
  selected_sources = 1;
  scanned_sources = 1;
  gap_sources = 0;
  scanned_bytes = 10;
  matches = 2;
  items = decoded_match 2 ∷ decoded_match 6 ∷ [];
  scan_complete = true;
  complete_negative = false;
  stop = StopReason.complete;
}

abbrev decoded_request : DecodedUtf8Request
decoded_request = record { literal = 97 ∷ 98 ∷ []; source_ids = some (uuid 50 ∷ []); limit = 5 }

decoded_answer_valid : validate_decoded_answer decoded_result decoded_request calm ≡ ok (tt, calm)
unfolding validate_decoded_answer validate_decoded_request validate_ids validate_decoded_result
    is_misaccounted count_decoded_items compare_decoded validate_decoded_item validate_decoded_range
    decoded_source validate_source validate_object canonical_uuid lower_hex refuse_if ok_or pure
    fail ◌>>=◌
decoded_answer_valid = refl

validate_decoded_answer-IsAnswer_example : DecodedOrdered.IsAnswer decoded_result decoded_request
validate_decoded_answer-IsAnswer_example =
    DecodedOrdered.validate_decoded_answer-IsAnswer decoded_result decoded_request calm calm
      decoded_answer_valid

-- A unit of two bytes, of the generation 1.
abbrev pub ranked_hit : ℕ → ℕ → SearchItem
ranked_hit rank point = SearchItem.hit (record {
  rank = rank;
  score = 0;
  evidence = record {
    generation = 1;
    point_id = padded 15 (49 ∷ padded 15 (point ∷ []));
    source_namespace_id = uuid 49;
    source_id = uuid 50;
    input = source_object;
    prepared_object = prepared_object;
    unit = 0;
    start = 2;
    end = 4;
    line_start = 0;
    line_end = 1;
    starts_at_line_boundary = false;
    ends_at_line_boundary = false;
  };
  unit_text = 97 ∷ 98 ∷ [];
})

abbrev pub terminal : Terminal
terminal = record {
  request_id = 1;
  outcome = QueryOutcome.complete 1 (ranked_hit 1 49 ∷ ranked_hit 2 50 ∷ []) StopReason.complete;
}

pub terminal_valid : validate_terminal terminal max_items calm ≡ ok (tt, calm)
unfolding validate_terminal validate_outcome validate_ranked validate_item validate_score
    evidence_of rank_of validate_evidence from_hex validate_object canonical_uuid lower_hex
    Contracts.lower_hex refuse_if ok_or pure fail ◌>>=◌
terminal_valid = refl

validate_terminal-IsOutcome_example :
    (terminal.request_id ≡ query_request_id)
    × (max_items ≤ max_items)
    × IsOutcome max_items terminal.outcome
validate_terminal-IsOutcome_example =
    validate_terminal-IsOutcome terminal max_items calm calm terminal_valid

abbrev entry : ℕ → WindowEntry
entry index = record {
  item_index = index;
  item = WindowItem.search (ranked_hit (index + 1) (49 + index));
}

-- The second and last page of a window of two items.
abbrev pub second_page : WindowPage
second_page = record {
  window_id = 1;
  summary = record {
    generation = 1;
    retained_items = 2;
    found_matches = none;
    scan_complete = none;
    complete_negative = none;
    result_stop = StopReason.complete;
  };
  start_index = 1;
  next_index = 2;
  items = entry 1 ∷ [];
  has_more = false;
  page_stop = StopReason.complete;
}

pub second_page_valid : validate_page second_page calm ≡ ok (tt, calm)
unfolding validate_page validate_window_id is_inconsistent validate_entries validate_window_item
    validate_item validate_score evidence_of rank_of validate_evidence from_hex validate_object
    canonical_uuid lower_hex Contracts.lower_hex refuse_if ok_or pure fail ◌>>=◌
second_page_valid = refl

validate_page-IsPage_example : IsPage second_page
validate_page-IsPage_example = validate_page-IsPage second_page calm calm second_page_valid

abbrev query : WindowQuery
query = WindowQuery.search (record { query = 97 ∷ []; limit = 5 })

second_page_next : validate_page_request second_page query (entry 0 ∷ []) 4 calm ≡ ok (tt, calm)
unfolding validate_page_request validate_query validate_search_request validate_page_size limit_of
    tally_entries validate_item_request match_query count_item validate_order is_ordered
    is_miscounted validate_page validate_window_id is_inconsistent validate_entries
    validate_window_item validate_item validate_score evidence_of rank_of validate_evidence from_hex
    validate_object canonical_uuid lower_hex Contracts.lower_hex refuse_if ok_or pure fail ◌>>=◌
second_page_next = refl

validate_page_request-IsNext_example : IsNext second_page query (entry 0 ∷ []) 4
validate_page_request-IsNext_example =
    validate_page_request-IsNext second_page query (entry 0 ∷ []) 4 calm calm second_page_next
