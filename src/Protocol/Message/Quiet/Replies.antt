-- ===== src/Protocol/Message/Quiet/Replies.antt =====
-- The validations of results and replies do not look at the environment.
use eliot_search.Prelude.{ℕ, Option, none, some, List, [], ◌∷◌, ◌+◌, Bytes}
use eliot_search.Exec.Quiet.{Quiet, Quiet-bind}
use eliot_search.Protocol.Message.Object.{
  ObjectKindDto, ObjectRefDto, EvidenceMetadata, RawSourceRef, validate_object, validate_evidence,
  validate_source,
}
use eliot_search.Protocol.Message.Item.{SearchItem, validate_score, validate_item}
use eliot_search.Protocol.Message.Raw.{
  RawExactItem, RawExactResult, validate_raw_range, validate_raw_item, compare_raw, count_raw_items,
  validate_raw_result,
}
use eliot_search.Protocol.Message.Decoded.{
  DecodedUtf8Item, DecodedUtf8Result, validate_gap, validate_decoded_range, validate_decoded_item,
  compare_decoded, count_decoded_items, validate_decoded_result,
}
use eliot_search.Protocol.Message.Terminal.{
  QueryOutcome, Terminal, validate_ranked, validate_outcome, validate_terminal,
}
use eliot_search.Protocol.Message.Session.{validate_window_id}
use eliot_search.Protocol.Message.Window.{
  WindowItem, WindowEntry, WindowSummary, WindowPage, validate_window_item, validate_entries,
  validate_page,
}
use eliot_search.Protocol.Message.Expansion
use eliot_search.Protocol.Message.Expansion.{ExpansionContent, WindowExpansion, validate_expansion}
use eliot_search.Protocol.Message.Reply.{
  SessionOutcome, SessionReply, validate_session_outcome, validate_session_reply,
}
use eliot_search.Protocol.Message.Quiet.{quiet}

validate_object-Quiet :
    (object : ObjectRefDto) (kind : ObjectKindDto) → Quiet (validate_object object kind)
unfolding validate_object
validate_object-Quiet object kind = search quiet

validate_evidence-Quiet :
    (e : EvidenceMetadata) (generation : ℕ) → Quiet (validate_evidence e generation)
unfolding validate_evidence
validate_evidence-Quiet e generation = search quiet

validate_source-Quiet : (s : RawSourceRef) → Quiet (validate_source s)
unfolding validate_source
validate_source-Quiet s = search quiet

validate_score-Quiet : (item : SearchItem) → Quiet (validate_score item)
unfolding validate_score
validate_score-Quiet (SearchItem.hit h) = search quiet
validate_score-Quiet (SearchItem.gap g) = search quiet

pub validate_item-Quiet :
    (item : SearchItem) (generation : ℕ) → Quiet (validate_item item generation)
unfolding validate_item
validate_item-Quiet item generation = search (quiet, validate_score-Quiet, validate_evidence-Quiet)

validate_raw_range-Quiet : (item : RawExactItem) → Quiet (validate_raw_range item)
unfolding validate_raw_range
validate_raw_range-Quiet (RawExactItem.match h) = search quiet
validate_raw_range-Quiet (RawExactItem.gap g) = search quiet

validate_raw_item-Quiet : (item : RawExactItem) → Quiet (validate_raw_item item)
unfolding validate_raw_item
validate_raw_item-Quiet item = search (quiet, validate_source-Quiet, validate_raw_range-Quiet)

compare_raw-Quiet :
    (previous : Option RawExactItem) (item : RawExactItem) → Quiet (compare_raw previous item)
unfolding compare_raw
compare_raw-Quiet none item = search quiet
compare_raw-Quiet (some left) item = search quiet

count_raw_items-Quiet :
    (previous : Option RawExactItem) (items : List RawExactItem) (matches gaps : ℕ)
    → Quiet (count_raw_items previous items matches gaps)
unfolding count_raw_items
count_raw_items-Quiet previous [] matches gaps = search quiet
count_raw_items-Quiet previous (item ∷ items) matches gaps =
    Quiet-bind _ _ (validate_raw_item-Quiet item) λ _.
      Quiet-bind _ _ (compare_raw-Quiet previous item)
        λ _. count_raw_items-Quiet (some item) items _ _

validate_raw_result-Quiet :
    (result : RawExactResult) (limit : ℕ) → Quiet (validate_raw_result result limit)
unfolding validate_raw_result
validate_raw_result-Quiet result limit = search (quiet, count_raw_items-Quiet)

validate_gap-Quiet :
    (code : Bytes) (object : Option ObjectRefDto) → Quiet (validate_gap code object)
unfolding validate_gap
validate_gap-Quiet code none = search quiet
validate_gap-Quiet code (some object) = search (quiet, validate_object-Quiet)

validate_decoded_range-Quiet : (item : DecodedUtf8Item) → Quiet (validate_decoded_range item)
unfolding validate_decoded_range
validate_decoded_range-Quiet (DecodedUtf8Item.match h) = search (quiet, validate_object-Quiet)
validate_decoded_range-Quiet (DecodedUtf8Item.gap g) = validate_gap-Quiet g.code g.prepared_object

validate_decoded_item-Quiet : (item : DecodedUtf8Item) → Quiet (validate_decoded_item item)
unfolding validate_decoded_item
validate_decoded_item-Quiet item =
    search (quiet, validate_source-Quiet, validate_decoded_range-Quiet)

compare_decoded-Quiet :
    (previous : Option DecodedUtf8Item) (item : DecodedUtf8Item)
    → Quiet (compare_decoded previous item)
unfolding compare_decoded
compare_decoded-Quiet none item = search quiet
compare_decoded-Quiet (some left) item = search quiet

count_decoded_items-Quiet :
    (previous : Option DecodedUtf8Item) (items : List DecodedUtf8Item) (matches gaps : ℕ)
    → Quiet (count_decoded_items previous items matches gaps)
unfolding count_decoded_items
count_decoded_items-Quiet previous [] matches gaps = search quiet
count_decoded_items-Quiet previous (item ∷ items) matches gaps =
    Quiet-bind _ _ (validate_decoded_item-Quiet item) λ _.
      Quiet-bind _ _ (compare_decoded-Quiet previous item)
        λ _. count_decoded_items-Quiet (some item) items _ _

validate_decoded_result-Quiet :
    (result : DecodedUtf8Result) (limit : ℕ) → Quiet (validate_decoded_result result limit)
unfolding validate_decoded_result
validate_decoded_result-Quiet result limit = search (quiet, count_decoded_items-Quiet)

validate_ranked-Quiet :
    (generation index : ℕ) (seen : List Bytes) (items : List SearchItem)
    → Quiet (validate_ranked generation index seen items)
unfolding validate_ranked
validate_ranked-Quiet generation index seen [] = search quiet
validate_ranked-Quiet generation index seen (item ∷ items) = Quiet-bind _ _ (search quiet) λ _.
    Quiet-bind _ _ (validate_item-Quiet item generation)
      λ _. validate_ranked-Quiet generation (index + 1) _ items

validate_outcome-Quiet :
    (outcome : QueryOutcome) (limit : ℕ) → Quiet (validate_outcome outcome limit)
unfolding validate_outcome
validate_outcome-Quiet (QueryOutcome.complete generation items stop) limit =
    search (quiet, validate_ranked-Quiet)
validate_outcome-Quiet (QueryOutcome.raw_exact result) limit =
    validate_raw_result-Quiet result limit
validate_outcome-Quiet (QueryOutcome.decoded_utf8 result) limit =
    validate_decoded_result-Quiet result limit
validate_outcome-Quiet QueryOutcome.cancelled limit = search quiet
validate_outcome-Quiet (QueryOutcome.failed code) limit = search quiet

pub validate_terminal-Quiet :
    (terminal : Terminal) (limit : ℕ) → Quiet (validate_terminal terminal limit)
unfolding validate_terminal
validate_terminal-Quiet terminal limit = search (quiet, validate_outcome-Quiet)

validate_window_item-Quiet :
    (item : WindowItem) (generation : ℕ) → Quiet (validate_window_item item generation)
unfolding validate_window_item
validate_window_item-Quiet (WindowItem.search item) generation = validate_item-Quiet item generation
validate_window_item-Quiet (WindowItem.raw item) generation = validate_raw_item-Quiet item
validate_window_item-Quiet (WindowItem.decoded_utf8 item) generation =
    validate_decoded_item-Quiet item

validate_entries-Quiet :
    (summary : WindowSummary) (index : ℕ) (entries : List WindowEntry)
    → Quiet (validate_entries summary index entries)
unfolding validate_entries
validate_entries-Quiet summary index [] = search quiet
validate_entries-Quiet summary index (entry ∷ entries) = Quiet-bind _ _ (search quiet) λ _.
    Quiet-bind _ _ (validate_window_item-Quiet entry.item summary.generation) λ _.
      Quiet-bind _ _ (search quiet)
        λ _. Quiet-bind _ _ (search quiet) λ _. validate_entries-Quiet summary (index + 1) entries

validate_page-Quiet : (page : WindowPage) → Quiet (validate_page page)
unfolding validate_page validate_window_id
validate_page-Quiet page = search (quiet, validate_entries-Quiet)

held-Quiet :
    (content : ExpansionContent) (object : Option ObjectRefDto) (len : ℕ)
    → Quiet (Expansion.validate_content content object len)
unfolding Expansion.validate_content
held-Quiet (ExpansionContent.raw hex) none len = search quiet
held-Quiet (ExpansionContent.raw hex) (some object) len = search quiet
held-Quiet (ExpansionContent.utf8 text) none len = search quiet
held-Quiet (ExpansionContent.utf8 text) (some object) len = search (quiet, validate_object-Quiet)

validate_expansion-Quiet : (x : WindowExpansion) → Quiet (validate_expansion x)
unfolding validate_expansion validate_window_id
validate_expansion-Quiet x = search (quiet, validate_source-Quiet, held-Quiet)

validate_session_outcome-Quiet :
    (outcome : SessionOutcome) → Quiet (validate_session_outcome outcome)
unfolding validate_session_outcome
validate_session_outcome-Quiet (SessionOutcome.page p) = validate_page-Quiet p
validate_session_outcome-Quiet (SessionOutcome.expanded x) = validate_expansion-Quiet x
validate_session_outcome-Quiet SessionOutcome.closed = search quiet
validate_session_outcome-Quiet SessionOutcome.expired = search quiet
validate_session_outcome-Quiet SessionOutcome.cancelled = search quiet
validate_session_outcome-Quiet (SessionOutcome.failed code) = search quiet

pub validate_session_reply-Quiet : (reply : SessionReply) → Quiet (validate_session_reply reply)
unfolding validate_session_reply
validate_session_reply-Quiet reply = search (quiet, validate_session_outcome-Quiet)
