-- ===== src/Protocol/Message/Raw.antt =====
-- dto.rs, the result of a search over raw bytes.
pub mod Ordered
pub mod Literal
use eliot_search.Prelude.{
  ℕ, ◌+◌, ◌-◌, ◌*◌, ◌/◌, ◌%◌, Bool, true, false, not, ◌&&◌, ◌||◌, Option, none, some, List, [], ◌∷◌,
  Bytes, length, bytes_eq, ltb, ◌==◌, if◌then◌else◌,
}
use eliot_search.Prelude.Words.{checked_add, checked_sub}
use eliot_search.Exec.{Exec, pure, ok_or, refuse_if, ◌>>=◌, ◌>>◌}
use eliot_search.Contracts.{digit}
use eliot_search.Protocol.{ProtocolError, invalid_message, max_query_bytes, max_items}
use eliot_search.Protocol.Message.Text.{
  bool_eq, any, contains, bytes_lt, is_length, lower_hex, FailureCode, source_object_missing,
}
use eliot_search.Protocol.Message.Request.{RawExactRequest, validate_raw_request}
use eliot_search.Protocol.Message.Object.{RawSourceRef, source_eq, validate_source}
use eliot_search.Protocol.Message.Item.{StopReason, is_complete}

pub record RawExactMatch : Type 0 where
  pub source : RawSourceRef
  pub start : ℕ
  pub end : ℕ
  pub bytes_hex : Bytes

pub record RawExactGap : Type 0 where
  pub source : RawSourceRef
  pub code : FailureCode

pub data RawExactItem : Type 0 where
  match : RawExactMatch → RawExactItem
  gap : RawExactGap → RawExactItem

unfoldable pub raw_source : RawExactItem → RawSourceRef
raw_source (match h) = h.source
raw_source (gap g) = g.source

-- `.filter(|n| *n != 0)`
abbrev pub nonzero : Option ℕ → Option ℕ
nonzero none = none
nonzero (some n) = if n == 0 then none else some n

unfoldable pub validate_raw_range : RawExactItem → Exec ProtocolError (Unit {0})
validate_raw_range (match h) = do
  len ← ok_or (nonzero (checked_sub h.end h.start)) invalid_message
  refuse_if
      (ltb h.source.input.bytes h.end
        || ltb max_query_bytes len
        || not (lower_hex h.bytes_hex (len * 2)))
      invalid_message
validate_raw_range (gap g) = refuse_if (not (bytes_eq g.code source_object_missing)) invalid_message

unfoldable pub validate_raw_item : RawExactItem → Exec ProtocolError (Unit {0})
unfolding validate_raw_range raw_source
validate_raw_item item = do validate_source (raw_source item); validate_raw_range item

pub record RawExactResult : Type 0 where
  pub generation : ℕ
  pub selected_sources : ℕ
  pub scanned_sources : ℕ
  pub missing_sources : ℕ
  pub scanned_bytes : ℕ
  pub matches : ℕ
  pub items : List RawExactItem
  pub scan_complete : Bool
  pub complete_negative : Bool
  pub stop : StopReason

-- The claims of a result about `count` emitted items contradict each other.
unfoldable pub is_misaccounted :
    (generation selected scanned unavailable scanned_bytes matches count total requested_limit : ℕ)
    → Bool
    → Bool
    → StopReason
    → Bool
is_misaccounted generation selected scanned unavailable scanned_bytes matches count total
      requested_limit scan_complete complete_negative stop =
    generation == 0
    || requested_limit == 0
    || ltb max_items requested_limit
    || ltb requested_limit count
    || not (is_length (checked_add scanned unavailable) selected)
    || not (bool_eq scan_complete (scanned == selected))
    || not (bool_eq complete_negative (scan_complete && matches == 0))
    || ltb scanned_bytes matches
    || (scanned == 0 && not (scanned_bytes == 0))
    || ltb total count
    || not (bool_eq (is_complete stop) (count == total))

abbrev pub is_before : RawExactItem → RawExactItem → Bool
is_before (match a) (match b) = ltb a.start b.start
is_before _ _ = false

abbrev pub is_out_of_order : RawSourceRef → RawSourceRef → Bool
is_out_of_order left right =
    not (bytes_eq left.source_namespace_id right.source_namespace_id)
    || bytes_lt right.source_id left.source_id

-- A second item of a source is a later match in the same revision of it.
abbrev pub is_repeated : RawSourceRef → RawSourceRef → Bool → Bool
is_repeated left right before =
    bytes_eq left.source_id right.source_id && (not (source_eq left right) || not before)

unfoldable pub compare_raw : Option RawExactItem → RawExactItem → Exec ProtocolError (Unit {0})
unfolding raw_source
compare_raw none item = pure tt
compare_raw (some previous) item = do
  refuse_if (is_out_of_order (raw_source previous) (raw_source item)) invalid_message
  refuse_if (is_repeated (raw_source previous) (raw_source item) (is_before previous item))
      invalid_message

abbrev pub is_match : RawExactItem → Bool
is_match (match h) = true
is_match (gap g) = false

-- The loop over the items: the numbers of matches and of gaps.
unfoldable pub count_raw_items :
    Option RawExactItem → List RawExactItem → ℕ → ℕ → Exec ProtocolError (ℕ × ℕ)
unfolding validate_raw_item compare_raw
count_raw_items previous [] matches gaps = pure (matches, gaps)
count_raw_items previous (item ∷ items) matches gaps = do
  validate_raw_item item
  compare_raw previous item
  count_raw_items (some item) items (if is_match item then matches + 1 else matches)
      (if is_match item then gaps else gaps + 1)

unfoldable pub validate_raw_result : RawExactResult → ℕ → Exec ProtocolError (Unit {0})
unfolding is_misaccounted count_raw_items
validate_raw_result result requested_limit = do
  total ← ok_or (checked_add result.matches result.missing_sources) invalid_message
  refuse_if
      (is_misaccounted result.generation result.selected_sources result.scanned_sources
        result.missing_sources result.scanned_bytes result.matches (length result.items) total
        requested_limit result.scan_complete result.complete_negative result.stop)
      invalid_message
  counts ← count_raw_items none result.items 0 0
  refuse_if (ltb result.matches counts.0 || ltb result.missing_sources counts.1) invalid_message

-- The items are not those of the selection.
abbrev pub is_unselected : Option (List Bytes) → ℕ → List RawSourceRef → Bool
is_unselected none selected sources = false
is_unselected (some ids) selected sources =
    not (length ids == selected) || any (λ s. not (contains ids s.source_id)) sources

abbrev pub sources_of : List RawExactItem → List RawSourceRef
unfolding raw_source
sources_of [] = []
sources_of (item ∷ items) = raw_source item ∷ sources_of items

-- Some pair of digits is not that of its byte.
abbrev pub differs : Bytes → Bytes → Bool
differs (p ∷ q ∷ rest) (b ∷ bs) =
    not (p == digit (b / 16)) || not (q == digit (b % 16)) || differs rest bs
differs _ _ = false

unfoldable pub is_other_literal : Bytes → RawExactItem → Bool
is_other_literal literal (match h) =
    not (h.end - h.start == length literal) || differs h.bytes_hex literal
is_other_literal literal (gap g) = false

unfoldable pub validate_raw_answer :
    RawExactResult → RawExactRequest → Exec ProtocolError (Unit {0})
unfolding validate_raw_result is_other_literal
validate_raw_answer result request = do
  validate_raw_request request
  validate_raw_result result request.limit
  refuse_if (is_unselected request.source_ids result.selected_sources (sources_of result.items))
      invalid_message
  refuse_if (any (is_other_literal request.literal) result.items) invalid_message
