-- ===== src/Protocol/Message/Decoded.antt =====
-- dto.rs, the result of a search over saved text.
pub mod Ordered
use eliot_search.Prelude.{
  ℕ, ◌+◌, Bool, true, false, not, ◌&&◌, ◌||◌, Option, none, some, List, [], ◌∷◌, Bytes, length,
  bytes_eq, ltb, leb, ◌==◌, if◌then◌else◌,
}
use eliot_search.Prelude.Words.{checked_add, checked_sub}
use eliot_search.Exec.{Exec, pure, fail, ok_or, refuse_if, ◌>>=◌, ◌>>◌}
use eliot_search.Protocol.{ProtocolError, invalid_message, max_query_bytes}
use eliot_search.Protocol.Message.Text.{
  any, is_length, FailureCode, source_object_missing, prepared_object_missing, preparation_gap,
}
use eliot_search.Protocol.Message.Request.{DecodedUtf8Request, validate_decoded_request}
use eliot_search.Protocol.Message.Object.{
  ObjectRefDto, object_eq, validate_object, RawSourceRef, validate_source,
}
use eliot_search.Protocol.Message.Object.ObjectKindDto.{prepared}
use eliot_search.Protocol.Message.Item.{StopReason}
use eliot_search.Protocol.Message.Raw.{is_misaccounted, is_out_of_order, is_repeated, is_unselected}

pub record DecodedUtf8Match : Type 0 where
  pub source : RawSourceRef
  pub prepared_object : ObjectRefDto
  pub representation_start : ℕ
  pub representation_end : ℕ
  pub source_start : ℕ
  pub source_end : ℕ
  pub text : Bytes

pub record DecodedUtf8Gap : Type 0 where
  pub source : RawSourceRef
  pub prepared_object : Option ObjectRefDto
  pub code : FailureCode

pub data DecodedUtf8Item : Type 0 where
  match : DecodedUtf8Match → DecodedUtf8Item
  gap : DecodedUtf8Gap → DecodedUtf8Item

unfoldable pub decoded_source : DecodedUtf8Item → RawSourceRef
decoded_source (match h) = h.source
decoded_source (gap g) = g.source

unfoldable pub validate_gap : FailureCode → Option ObjectRefDto → Exec ProtocolError (Unit {0})
validate_gap code none = refuse_if (not (bytes_eq code preparation_gap)) invalid_message
validate_gap code (some object) = do
  refuse_if (not (bytes_eq code source_object_missing || bytes_eq code prepared_object_missing))
      invalid_message
  validate_object object prepared

unfoldable pub validate_decoded_range : DecodedUtf8Item → Exec ProtocolError (Unit {0})
unfolding validate_gap
validate_decoded_range (match h) = do
  validate_object h.prepared_object prepared
  refuse_if
      (leb h.representation_end h.representation_start
        || not (h.source_start == h.representation_start)
        || not (h.source_end == h.representation_end)
        || ltb h.source.input.bytes h.source_end
        || ltb max_query_bytes (length h.text)
        || not (is_length (checked_sub h.source_end h.source_start) (length h.text)))
      invalid_message
validate_decoded_range (gap g) = validate_gap g.code g.prepared_object

unfoldable pub validate_decoded_item : DecodedUtf8Item → Exec ProtocolError (Unit {0})
unfolding validate_decoded_range decoded_source
validate_decoded_item item = do validate_source (decoded_source item); validate_decoded_range item

pub record DecodedUtf8Result : Type 0 where
  pub generation : ℕ
  pub selected_sources : ℕ
  pub scanned_sources : ℕ
  pub gap_sources : ℕ
  pub scanned_bytes : ℕ
  pub matches : ℕ
  pub items : List DecodedUtf8Item
  pub scan_complete : Bool
  pub complete_negative : Bool
  pub stop : StopReason

abbrev pub is_before : DecodedUtf8Item → DecodedUtf8Item → Bool
is_before (match a) (match b) =
    object_eq a.prepared_object b.prepared_object
    && ltb a.representation_start b.representation_start
is_before _ _ = false

unfoldable pub compare_decoded :
    Option DecodedUtf8Item → DecodedUtf8Item → Exec ProtocolError (Unit {0})
unfolding decoded_source
compare_decoded none item = pure tt
compare_decoded (some previous) item =
    refuse_if
      (is_out_of_order (decoded_source previous) (decoded_source item)
        || is_repeated (decoded_source previous) (decoded_source item) (is_before previous item))
      invalid_message

abbrev pub is_match : DecodedUtf8Item → Bool
is_match (match h) = true
is_match (gap g) = false

-- The loop over the items: the numbers of matches and of gaps.
unfoldable pub count_decoded_items :
    Option DecodedUtf8Item → List DecodedUtf8Item → ℕ → ℕ → Exec ProtocolError (ℕ × ℕ)
unfolding validate_decoded_item compare_decoded
count_decoded_items previous [] matches gaps = pure (matches, gaps)
count_decoded_items previous (item ∷ items) matches gaps = do
  validate_decoded_item item
  compare_decoded previous item
  count_decoded_items (some item) items (if is_match item then matches + 1 else matches)
      (if is_match item then gaps else gaps + 1)

unfoldable pub validate_decoded_result : DecodedUtf8Result → ℕ → Exec ProtocolError (Unit {0})
unfolding is_misaccounted count_decoded_items
validate_decoded_result result requested_limit = do
  total ← ok_or (checked_add result.matches result.gap_sources) invalid_message
  refuse_if
      (is_misaccounted result.generation result.selected_sources result.scanned_sources
        result.gap_sources result.scanned_bytes result.matches (length result.items) total
        requested_limit result.scan_complete result.complete_negative result.stop)
      invalid_message
  counts ← count_decoded_items none result.items 0 0
  refuse_if (ltb result.matches counts.0 || ltb result.gap_sources counts.1) invalid_message

abbrev pub sources_of : List DecodedUtf8Item → List RawSourceRef
unfolding decoded_source
sources_of [] = []
sources_of (item ∷ items) = decoded_source item ∷ sources_of items

abbrev pub is_other_text : Bytes → DecodedUtf8Item → Bool
is_other_text literal (match h) = not (bytes_eq h.text literal)
is_other_text literal (gap g) = false

unfoldable pub validate_decoded_answer :
    DecodedUtf8Result → DecodedUtf8Request → Exec ProtocolError (Unit {0})
unfolding validate_decoded_result
validate_decoded_answer result request = do
  validate_decoded_request request
  validate_decoded_result result request.limit
  refuse_if (is_unselected request.source_ids result.selected_sources (sources_of result.items))
      invalid_message
  refuse_if (any (is_other_text request.literal) result.items) invalid_message
