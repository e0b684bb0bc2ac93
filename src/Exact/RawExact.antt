-- ===== src/Exact/RawExact.antt =====
-- raw_exact.rs of the daemon and the citations of exact_literal.rs: the search for a literal in the
-- retained bytes of sources. The store that the bytes are read from is a parameter.
pub mod Items
pub mod Added
pub mod Scanned
pub mod Inventory
pub mod Report
pub mod Answer
pub mod Failed
use eliot_search.Prelude.{
  ℕ, ◌+◌, ◌-◌, ◌/◌, ◌%◌, Bool, Option, none, some, List, [], ◌∷◌, ◌++◌, Bytes, length, take, drop,
  ltb, leb, ◌==◌, ◌&&◌, if◌then◌else◌,
}
use eliot_search.Prelude.Words.{checked_add}
use eliot_search.Exec.{
  Exec, Env, Result, ok, err, pure, fail, ok_or, reserve_with, map_err, ◌>>=◌, ◌>>◌,
}
use eliot_search.Contracts.{digit, display}
use eliot_search.Registry
use eliot_search.Registry.{ObjectRef, ObjectKind, CurrentSourceRecord, max_source_object_bytes}
use eliot_search.Protocol.Message.Text.{source_object_missing}
use eliot_search.Protocol.Message.Object.{ObjectKindDto, ObjectRefDto, RawSourceRef}
use eliot_search.Protocol.Message.Raw.{RawExactItem, RawExactResult, validate_raw_answer}
use eliot_search.Protocol.{ProtocolError}
use eliot_search.Protocol.Message.Request.{RawExactRequest, validate_raw_request}
use eliot_search.Protocol.Message.Item.{StopReason}
use eliot_search.Exact.{QueryFailure, code, query_allocation_failed, check, Literal, new, scan}

pub data ObjectStoreError : Type 0 where
  invalid_reference missing not_regular_file integrity_failure allocation_failed
        immutable_conflict :
      ObjectStoreError
  publish_failed io deadline cancelled : ObjectStoreError

unfoldable pub error_code : ObjectStoreError → Bytes
error_code invalid_reference =
    79 ∷ 66 ∷ 74 ∷ 69 ∷ 67 ∷ 84 ∷ 95 ∷ 82 ∷ 69 ∷ 70 ∷ 69 ∷ 82 ∷ 69 ∷ 78 ∷ 67 ∷ 69 ∷ 95 ∷ 73 ∷ 78
    ∷ 86 ∷ 65 ∷ 76 ∷ 73 ∷ 68 ∷ []
error_code missing = 79 ∷ 66 ∷ 74 ∷ 69 ∷ 67 ∷ 84 ∷ 95 ∷ 77 ∷ 73 ∷ 83 ∷ 83 ∷ 73 ∷ 78 ∷ 71 ∷ []
error_code not_regular_file =
    79 ∷ 66 ∷ 74 ∷ 69 ∷ 67 ∷ 84 ∷ 95 ∷ 78 ∷ 79 ∷ 84 ∷ 95 ∷ 82 ∷ 69 ∷ 71 ∷ 85 ∷ 76 ∷ 65 ∷ 82 ∷ 95
    ∷ 70 ∷ 73 ∷ 76 ∷ 69 ∷ []
error_code integrity_failure =
    79 ∷ 66 ∷ 74 ∷ 69 ∷ 67 ∷ 84 ∷ 95 ∷ 73 ∷ 78 ∷ 84 ∷ 69 ∷ 71 ∷ 82 ∷ 73 ∷ 84 ∷ 89 ∷ 95 ∷ 70 ∷ 65
    ∷ 73 ∷ 76 ∷ 85 ∷ 82 ∷ 69 ∷ []
error_code allocation_failed =
    79 ∷ 66 ∷ 74 ∷ 69 ∷ 67 ∷ 84 ∷ 95 ∷ 65 ∷ 76 ∷ 76 ∷ 79 ∷ 67 ∷ 65 ∷ 84 ∷ 73 ∷ 79 ∷ 78 ∷ 95 ∷ 70
    ∷ 65 ∷ 73 ∷ 76 ∷ 69 ∷ 68 ∷ []
error_code immutable_conflict =
    79 ∷ 66 ∷ 74 ∷ 69 ∷ 67 ∷ 84 ∷ 95 ∷ 73 ∷ 77 ∷ 77 ∷ 85 ∷ 84 ∷ 65 ∷ 66 ∷ 76 ∷ 69 ∷ 95 ∷ 67 ∷ 79
    ∷ 78 ∷ 70 ∷ 76 ∷ 73 ∷ 67 ∷ 84 ∷ []
error_code publish_failed =
    79 ∷ 66 ∷ 74 ∷ 69 ∷ 67 ∷ 84 ∷ 95 ∷ 80 ∷ 85 ∷ 66 ∷ 76 ∷ 73 ∷ 83 ∷ 72 ∷ 95 ∷ 70 ∷ 65 ∷ 73 ∷ 76
    ∷ 69 ∷ 68 ∷ []
error_code io = 79 ∷ 66 ∷ 74 ∷ 69 ∷ 67 ∷ 84 ∷ 95 ∷ 73 ∷ 79 ∷ []
error_code deadline = 79 ∷ 66 ∷ 74 ∷ 69 ∷ 67 ∷ 84 ∷ 95 ∷ 68 ∷ 69 ∷ 65 ∷ 68 ∷ 76 ∷ 73 ∷ 78 ∷ 69 ∷ []
error_code cancelled =
    79 ∷ 66 ∷ 74 ∷ 69 ∷ 67 ∷ 84 ∷ 95 ∷ 67 ∷ 65 ∷ 78 ∷ 67 ∷ 69 ∷ 76 ∷ 76 ∷ 69 ∷ 68 ∷ []

-- "EXACT_INPUT_LIMIT"
abbrev pub exact_input_limit : QueryFailure
exact_input_limit =
    code (69 ∷ 88 ∷ 65 ∷ 67 ∷ 84 ∷ 95 ∷ 73 ∷ 78 ∷ 80 ∷ 85 ∷ 84 ∷ 95 ∷ 76 ∷ 73 ∷ 77 ∷ 73 ∷ 84 ∷ [])

-- "EVIDENCE_RANGE_INVALID"
abbrev pub evidence_range_invalid : QueryFailure
evidence_range_invalid = code (
    69 ∷ 86 ∷ 73 ∷ 68 ∷ 69 ∷ 78 ∷ 67 ∷ 69 ∷ 95 ∷ 82 ∷ 65 ∷ 78 ∷ 71 ∷ 69 ∷ 95 ∷ 73 ∷ 78 ∷ 86 ∷ 65
    ∷ 76 ∷ 73 ∷ 68 ∷ [])

abbrev pub hex_text : Bytes → Bytes
hex_text [] = []
hex_text (b ∷ bytes) = digit (b / 16) ∷ (digit (b % 16) ∷ hex_text bytes)

unfoldable pub hex : Bytes → Exec QueryFailure Bytes
hex bytes = do reserve_with query_allocation_failed; pure (hex_text bytes)

abbrev pub kind_of : ObjectKind → ObjectKindDto
kind_of ObjectKind.source = ObjectKindDto.source
kind_of ObjectKind.prepared = ObjectKindDto.prepared

unfoldable pub object_ref : ObjectRef → Exec QueryFailure ObjectRefDto
unfolding hex
object_ref reference = do
  digest ← hex reference.digest
  pure (record {
    version = reference.format_version;
    kind = kind_of reference.kind;
    digest = digest;
    bytes = reference.byte_length;
  })

unfoldable pub source_ref : CurrentSourceRecord → Exec QueryFailure RawSourceRef
unfolding object_ref
source_ref source = do
  input ← object_ref source.object_ref
  pure (record {
    source_namespace_id = display source.source_namespace_id;
    source_id = display source.source_id;
    row_revision = source.row_revision;
    registration_revision = source.registration_revision;
    input = input;
  })

-- `bytes.get(start..end)`
abbrev pub get_range : Bytes → ℕ → ℕ → Option Bytes
get_range bytes start end =
    if leb start end && leb end (length bytes)
    then some (take (end - start) (drop start bytes))
    else none

abbrev pub push_item : RawExactResult → RawExactItem → RawExactResult
push_item result item = record result { items = result.items ++ item ∷ [] }

-- An occurrence is kept as an item as long as there is room.
unfoldable pub keep_match :
    RawSourceRef → Bytes → ℕ → RawExactResult → ℕ → ℕ → Exec QueryFailure RawExactResult
unfolding hex
keep_match binding bytes limit result start end =
    if ltb (length result.items) limit
    then (ok_or (get_range bytes start end) evidence_range_invalid >>= λ matched.
        hex matched >>= λ bytes_hex. pure (
          push_item result (
            RawExactItem.match
              (record { source = binding; start = start; end = end; bytes_hex = bytes_hex }))))
    else pure result

-- The callback of the scan.
unfoldable pub on_match :
    RawSourceRef → Bytes → ℕ → RawExactResult → ℕ → ℕ → Exec QueryFailure RawExactResult
unfolding keep_match
on_match binding bytes limit result start end = do
  matches ← ok_or (checked_add result.matches 1) exact_input_limit
  keep_match binding bytes limit (record result { matches = matches }) start end

abbrev pub gap_of : RawSourceRef → RawExactItem
gap_of binding = RawExactItem.gap (record { source = binding; code = source_object_missing })

-- What follows on the outcome of the read.
unfoldable pub on_read :
    Literal
    → RawSourceRef
    → ObjectRef
    → ℕ
    → RawExactResult
    → Result ObjectStoreError Bytes
    → Exec QueryFailure RawExactResult
unfolding on_match error_code
on_read literal binding reference limit result (ok bytes) = do
  found ← scan literal (on_match binding bytes limit) bytes result
  scanned_bytes ← ok_or (checked_add found.scanned_bytes reference.byte_length) exact_input_limit
  pure (record found { scanned_sources = found.scanned_sources + 1; scanned_bytes = scanned_bytes })
on_read literal binding reference limit result (err missing) =
    let counted : RawExactResult = record result { missing_sources = result.missing_sources + 1 } in
    pure (if ltb (length counted.items) limit then push_item counted (gap_of binding) else counted)
on_read literal binding reference limit result (err cancelled) = fail QueryFailure.cancelled
on_read literal binding reference limit result (err deadline) = fail QueryFailure.deadline
on_read literal binding reference limit result (err e) = fail (code (error_code e))

-- `read_object(root, …)` returns the bytes of an object, or says why it does not.
module _ (read_object : ObjectRef → ℕ → Exec QueryFailure (Result ObjectStoreError Bytes)) where
  unfoldable pub scan_source :
      CurrentSourceRecord → Literal → RawExactResult → ℕ → Exec QueryFailure RawExactResult
  unfolding source_ref on_read
  scan_source source literal result limit = do
    check
    binding ← source_ref source
    outcome ← read_object source.object_ref max_source_object_bytes
    on_read literal binding source.object_ref limit result outcome

  -- The loop over the inventory.
  unfoldable pub scan_sources :
      List CurrentSourceRecord → Literal → RawExactResult → ℕ → Exec QueryFailure RawExactResult
  unfolding scan_source
  scan_sources [] literal result limit = pure result
  scan_sources (source ∷ sources) literal result limit = do
    scanned ← scan_source source literal result limit
    scan_sources sources literal scanned limit

-- What is settled behind the loop.
unfoldable pub settle : RawExactResult → Exec QueryFailure RawExactResult
settle result = do
  let scan_complete = result.missing_sources == 0
  total ← ok_or (checked_add result.matches result.missing_sources) exact_input_limit
  pure (record result {
    scan_complete = scan_complete;
    complete_negative = scan_complete && result.matches == 0;
    stop = if length result.items == total then result.stop else StopReason.output_limit;
  })

abbrev pub fresh_result : ℕ → ℕ → RawExactResult
fresh_result generation selected_sources = record {
  generation = generation;
  selected_sources = selected_sources;
  scanned_sources = 0;
  missing_sources = 0;
  scanned_bytes = 0;
  matches = 0;
  items = [];
  scan_complete = Bool.false;
  complete_negative = Bool.false;
  stop = StopReason.complete;
}

-- `ProtocolError::code`
unfoldable pub protocol_code : ProtocolError → Bytes
protocol_code ProtocolError.invalid_frame =
    81 ∷ 85 ∷ 69 ∷ 82 ∷ 89 ∷ 95 ∷ 70 ∷ 82 ∷ 65 ∷ 77 ∷ 69 ∷ 95 ∷ 73 ∷ 78 ∷ 86 ∷ 65 ∷ 76 ∷ 73 ∷ 68
    ∷ []
protocol_code ProtocolError.frame_too_large =
    81 ∷ 85 ∷ 69 ∷ 82 ∷ 89 ∷ 95 ∷ 70 ∷ 82 ∷ 65 ∷ 77 ∷ 69 ∷ 95 ∷ 84 ∷ 79 ∷ 79 ∷ 95 ∷ 76 ∷ 65 ∷ 82
    ∷ 71 ∷ 69 ∷ []
protocol_code ProtocolError.invalid_message =
    81 ∷ 85 ∷ 69 ∷ 82 ∷ 89 ∷ 95 ∷ 77 ∷ 69 ∷ 83 ∷ 83 ∷ 65 ∷ 71 ∷ 69 ∷ 95 ∷ 73 ∷ 78 ∷ 86 ∷ 65 ∷ 76
    ∷ 73 ∷ 68 ∷ []
protocol_code ProtocolError.invalid_correlation =
    81 ∷ 85 ∷ 69 ∷ 82 ∷ 89 ∷ 95 ∷ 82 ∷ 69 ∷ 83 ∷ 80 ∷ 79 ∷ 78 ∷ 83 ∷ 69 ∷ 95 ∷ 77 ∷ 73 ∷ 83 ∷ 77
    ∷ 65 ∷ 84 ∷ 67 ∷ 72 ∷ []
protocol_code ProtocolError.resource_exhausted =
    81 ∷ 85 ∷ 69 ∷ 82 ∷ 89 ∷ 95 ∷ 65 ∷ 76 ∷ 76 ∷ 79 ∷ 67 ∷ 65 ∷ 84 ∷ 73 ∷ 79 ∷ 78 ∷ 95 ∷ 70 ∷ 65
    ∷ 73 ∷ 76 ∷ 69 ∷ 68 ∷ []
protocol_code ProtocolError.serialization =
    81 ∷ 85 ∷ 69 ∷ 82 ∷ 89 ∷ 95 ∷ 83 ∷ 69 ∷ 82 ∷ 73 ∷ 65 ∷ 76 ∷ 73 ∷ 90 ∷ 65 ∷ 84 ∷ 73 ∷ 79 ∷ 78
    ∷ 95 ∷ 70 ∷ 65 ∷ 73 ∷ 76 ∷ 69 ∷ 68 ∷ []

abbrev pub refuse : ProtocolError → QueryFailure
unfolding protocol_code
refuse e = code (protocol_code e)

-- `inventory_of` is the pinned inventory of the published generation, cut down to the selection.
module _ (read_object : ObjectRef → ℕ → Exec QueryFailure (Result ObjectStoreError Bytes))
    (inventory_of : Option (List Bytes) → Exec QueryFailure (List CurrentSourceRecord)) where
  unfoldable pub execute : ℕ → RawExactRequest → Exec QueryFailure RawExactResult
  unfolding scan_sources settle
  execute generation request = do
    check
    map_err refuse (validate_raw_request request)
    literal ← new request.literal
    inventory ← inventory_of request.source_ids
    reserve_with query_allocation_failed
    let fresh = fresh_result generation (length inventory)
    result ← scan_sources read_object inventory literal fresh request.limit
    check
    settled ← settle result
    map_err refuse (validate_raw_answer settled request)
    pure settled
