-- ===== src/Protocol/Message/Quiet.antt =====
-- The validations of requests do not look at the environment.
pub mod Replies
use eliot_search.Prelude.{
  ℕ, Bool, Option, none, some, List, [], ◌∷◌, ◌++◌, ◌+◌, if◌then◌else◌, Bytes,
}
use eliot_search.Exec.{Exec, pure, fail, ok_or, refuse_if, ◌>>=◌, ◌>>◌}
use eliot_search.Exec.Quiet.{
  Quiet, Quiet-pure, Quiet-fail, Quiet-ok_or, Quiet-refuse_if, Quiet-bind,
}
use eliot_search.Protocol.Message.Request.{
  SearchRequest, RawExactRequest, DecodedUtf8Request, ClientFrame, validate_search_request,
  validate_ids, validate_selection, validate_raw_request, validate_decoded_request,
  validate_content, validate_client_frame,
}
use eliot_search.Protocol.Message.Object.{
  ObjectKindDto, ObjectRefDto, EvidenceMetadata, RawSourceRef, validate_object, validate_evidence,
  validate_source,
}
use eliot_search.Protocol.Message.Item.{SearchItem, evidence_of, validate_score, validate_item}
use eliot_search.Protocol.Message.Raw.{
  RawExactItem, RawExactResult, raw_source, is_match, validate_raw_range, validate_raw_item,
  compare_raw, count_raw_items, validate_raw_result,
}
use eliot_search.Protocol.Message.Decoded
use eliot_search.Protocol.Message.Decoded.{
  DecodedUtf8Item, DecodedUtf8Result, decoded_source, validate_gap, validate_decoded_range,
  validate_decoded_item, compare_decoded, count_decoded_items, validate_decoded_result,
}
use eliot_search.Protocol.Message.Terminal.{
  QueryOutcome, Terminal, validate_ranked, validate_outcome, validate_terminal,
}
use eliot_search.Protocol.Message.Session.{
  WindowQuery, SessionClientFrame, validate_query, validate_page_size, validate_window_id,
  validate_bounds, validate_session_frame,
}
use eliot_search.Protocol.Message.Window.{
  WindowItem, WindowEntry, WindowSummary, WindowPage, validate_window_item, validate_entries,
  validate_page,
}
use eliot_search.Protocol.Message.Expansion
use eliot_search.Protocol.Message.Expansion.{ExpansionContent, WindowExpansion, validate_expansion}
use eliot_search.Protocol.Message.Reply.{
  SessionOutcome, SessionReply, validate_session_outcome, validate_session_reply,
}

pub ruleset quiet = (Quiet-pure, Quiet-fail, Quiet-ok_or, Quiet-refuse_if, Quiet-bind)

pub validate_search_request-Quiet : (r : SearchRequest) → Quiet (validate_search_request r)
unfolding validate_search_request
validate_search_request-Quiet r = search quiet

validate_ids-Quiet : (seen ids : List Bytes) → Quiet (validate_ids seen ids)
unfolding validate_ids
validate_ids-Quiet seen [] = search quiet
validate_ids-Quiet seen (id ∷ ids) =
    Quiet-bind _ _ (search quiet) λ _. validate_ids-Quiet (seen ++ id ∷ []) ids

validate_selection-Quiet : (ids : Option (List Bytes)) → Quiet (validate_selection ids)
validate_selection-Quiet none = search quiet
validate_selection-Quiet (some ids) = validate_ids-Quiet [] ids

pub validate_raw_request-Quiet : (r : RawExactRequest) → Quiet (validate_raw_request r)
unfolding validate_raw_request
validate_raw_request-Quiet r = search (quiet, validate_selection-Quiet)

validate_decoded_request-Quiet : (r : DecodedUtf8Request) → Quiet (validate_decoded_request r)
unfolding validate_decoded_request
validate_decoded_request-Quiet r = search (quiet, validate_selection-Quiet)

validate_content-Quiet : (frame : ClientFrame) → Quiet (validate_content frame)
unfolding validate_content
validate_content-Quiet (ClientFrame.query id ms r) = search quiet
validate_content-Quiet (ClientFrame.raw_exact id ms r) = search (quiet, validate_raw_request-Quiet)
validate_content-Quiet (ClientFrame.decoded_utf8 id ms r) =
    search (quiet, validate_decoded_request-Quiet)
validate_content-Quiet (ClientFrame.cancel id) = search quiet

pub validate_client_frame-Quiet : (frame : ClientFrame) → Quiet (validate_client_frame frame)
unfolding validate_client_frame
validate_client_frame-Quiet frame = search (quiet, validate_content-Quiet)

validate_query-Quiet : (q : WindowQuery) → Quiet (validate_query q)
unfolding validate_query
validate_query-Quiet (WindowQuery.search r) = validate_search_request-Quiet r
validate_query-Quiet (WindowQuery.raw r) = validate_raw_request-Quiet r
validate_query-Quiet (WindowQuery.decoded_utf8 r) = validate_decoded_request-Quiet r

validate_bounds-Quiet : (frame : SessionClientFrame) → Quiet (validate_bounds frame)
unfolding validate_bounds validate_page_size validate_window_id
validate_bounds-Quiet (SessionClientFrame.open_window f) = search (quiet, validate_query-Quiet)
validate_bounds-Quiet (SessionClientFrame.continue_window f) = search quiet
validate_bounds-Quiet (SessionClientFrame.expand f) = search quiet
validate_bounds-Quiet (SessionClientFrame.cancel id) = search quiet
validate_bounds-Quiet (SessionClientFrame.close id) = search quiet

pub validate_session_frame-Quiet :
    (frame : SessionClientFrame) → Quiet (validate_session_frame frame)
unfolding validate_session_frame
validate_session_frame-Quiet frame = search (quiet, validate_bounds-Quiet)
