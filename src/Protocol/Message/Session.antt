-- ===== src/Protocol/Message/Session.antt =====
-- dto.rs, `WindowQuery` and `SessionClientFrame`: the requests of a session.
use eliot_search.Prelude.{ℕ, Bool, true, false, not, ◌||◌, Option, none, some, ltb, leb, ◌==◌}
use eliot_search.Prelude.Words.{checked_add}
use eliot_search.Exec.{Exec, pure, refuse_if, ◌>>=◌, ◌>>◌}
use eliot_search.Protocol.{
  ProtocolError, invalid_message, invalid_correlation, max_items, max_window_ttl_ms,
  session_window_id, max_expansion_bytes,
}
use eliot_search.Protocol.Message.Request.{
  SearchRequest, RawExactRequest, DecodedUtf8Request, validate_search_request, validate_raw_request,
  validate_decoded_request, is_out_of_time,
}

pub data WindowQuery : Type 0 where
  search : SearchRequest → WindowQuery
  raw : RawExactRequest → WindowQuery
  decoded_utf8 : DecodedUtf8Request → WindowQuery

unfoldable pub validate_query : WindowQuery → Exec ProtocolError (Unit {0})
validate_query (search request) = validate_search_request request
validate_query (raw request) = validate_raw_request request
validate_query (decoded_utf8 request) = validate_decoded_request request

unfoldable pub limit_of : WindowQuery → ℕ
limit_of (search request) = request.limit
limit_of (raw request) = request.limit
limit_of (decoded_utf8 request) = request.limit

pub record Open : Type 0 where
  pub request_id : ℕ
  pub remaining_ms : ℕ
  pub query : WindowQuery
  pub page_size : ℕ
  pub ttl_ms : ℕ

pub record Continue : Type 0 where
  pub request_id : ℕ
  pub remaining_ms : ℕ
  pub window_id : ℕ
  pub page_size : ℕ

pub record Expand : Type 0 where
  pub request_id : ℕ
  pub remaining_ms : ℕ
  pub window_id : ℕ
  pub item_index : ℕ
  pub before_bytes : ℕ
  pub after_bytes : ℕ

pub data SessionClientFrame : Type 0 where
  open_window : Open → SessionClientFrame
  continue_window : Continue → SessionClientFrame
  expand : Expand → SessionClientFrame
  cancel : ℕ → SessionClientFrame
  close : ℕ → SessionClientFrame

unfoldable pub request_id_of : SessionClientFrame → ℕ
request_id_of (open_window f) = f.request_id
request_id_of (continue_window f) = f.request_id
request_id_of (expand f) = f.request_id
request_id_of (cancel request_id) = request_id
request_id_of (close request_id) = request_id

unfoldable pub validate_page_size : ℕ → Exec ProtocolError (Unit {0})
validate_page_size size = refuse_if (size == 0 || ltb max_items size) invalid_message

unfoldable pub validate_window_id : ℕ → Exec ProtocolError (Unit {0})
validate_window_id id = refuse_if (not (id == session_window_id)) invalid_message

-- `context.is_none_or(|n| n > MAX_EXPANSION_BYTES)`
abbrev pub is_too_wide : Option ℕ → Bool
is_too_wide none = true
is_too_wide (some n) = ltb max_expansion_bytes n

-- The time that is left for a frame whose bounds are in order.
unfoldable pub validate_bounds : SessionClientFrame → Exec ProtocolError (Option ℕ)
unfolding validate_query validate_page_size validate_window_id
validate_bounds (open_window f) = do
  validate_query f.query
  validate_page_size f.page_size
  refuse_if (f.ttl_ms == 0 || ltb max_window_ttl_ms f.ttl_ms) invalid_message
  pure (some f.remaining_ms)
validate_bounds (continue_window f) = do
  validate_window_id f.window_id
  validate_page_size f.page_size
  pure (some f.remaining_ms)
validate_bounds (expand f) = do
  validate_window_id f.window_id
  refuse_if (leb max_items f.item_index || is_too_wide (checked_add f.before_bytes f.after_bytes))
      invalid_message
  pure (some f.remaining_ms)
validate_bounds (cancel request_id) = pure none
validate_bounds (close request_id) = pure none

abbrev is_overdue : Option ℕ → Bool
is_overdue none = false
is_overdue (some ms) = is_out_of_time ms

unfoldable pub validate_session_frame : SessionClientFrame → Exec ProtocolError (Unit {0})
unfolding validate_bounds request_id_of
validate_session_frame frame = do
  refuse_if (request_id_of frame == 0) invalid_correlation
  remaining ← validate_bounds frame
  refuse_if (is_overdue remaining) invalid_message
