-- ===== src/Protocol/Message/Request.antt =====
-- dto.rs, the requests of a client and `ClientFrame`.
use eliot_search.Prelude.{
  ℕ, Bool, not, ◌||◌, Option, none, some, List, [], ◌∷◌, ◌++◌, Bytes, length, ltb, ◌==◌,
}
use eliot_search.Exec.{Exec, pure, refuse_if, ◌>>=◌, ◌>>◌}
use eliot_search.Protocol.{
  ProtocolError, invalid_message, invalid_correlation, max_query_bytes, max_items, max_remaining_ms,
  query_request_id,
}
use eliot_search.Protocol.Message.Text.{no_items, any, contains, canonical_uuid}

pub record SearchRequest : Type 0 where
  pub query : Bytes
  pub limit : ℕ

unfoldable pub validate_search_request : SearchRequest → Exec ProtocolError (Unit {0})
validate_search_request request =
    refuse_if
      (no_items request.query
        || ltb max_query_bytes (length request.query)
        || any (λ b. b == 0) request.query
        || request.limit == 0
        || ltb max_items request.limit)
      invalid_message

pub record RawExactRequest : Type 0 where
  pub literal : Bytes
  pub source_ids : Option (List Bytes)
  pub limit : ℕ

pub record DecodedUtf8Request : Type 0 where
  pub literal : Bytes
  pub source_ids : Option (List Bytes)
  pub limit : ℕ

-- The loop over the selected identities; `seen` are those before.
unfoldable pub validate_ids : List Bytes → List Bytes → Exec ProtocolError (Unit {0})
validate_ids seen [] = pure tt
validate_ids seen (id ∷ ids) = do
  refuse_if (not (canonical_uuid id) || contains seen id) invalid_message
  validate_ids (seen ++ id ∷ []) ids

abbrev pub validate_selection : Option (List Bytes) → Exec ProtocolError (Unit {0})
validate_selection none = pure tt
validate_selection (some ids) = validate_ids [] ids

unfoldable pub validate_raw_request : RawExactRequest → Exec ProtocolError (Unit {0})
unfolding validate_ids
validate_raw_request request = do
  refuse_if
      (no_items request.literal
        || ltb max_query_bytes (length request.literal)
        || request.limit == 0
        || ltb max_items request.limit)
      invalid_message
  validate_selection request.source_ids

unfoldable pub validate_decoded_request : DecodedUtf8Request → Exec ProtocolError (Unit {0})
unfolding validate_ids
validate_decoded_request request = do
  refuse_if
      (no_items request.literal
        || ltb max_query_bytes (length request.literal)
        || request.limit == 0
        || ltb max_items request.limit)
      invalid_message
  validate_selection request.source_ids

pub data ClientFrame : Type 0 where
  query : ℕ → ℕ → SearchRequest → ClientFrame
  raw_exact : ℕ → ℕ → RawExactRequest → ClientFrame
  decoded_utf8 : ℕ → ℕ → DecodedUtf8Request → ClientFrame
  cancel : ℕ → ClientFrame

abbrev pub is_out_of_time : ℕ → Bool
is_out_of_time remaining_ms = remaining_ms == 0 || ltb max_remaining_ms remaining_ms

-- The request identity of a frame whose content is in order.
unfoldable pub validate_content : ClientFrame → Exec ProtocolError ℕ
unfolding validate_search_request validate_raw_request validate_decoded_request
validate_content (query request_id remaining_ms request) = do
  refuse_if (is_out_of_time remaining_ms) invalid_message
  validate_search_request request
  pure request_id
validate_content (raw_exact request_id remaining_ms request) = do
  refuse_if (is_out_of_time remaining_ms) invalid_message
  validate_raw_request request
  pure request_id
validate_content (decoded_utf8 request_id remaining_ms request) = do
  refuse_if (is_out_of_time remaining_ms) invalid_message
  validate_decoded_request request
  pure request_id
validate_content (cancel request_id) = pure request_id

unfoldable pub validate_client_frame : ClientFrame → Exec ProtocolError (Unit {0})
unfolding validate_content
validate_client_frame frame = do
  request_id ← validate_content frame
  refuse_if (not (request_id == query_request_id)) invalid_correlation
