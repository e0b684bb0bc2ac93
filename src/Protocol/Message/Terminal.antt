-- ===== src/Protocol/Message/Terminal.antt =====
-- dto.rs, `QueryOutcome` and `Terminal`: the answer to the one query of a child process.
pub mod Ranked
use eliot_search.Prelude.{ℕ, ◌+◌, not, ◌||◌, List, [], ◌∷◌, ◌++◌, Bytes, length, ltb, ◌==◌}
use eliot_search.Exec.{Exec, pure, refuse_if, ◌>>=◌, ◌>>◌}
use eliot_search.Protocol.{
  ProtocolError, invalid_message, invalid_correlation, max_items, query_request_id,
}
use eliot_search.Protocol.Message.Text.{contains, FailureCode}
use eliot_search.Protocol.Message.Item.{SearchItem, rank_of, evidence_of, validate_item, StopReason}
use eliot_search.Protocol.Message.Raw.{RawExactResult, validate_raw_result}
use eliot_search.Protocol.Message.Decoded.{DecodedUtf8Result, validate_decoded_result}

pub data QueryOutcome : Type 0 where
  complete : ℕ → List SearchItem → StopReason → QueryOutcome
  raw_exact : RawExactResult → QueryOutcome
  decoded_utf8 : DecodedUtf8Result → QueryOutcome
  cancelled : QueryOutcome
  failed : FailureCode → QueryOutcome

pub record Terminal : Type 0 where
  pub request_id : ℕ
  pub outcome : QueryOutcome

-- The loop over the items: `index` is that of the first, `seen` are the points of those before.
unfoldable pub validate_ranked :
    ℕ → ℕ → List Bytes → List SearchItem → Exec ProtocolError (Unit {0})
unfolding rank_of evidence_of
validate_ranked generation index seen [] = pure tt
validate_ranked generation index seen (item ∷ items) = do
  refuse_if (not (rank_of item == index + 1) || contains seen (evidence_of item).point_id)
      invalid_message
  validate_item item generation
  validate_ranked generation (index + 1) (seen ++ (evidence_of item).point_id ∷ []) items

unfoldable pub validate_outcome : QueryOutcome → ℕ → Exec ProtocolError (Unit {0})
unfolding validate_ranked
validate_outcome (complete generation items stop) requested_limit = do
  refuse_if (generation == 0 || ltb requested_limit (length items)) invalid_message
  validate_ranked generation 0 [] items
validate_outcome (raw_exact result) requested_limit = validate_raw_result result requested_limit
validate_outcome (decoded_utf8 result) requested_limit =
    validate_decoded_result result requested_limit
validate_outcome cancelled requested_limit = pure tt
validate_outcome (failed code) requested_limit = pure tt

unfoldable pub validate_terminal : Terminal → ℕ → Exec ProtocolError (Unit {0})
unfolding validate_outcome
validate_terminal terminal requested_limit = do
  refuse_if (not (terminal.request_id == query_request_id)) invalid_correlation
  refuse_if (requested_limit == 0 || ltb max_items requested_limit) invalid_message
  validate_outcome terminal.outcome requested_limit
