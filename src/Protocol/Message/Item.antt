-- ===== src/Protocol/Message/Item.antt =====
-- dto.rs, the items of a ranked search.
use eliot_search.Prelude.{ℕ, ◌/◌, ◌%◌, ◌^◌, Bool, not, ◌||◌, Bytes, length, bytes_eq, ltb, ◌==◌}
use eliot_search.Prelude.Words.{checked_sub}
use eliot_search.Exec.{Exec, pure, refuse_if, ◌>>=◌, ◌>>◌}
use eliot_search.Protocol.{ProtocolError, invalid_message, max_unit_text_bytes}
use eliot_search.Protocol.Message.Text.{
  is_length, FailureCode, source_object_missing, prepared_object_missing,
}
use eliot_search.Protocol.Message.Object.{EvidenceMetadata, validate_evidence}

-- A score is the 32 bits of its binary representation.
pub record SearchHit : Type 0 where
  pub rank : ℕ
  pub score : ℕ
  pub evidence : EvidenceMetadata
  pub unit_text : Bytes

pub record SearchGap : Type 0 where
  pub rank : ℕ
  pub score : ℕ
  pub evidence : EvidenceMetadata
  pub code : FailureCode

pub data SearchItem : Type 0 where
  hit : SearchHit → SearchItem
  gap : SearchGap → SearchItem

-- `f32::is_finite`: the eight bits of the exponent are not all set.
abbrev pub is_finite : ℕ → Bool
is_finite score = not (score / 2 ^ 23 % 256 == 255)

unfoldable pub rank_of : SearchItem → ℕ
rank_of (hit h) = h.rank
rank_of (gap g) = g.rank

unfoldable pub evidence_of : SearchItem → EvidenceMetadata
evidence_of (hit h) = h.evidence
evidence_of (gap g) = g.evidence

-- The score of an item whose own content is in order.
unfoldable pub validate_score : SearchItem → Exec ProtocolError ℕ
validate_score (hit h) = do
  refuse_if
      (ltb max_unit_text_bytes (length h.unit_text)
        || not (is_length (checked_sub h.evidence.end h.evidence.start) (length h.unit_text)))
      invalid_message
  pure h.score
validate_score (gap g) = do
  refuse_if (not (bytes_eq g.code source_object_missing || bytes_eq g.code prepared_object_missing))
      invalid_message
  pure g.score

unfoldable pub validate_item : SearchItem → ℕ → Exec ProtocolError (Unit {0})
unfolding validate_score evidence_of
validate_item item generation = do
  score ← validate_score item
  refuse_if (not (is_finite score)) invalid_message
  validate_evidence (evidence_of item) generation

pub data StopReason : Type 0 where
  complete output_limit : StopReason

abbrev pub is_complete : StopReason → Bool
is_complete complete = Bool.true
is_complete output_limit = Bool.false
