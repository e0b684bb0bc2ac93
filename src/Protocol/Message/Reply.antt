-- ===== src/Protocol/Message/Reply.antt =====
-- dto.rs, `SessionReply` and `SessionOutcome`.
use eliot_search.Prelude.{ℕ, Bool, true, false, not, ◌&&◌, ◌==◌}
use eliot_search.Exec.{Exec, pure, refuse_if, ◌>>◌}
use eliot_search.Protocol.{ProtocolError, invalid_correlation}
use eliot_search.Protocol.Message.Text.{FailureCode}
use eliot_search.Protocol.Message.Window.{WindowPage, validate_page}
use eliot_search.Protocol.Message.Expansion.{WindowExpansion, validate_expansion}

pub data SessionOutcome : Type 0 where
  page : WindowPage → SessionOutcome
  expanded : WindowExpansion → SessionOutcome
  closed expired cancelled : SessionOutcome
  failed : FailureCode → SessionOutcome

pub record SessionReply : Type 0 where
  pub request_id : ℕ
  pub outcome : SessionOutcome

abbrev pub is_expired : SessionOutcome → Bool
is_expired expired = true
is_expired _ = false

unfoldable pub validate_session_outcome : SessionOutcome → Exec ProtocolError (Unit {0})
validate_session_outcome (page p) = validate_page p
validate_session_outcome (expanded x) = validate_expansion x
validate_session_outcome closed = pure tt
validate_session_outcome expired = pure tt
validate_session_outcome cancelled = pure tt
validate_session_outcome (failed code) = pure tt

unfoldable pub validate_session_reply : SessionReply → Exec ProtocolError (Unit {0})
unfolding validate_session_outcome
validate_session_reply reply = do
  refuse_if (reply.request_id == 0 && not (is_expired reply.outcome)) invalid_correlation
  validate_session_outcome reply.outcome
