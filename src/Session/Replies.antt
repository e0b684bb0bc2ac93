-- ===== src/Session/Replies.antt =====
-- framed_search/session/worker.rs, the replies that are not pages: `outcome` and `failure`. A panic of the
-- worker makes no reply.
use eliot_search.Prelude.{ℕ, Bool, false, none, Bytes}
use eliot_search.Exec.{Exec, pure, fail, ◌>>=◌}
use eliot_search.Protocol.{ProtocolError, invalid_message}
use eliot_search.Protocol.Message.Text.{new_failure_code}
use eliot_search.Protocol.Message.Reply.{SessionOutcome, SessionReply}
use eliot_search.Protocol.Frames.{Serializer, encode_session_reply}
use eliot_search.Exact.{QueryFailure, cancelled, deadline, panic, code}
use eliot_search.Session.Codes.{query_deadline}
use eliot_search.Session.State.{Ready}

-- `FailureCode::new(code)?`
unfoldable pub failed_with : Bytes → Exec ProtocolError SessionOutcome
failed_with text = do
  failure_code ← new_failure_code text
  pure (SessionOutcome.failed failure_code)

unfoldable pub outcome_of : QueryFailure → Exec ProtocolError SessionOutcome
unfolding failed_with
outcome_of cancelled = pure SessionOutcome.cancelled
outcome_of deadline = failed_with query_deadline
outcome_of panic = fail invalid_message
outcome_of (code text) = failed_with text

module _ (json : Serializer SessionReply) where
  unfoldable pub outcome : ℕ → SessionOutcome → Bool → Exec ProtocolError Ready
  outcome request_id result end = do
    bytes ← encode_session_reply json (record { request_id = request_id; outcome = result })
    pure (record { bytes = bytes; commit = none; end = end })

  unfoldable pub failure : ℕ → QueryFailure → Exec ProtocolError Ready
  unfolding outcome outcome_of
  failure request_id reason = do result ← outcome_of reason; outcome request_id result false
