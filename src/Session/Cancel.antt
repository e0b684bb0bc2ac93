-- ===== src/Session/Cancel.antt =====
-- framed_search/session.rs, the operations of `Exchange` that stop work: `reject` and `cancel`. The
-- serializer of replies is a parameter.
use eliot_search.Prelude.{
  ℕ, Bool, true, false, not, ◌&&◌, Option, none, some, Bytes, leb, ◌==◌, if◌then◌else◌,
}
use eliot_search.Protocol.Message.Session.{request_id_of}
use eliot_search.Protocol.Message.Reply.{SessionReply}
use eliot_search.Protocol.Frames.{Serializer}
use eliot_search.Exact.{QueryFailure, code}
use eliot_search.Session.Codes.{
  query_response_mismatch, session_partial_output_cancelled, session_no_active_request,
}
use eliot_search.Session.State.{Active, Output, Deferred, raised, is_close}
use eliot_search.Session.Monad.{
  Action, pure, raise, run, ◌>>=◌, ◌>>◌, get_exchange, modify, now, later, tell,
}
use eliot_search.Session.Replies.{failure}

-- CLEANUP_ALLOWANCE
abbrev pub cleanup_allowance : ℕ
cleanup_allowance = 5000

abbrev pub is_some {ℓ} : {A : Type ℓ} → Option A → Bool
is_some none = false
is_some (some a) = true

-- `option.get_or_insert(value)`
abbrev pub kept_or {ℓ} : {A : Type ℓ} → Option A → A → Option A
kept_or none a = some a
kept_or (some b) a = some b

unfoldable pub set_active : Option Active → Action (Unit {0})
unfolding modify
set_active a = modify (λ x. record x { active = a })

unfoldable pub set_output : Option Output → Action (Unit {0})
unfolding modify
set_output o = modify (λ x. record x { output = o })

unfoldable pub set_deferred : Option Deferred → Action (Unit {0})
unfolding modify
set_deferred d = modify (λ x. record x { deferred = d })

-- `self.completed_id.is_some_and(|completed| id <= completed)`
abbrev pub is_completed : Option ℕ → ℕ → Bool
is_completed none id = false
is_completed (some completed) id = leb id completed

-- The frame that waits is the one to cancel.
abbrev pub is_waiting : Option Deferred → ℕ → Bool
is_waiting none id = false
is_waiting (some d) id = (request_id_of d.message == id) && not (is_close d.message)

abbrev pub mark_cancelled : Option Deferred → Option Deferred
mark_cancelled none = none
mark_cancelled (some d) = some (record d { cancelled = true })

-- The flag is raised, and the time for the worker to stop is limited once.
unfoldable pub stop_active : Active → ℕ → Action (Unit {0})
unfolding set_active
stop_active a id = if not (a.id == id) then raise query_response_mismatch else (do
  tell (raised a.id)
  let stopping : Active = record a { stopped = kept_or a.stopped QueryFailure.cancelled }
  set_active (some stopping)
  time ← now
  end ← later time cleanup_allowance
  set_active (some (record stopping { cleanup = kept_or a.cleanup end })))

module _ (json : Serializer SessionReply) where
  -- The reply that a failure makes, put out from its start.
  unfoldable pub put_failure : ℕ → QueryFailure → Action (Unit {0})
  unfolding set_output
  put_failure id reason = do
    ready ← run (failure json id reason)
    time ← now
    end ← later time cleanup_allowance
    set_output (some (record { id = id; ready = ready; cursor = 0; deadline = end }))

  unfoldable pub reject : ℕ → Bytes → Action (Unit {0})
  unfolding put_failure
  reject id text = put_failure id (code text)

  unfoldable pub stop_output : Output → ℕ → Action (Unit {0})
  unfolding set_output
  stop_output o id =
      if not (o.id == id)
      then raise query_response_mismatch
      else if not (o.cursor == 0)
      then raise session_partial_output_cancelled
      else (do
        ready ← run (failure json id QueryFailure.cancelled)
        set_output (some (record o { ready = ready })))

  unfoldable pub cancel_work : Option Active → Option Output → ℕ → Action (Unit {0})
  unfolding stop_active stop_output reject
  cancel_work (some a) o id = stop_active a id
  cancel_work none (some o) id = stop_output o id
  cancel_work none none id = reject id session_no_active_request

  unfoldable pub cancel_request : ℕ → Action (Unit {0})
  unfolding cancel_work set_deferred
  cancel_request id = do
    x ← get_exchange
    (if is_completed x.completed_id id
        then pure tt
        else if is_waiting x.deferred id
        then set_deferred (mark_cancelled x.deferred)
        else cancel_work x.active x.output id)
