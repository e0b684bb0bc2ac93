-- ===== src/Session/Accept.antt =====
-- framed_search/session.rs, the operations of `Exchange` that take what the client sends: `accept` and
-- `consume`. The serializers are parameters.
use eliot_search.Prelude.{
  ℕ, zero, suc, ◌-◌, min, Bool, true, false, not, ◌&&◌, ◌||◌, Option, none, some, [], ◌∷◌, Bytes,
  length, leb, ◌==◌, if◌then◌else◌,
}
use eliot_search.Protocol.{max_client_frame_bytes}
use eliot_search.Protocol.Buffer.{new, push, is_empty, frame}
use eliot_search.Protocol.Message.Session.{
  SessionClientFrame, Open, open_window, continue_window, expand, request_id_of,
}
use eliot_search.Protocol.Message.Session.SessionClientFrame.{cancel, close}
use eliot_search.Protocol.Message.Reply.{SessionReply}
use eliot_search.Protocol.Frames.{Serializer, decode_session_frame}
use eliot_search.Session.Codes.{
  query_frame_invalid, session_request_id_invalid, session_partial_output_close,
  session_request_in_flight, session_control_invalid, window_already_open, window_not_open,
}
use eliot_search.Session.State.{execute, Active, Output, Exchange, raised, is_close}
use eliot_search.Session.Monad.{
  Action, pure, raise, or_raise, of_protocol, run, ◌>>=◌, ◌>>◌, get_exchange, modify, now, later,
  memory, tell, send,
}
use eliot_search.Session.Cancel.{
  is_some, set_active, set_output, set_deferred, reject, cancel_request,
}

-- `if let Some(expires) = self.expires { deadline = deadline.min(expires); }`
abbrev pub earliest : Option ℕ → ℕ → ℕ
earliest none deadline = deadline
earliest (some expires) deadline = min deadline expires

-- The time that a job is given, and the expiry that it sets.
abbrev pub Terms : Type 0
Terms = ℕ × Option ℕ

-- The job is sent to the worker, and is the active one.
unfoldable pub dispatch : SessionClientFrame → ℕ → Option Terms → Action (Unit {0})
unfolding set_active request_id_of
dispatch message started none = pure tt
dispatch message started (some (remaining, job_expiry)) = do
  x ← get_exchange
  whole ← later started remaining
  let end = earliest x.expires whole
  send (execute (record { message = message; deadline = end; expires = job_expiry }))
  set_active
      (some (record { id = request_id_of message; deadline = end; stopped = none; cleanup = none }))

unfoldable pub defer : SessionClientFrame → ℕ → Action (Unit {0})
unfolding set_deferred
defer message started =
    set_deferred (some (record { message = message; started = started; cancelled = false }))

-- The time at which a frame begins.
unfoldable pub note_start : Bool → Action (Unit {0})
unfolding modify
note_start true = do time ← now; modify (λ x. record x { frame_started = some time })
note_start false = pure tt

-- `self.input.push(bytes)`
unfoldable pub push_input : Bytes → Action ℕ
unfolding modify
push_input bytes = do
  granted ← memory
  x ← get_exchange
  let pushed = push granted bytes x.input
  modify (λ y. record y { input = pushed.1 })
  of_protocol pushed.0

module _ (json : Serializer SessionReply) where
  unfoldable pub open_terms : Open → ℕ → Bool → Action (Option Terms)
  unfolding reject modify
  open_terms f time true = reject json f.request_id window_already_open >> pure none
  open_terms f time false = do
    modify (λ x. record x { opened = true })
    expires ← later time f.ttl_ms
    modify (λ x. record x { expires = some expires })
    pure (some (f.remaining_ms, some expires))

  unfoldable pub window_terms : ℕ → ℕ → Bool → Action (Option Terms)
  unfolding reject
  window_terms id remaining true = pure (some (remaining, none))
  window_terms id remaining false = reject json id window_not_open >> pure none

  -- The `match` on the message; there are no terms where a failure was put out instead.
  unfoldable pub terms_of : SessionClientFrame → ℕ → Bool → Action (Option Terms)
  unfolding open_terms window_terms
  terms_of (open_window f) time opened = open_terms f time opened
  terms_of (continue_window f) time opened = window_terms f.request_id f.remaining_ms opened
  terms_of (expand f) time opened = window_terms f.request_id f.remaining_ms opened
  terms_of (close id) time opened = pure (some (5000, none))
  terms_of (cancel id) time opened = raise session_control_invalid

  unfoldable pub launch : SessionClientFrame → ℕ → Action (Unit {0})
  unfolding modify terms_of dispatch request_id_of
  launch message started = do
    modify (λ x. record x { last_id = request_id_of message })
    time ← now
    x ← get_exchange
    terms ← terms_of message time x.opened
    dispatch message started terms

  -- A close gives up the job that is active; no other frame may come meanwhile.
  unfoldable pub replace_active : SessionClientFrame → ℕ → Option Active → Action (Unit {0})
  unfolding launch set_active is_close
  replace_active message started none = launch message started
  replace_active message started (some a) =
      if not (is_close message)
      then raise session_request_in_flight
      else (do tell (raised a.id); set_active none; launch message started)

  -- A close discards a reply of which nothing is written; other frames wait for the output, one at most.
  unfoldable pub replace_output :
      SessionClientFrame → ℕ → Option Output → Exchange → Action (Unit {0})
  unfolding replace_active defer set_output set_deferred is_close
  replace_output message started none x = replace_active message started x.active
  replace_output message started (some o) x =
      if is_close message && (o.cursor == 0)
      then (do set_output none; set_deferred none; replace_active message started x.active)
      else if is_close message && not (o.cursor == length o.ready.bytes)
      then raise session_partial_output_close
      else if is_some x.deferred && not (is_close message)
      then raise session_request_in_flight
      else defer message started

  unfoldable pub admit : SessionClientFrame → ℕ → Action (Unit {0})
  unfolding replace_output reject request_id_of
  admit message started = do
    x ← get_exchange
    (if leb (request_id_of message) x.last_id
        then (if is_some x.active || is_some x.output
            then raise session_request_id_invalid
            else reject json (request_id_of message) session_request_id_invalid)
        else replace_output message started x.output x)

  unfoldable pub accept : SessionClientFrame → ℕ → Action (Unit {0})
  unfolding admit cancel_request
  accept (cancel id) started = cancel_request json id
  accept (open_window f) started = admit (open_window f) started
  accept (continue_window f) started = admit (continue_window f) started
  accept (expand f) started = admit (expand f) started
  accept (close id) started = admit (close id) started

  module _ (frames : Serializer SessionClientFrame) where
    -- The frame in the buffer, where it is complete.
    unfoldable pub take_frame : Option Bytes → Action (Unit {0})
    unfolding accept modify
    take_frame none = pure tt
    take_frame (some bytes) = do
      message ← run (decode_session_frame frames bytes)
      x ← get_exchange
      started ← or_raise x.frame_started query_frame_invalid
      modify (λ y. record y { frame_started = none })
      input ← of_protocol (new max_client_frame_bytes)
      modify (λ y. record y { input = input })
      accept message started

    -- The loop over the bytes that were read; the number is that of the bytes that the last push took
    -- and that are not behind it yet.
    unfoldable pub consume_from : Bytes → ℕ → Action (Unit {0})
    unfolding take_frame note_start push_input
    consume_from [] taken = pure tt
    consume_from (b ∷ bytes) (suc taken) = consume_from bytes taken
    consume_from (b ∷ bytes) zero = do
      x ← get_exchange
      note_start (is_empty x.input)
      count ← push_input (b ∷ bytes)
      if count == 0 then raise query_frame_invalid else pure tt
      y ← get_exchange
      take_frame (frame y.input)
      consume_from bytes (count - 1)

    unfoldable pub consume : Bytes → Action (Unit {0})
    unfolding consume_from
    consume bytes = consume_from bytes 0
