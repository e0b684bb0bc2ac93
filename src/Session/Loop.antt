-- ===== src/Session/Loop.antt =====
-- framed_search/session.rs, what an iteration of `exchange` does with the branch of its `select!` that
-- was ready. The serializers are parameters. What is behind the loop (the wait for the worker, the last
-- bytes written) is outside: an iteration that ends the session says so.
use eliot_search.Prelude.{
  ℕ, ◌+◌, ◌≤◌, ◌≡◌, min, Bool, true, false, not, Option, none, some, [], ◌∷◌, Bytes, length, leb,
  ◌==◌, if◌then◌else◌,
}
use eliot_search.Prelude.Words.{checked_add}
use eliot_search.Exec.{Result}
use eliot_search.Protocol.{max_remaining_ms}
use eliot_search.Protocol.Buffer.{is_empty}
use eliot_search.Protocol.Message.Session.{SessionClientFrame, request_id_of}
use eliot_search.Protocol.Message.Reply.{SessionOutcome, SessionReply}
use eliot_search.Protocol.Frames.{Serializer}
use eliot_search.Exact.{QueryFailure}
use eliot_search.Session.Codes.{
  query_deadline, query_frame_invalid, query_output_io, query_output_closed, query_cleanup_expired,
  query_worker_panicked, session_no_active_request, window_expired_partial_output,
}
use eliot_search.Session.State.{
  Ready, commit, shutdown, Active, Output, Deferred, Exchange, raised, replied,
}
use eliot_search.Session.Monad.{
  Action, pure, raise, or_raise, of_result, run, ◌>>=◌, ◌>>◌, get_exchange, modify, now, tell, send,
  try_send,
}
use eliot_search.Session.Replies.{outcome, failure}
use eliot_search.Session.Cancel.{
  cleanup_allowance, set_active, set_output, set_deferred, put_failure,
}
use eliot_search.Session.Accept.{earliest, accept, consume}

-- `state.expires.is_some_and(|expires| Instant::now() >= expires)`
unfoldable pub is_late : Action Bool
is_late = do
  x ← get_exchange
  elim x.expires [ none ↦ pure false | some expires ↦ (do time ← now; pure (leb expires time)) ]

-- `active.cleanup.unwrap_or(active.deadline)`
abbrev pub active_end : Active → ℕ
active_end a = elim a.cleanup [ none ↦ a.deadline | some end ↦ end ]

unfoldable pub timed_out_active : Option Active → Action (Unit {0})
unfolding set_active
timed_out_active none = raise query_deadline
timed_out_active (some a) = elim a.cleanup [
  | some end ↦ raise query_cleanup_expired
  | none ↦ (do
    tell (raised a.id)
    time ← now
    set_active (
        some (record a {
          stopped = some QueryFailure.deadline;
          cleanup = checked_add time cleanup_allowance;
        })))
]

unfoldable pub timed_out : Action (Unit {0})
unfolding timed_out_active
timed_out = do x ← get_exchange; timed_out_active x.active

unfoldable pub send_commit : Option (ℕ × ℕ) → Action (Unit {0})
send_commit none = pure tt
send_commit (some (expected, next)) = send (commit expected next)

-- A reply of a job that was stopped is a failure, unless it ends the session.
abbrev pub unless_end {ℓ} : {A : Type ℓ} → Bool → Option A → Option A
unless_end true reason = none
unless_end false reason = reason

module _ (json : Serializer SessionReply) where
  unfoldable pub answer : ℕ → Ready → Option QueryFailure → Action Ready
  answer id ready none = pure ready
  answer id ready (some reason) = run (failure json id reason)

  unfoldable pub take_reply : Result Bytes Ready → Action (Unit {0})
  unfolding answer set_active set_output
  take_reply reply = do
    x ← get_exchange
    a ← or_raise x.active session_no_active_request
    set_active none
    tell (replied reply)
    given ← of_result reply
    ready ← answer a.id given (unless_end given.end a.stopped)
    set_output (some (record { id = a.id; ready = ready; cursor = 0; deadline = active_end a }))

  -- The frame that waited for the output.
  unfoldable pub resume : Option Deferred → Action (Unit {0})
  unfolding accept modify put_failure set_deferred request_id_of
  resume none = pure tt
  resume (some d) = do
    set_deferred none
    (if d.cancelled
        then (do
          modify (λ x. record x { last_id = request_id_of d.message })
          put_failure json (request_id_of d.message) QueryFailure.cancelled)
        else accept json d.message d.started)

  -- The output is written and flushed: its page is committed. Whether the session ends.
  unfoldable pub flushed : Action Bool
  unfolding send_commit resume set_output modify
  flushed = do
    x ← get_exchange
    o ← or_raise x.output query_output_io
    set_output none
    send_commit o.ready.commit
    modify (λ y. record y { completed_id = some o.id })
    if o.ready.end then pure true else (resume x.deferred >> pure false)

  -- The flag is raised, the worker is told to end, and the reply that is written last is made.
  unfoldable pub expire : Action Ready
  expire = do
    x ← get_exchange
    elim x.active [ none ↦ pure tt | some a ↦ tell (raised a.id) ]
    try_send shutdown
    elim x.output [
      | none ↦ pure tt
      | some o ↦ (if o.cursor == 0 then pure tt else raise window_expired_partial_output)
    ]
    run (
        outcome json
          (elim x.active [ some a ↦ a.id | none ↦ elim x.output [ none ↦ 0 | some o ↦ o.id ] ])
          SessionOutcome.expired true)

  unfoldable pub end_late : Action (Option Bytes)
  unfolding expire
  end_late = do ready ← expire; pure (some ready.bytes)

-- The time at which a frame that is not complete is given up.
abbrev pub partial_end : Option ℕ → Option ℕ
partial_end none = none
partial_end (some started) = checked_add started max_remaining_ms

-- `Exchange::deadline`
unfoldable pub deadline_of : ℕ → Exchange → ℕ
deadline_of idle x =
    let end : ℕ = elim x.expires [ none ↦ idle | some expires ↦ expires ] in
    let active : ℕ = elim x.active [ none ↦ end | some a ↦ min end (active_end a) ] in
    let output : ℕ = elim x.output [ none ↦ active | some o ↦ min active o.deadline ] in
    earliest (partial_end x.frame_started) output

-- A branch of the `select!` that is ready: bytes are read; the worker replies, where a worker that is
-- gone counts as a failure; bytes of the output are written; the output is flushed; the worker is done;
-- or the timer that was set for `idle` wakes at a time.
pub data Event : Type 0 where
  read : Bytes → Event
  reply : Result Bytes Ready → Event
  wrote : ℕ → Event
  flush done : Event
  slept : ℕ → ℕ → Event

-- What the bytes of the output and the guards of the branches make possible.
abbrev pub IsReady : Event → Exchange → Type 0
IsReady (read bytes) x = Unit {0}
IsReady (reply r) x = x.output ≡ none
IsReady (wrote n) x = (o : Output) × (x.output ≡ some o) × (o.cursor + n ≤ length o.ready.bytes)
IsReady flush x = (o : Output) × (x.output ≡ some o) × (o.cursor ≡ length o.ready.bytes)
IsReady done x = (x.active ≡ none) × (x.output ≡ none)
IsReady (slept idle time) x = deadline_of idle x ≤ time

unfoldable pub write_on : ℕ → Option Output → Action (Unit {0})
unfolding set_output
write_on n none = raise query_output_io
write_on n (some o) =
    if n == 0
    then raise query_output_closed
    else set_output (some (record o { cursor = o.cursor + n }))

module _ (json : Serializer SessionReply) (frames : Serializer SessionClientFrame) where
  -- The branch that was ready; the bytes are those that are written last, where the session ends.
  unfoldable pub serve : Event → Action (Option Bytes)
  unfolding consume take_reply write_on flushed is_late end_late timed_out
  serve (read []) = do
    x ← get_exchange
    if is_empty x.input then pure (some []) else raise query_frame_invalid
  serve (read (b ∷ bytes)) = consume json frames (b ∷ bytes) >> pure none
  serve (reply r) = take_reply json r >> pure none
  serve (wrote n) = (get_exchange >>= λ x. write_on n x.output) >> pure none
  serve flush = do
    late ← is_late
    if late then end_late json else (flushed json >>= λ ends. pure (if ends then some [] else none))
  serve done = do
    late ← is_late
    if not late then raise query_worker_panicked else pure tt
    ready ← run (outcome json 0 SessionOutcome.expired true)
    pure (some ready.bytes)
  serve (slept idle time) = do
    late ← is_late
    if late then end_late json else (timed_out >> pure none)

  -- An iteration of the loop.
  unfoldable pub iterate : Event → Action (Option Bytes)
  unfolding serve is_late end_late
  iterate event = do late ← is_late; if late then end_late json else serve event
