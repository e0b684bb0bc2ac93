-- ===== src/Session/Worker.antt =====
-- framed_search/session/worker.rs, the owner of the window of a session: what it does with a command. The
-- searches, the reading of a context and the serializer of replies are parameters. A command comes with
-- what the looks at the clock, the flag and the environment find while it is worked.
pub mod Pages
pub mod Replies
use eliot_search.Prelude.{ℕ, Bool, true, false, not, ◌&&◌, Option, none, some, Bytes, if◌then◌else◌}
use eliot_search.Exec.{Env, Exec, Result, ok, err, pure, fail, ok_or, map_err, ◌>>=◌, ◌>>◌}
use eliot_search.Protocol.{ProtocolError}
use eliot_search.Protocol.Message.Session.{SessionClientFrame, open_window, continue_window, expand}
use eliot_search.Protocol.Message.Session.SessionClientFrame.{cancel, close}
use eliot_search.Protocol.Message.Window.{WindowItem}
use eliot_search.Protocol.Message.Expansion.{WindowExpansion}
use eliot_search.Protocol.Message.Reply.{SessionOutcome, SessionReply}
use eliot_search.Protocol.Frames.{Serializer}
use eliot_search.Exact.{QueryFailure, cancelled, code, check}
use eliot_search.Exact.RawExact.{refuse, protocol_code}
use eliot_search.Framed.{Window, page, commit_page}
use eliot_search.Framed.Open.{Searches, opened_window, expand_item}
use eliot_search.Session.Codes.{window_not_open, session_control_invalid}
use eliot_search.Session.State.{Ready, Job, Command, execute, commit, shutdown, is_close, job_id}
use eliot_search.Session.Replies.{outcome, failure}

-- The window, the expiry of the session, and whether the loop is left.
pub record Working : Type 0 where
  pub window : Option Window
  pub expires : Option ℕ
  pub ended : Bool

pub record Looks : Type 0 where
  pub late_before : Bool
  pub late_behind : Bool
  pub flagged : Bool
  pub env : Env

abbrev pub idle_worker : Working
idle_worker = record { window = none; expires = none; ended = false }

-- The outcome of an operation as a value.
abbrev pub tried {ℓ} :
    {A : Type ℓ} → Env → Result QueryFailure (A × Env) → Result QueryFailure A × Env
tried env (ok (a, env')) = (ok a, env')
tried env (err e) = (err e, env)

-- `expires.is_some_and(|end| Instant::now() >= end)`
abbrev pub is_over : Option ℕ → Bool → Bool
is_over none late = false
is_over (some end) late = late

abbrev pub newer : Option ℕ → Option ℕ → Option ℕ
newer none old = old
newer (some end) old = some end

abbrev pub committed : Working → Result QueryFailure Window → Working
committed w (ok window) = record w { window = some window }
committed w (err e) = record w { ended = true }

-- A page that the window does not take ends the worker.
unfoldable pub work_commit : ℕ → ℕ → Looks → Working → Working
unfolding commit_page
work_commit expected next looks w =
    if is_over w.expires looks.late_before then record w { ended = true } else elim w.window [
      | none ↦ record w { ended = true }
      | some window ↦ committed w (commit_page expected next window)
    ]

module _ (searches : Searches)
    (context : ℕ → WindowItem → ℕ → ℕ → Exec QueryFailure WindowExpansion)
    (json : Serializer SessionReply) where
  unfoldable pub page_of : Option Window → ℕ → ℕ → Exec QueryFailure Ready
  page_of none request_id size = fail (code window_not_open)
  page_of (some window) request_id size = do
    prepared ← page json window request_id size
    pure (record {
      bytes = prepared.bytes;
      commit = some (prepared.expected_cursor, prepared.next_cursor);
      end = false;
    })

  unfoldable pub expansion_of : Option Window → ℕ → ℕ → ℕ → ℕ → Exec QueryFailure Ready
  unfolding expand_item outcome
  expansion_of none request_id item_index before after = fail (code window_not_open)
  expansion_of (some window) request_id item_index before after = do
    expansion ← expand_item context item_index before after window
    map_err refuse (outcome json request_id (SessionOutcome.expanded expansion) false)

  -- The window that a job answers from.
  unfoldable pub window_for :
      Job → Option Window → SessionClientFrame → Exec QueryFailure (Option Window)
  unfolding opened_window
  window_for job window (open_window f) = do
    check
    expires ← ok_or job.expires (code window_not_open)
    opened ← opened_window searches f.query
    pure (some opened)
  window_for job window (continue_window f) = check >> pure window
  window_for job window (expand f) = check >> pure window
  window_for job window (close id) = check >> pure none
  window_for job window (cancel id) = check >> pure window

  unfoldable pub answer_from : Option Window → SessionClientFrame → Exec QueryFailure Ready
  unfolding page_of expansion_of outcome
  answer_from window (open_window f) = page_of window f.request_id f.page_size
  answer_from window (continue_window f) = page_of window f.request_id f.page_size
  answer_from window (expand f) =
      expansion_of window f.request_id f.item_index f.before_bytes f.after_bytes
  answer_from window (close id) = map_err refuse (outcome json id SessionOutcome.closed true)
  answer_from window (cancel id) = fail (code session_control_invalid)

  -- `execute`: the result, and the window behind it in either case.
  abbrev pub answered :
      Job
      → Result QueryFailure (Option Window) × Env
      → Option Window
      → Result QueryFailure Ready × (Option Window × Env)
  answered job (err e, env) window = (err e, (window, env))
  answered job (ok window', env) window =
      let (result, env') = tried env (answer_from window' job.message env) in
      (result, (window', env'))

  unfoldable pub execute_job :
      Job → Option Window → Env → Result QueryFailure Ready × (Option Window × Env)
  unfolding window_for answer_from
  execute_job job window env =
      answered job (tried env (window_for job window job.message env)) window

  -- A reply to an error: a failure, or no reply but its code.
  unfoldable pub settled : ℕ → Env → Result QueryFailure Ready → Result Bytes Ready
  unfolding failure protocol_code
  settled id env (ok ready) = ok ready
  settled id env (err e) = elim (failure json id e env) [
    | ok r ↦ ok r.0
    | err e' ↦ err (protocol_code e')
  ]

  unfoldable pub expired : ℕ → Env → Result ProtocolError Ready
  unfolding outcome
  expired id env = elim (outcome json id SessionOutcome.expired true env) [
    | ok r ↦ ok r.0
    | err e ↦ err e
  ]

  abbrev pub refused : Result ProtocolError Ready → Result QueryFailure Ready
  refused (ok ready) = ok ready
  refused (err e) = err (refuse e)

  abbrev pub coded : Result ProtocolError Ready → Result Bytes Ready
  coded (ok ready) = ok ready
  coded (err e) = err (protocol_code e)

  abbrev pub ends : Result Bytes Ready → Bool
  ends (ok ready) = ready.end
  ends (err e) = false

  -- What follows on the result of a job.
  unfoldable pub conclude :
      Job
      → Option ℕ
      → Looks
      → Result QueryFailure Ready × (Option Window × Env)
      → Result Bytes Ready × Working
  unfolding settled expired
  conclude job expires looks (result, (window, env)) =
      if is_over expires looks.late_behind
      then (
        settled (job_id job) env (refused (expired (job_id job) env)),
        record { window = none; expires = expires; ended = true },
      )
      else (let reply =
            settled (job_id job) env
              (if looks.flagged && not (is_close job.message) then err cancelled else result) in
          (reply, record { window = window; expires = expires; ended = ends reply }))

  unfoldable pub work_job : Job → Looks → Working → Result Bytes Ready × Working
  unfolding conclude expired execute_job
  work_job job looks w =
      if is_over w.expires looks.late_before
      then (coded (expired (job_id job) looks.env), record w { window = none; ended = true })
      else conclude job (newer job.expires w.expires) looks (execute_job job w.window looks.env)

  -- An iteration of `run`: the reply, where the command asks for one, and the worker behind it.
  unfoldable pub work : Command → Looks → Working → Option (Result Bytes Ready) × Working
  unfolding work_job work_commit
  work shutdown looks w = (none, record w { ended = true })
  work (commit expected next) looks w = (none, work_commit expected next looks w)
  work (execute job) looks w = let (reply, w') = work_job job looks w in (some reply, w')
