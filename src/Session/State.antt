-- ===== src/Session/State.antt =====
-- framed_search/session.rs and session/worker.rs, the data: the state of a session, and the messages
-- between the session and its worker. A time is a number of milliseconds. The flag that cancels a job
-- and the channel of its reply belong to the job, so that they are named by its request.
use eliot_search.Prelude.{ℕ, Bool, true, false, Option, List, Bytes}
use eliot_search.Exec.{Env, Result}
use eliot_search.Protocol.Buffer.{FrameBuffer}
use eliot_search.Protocol.Message.Session.{
  SessionClientFrame, open_window, continue_window, expand, cancel, close, request_id_of,
}
use eliot_search.Exact.{QueryFailure}

pub record Ready : Type 0 where
  pub bytes : Bytes
  pub commit : Option (ℕ × ℕ)
  pub end : Bool

pub record Job : Type 0 where
  pub message : SessionClientFrame
  pub deadline : ℕ
  pub expires : Option ℕ

pub data Command : Type 0 where
  execute : Job → Command
  commit : ℕ → ℕ → Command
  shutdown : Command

pub record Active : Type 0 where
  pub id : ℕ
  pub deadline : ℕ
  pub stopped : Option QueryFailure
  pub cleanup : Option ℕ

pub record Output : Type 0 where
  pub id : ℕ
  pub ready : Ready
  pub cursor : ℕ
  pub deadline : ℕ

pub record Deferred : Type 0 where
  pub message : SessionClientFrame
  pub started : ℕ
  pub cancelled : Bool

pub record Exchange : Type 0 where
  pub input : FrameBuffer
  pub frame_started : Option ℕ
  pub opened : Bool
  pub last_id : ℕ
  pub completed_id : Option ℕ
  pub expires : Option ℕ
  pub active : Option Active
  pub output : Option Output
  pub deferred : Option Deferred

-- What passes between the session and its worker: a command, the flag of a job that is raised, and a
-- reply that the session takes.
pub data Message : Type 0 where
  sent : Command → Message
  raised : ℕ → Message
  replied : Result Bytes Ready → Message

-- The state of the session, what has passed since its start, the latest first, whether the worker still
-- takes commands, and what the clock and the environment hold in store.
pub record World : Type 0 where
  pub exchange : Exchange
  pub channel : List Message
  pub listening : Bool
  pub clock : ℕ → ℕ
  pub env : Env

unfoldable pub is_close : SessionClientFrame → Bool
is_close (close request_id) = true
is_close (open_window f) = false
is_close (continue_window f) = false
is_close (expand f) = false
is_close (cancel request_id) = false

abbrev pub job_id : Job → ℕ
job_id job = request_id_of job.message
