-- ===== src/Session/Traffic.antt =====
-- What passes between a session and its worker in the order in which it may pass.
use eliot_search.Prelude.{
  ℕ, suc, arith, ◌≤◌, ◌<◌, ◌≡◌, true, Option, none, some, List, [], ◌∷◌, Bytes,
}
use eliot_search.Exec.{Result, ok, err}
use eliot_search.Session.State.{
  Ready, Job, Message, execute, commit, shutdown, sent, raised, replied, is_close, job_id,
}

-- Whose turn it is: no job is under way, behind that of this request; the worker has a job; the session
-- has the reply of a job, with the page that is to be committed once it is written; the worker was told
-- to end.
pub data Turn : Type 0 where
  free asked : ℕ → Turn
  holding : ℕ → Option (ℕ × ℕ) → Turn
  over : Turn

abbrev pub commit_of : Result Bytes Ready → Option (ℕ × ℕ)
commit_of (ok ready) = ready.commit
commit_of (err e) = none

-- The latest message is the first. A job is sent where no other is under way, under a greater id than
-- all before it; only a job that closes the window may pass one whose flag is raised, or a reply that is
-- not committed.
pub data Serves : List Message → Turn → Type 0 where
  start : Serves [] (free 0)
  pass : {t : List Message} {m n : ℕ} → m ≤ n → Serves t (free m) → Serves t (free n)
  ask :
      {t : List Message} {last : ℕ} (job : Job)
      → last < job_id job
      → Serves t (free last)
      → Serves (sent (execute job) ∷ t) (asked (job_id job))
  raise_flag : {t : List Message} {id : ℕ} → Serves t (asked id) → Serves (raised id ∷ t) (asked id)
  reply :
      {t : List Message} {id : ℕ} {page : Option (ℕ × ℕ)} (r : Result Bytes Ready)
      → commit_of r ≡ page
      → Serves t (asked id)
      → Serves (replied r ∷ t) (holding id page)
  give_up :
      {t : List Message} {id : ℕ} {page : Option (ℕ × ℕ)}
      → Serves t (holding id page)
      → Serves t (holding id none)
  settle :
      {t : List Message} {id expected next : ℕ}
      → Serves t (holding id (some (expected, next)))
      → Serves (sent (commit expected next) ∷ t) (free id)
  skip : {t : List Message} {id : ℕ} → Serves t (holding id none) → Serves t (free id)
  close_early :
      {t : List Message} {id : ℕ} (job : Job)
      → is_close job.message ≡ true
      → id < job_id job
      → Serves (raised id ∷ t) (asked id)
      → Serves (sent (execute job) ∷ raised id ∷ t) (asked (job_id job))
  stop : {t : List Message} {turn : Turn} → Serves t turn → Serves (sent shutdown ∷ t) over

-- The messages stand in an order in which they may pass.
abbrev pub IsTraffic : List Message → Type 0
IsTraffic t = (turn : Turn) × Serves t turn

-- The requests of the jobs, the latest first.
abbrev pub ids_of : List Message → List ℕ
ids_of [] = []
ids_of (sent (execute job) ∷ t) = job_id job ∷ ids_of t
ids_of (sent (commit expected next) ∷ t) = ids_of t
ids_of (sent shutdown ∷ t) = ids_of t
ids_of (raised id ∷ t) = ids_of t
ids_of (replied r ∷ t) = ids_of t

abbrev pub IsAbove : ℕ → List ℕ → Type 0
IsAbove n [] = Unit {0}
IsAbove n (id ∷ ids) = (id < n) × IsAbove n ids

-- Each number is greater than those behind it.
abbrev pub IsFalling : List ℕ → Type 0
IsFalling [] = Unit {0}
IsFalling (id ∷ ids) = IsAbove id ids × IsFalling ids

abbrev IsBounded : Turn → List ℕ → Type 0
IsBounded (free n) ids = IsAbove (suc n) ids
IsBounded (asked n) ids = IsAbove (suc n) ids
IsBounded (holding n page) ids = IsAbove (suc n) ids
IsBounded over ids = Unit {0}

IsAbove-weaken : {m n : ℕ} (ids : List ℕ) → m ≤ n → IsAbove m ids → IsAbove n ids
IsAbove-weaken [] le h = tt
IsAbove-weaken (id ∷ ids) le h = (omega arith, IsAbove-weaken ids le h.1)

ids_of-IsBounded :
    {t : List Message} {turn : Turn}
    → Serves t turn
    → IsFalling (ids_of t) × IsBounded turn (ids_of t)
ids_of-IsBounded start = (tt, tt)
ids_of-IsBounded (pass le s) =
    let (falls, below) = ids_of-IsBounded s in (falls, IsAbove-weaken _ (omega arith) below)
ids_of-IsBounded (ask job greater s) =
    let (falls, below) = ids_of-IsBounded s in
    (
      (IsAbove-weaken _ (omega arith) below, falls),
      (omega arith, IsAbove-weaken _ (omega arith) below),
    )
ids_of-IsBounded (raise_flag s) = ids_of-IsBounded s
ids_of-IsBounded (reply r e s) = ids_of-IsBounded s
ids_of-IsBounded (give_up s) = ids_of-IsBounded s
ids_of-IsBounded (settle s) = ids_of-IsBounded s
ids_of-IsBounded (skip s) = ids_of-IsBounded s
ids_of-IsBounded (close_early job closes greater s) =
    let (falls, below) = ids_of-IsBounded s in
    (
      (IsAbove-weaken _ (omega arith) below, falls),
      (omega arith, IsAbove-weaken _ (omega arith) below),
    )
ids_of-IsBounded (stop s) = ((ids_of-IsBounded s).0, tt)

-- The jobs of traffic in order have ever greater requests.
pub ids_of-IsFalling : {t : List Message} → IsTraffic t → IsFalling (ids_of t)
ids_of-IsFalling (turn, s) = (ids_of-IsBounded s).0
