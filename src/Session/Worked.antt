-- ===== src/Session/Worked.antt =====
-- A session and its worker together: every page that the session commits is taken by the window.
use eliot_search.Prelude.{
  ℕ, ◌≡◌, refl, sym, subst, true, false, Option, none, some, List, [], ◌∷◌, Bytes, length, arith,
  Bool, Bool-cases, inl, inr, ltb, if◌then◌else◌,
}
use eliot_search.Exec.{Result, ok, err}
use eliot_search.Protocol.Message.Session.{SessionClientFrame}
use eliot_search.Protocol.Message.Window.{WindowItem}
use eliot_search.Protocol.Message.Expansion.{WindowExpansion}
use eliot_search.Protocol.Message.Reply.{SessionReply}
use eliot_search.Protocol.Frames.{Serializer}
use eliot_search.Exact.{QueryFailure}
use eliot_search.Exec.{Exec}
use eliot_search.Framed.{Window, commit_page}
use eliot_search.Framed.Open.{Searches}
use eliot_search.Framed.Pages.{IsWindow}
use eliot_search.Framed.Rounds.{moved, commit_page-moved}
use eliot_search.Session.State.{
  Ready, Job, Command, execute, commit, shutdown, Output, Message, sent, raised, replied, World,
}
use eliot_search.Session.Traffic.{Serves, holding, reply, commit_of}
use eliot_search.Session.Served.{turn_of}
use eliot_search.Session.Served.Reply.{output-IsServed}
use eliot_search.Session.Sessions.{IsFresh, Reaches, Reaches-IsServed}
use eliot_search.Session.Worker.{
  Working, Looks, idle_worker, is_over, committed, work_commit, work_job,
}
use eliot_search.Session.Worker.Pages.{IsOpen, IsOffered, IsFrom}
use eliot_search.Session.Worker.Replies.{IsFine, work_job-IsReplied}

commit_page-IsWindow :
    (expected next : ℕ) (window window' : Window)
    → commit_page expected next window ≡ ok window'
    → IsWindow window'
unfolding commit_page
commit_page-IsWindow expected next window window' e =
    elim (Bool-cases (ltb (length window.items) next)) [
      | inl far ↦ absurd (ground arith)
      | inr near ↦ ground arith
    ]

committed-IsOpen :
    (w : Working) (r : Result QueryFailure Window)
    → IsOpen w.window
    → ((window : Window) → r ≡ ok window → IsWindow window)
    → IsOpen (committed w r).window
committed-IsOpen w (ok window) inside h = h window refl
committed-IsOpen w (err e) inside h = inside

commit-IsOpen :
    (expected next : ℕ) (looks : Looks) (w : Working)
    → IsOpen w.window
    → IsOpen (work_commit expected next looks w).window
unfolding work_commit
commit-IsOpen expected next looks w inside =
    split (is_over w.expires looks.late_before) w.window inside
  where
    split :
        (late : Bool) (window : Option Window)
        → IsOpen window
        → IsOpen
            (if late then record w { ended = true } else elim window as (λ _. Working) [
              | none ↦ record w { ended = true }
              | some v ↦ committed w (commit_page expected next v)
            ]).window
    split true window open_window = inside
    split false none open_window = inside
    split false (some v) open_window =
        committed-IsOpen w _ inside λ v' e. commit_page-IsWindow expected next v v' e

fine-IsOffered :
    (w : Working) {page : ℕ × ℕ} (answer : Result Bytes Ready)
    → commit_of answer ≡ some page
    → IsFine (IsFrom w.window) answer
    → IsOffered w.window page
fine-IsOffered w (ok ready) e fine = fine _ e
fine-IsOffered w (err x) e fine = absurd (cc)

module _ (searches : Searches)
    (context : ℕ → WindowItem → ℕ → ℕ → Exec QueryFailure WindowExpansion)
    (json : Serializer SessionReply) where
  -- The worker that has worked the commands among the messages, one after the other, and the reply that
  -- it made and that is not taken yet. A worker that has ended works no command and makes no reply.
  pub data Worked : List Message → Working → Option (Result Bytes Ready) → Type 0 where
    started : Worked [] idle_worker none
    job_done :
        {t : List Message} {w w' : Working} {r : Option (Result Bytes Ready)}
        {answer : Result Bytes Ready} (job : Job) (looks : Looks)
        → Worked t w r
        → w.ended ≡ false
        → work_job searches context json job looks w ≡ (answer, w')
        → Worked (sent (execute job) ∷ t) w' (some answer)
    page_done :
        {t : List Message} {w w' : Working} {r : Option (Result Bytes Ready)} (expected next : ℕ)
        (looks : Looks)
        → Worked t w r
        → w.ended ≡ false
        → w' ≡ work_commit expected next looks w
        → Worked (sent (commit expected next) ∷ t) w' none
    stopped :
        {t : List Message} {w : Working} {r : Option (Result Bytes Ready)}
        → Worked t w r
        → Worked (sent shutdown ∷ t) (record w { ended = true }) none
    lost :
        {t : List Message} {w : Working} {r : Option (Result Bytes Ready)} (command : Command)
        → Worked t w r
        → w.ended ≡ true
        → Worked (sent command ∷ t) w none
    flagged :
        {t : List Message} {w : Working} {r : Option (Result Bytes Ready)} (id : ℕ)
        → Worked t w r
        → Worked (raised id ∷ t) w r
    taken :
        {t : List Message} {w : Working} (answer : Result Bytes Ready)
        → Worked t w (some answer)
        → Worked (replied answer ∷ t) w none
    broken :
        {t : List Message} {w : Working} {r : Option (Result Bytes Ready)} (e : Bytes)
        → Worked t w r
        → Worked (replied (err e) ∷ t) w none

  -- The window keeps its cursor within its items, and the reply that waits is of that window.
  Worked-IsOpen :
      {t : List Message} {w : Working} {r : Option (Result Bytes Ready)}
      → Worked t w r
      → IsOpen w.window
  Worked-IsOpen started = tt
  Worked-IsOpen (job_done {w = w} job looks before going at) =
      (subst (λ p. IsOpen p.1.window) at
        (work_job-IsReplied searches context json job looks w (Worked-IsOpen before)).0)
  Worked-IsOpen (page_done {w = w} expected next looks before going at) =
      subst (λ v. IsOpen v.window) (sym at)
        (commit-IsOpen expected next looks w (Worked-IsOpen before))
  Worked-IsOpen (stopped before) = Worked-IsOpen before
  Worked-IsOpen (lost command before over) = Worked-IsOpen before
  Worked-IsOpen (flagged id before) = Worked-IsOpen before
  Worked-IsOpen (taken answer before) = Worked-IsOpen before
  Worked-IsOpen (broken e before) = Worked-IsOpen before

  Worked-IsFrom :
      {t : List Message} {w : Working} {answer : Result Bytes Ready}
      → Worked t w (some answer)
      → IsFine (IsFrom w.window) answer
  Worked-IsFrom (job_done {w = w} job looks before going at) =
      subst (λ p. IsFine (IsFrom p.1.window) p.0) at
        (work_job-IsReplied searches context json job looks w (Worked-IsOpen before)).1
  Worked-IsFrom (flagged id before) = Worked-IsFrom before

  holding-IsOffered :
      {t : List Message} {w : Working} {r : Option (Result Bytes Ready)} {id : ℕ} {page : ℕ × ℕ}
      → Serves t (holding id (some page))
      → Worked t w r
      → IsOffered w.window page
  holding-IsOffered {w = w} (reply answer e s) (taken _ before) =
      fine-IsOffered w answer e (Worked-IsFrom before)
  holding-IsOffered (reply answer e s) (broken x before) = absurd (cc)

  -- Whatever the looks of the worker and the environment of the session find: where a session writes a
  -- reply that holds a page, and its worker has worked what was sent, the worker has a window that takes
  -- the commit of that page, so that its cursor moves to the end of the page; a commit that comes before
  -- the expiry moves the window of the worker and does not end it.
  pub output-taken :
      {frames : Serializer SessionClientFrame} {first v : World} {w : Working}
      {r : Option (Result Bytes Ready)} {o : Output} {expected next : ℕ} (looks : Looks)
      → IsFresh first
      → Reaches json frames first v
      → v.exchange.output ≡ some o
      → o.ready.commit ≡ some (expected, next)
      → Worked v.channel w r
      → is_over w.expires looks.late_before ≡ false
      → (window : Window) × (w.window ≡ some window)
        × (work_commit expected next looks w ≡ record w { window = some (moved window next) })
  unfolding work_commit
  output-taken {frames = frames} {v = v} {w = w} {o = o} {expected = expected} {next = next} looks
        fresh reaches eo page worked on_time =
      let served = Reaches-IsServed json frames fresh reaches in
      let (ea, held, s) = output-IsServed eo served in
      let holds = subst (λ p. Serves v.channel (turn_of p v.exchange.last_id)) page s in
      let (window, at, same, low, high) = holding-IsOffered holds worked in
      (window, at, rw (on_time, at, commit_page-moved window expected next same low high) refl)
