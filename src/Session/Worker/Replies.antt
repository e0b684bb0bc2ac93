-- ===== src/Session/Worker/Replies.antt =====
-- What a worker replies with a page is of the window that it then has, whatever its looks find.
use eliot_search.Prelude.{ℕ, ◌≡◌, refl, Bool, true, false, Option, none, Bytes, if◌then◌else◌}
use eliot_search.Exec.{Env, Exec, Result, ok, err}
use eliot_search.Exec.Ensures.{Ensures}
use eliot_search.Protocol.{ProtocolError}
use eliot_search.Protocol.Message.Window.{WindowItem}
use eliot_search.Protocol.Message.Expansion.{WindowExpansion}
use eliot_search.Protocol.Message.Reply.{SessionOutcome, SessionReply}
use eliot_search.Protocol.Frames.{Serializer}
use eliot_search.Exact.{QueryFailure, cancelled}
use eliot_search.Exact.RawExact.{protocol_code}
use eliot_search.Framed.{Window}
use eliot_search.Framed.Open.{Searches}
use eliot_search.Session.State.{Ready, Job, job_id}
use eliot_search.Session.Replies.{outcome, failure}
use eliot_search.Session.Served.{failure-commit, outcome-commit}
use eliot_search.Session.Worker.{
  Working, Looks, tried, is_over, answered, execute_job, settled, expired, refused, coded, conclude,
  work_job,
}
use eliot_search.Session.Worker.Pages.{
  IsOpen, IsFrom, plain-IsFrom, answer_from-IsFrom, window_for-IsOpen,
}

-- A value has the property, where there is one.
abbrev pub IsFine {ℓ κ} : {E : Type ℓ} {A : Type κ} → (A → Type 0) → Result E A → Type 0
IsFine P (ok a) = P a
IsFine P (err e) = Unit {0}

tried-IsFine :
    {A : Type 0} {P : A → Type 0} (m : Exec QueryFailure A) (env : Env)
    → Ensures P m
    → IsFine P (tried env (m env)).0
tried-IsFine {A = A} {P = P} m env h = split (m env) refl
  where
    split : (r : Result QueryFailure (A × Env)) → m env ≡ r → IsFine P (tried env r).0
    split (ok (a, env')) e = h.at env a env' e
    split (err x) e = tt

module _ (searches : Searches)
    (context : ℕ → WindowItem → ℕ → ℕ → Exec QueryFailure WindowExpansion)
    (json : Serializer SessionReply) where
  -- The result of a job, with the window behind it.
  abbrev IsAnswer : Result QueryFailure Ready × (Option Window × Env) → Type 0
  IsAnswer (result, (window, env)) = IsOpen window × IsFine (IsFrom window) result

  answered-IsAnswer :
      (job : Job) (opened : Result QueryFailure (Option Window) × Env) (window : Option Window)
      → IsOpen window
      → IsFine IsOpen opened.0
      → IsAnswer (answered searches context json job opened window)
  answered-IsAnswer job (err e, env) window inside fine = (inside, tt)
  answered-IsAnswer job (ok window', env) window inside fine =
      (fine, tried-IsFine _ env (answer_from-IsFrom searches context json window' job.message fine))

  execute_job-IsAnswer :
      (job : Job) (window : Option Window) (env : Env)
      → IsOpen window
      → IsAnswer (execute_job searches context json job window env)
  unfolding execute_job
  execute_job-IsAnswer job window env inside =
      answered-IsAnswer job _ window inside
        (tried-IsFine _ env (window_for-IsOpen searches context json job window job.message inside))

  settled-IsFrom :
      (window : Option Window) (id : ℕ) (env : Env) (result : Result QueryFailure Ready)
      → IsFine (IsFrom window) result
      → IsFine (IsFrom window) (settled searches context json id env result)
  unfolding settled
  settled-IsFrom window id env (ok ready) fine = fine
  settled-IsFrom window id env (err e) fine = split (failure json id e env) refl
    where
      split :
          (r : Result ProtocolError (Ready × Env))
          → failure json id e env ≡ r
          → IsFine (IsFrom window) (elim r [ ok a ↦ ok a.0 | err e' ↦ err (protocol_code e') ])
      split (ok (ready, env')) at =
          plain-IsFrom window ready ((failure-commit json id e).at env ready env' at)
      split (err e') at = tt

  expired-IsFrom :
      (window : Option Window) (id : ℕ) (env : Env)
      → IsFine (IsFrom window) (expired searches context json id env)
  unfolding expired
  expired-IsFrom window id env = split (outcome json id SessionOutcome.expired true env) refl
    where
      split :
          (r : Result ProtocolError (Ready × Env))
          → outcome json id SessionOutcome.expired true env ≡ r
          → IsFine
              (IsFrom window)
              (elim r as (λ _. Result ProtocolError Ready) [ ok a ↦ ok a.0 | err e' ↦ err e' ])
      split (ok (ready, env')) at =
          plain-IsFrom window ready ((outcome-commit json id _ true).at env ready env' at)
      split (err e') at = tt

  -- A reply of the worker, with the worker behind it.
  abbrev pub IsReplied : Result Bytes Ready × Working → Type 0
  IsReplied (reply, w) = IsOpen w.window × IsFine (IsFrom w.window) reply

  refused-IsFine :
      (P : Ready → Type 0) (r : Result ProtocolError Ready)
      → IsFine P r
      → IsFine P (refused searches context json r) × IsFine P (coded searches context json r)
  refused-IsFine P (ok ready) fine = (fine, fine)
  refused-IsFine P (err e) fine = (tt, tt)

  flagged-IsFine :
      (P : Ready → Type 0) (flagged : Bool) (result : Result QueryFailure Ready)
      → IsFine P result
      → IsFine P (if flagged then err cancelled else result)
  flagged-IsFine P true result fine = tt
  flagged-IsFine P false result fine = fine

  if-IsReplied :
      (b : Bool) (r s : Result Bytes Ready × Working)
      → IsReplied r
      → IsReplied s
      → IsReplied (if b then r else s)
  if-IsReplied true r s hr hs = hr
  if-IsReplied false r s hr hs = hs

  conclude-IsReplied :
      (job : Job) (expires : Option ℕ) (looks : Looks)
      (answer : Result QueryFailure Ready × (Option Window × Env))
      → IsAnswer answer
      → IsReplied (conclude searches context json job expires looks answer)
  unfolding conclude
  conclude-IsReplied job expires looks (result, (window, env)) (inside, fine) =
      if-IsReplied (is_over expires looks.late_behind) _ _
        (
          tt,
          settled-IsFrom none _ env _
              (refused-IsFine (IsFrom none) _ (expired-IsFrom none _ env)).0,
        )
        (inside, settled-IsFrom window _ env _ (flagged-IsFine (IsFrom window) _ result fine))

  -- Whatever the looks of a worker find: where the cursor of its window, if it has one, stands within the
  -- items, the same holds behind a job, and a page of the reply is one that this window would commit.
  pub work_job-IsReplied :
      (job : Job) (looks : Looks) (w : Working)
      → IsOpen w.window
      → IsReplied (work_job searches context json job looks w)
  unfolding work_job
  work_job-IsReplied job looks w inside =
      if-IsReplied (is_over w.expires looks.late_before) _ _
        (tt, (refused-IsFine (IsFrom none) _ (expired-IsFrom none (job_id job) looks.env)).1)
        (conclude-IsReplied job _ looks _ (execute_job-IsAnswer job w.window looks.env inside))
