-- ===== src/Session/Served/Reply.antt =====
-- What takes, flushes and times out a reply leaves a session served, and the traffic with its worker in
-- order.
use eliot_search.Prelude.{
  ℕ, ◌≡◌, refl, sym, subst, Bool, true, false, not, Option, none, some, List, Bytes, arith,
}
use eliot_search.Exec.{Result, ok, err}
use eliot_search.Protocol.Message.Reply.{SessionReply}
use eliot_search.Protocol.Frames.{Serializer}
use eliot_search.Exact.{QueryFailure}
use eliot_search.Session.State.{Ready, Active, Output, Deferred, Exchange, Message}
use eliot_search.Session.Monad.{of_result}
use eliot_search.Session.Cancel.{set_active, set_output, set_deferred}
use eliot_search.Session.Loop.{
  unless_end, timed_out_active, send_commit, answer, take_reply, resume, flushed,
}
use eliot_search.Session.Traffic.{
  Serves, free, asked, holding, pass, raise_flag, give_up, skip, settle, stop, commit_of, IsTraffic,
}
use eliot_search.Session.Traffic
use eliot_search.Session.Rules.{
  From, From-pure, From-raise, From-if, From-bind, From-quiet, From-get, From-modify, From-tell,
  From-set, From-send, From-option, From-found, From-given, From-ran,
}
use eliot_search.Session.Rules.Silent.{now-IsSilent}
use eliot_search.Session.Served.{
  IsHeld, turn_of, IsServed, idle, busy, writing, IsServed-IsTraffic, failure-commit,
}
use eliot_search.Session.Served.Cancel.{put_failure-IsServed}
use eliot_search.Session.Served.Accept.{accept-IsServed}

-- The turn behind a reply.
settled-Serves :
    {t : List Message} {id : ℕ} (page : Option (ℕ × ℕ))
    → Serves t (holding id page)
    → Serves t (turn_of page id)
settled-Serves none s = skip s
settled-Serves (some page) s = s

pub active-IsServed :
    {x : Exchange} {t : List Message} {a : Active}
    → x.active ≡ some a
    → IsServed x t
    → (x.output ≡ none) × (x.deferred ≡ none) × (a.id ≡ x.last_id) × Serves t (asked a.id)
active-IsServed e (idle ea eo ed s) = absurd (cc)
active-IsServed {x = x} {t = t} {a = a} e (busy b ea eo ed same s) =
    let is_same : b ≡ a = cc in
    subst
      (λ c.
        (x.output ≡ none)
        × (x.deferred ≡ none)
        × (Active.id c ≡ x.last_id)
        × Serves t (asked (Active.id c)))
      is_same (eo, ed, same, s)
active-IsServed e (writing o ea eo held s) = absurd (cc)

pub output-IsServed :
    {x : Exchange} {t : List Message} {o : Output}
    → x.output ≡ some o
    → IsServed x t
    → (x.active ≡ none) × IsHeld x.deferred x.last_id × Serves t (turn_of o.ready.commit x.last_id)
output-IsServed e (idle ea eo ed s) = absurd (cc)
output-IsServed e (busy b ea eo ed same s) = absurd (cc)
output-IsServed {x = x} {t = t} {o = q} e (writing o ea eo held s) =
    let is_same : o ≡ q = cc in
    subst
      (λ p.
        (x.active ≡ none)
        × IsHeld x.deferred x.last_id
        × Serves t (turn_of (Output.ready p).commit x.last_id))
      is_same (ea, held, s)

pub timed_out_active-IsServed :
    {x : Exchange} {t : List Message} (a : Option Active)
    → x.active ≡ a
    → IsServed x t
    → From x t (timed_out_active a) (λ _. IsServed)
unfolding timed_out_active set_active
timed_out_active-IsServed none ea served = From-raise _ (IsServed-IsTraffic served)
timed_out_active-IsServed (some a) ea served =
    let (eo, ed, same, s) = active-IsServed ea served in
    From-option a.cleanup _ _
      (λ _. From-tell _ _ (
        From-quiet _ _ now-IsSilent (_, raise_flag s)
          λ time. From-set _ (busy _ refl eo ed same (raise_flag s))))
      λ end _. From-raise _ (_, s)

send_commit-free :
    {x : Exchange} {t : List Message} {last : ℕ} (page : Option (ℕ × ℕ))
    → Serves t (turn_of page last)
    → From x t (send_commit page) (λ _ x' t'. (x' ≡ x) × Serves t' (free last))
unfolding send_commit
send_commit-free none s = From-pure _ (refl, s)
send_commit-free (some (expected, next)) s = From-send _ (_, s) (refl, settle s)

-- The traffic in any case, and a session that goes on is served.
abbrev pub Goes : Bool → Exchange → List Message → Type 0
Goes true x t = IsServed x t
Goes false x t = IsTraffic t

module _ (json : Serializer SessionReply) where
  -- The reply of a job that is put out is its own or a failure.
  answer-Serves :
      {x : Exchange} {t : List Message} (id : ℕ) (ready : Ready) (reason : Option QueryFailure)
      → Serves t (holding id ready.commit)
      → From x t
          (answer json id ready reason)
          (λ given x' t'. (x' ≡ x) × Serves t' (turn_of given.commit id))
  unfolding answer
  answer-Serves id ready none s = From-pure _ (refl, settled-Serves _ s)
  answer-Serves {t = t} id ready (some reason) s =
      From-ran _ (failure-commit json id reason) (_, s)
        λ given plain.
          (refl, subst (λ page. Serves t (turn_of page id)) (sym plain) (skip (give_up s)))

  pub take_reply-IsServed :
      {x : Exchange} {t : List Message} (r : Result Bytes Ready)
      → IsServed x t
      → From x t (take_reply json r) (λ _. IsServed)
  unfolding take_reply set_active set_output of_result
  take_reply-IsServed (err e) served = From-get _ (
      From-found _ _ _ (IsServed-IsTraffic served) λ a ea.
        let (eo, ed, same, s) = active-IsServed ea served in
        From-modify _ _ (
          From-tell _ _ (
            From-bind {P = λ _ _ _. ⊥} _ _ (From-raise e (_, Traffic.reply (err e) refl s))
              λ given y t' p. absurd p)))
  take_reply-IsServed {x = x} {t = t} (ok ready) served = From-get _ (
      From-found _ _ _ (IsServed-IsTraffic served) λ a ea.
        let (eo, ed, same, s) = active-IsServed ea served in
        From-modify _ _ (
          From-tell _ _ (
            From-given _ _ (
              From-bind _ _
                (answer-Serves a.id ready (unless_end ready.end a.stopped)
                  (Traffic.reply (ok ready) refl s))
                λ given y t' (same_y, s'). rw same_y (
                  From-set _ (
                    writing _ refl refl (subst (λ d. IsHeld d x.last_id) (sym ed) tt)
                      (subst (λ n. Serves t' (turn_of given.commit n)) same s')))))))

  resume-IsServed :
      {x : Exchange} {t : List Message} (d : Option Deferred)
      → x.active ≡ none
      → x.output ≡ none
      → x.deferred ≡ d
      → IsHeld d x.last_id
      → Serves t (free x.last_id)
      → From x t (resume json d) (λ _. IsServed)
  unfolding resume set_deferred
  resume-IsServed none ea eo ed held s = From-pure _ (idle ea eo ed s)
  resume-IsServed (some d) ea eo ed held s = From-modify _ _ (
      From-if d.cancelled _ _
        (λ _. From-modify _ _ (put_failure-IsServed json _ _ ea tt (pass (omega arith) s)))
        λ _. accept-IsServed json d.message d.started (idle ea eo refl s))

  pub flushed-Goes :
      {x : Exchange} {t : List Message}
      → IsServed x t
      → From x t (flushed json) (λ ends. Goes (not ends))
  unfolding flushed set_output
  flushed-Goes {x = x} served = From-get _ (
      From-found _ _ _ (IsServed-IsTraffic served) λ o eo.
        let (ea, held, s) = output-IsServed eo served in
        From-modify _ _ (
          From-bind _ _ (send_commit-free o.ready.commit s) λ _ y t' (same, s'). rw same (
            From-modify _ _ (
              From-if o.ready.end _ _ (λ _. From-pure _ (_, s'))
                λ _.
                  From-bind _ _ (resume-IsServed x.deferred ea refl refl held s')
                    λ _ z u served'. From-pure _ served'))))
