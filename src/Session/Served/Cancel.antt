-- ===== src/Session/Served/Cancel.antt =====
-- What cancels work leaves a session served, and the traffic with its worker in order.
use eliot_search.Prelude.{ℕ, ◌≡◌, refl, sym, subst, ap, not, Option, none, some, List, ◌==◌}
use eliot_search.Protocol.Message.Reply.{SessionReply}
use eliot_search.Protocol.Frames.{Serializer}
use eliot_search.Exact.{QueryFailure}
use eliot_search.Session.State.{Active, Output, Deferred, Exchange, Message}
use eliot_search.Session.Cancel.{
  set_active, set_output, set_deferred, put_failure, reject, stop_active, stop_output, cancel_work,
  cancel_request, is_waiting, is_completed, mark_cancelled,
}
use eliot_search.Session.Traffic.{Serves, free, asked, raise_flag}
use eliot_search.Session.Rules.{
  From, From-pure, From-raise, From-if, From-quiet, From-run, From-get, From-modify, From-tell,
  From-set,
}
use eliot_search.Session.Rules.Silent.{now-IsSilent, later-IsSilent}
use eliot_search.Session.Served.{
  IsHeld, turn_of, IsServed, idle, busy, writing, dropped-Serves, failure-commit,
}

mark_cancelled-IsHeld :
    (d : Option Deferred) (last : ℕ) → IsHeld d last → IsHeld (mark_cancelled d) last
mark_cancelled-IsHeld none last held = held
mark_cancelled-IsHeld (some d) last held = held

module _ (json : Serializer SessionReply) {x : Exchange} {t : List Message} where
  pub put_failure-IsServed :
      (id : ℕ) (reason : QueryFailure)
      → x.active ≡ none
      → IsHeld x.deferred x.last_id
      → Serves t (free x.last_id)
      → From x t (put_failure json id reason) (λ _. IsServed)
  unfolding put_failure set_output
  put_failure-IsServed id reason ea held s =
      From-run _ _ (failure-commit json id reason) (_, s)
        λ ready plain.
          From-quiet _ _ now-IsSilent (_, s)
            λ time.
              From-quiet _ _ (later-IsSilent _ _) (_, s)
                λ end. From-set _ (
                  writing _ ea refl held
                    (subst (λ page. Serves t (turn_of page x.last_id)) (sym plain) s))

  stop_active-IsServed :
      (a : Active) (id : ℕ)
      → x.output ≡ none
      → x.deferred ≡ none
      → a.id ≡ x.last_id
      → Serves t (asked a.id)
      → From x t (stop_active a id) (λ _. IsServed)
  unfolding stop_active set_active
  stop_active-IsServed a id eo ed same s =
      From-if (not (a.id == id)) _ _ (λ _. From-raise _ (_, s))
        λ _. From-tell _ _ (
          From-modify _ _ (
            From-quiet _ _ now-IsSilent (_, raise_flag s)
              λ time.
                From-quiet _ _ (later-IsSilent _ _) (_, raise_flag s)
                  λ end. From-set _ (busy _ refl eo ed same (raise_flag s))))

  stop_output-IsServed :
      (o : Output) (id : ℕ)
      → x.active ≡ none
      → IsHeld x.deferred x.last_id
      → Serves t (turn_of o.ready.commit x.last_id)
      → From x t (stop_output json o id) (λ _. IsServed)
  unfolding stop_output set_output
  stop_output-IsServed o id ea held s =
      From-if (not (o.id == id)) _ _ (λ _. From-raise _ (_, s))
        λ _.
          From-if (not (o.cursor == 0)) _ _ (λ _. From-raise _ (_, s))
            λ _.
              From-run _ _ (failure-commit json id QueryFailure.cancelled) (_, s)
                λ ready plain. From-set _ (
                  writing _ ea refl held (
                    subst (λ page. Serves t (turn_of page x.last_id)) (sym plain)
                      (dropped-Serves _ s)))

  cancel_work-at :
      {a : Option Active} {o : Option Output} (id : ℕ)
      → x.active ≡ a
      → x.output ≡ o
      → From x t (cancel_work json a o id) (λ _. IsServed)
      → From x t (cancel_work json x.active x.output id) (λ _. IsServed)
  cancel_work-at {a = a} id ea eo h =
      subst (λ b. From x t (cancel_work json b x.output id) (λ _. IsServed)) (sym ea)
        (subst (λ o. From x t (cancel_work json a o id) (λ _. IsServed)) (sym eo) h)

  cancel_work-IsServed :
      (id : ℕ) → IsServed x t → From x t (cancel_work json x.active x.output id) (λ _. IsServed)
  unfolding cancel_work reject
  cancel_work-IsServed id (idle ea eo ed s) =
      cancel_work-at id ea eo
        (put_failure-IsServed id _ ea (subst (λ d. IsHeld d x.last_id) (sym ed) tt) s)
  cancel_work-IsServed id (busy a ea eo ed same s) =
      cancel_work-at id ea eo (stop_active-IsServed a id eo ed same s)
  cancel_work-IsServed id (writing o ea eo held s) =
      cancel_work-at id ea eo (stop_output-IsServed o id ea held s)

  mark_cancelled-IsServed :
      IsServed x t → IsServed (record x { deferred = mark_cancelled x.deferred }) t
  mark_cancelled-IsServed (idle ea eo ed s) = idle ea eo (ap mark_cancelled ed) s
  mark_cancelled-IsServed (busy a ea eo ed same s) = busy a ea eo (ap mark_cancelled ed) same s
  mark_cancelled-IsServed (writing o ea eo held s) =
      writing o ea eo (mark_cancelled-IsHeld x.deferred x.last_id held) s

  pub cancel_request-IsServed :
      (id : ℕ) → IsServed x t → From x t (cancel_request json id) (λ _. IsServed)
  unfolding cancel_request set_deferred
  cancel_request-IsServed id served = From-get _ (
      From-if (is_completed x.completed_id id) _ _ (λ _. From-pure _ served)
        λ _.
          From-if (is_waiting x.deferred id) _ _ (λ _. From-set _ (mark_cancelled-IsServed served))
            λ _. cancel_work-IsServed id served)
