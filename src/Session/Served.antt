-- ===== src/Session/Served.antt =====
-- The state of a session between two iterations, and how it stands to the traffic with the worker.
pub mod Cancel
pub mod Accept
pub mod Consume
pub mod Reply
pub mod Loop
use eliot_search.Prelude.{
  ℕ, ◌<◌, ◌≡◌, refl, sym, ◌∙◌, subst, Bool, true, false, Option, none, some, List, ◌∷◌, arith,
}
use eliot_search.Exec.Ensures.{Ensures, Ensures-pure, Ensures-then}
use eliot_search.Protocol.Message.Session.{SessionClientFrame, request_id_of}
use eliot_search.Protocol.Message.Reply.{SessionOutcome, SessionReply}
use eliot_search.Protocol.Frames.{Serializer}
use eliot_search.Exact.{QueryFailure}
use eliot_search.Session.State.{
  Ready, Job, execute, Active, Output, Deferred, Exchange, Message, sent, raised, is_close,
}
use eliot_search.Session.Replies.{failure, outcome}
use eliot_search.Session.Traffic.{
  Turn, free, asked, holding, Serves, pass, ask, give_up, skip, close_early, IsTraffic,
}

-- A frame that waits was not admitted yet.
abbrev pub IsHeld : Option Deferred → ℕ → Type 0
IsHeld none last = Unit {0}
IsHeld (some d) last = last < request_id_of d.message

-- The turn where a reply with that page is written.
abbrev pub turn_of : Option (ℕ × ℕ) → ℕ → Turn
turn_of none last = free last
turn_of (some page) last = holding last (some page)

-- Nothing is under way; the worker has a job, the one that was admitted last; or a reply is written. A
-- frame waits only behind a reply.
pub data IsServed (x : Exchange) (t : List Message) : Type 0 where
  idle :
      x.active ≡ none
      → x.output ≡ none
      → x.deferred ≡ none
      → Serves t (free x.last_id)
      → IsServed x t
  busy :
      (a : Active)
      → x.active ≡ some a
      → x.output ≡ none
      → x.deferred ≡ none
      → a.id ≡ x.last_id
      → Serves t (asked a.id)
      → IsServed x t
  writing :
      (o : Output)
      → x.active ≡ none
      → x.output ≡ some o
      → IsHeld x.deferred x.last_id
      → Serves t (turn_of o.ready.commit x.last_id)
      → IsServed x t

pub IsServed-IsTraffic : {x : Exchange} {t : List Message} → IsServed x t → IsTraffic t
IsServed-IsTraffic (idle ea eo ed s) = (_, s)
IsServed-IsTraffic (busy a ea eo ed same s) = (_, s)
IsServed-IsTraffic (writing o ea eo held s) = (_, s)

-- A state that differs in other fields only.
pub kept-IsServed :
    {x : Exchange} {t : List Message} (y : Exchange)
    → y.active ≡ x.active
    → y.output ≡ x.output
    → y.deferred ≡ x.deferred
    → y.last_id ≡ x.last_id
    → IsServed x t
    → IsServed y t
kept-IsServed {t = t} y a o d l (idle ea eo ed s) =
    idle (a ∙ ea) (o ∙ eo) (d ∙ ed) (subst (λ n. Serves t (free n)) (sym l) s)
kept-IsServed y a o d l (busy job ea eo ed same s) =
    busy job (a ∙ ea) (o ∙ eo) (d ∙ ed) (same ∙ sym l) s
kept-IsServed {t = t} y a o d l (writing out ea eo held s) =
    writing out (a ∙ ea) (o ∙ eo) (rw (d, l) held)
      (subst (λ n. Serves t (turn_of out.ready.commit n)) (sym l) s)

-- A reply that is not committed any more.
pub dropped-Serves :
    {t : List Message} (page : Option (ℕ × ℕ)) {last : ℕ}
    → Serves t (turn_of page last)
    → Serves t (free last)
dropped-Serves none s = s
dropped-Serves (some page) s = skip (give_up s)

-- The message may come next: as a job, and, where it does not close the window, with a reply at once.
pub record MayFollow (t : List Message) (message : SessionClientFrame) : Type 0 where
  pub asks :
      (job : Job)
      → job.message ≡ message
      → Serves (sent (execute job) ∷ t) (asked (request_id_of message))
  pub refused : is_close message ≡ false → Serves t (free (request_id_of message))
  pub in_order : IsTraffic t

pub free-MayFollow :
    {t : List Message} (message : SessionClientFrame) {last : ℕ}
    → last < request_id_of message
    → Serves t (free last)
    → MayFollow t message
free-MayFollow {t = t} message {last = last} above s = record {
  asks = λ job same.
      subst
        (λ m. last < request_id_of m → Serves (sent (execute job) ∷ t) (asked (request_id_of m)))
        same (λ over. ask job over s) above;
  refused = λ open_frame. pass (omega arith) s;
  in_order = (_, s);
}

pub closing-MayFollow :
    {t : List Message} (message : SessionClientFrame) {id : ℕ}
    → is_close message ≡ true
    → id < request_id_of message
    → Serves (raised id ∷ t) (asked id)
    → MayFollow (raised id ∷ t) message
closing-MayFollow {t = t} message {id = id} closes above s = record {
  asks = λ job same.
      subst
        (λ m.
          is_close m ≡ true
          → id < request_id_of m
          → Serves (sent (execute job) ∷ raised id ∷ t) (asked (request_id_of m)))
        same (λ closing over. close_early job closing over s) closes above;
  refused = λ open_frame. cc;
  in_order = (_, s);
}

-- A reply that is not a page commits nothing.
pub outcome-commit :
    (json : Serializer SessionReply) (id : ℕ) (result : SessionOutcome) (end : Bool)
    → Ensures (λ ready. Ready.commit ready ≡ none) (outcome json id result end)
unfolding outcome
outcome-commit json id result end = Ensures-then _ _ λ bytes. Ensures-pure _ refl

pub failure-commit :
    (json : Serializer SessionReply) (id : ℕ) (reason : QueryFailure)
    → Ensures (λ ready. Ready.commit ready ≡ none) (failure json id reason)
unfolding failure
failure-commit json id reason = Ensures-then _ _ λ result. outcome-commit json id result false
