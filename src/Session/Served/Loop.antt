-- ===== src/Session/Served/Loop.antt =====
-- An iteration of the session's loop leaves it served, and the traffic with its worker in order.
use eliot_search.Prelude.{
  ℕ, ◌≡◌, refl, sym, subst, Bool, true, false, not, Option, none, some, List, [], ◌∷◌, Bytes, ◌==◌,
  if◌then◌else◌,
}
use eliot_search.Protocol.Message.Session.{SessionClientFrame}
use eliot_search.Protocol.Message.Reply.{SessionReply}
use eliot_search.Protocol.Frames.{Serializer}
use eliot_search.Protocol.Buffer.{is_empty}
use eliot_search.Session.State.{Exchange, Message, raised}
use eliot_search.Session.Monad.{Action, pure, ◌>>=◌, ◌>>◌, tell}
use eliot_search.Session.Cancel.{set_output}
use eliot_search.Session.Loop.{
  is_late, timed_out, expire, end_late, Event, read, reply, wrote, flush, done, slept, write_on,
  serve, iterate,
}
use eliot_search.Session.Traffic.{raise_flag, stop, IsTraffic}
use eliot_search.Session.Rules.{
  From, From-pure, From-raise, From-if, From-bind, From-quiet, From-get, From-set, From-try_send,
  From-silent, From-option, From-told,
}
use eliot_search.Session.Rules.Silent.{run-IsSilent, now-IsSilent}
use eliot_search.Session.Served.{IsServed, idle, busy, writing, IsServed-IsTraffic}
use eliot_search.Session.Served.Consume.{consume-IsServed}
use eliot_search.Session.Served.Reply.{
  active-IsServed, timed_out_active-IsServed, Goes, take_reply-IsServed, flushed-Goes,
}

From-late :
    {B : Type 0} {Q : B → Exchange → List Message → Type 0} {x : Exchange} {t : List Message}
    (f : Bool → Action B)
    → IsTraffic t
    → ((late : Bool) → From x t (f late) Q)
    → From x t (is_late >>= f) Q
unfolding is_late
From-late {x = x} {t = t} f h k =
    From-bind {P = λ _ y t'. (y ≡ x) × (t' ≡ t)} _ _
      (From-get _ (
        From-option x.expires _ _ (λ _. From-pure _ (refl, refl))
          λ expires _. From-quiet _ _ now-IsSilent h λ time. From-pure _ (refl, refl)))
      λ late y t' (ey, et). rw (ey, et) (k late)

-- What holds behind an iteration: the traffic is in order, and a session that goes on is served.
abbrev pub IsBehind : Option Bytes → Exchange → List Message → Type 0
IsBehind none x t = IsServed x t
IsBehind (some last) x t = IsTraffic t

write_on-IsServed :
    {x : Exchange} {t : List Message} (n : ℕ)
    → IsServed x t
    → From x t (write_on n x.output) (λ _. IsServed)
unfolding write_on set_output
write_on-IsServed {x = x} {t = t} n (idle ea eo ed s) =
    subst (λ o. From x t (write_on n o) (λ _. IsServed)) (sym eo) (From-raise _ (_, s))
write_on-IsServed {x = x} {t = t} n (busy a ea eo ed same s) =
    subst (λ o. From x t (write_on n o) (λ _. IsServed)) (sym eo) (From-raise _ (_, s))
write_on-IsServed {x = x} {t = t} n (writing o ea eo held s) =
    subst (λ p. From x t (write_on n p) (λ _. IsServed)) (sym eo)
      (From-if (n == 0) _ _ (λ _. From-raise _ (_, s)) λ _. From-set _ (writing _ ea refl held s))

flushed-IsBehind :
    (ends : Bool) (x : Exchange) (t : List Message)
    → Goes (not ends) x t
    → From x t (pure (if ends then some [] else none)) IsBehind
flushed-IsBehind true x t fine = From-pure _ fine
flushed-IsBehind false x t served = From-pure _ served

module _ (json : Serializer SessionReply) where
  raise_active-IsTraffic :
      {x : Exchange} {t : List Message}
      → IsServed x t
      → From x t
          (elim x.active [ none ↦ pure tt | some a ↦ tell (raised a.id) ])
          (λ _ x' t'. (x' ≡ x) × IsTraffic t')
  raise_active-IsTraffic {x = x} served =
      From-option x.active _ _ (λ ea. From-pure _ (refl, IsServed-IsTraffic served))
        λ a ea.
          let (eo, ed, same, s) = active-IsServed ea served in From-told _ (refl, (_, raise_flag s))

  expire-IsTraffic :
      {x : Exchange} {t : List Message}
      → IsServed x t
      → From x t (expire json) (λ ready x' t'. IsTraffic t')
  unfolding expire
  expire-IsTraffic {x = x} served = From-get _ (
      From-bind _ _ (raise_active-IsTraffic served) λ _ x1 t1 (same, (turn, s)).
        From-bind {P = λ _ y t'. IsTraffic t'} _ _ (From-try_send _ (turn, s) (_, stop s))
          λ _ x2 t2 fine.
            From-bind {P = λ _ y t'. IsTraffic t'} _ _
              (From-option x.output _ _ (λ _. From-pure _ fine)
                λ o eo. From-if (o.cursor == 0) _ _ (λ _. From-pure _ fine) λ _. From-raise _ fine)
              λ _ x3 t3 fine'. From-silent _ (run-IsSilent _) fine' λ ready. fine')

  end_late-IsBehind :
      {x : Exchange} {t : List Message} → IsServed x t → From x t (end_late json) IsBehind
  unfolding end_late
  end_late-IsBehind served =
      From-bind _ _ (expire-IsTraffic served) λ ready y t' fine. From-pure _ fine

  -- An operation behind which the session goes on.
  goes_on-IsBehind :
      {x : Exchange} {t : List Message} (m : Action (Unit {0}))
      → From x t m (λ _. IsServed)
      → From x t (m >> pure none) IsBehind
  goes_on-IsBehind m h = From-bind _ _ h λ _ y t' served. From-pure _ served

  module _ (frames : Serializer SessionClientFrame) where
    serve-IsBehind :
        {x : Exchange} {t : List Message} (event : Event)
        → IsServed x t
        → From x t (serve json frames event) IsBehind
    unfolding serve timed_out
    serve-IsBehind {x = x} (read []) served = From-get _ (
        From-if (is_empty x.input) _ _ (λ _. From-pure _ (IsServed-IsTraffic served))
          λ _. From-raise _ (IsServed-IsTraffic served))
    serve-IsBehind (read (b ∷ bytes)) served =
        goes_on-IsBehind _ (consume-IsServed json frames (b ∷ bytes) served)
    serve-IsBehind (reply r) served = goes_on-IsBehind _ (take_reply-IsServed json r served)
    serve-IsBehind (wrote n) served = goes_on-IsBehind _ (From-get _ (write_on-IsServed n served))
    serve-IsBehind flush served = From-late _ (IsServed-IsTraffic served) λ late.
        From-if late _ _ (λ _. end_late-IsBehind served)
          λ _. From-bind _ _ (flushed-Goes json served) flushed-IsBehind
    serve-IsBehind done served = From-late _ (IsServed-IsTraffic served) λ late.
        From-bind {P = λ _ y t'. IsTraffic t'} _ _
          (From-if (not late) _ _ (λ _. From-raise _ (IsServed-IsTraffic served))
            λ _. From-pure _ (IsServed-IsTraffic served))
          λ _ y t' fine. From-quiet _ _ (run-IsSilent _) fine λ ready. From-pure _ fine
    serve-IsBehind {x = x} (slept timer time) served =
        From-late _ (IsServed-IsTraffic served) λ late.
          From-if late _ _ (λ _. end_late-IsBehind served)
            λ _. goes_on-IsBehind _ (From-get _ (timed_out_active-IsServed x.active refl served))

    pub iterate-IsBehind :
        {x : Exchange} {t : List Message} (event : Event)
        → IsServed x t
        → From x t (iterate json frames event) IsBehind
    unfolding iterate
    iterate-IsBehind event served =
        From-late _ (IsServed-IsTraffic served)
          λ late. From-if late _ _ (λ _. end_late-IsBehind served) λ _. serve-IsBehind event served
