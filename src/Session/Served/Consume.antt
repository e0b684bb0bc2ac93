-- ===== src/Session/Served/Consume.antt =====
-- What reads bytes leaves a session served, and the traffic with its worker in order.
use eliot_search.Prelude.{
  ℕ, zero, suc, ◌-◌, refl, Bool, true, false, Option, none, some, List, [], ◌∷◌, Bytes, ◌==◌,
}
use eliot_search.Protocol.Message.Session.{SessionClientFrame}
use eliot_search.Protocol.Message.Reply.{SessionReply}
use eliot_search.Protocol.Frames.{Serializer}
use eliot_search.Session.State.{Exchange, Message}
use eliot_search.Session.Accept.{take_frame, note_start, push_input, consume_from, consume}
use eliot_search.Session.Rules.{
  From, From-pure, From-raise, From-if, From-bind, From-quiet, From-get, From-modify, From-set,
  From-silent,
}
use eliot_search.Session.Rules.Silent.{
  run-IsSilent, now-IsSilent, or_raise-IsSilent, of_protocol-IsSilent, memory-IsSilent,
}
use eliot_search.Session.Served.{IsServed, IsServed-IsTraffic, kept-IsServed}
use eliot_search.Session.Served.Accept.{accept-IsServed}

note_start-IsServed :
    {x : Exchange} {t : List Message} (begins : Bool)
    → IsServed x t
    → From x t (note_start begins) (λ _. IsServed)
unfolding note_start
note_start-IsServed true served =
    From-quiet _ _ now-IsSilent (IsServed-IsTraffic served)
      λ time. From-set _ (kept-IsServed _ refl refl refl refl served)
note_start-IsServed false served = From-pure _ served

push_input-IsServed :
    {x : Exchange} {t : List Message} (bytes : Bytes)
    → IsServed x t
    → From x t (push_input bytes) (λ _. IsServed)
unfolding push_input
push_input-IsServed bytes served =
    From-quiet _ _ memory-IsSilent (IsServed-IsTraffic served) λ granted. From-get _ (
      From-modify _ _ (
        From-silent _ (of_protocol-IsSilent _) (IsServed-IsTraffic served)
          λ count. kept-IsServed _ refl refl refl refl served))

module _ (json : Serializer SessionReply) where
  module _ (frames : Serializer SessionClientFrame) where
    take_frame-IsServed :
        {x : Exchange} {t : List Message} (bytes : Option Bytes)
        → IsServed x t
        → From x t (take_frame json frames bytes) (λ _. IsServed)
    unfolding take_frame
    take_frame-IsServed none served = From-pure _ served
    take_frame-IsServed (some bytes) served =
        From-quiet _ _ (run-IsSilent _) (IsServed-IsTraffic served) λ message. From-get _ (
          From-quiet _ _ (or_raise-IsSilent _ _) (IsServed-IsTraffic served) λ started.
            From-modify _ _ (
              From-quiet _ _ (of_protocol-IsSilent _) (IsServed-IsTraffic served) λ input.
                From-modify _ _ (
                  accept-IsServed json message started
                    (kept-IsServed _ refl refl refl refl served))))

    consume_from-IsServed :
        {x : Exchange} {t : List Message} (bytes : Bytes) (taken : ℕ)
        → IsServed x t
        → From x t (consume_from json frames bytes taken) (λ _. IsServed)
    unfolding consume_from
    consume_from-IsServed [] taken served = From-pure _ served
    consume_from-IsServed (b ∷ bytes) (suc taken) served = consume_from-IsServed bytes taken served
    consume_from-IsServed (b ∷ bytes) zero served = From-get _ (
        From-bind _ _ (note_start-IsServed _ served) λ _ x1 t1 served1.
          From-bind _ _ (push_input-IsServed (b ∷ bytes) served1) λ count x2 t2 served2.
            From-bind {P = λ _. IsServed} _ _
              (From-if (count == 0) _ _ (λ _. From-raise _ (IsServed-IsTraffic served2))
                λ _. From-pure _ served2)
              λ _ x3 t3 served3. From-get _ (
                From-bind _ _ (take_frame-IsServed _ served3)
                  λ _ x4 t4 served4. consume_from-IsServed bytes (count - 1) served4))

    pub consume-IsServed :
        {x : Exchange} {t : List Message} (bytes : Bytes)
        → IsServed x t
        → From x t (consume json frames bytes) (λ _. IsServed)
    unfolding consume
    consume-IsServed bytes served = consume_from-IsServed bytes 0 served
