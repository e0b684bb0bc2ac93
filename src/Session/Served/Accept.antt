-- ===== src/Session/Served/Accept.antt =====
-- What takes a frame leaves a session served, and the traffic with its worker in order.
use eliot_search.Prelude.{
  not-false, ℕ, ◌<◌, ◌≡◌, refl, sym, ◌∙◌, subst, ap, Bool, true, false, not, ◌&&◌, ◌||◌, Option,
  none, some, List, arith, Bytes, length, leb, ◌==◌,
}
use eliot_search.Protocol.Message.Session.{
  SessionClientFrame, open_window, continue_window, expand, request_id_of,
}
use eliot_search.Protocol.Message.Session.SessionClientFrame.{cancel, close}
use eliot_search.Protocol.Message.Reply.{SessionReply}
use eliot_search.Protocol.Frames.{Serializer}
use eliot_search.Session.Codes.{session_request_id_invalid}
use eliot_search.Session.State.{Exchange, Message, is_close}
use eliot_search.Session.Monad.{pure, ◌>>◌}
use eliot_search.Session.Cancel.{is_some, set_active, set_output, set_deferred, reject}
use eliot_search.Session.Accept.{
  Terms, open_terms, window_terms, terms_of, dispatch, launch, replace_active, defer,
  replace_output, admit, accept,
}
use eliot_search.Session.Traffic.{Serves, free, asked, raise_flag}
use eliot_search.Session.Rules.{
  From, From-pure, From-raise, From-if, From-bind, From-quiet, From-get, From-modify, From-tell,
  From-set, From-send,
}
use eliot_search.Session.Rules.Silent.{now-IsSilent, later-IsSilent}
use eliot_search.Session.Served.{
  IsHeld, IsServed, idle, busy, writing, IsServed-IsTraffic, dropped-Serves, MayFollow,
  free-MayFollow, closing-MayFollow,
}
use eliot_search.Session.Served.Cancel.{put_failure-IsServed, cancel_request-IsServed}

-- No job, no reply and no frame that waits.
pub record IsFree (x : Exchange) : Type 0 where
  pub active : x.active ≡ none
  pub output : x.output ≡ none
  pub deferred : x.deferred ≡ none

-- Behind the `match` on the message: a failure was put out, or the job may be sent.
abbrev IsPlanned :
    SessionClientFrame → List Message → Option Terms → Exchange → List Message → Type 0
IsPlanned message t none x' t' = IsServed x' t'
IsPlanned message t (some terms) x' t' = IsFree x' × (x'.last_id ≡ request_id_of message) × (t' ≡ t)

dispatch-IsServed :
    {x : Exchange} {t : List Message} (message : SessionClientFrame) (started : ℕ) (terms : Terms)
    → IsFree x
    → x.last_id ≡ request_id_of message
    → MayFollow t message
    → From x t (dispatch message started (some terms)) (λ _. IsServed)
unfolding dispatch set_active
dispatch-IsServed {x = x} message started (remaining, job_expiry) is_free last may = From-get _ (
    From-quiet _ _ (later-IsSilent _ _) may.in_order λ whole.
      From-bind {P = λ _ x' t'. (x' ≡ x) × Serves t' (asked (request_id_of message))} _ _
        (From-send _ may.in_order (refl, may.asks _ refl))
        λ _ x' t' (same, s). From-set _ (
          busy _ refl (ap (λ y. Exchange.output y) same ∙ is_free.output)
            (ap (λ y. Exchange.deferred y) same ∙ is_free.deferred)
            (sym (ap (λ y. Exchange.last_id y) same ∙ last)) s))

planned-IsServed :
    {t : List Message} (message : SessionClientFrame) (started : ℕ)
    → MayFollow t message
    → (terms : Option Terms) (x : Exchange) (t' : List Message) → IsPlanned message t terms x t'
    → From x t' (dispatch message started terms) (λ _. IsServed)
unfolding dispatch
planned-IsServed message started may none x t' served = From-pure tt served
planned-IsServed message started may (some terms) x t' (is_free, last, same) =
    dispatch-IsServed message started terms is_free last
      (subst (λ l. MayFollow l message) (sym same) may)

not-leb : (m n : ℕ) → leb m n ≡ false → n < m
not-leb m n e = ground arith

module _ (json : Serializer SessionReply) where
  module _ {x : Exchange} {t : List Message} where
    reject-IsServed :
        (id : ℕ) (text : Bytes)
        → IsFree x
        → Serves t (free x.last_id)
        → From x t (reject json id text) (λ _. IsServed)
    unfolding reject
    reject-IsServed id text is_free s =
        put_failure-IsServed json id _ is_free.active
          (subst (λ d. IsHeld d x.last_id) (sym is_free.deferred) tt) s

    -- A refused message that does not close the window.
    refused-IsPlanned :
        (message : SessionClientFrame) (id : ℕ) (text : Bytes)
        → is_close message ≡ false
        → IsFree x
        → x.last_id ≡ request_id_of message
        → MayFollow t message
        → From x t (reject json id text >> pure none) (IsPlanned message t)
    refused-IsPlanned message id text stays is_free last may =
        From-bind _ _
          (reject-IsServed id text is_free
            (subst (λ n. Serves t (free n)) (sym last) (may.refused stays)))
          λ _ x' t' served. From-pure none served

    terms_of-IsPlanned :
        (message : SessionClientFrame) (time : ℕ) (opened : Bool)
        → IsFree x
        → x.last_id ≡ request_id_of message
        → MayFollow t message
        → From x t (terms_of json message time opened) (IsPlanned message t)
    unfolding terms_of open_terms window_terms is_close
    terms_of-IsPlanned (open_window f) time true is_free last may =
        refused-IsPlanned _ _ _ refl is_free last may
    terms_of-IsPlanned (open_window f) time false is_free last may = From-modify _ _ (
        From-quiet _ _ (later-IsSilent _ _) may.in_order λ expires. From-modify _ _ (
          From-pure _ (
            record {
              active = is_free.active;
              output = is_free.output;
              deferred = is_free.deferred;
            },
            last,
            refl,
          )))
    terms_of-IsPlanned (continue_window f) time true is_free last may =
        From-pure _ (is_free, last, refl)
    terms_of-IsPlanned (continue_window f) time false is_free last may =
        refused-IsPlanned _ _ _ refl is_free last may
    terms_of-IsPlanned (expand f) time true is_free last may = From-pure _ (is_free, last, refl)
    terms_of-IsPlanned (expand f) time false is_free last may =
        refused-IsPlanned _ _ _ refl is_free last may
    terms_of-IsPlanned (close id) time opened is_free last may = From-pure _ (is_free, last, refl)
    terms_of-IsPlanned (cancel id) time opened is_free last may = From-raise _ may.in_order

  launch-IsServed :
      {x : Exchange} {t : List Message} (message : SessionClientFrame) (started : ℕ)
      → IsFree x
      → MayFollow t message
      → From x t (launch json message started) (λ _. IsServed)
  unfolding launch
  launch-IsServed message started is_free may = From-modify _ _ (
      From-quiet _ _ now-IsSilent may.in_order λ time. From-get _ (
        From-bind _ _
          (terms_of-IsPlanned message time _
            (record {
              active = is_free.active;
              output = is_free.output;
              deferred = is_free.deferred;
            })
            refl may)
          (planned-IsServed message started may)))

  -- The job that is active, if any, may be passed by what closes the window.
  replace_active-IsServed :
      {x : Exchange} {t : List Message} (message : SessionClientFrame) (started : ℕ)
      → x.last_id < request_id_of message
      → x.output ≡ none
      → x.deferred ≡ none
      → IsServed x t
      → From x t (replace_active json message started x.active) (λ _. IsServed)
  unfolding replace_active set_active
  replace_active-IsServed {x = x} {t = t} message started above eo ed (idle ea _ _ s) =
      subst (λ a. From x t (replace_active json message started a) (λ _. IsServed)) (sym ea)
        (launch-IsServed message started (record { active = ea; output = eo; deferred = ed })
          (free-MayFollow message above s))
  replace_active-IsServed {x = x} {t = t} message started above eo ed (busy a ea _ _ same s) =
      subst (λ b. From x t (replace_active json message started b) (λ _. IsServed)) (sym ea)
        (From-if (not (is_close message)) _ _ (λ _. From-raise _ (_, s))
          λ closes. From-tell _ _ (
            From-modify _ _ (
              launch-IsServed message started (record { active = refl; output = eo; deferred = ed })
                (closing-MayFollow message (not-false _ closes)
                  (subst (λ n. n < request_id_of message) (sym same) above) (raise_flag s)))))
  replace_active-IsServed message started above eo ed (writing o ea eo' held s) = absurd (cc)

  replace_output-IsServed :
      {x : Exchange} {t : List Message} (message : SessionClientFrame) (started : ℕ)
      → x.last_id < request_id_of message
      → IsServed x t
      → From x t (replace_output json message started x.output x) (λ _. IsServed)
  unfolding replace_output set_output set_deferred defer
  replace_output-IsServed {x = x} {t = t} message started above (idle ea eo ed s) =
      subst (λ o. From x t (replace_output json message started o x) (λ _. IsServed)) (sym eo)
        (replace_active-IsServed message started above eo ed (idle ea eo ed s))
  replace_output-IsServed {x = x} {t = t} message started above (busy a ea eo ed same s) =
      subst (λ o. From x t (replace_output json message started o x) (λ _. IsServed)) (sym eo)
        (replace_active-IsServed message started above eo ed (busy a ea eo ed same s))
  replace_output-IsServed {x = x} {t = t} message started above (writing o ea eo held s) =
      subst (λ p. From x t (replace_output json message started p x) (λ _. IsServed)) (sym eo)
        (From-if (is_close message && (o.cursor == 0)) _ _
          (λ _. From-modify _ _ (
            From-modify _ _ (
              replace_active-IsServed message started above refl refl
                (idle ea refl refl (dropped-Serves _ s)))))
          λ _.
            From-if (is_close message && not (o.cursor == length o.ready.bytes)) _ _
              (λ _. From-raise _ (_, s))
              λ _.
                From-if (is_some x.deferred && not (is_close message)) _ _
                  (λ _. From-raise _ (_, s)) λ _. From-set _ (writing o ea eo above s))

  admit-IsServed :
      {x : Exchange} {t : List Message} (message : SessionClientFrame) (started : ℕ)
      → IsServed x t
      → From x t (admit json message started) (λ _. IsServed)
  unfolding admit
  admit-IsServed {x = x} {t = t} message started served = From-get _ (
      From-if (leb (request_id_of message) x.last_id) _ _
        (λ _.
          From-if (is_some x.active || is_some x.output) _ _
            (λ _. From-raise _ (IsServed-IsTraffic served)) λ none_left. refused served none_left)
        λ above. replace_output-IsServed message started (not-leb _ _ above) served)
    where
      refused :
          IsServed x t
          → (is_some x.active || is_some x.output) ≡ false
          → From x t
              (reject json (request_id_of message) session_request_id_invalid)
              (λ _. IsServed)
      refused (idle ea eo ed s) e =
          reject-IsServed _ _ (record { active = ea; output = eo; deferred = ed }) s
      refused (busy a ea eo ed same s) e = absurd (cc)
      refused (writing o ea eo held s) e = absurd (cc)

  pub accept-IsServed :
      {x : Exchange} {t : List Message} (message : SessionClientFrame) (started : ℕ)
      → IsServed x t
      → From x t (accept json message started) (λ _. IsServed)
  unfolding accept
  accept-IsServed (cancel id) started served = cancel_request-IsServed json id served
  accept-IsServed (open_window f) started served = admit-IsServed (open_window f) started served
  accept-IsServed (continue_window f) started served =
      admit-IsServed (continue_window f) started served
  accept-IsServed (expand f) started served = admit-IsServed (expand f) started served
  accept-IsServed (close id) started served = admit-IsServed (close id) started served
