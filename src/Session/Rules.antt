-- ===== src/Session/Rules.antt =====
-- What holds behind an operation of a session that starts in a given state, one rule for each way to
-- build it.
pub mod Silent
use eliot_search.Prelude.{
  ◌≡◌, refl, sym, ap, ◌∙◌, subst, Bool, true, false, Option, none, some, List, ◌∷◌, Bytes, ℕ,
  if◌then◌else◌, arith,
}
use eliot_search.Exec.{Env, Exec, Result, ok, err}
use eliot_search.Exec.Ensures.{Ensures}
use eliot_search.Protocol.{ProtocolError}
use eliot_search.Session.State.{Exchange, Message, Command, sent, World}
use eliot_search.Session.Monad.{
  Action, pure, raise, or_raise, of_result, of_protocol, ran, run, continue, ◌>>=◌, get_exchange,
  modify, now, later, memory, tell, send, try_send,
}
use eliot_search.Session.Traffic.{IsTraffic}

-- The assertion on the value and the world, where there is a value; the traffic is in order in any case.
abbrev pub Behind :
    {A : Type 0} → (A → Exchange → List Message → Type 0) → Result Bytes A × World → Type 0
Behind Q (ok a, w) = Q a w.exchange w.channel
Behind Q (err e, w) = IsTraffic w.channel

pub record From {A : Type 0} (x : Exchange) (t : List Message) (m : Action A)
    (Q : A → Exchange → List Message → Type 0) : Type 0 where
  pub at : (w : World) → w.exchange ≡ x → w.channel ≡ t → Behind Q (m w)

-- The operation leaves the state and the traffic as they are.
pub record IsSilent {A : Type 0} (m : Action A) : Type 0 where
  pub still : (w : World) → ((m w).1.exchange ≡ w.exchange) × ((m w).1.channel ≡ w.channel)

silent-Behind :
    {A : Type 0} (Q : A → Exchange → List Message → Type 0) {x : Exchange} {t : List Message}
    (r : Result Bytes A × World)
    → r.1.exchange ≡ x
    → r.1.channel ≡ t
    → IsTraffic t
    → ((a : A) → Q a x t)
    → Behind Q r
silent-Behind Q (ok a, w) ex et h k = rw (ex, et) (k a)
silent-Behind Q (err e, w) ex et h k = rw et h

module _ {A : Type 0} {Q : A → Exchange → List Message → Type 0} {x : Exchange}
    {t : List Message} where
  pub From-pure : (a : A) → Q a x t → From x t (pure a) Q
  unfolding pure
  From-pure a h = record { at = λ w ex et. rw (ex, et) h }

  pub From-raise : (e : Bytes) → IsTraffic t → From x t (raise e) Q
  unfolding raise
  From-raise e h = record { at = λ w ex et. rw et h }

  pub From-if :
      (b : Bool) (m n : Action A)
      → (b ≡ true → From x t m Q)
      → (b ≡ false → From x t n Q)
      → From x t (if b then m else n) Q
  From-if true m n km kn = km refl
  From-if false m n km kn = kn refl

  pub From-silent : (m : Action A) → IsSilent m → IsTraffic t → ((a : A) → Q a x t) → From x t m Q
  From-silent m silent h k = record {
    at = λ w ex et.
        let (still_x, still_t) = silent.still w in
        silent-Behind Q (m w) (still_x ∙ ex) (still_t ∙ et) h k;
  }

module _ {A B : Type 0} {P : A → Exchange → List Message → Type 0}
    {Q : B → Exchange → List Message → Type 0} where
  Behind-continue :
      (r : Result Bytes A × World) (f : A → Action B)
      → Behind P r
      → ((a : A) (x : Exchange) (t : List Message) → P a x t → From x t (f a) Q)
      → Behind Q (continue r f)
  Behind-continue (ok a, w) f h k = (k a w.exchange w.channel h).at w refl refl
  Behind-continue (err e, w) f h k = h

  pub From-bind :
      {x : Exchange} {t : List Message} (m : Action A) (f : A → Action B)
      → From x t m P
      → ((a : A) (x' : Exchange) (t' : List Message) → P a x' t' → From x' t' (f a) Q)
      → From x t (m >>= f) Q
  unfolding ◌>>=◌
  From-bind m f h k = record { at = λ w ex et. Behind-continue (m w) f (h.at w ex et) k }

module _ {B : Type 0} {Q : B → Exchange → List Message → Type 0} {x : Exchange}
    {t : List Message} where
  pub From-given :
      {A : Type 0} (a : A) (f : A → Action B) → From x t (f a) Q → From x t (pure a >>= f) Q
  unfolding ◌>>=◌ pure
  From-given a f h = record { at = h.at }

  -- Behind a silent operation the rest starts where it did.
  pub From-quiet :
      {A : Type 0} (m : Action A) (f : A → Action B)
      → IsSilent m
      → IsTraffic t
      → ((a : A) → From x t (f a) Q)
      → From x t (m >>= f) Q
  From-quiet m f silent h k =
      From-bind {P = λ a x' t'. (x' ≡ x) × (t' ≡ t)} m f (From-silent m silent h λ a. (refl, refl))
        λ a x' t' same. rw (same.0, same.1) (k a)

  pub From-get : (f : Exchange → Action B) → From x t (f x) Q → From x t (get_exchange >>= f) Q
  unfolding ◌>>=◌ get_exchange
  From-get f h = record { at = λ w ex et. subst (λ y. Behind Q (f y w)) (sym ex) (h.at w ex et) }

  pub From-modify :
      (g : Exchange → Exchange) (f : (Unit {0}) → Action B)
      → From (g x) t (f tt) Q
      → From x t (modify g >>= f) Q
  unfolding ◌>>=◌ modify
  From-modify g f h = record {
    at = λ w ex et. h.at (record w { exchange = g w.exchange }) (ap g ex) et;
  }

  pub From-tell :
      (message : Message) (f : (Unit {0}) → Action B)
      → From x (message ∷ t) (f tt) Q
      → From x t (tell message >>= f) Q
  unfolding ◌>>=◌ tell
  From-tell message f h = record {
    at = λ w ex et. h.at (record w { channel = message ∷ w.channel }) ex (ap (λ l. message ∷ l) et);
  }

pub From-option :
    {A C : Type 0} {Q : A → Exchange → List Message → Type 0} {x : Exchange} {t : List Message}
    (o : Option C) (m : Action A) (f : C → Action A)
    → (o ≡ none → From x t m Q)
    → ((c : C) → o ≡ some c → From x t (f c) Q)
    → From x t (elim o [ none ↦ m | some c ↦ f c ]) Q
From-option none m f km kf = km refl
From-option (some c) m f km kf = kf c refl

pub From-found :
    {A B : Type 0} {Q : B → Exchange → List Message → Type 0} {x : Exchange} {t : List Message}
    (o : Option A) (e : Bytes) (f : A → Action B)
    → IsTraffic t
    → ((a : A) → o ≡ some a → From x t (f a) Q)
    → From x t (or_raise o e >>= f) Q
unfolding or_raise
From-found none e f h k = From-bind {P = λ a x' t'. ⊥} _ _ (From-raise e h) λ a x' t' p. absurd p
From-found {x = x} {t = t} (some a) e f h k =
    From-bind {P = λ b x' t'. (b ≡ a) × (x' ≡ x) × (t' ≡ t)} _ _ (From-pure a (refl, refl, refl))
      λ b x' t' (eb, ex, et). rw (eb, ex, et) (k a refl)

ran-Behind :
    {A : Type 0} (Q : A → Exchange → List Message → Type 0) (w : World)
    (r : Result ProtocolError (A × Env))
    → IsTraffic w.channel
    → ((a : A) (env : Env) → r ≡ ok (a, env) → Q a w.exchange w.channel)
    → Behind Q (ran w r)
ran-Behind Q w (ok (a, env)) h k = k a env refl
ran-Behind Q w (err e) h k = h

pub From-ran :
    {A : Type 0} {P : A → Type 0} {Q : A → Exchange → List Message → Type 0} {x : Exchange}
    {t : List Message} (m : Exec ProtocolError A)
    → Ensures P m
    → IsTraffic t
    → ((a : A) → P a → Q a x t)
    → From x t (run m) Q
unfolding run
From-ran {Q = Q} m ensures h k = record {
  at = λ w ex et.
      ran-Behind Q w (m w.env) (rw et h) λ a env e. rw (ex, et) (k a (ensures.at w.env a env e));
}

-- What the operation ensures, with the state and the traffic as they were.
pub From-run :
    {A B : Type 0} {P : A → Type 0} {Q : B → Exchange → List Message → Type 0} {x : Exchange}
    {t : List Message} (m : Exec ProtocolError A) (f : A → Action B)
    → Ensures P m
    → IsTraffic t
    → ((a : A) → P a → From x t (f a) Q)
    → From x t (run m >>= f) Q
unfolding run
From-run {P = P} {x = x} {t = t} m f ensures h k =
    From-bind {P = λ a x' t'. P a × (x' ≡ x) × (t' ≡ t)} (run m) f
      (From-ran m ensures h λ a p. (p, refl, refl))
      λ a x' t' same. (let (p, ex, et) = same in rw (ex, et) (k a p))

pub From-weaken :
    {A : Type 0} {P Q : A → Exchange → List Message → Type 0} {x : Exchange} {t : List Message}
    (m : Action A)
    → From x t m P
    → ((a : A) (x' : Exchange) (t' : List Message) → P a x' t' → Q a x' t')
    → From x t m Q
From-weaken {P = P} {Q = Q} m h k = record { at = λ w ex et. step (m w) (h.at w ex et) }
  where
    step : (r : Result Bytes _ × World) → Behind P r → Behind Q r
    step (ok a, w) p = k a w.exchange w.channel p
    step (err e, w) p = p

pub From-set :
    {Q : (Unit {0}) → Exchange → List Message → Type 0} {x : Exchange} {t : List Message}
    (g : Exchange → Exchange)
    → Q tt (g x) t
    → From x t (modify g) Q
unfolding modify
From-set g h = record { at = λ w ex et. rw (ex, et) h }

pub From-told :
    {Q : (Unit {0}) → Exchange → List Message → Type 0} {x : Exchange} {t : List Message}
    (message : Message)
    → Q tt x (message ∷ t)
    → From x t (tell message) Q
unfolding tell
From-told message h = record { at = λ w ex et. rw (ex, et) h }

pub From-send :
    {Q : (Unit {0}) → Exchange → List Message → Type 0} {x : Exchange} {t : List Message}
    (command : Command)
    → IsTraffic t
    → Q tt x (sent command ∷ t)
    → From x t (send command) Q
unfolding send tell raise
From-send command h q = record { at = λ w ex et. ground arith }

pub From-try_send :
    {Q : (Unit {0}) → Exchange → List Message → Type 0} {x : Exchange} {t : List Message}
    (command : Command)
    → Q tt x t
    → Q tt x (sent command ∷ t)
    → From x t (try_send command) Q
unfolding try_send tell pure
From-try_send command h q = record { at = λ w ex et. ground arith }
