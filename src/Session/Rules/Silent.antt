-- ===== src/Session/Rules/Silent.antt =====
-- The operations that leave the state of a session and its traffic as they are.
use eliot_search.Prelude.{◌≡◌, refl, Option, none, some, Bytes, ℕ, arith}
use eliot_search.Exec.{Env, Exec, Result, ok, err}
use eliot_search.Protocol.{ProtocolError}
use eliot_search.Session.State.{World}
use eliot_search.Session.Monad.{
  pure, raise, or_raise, of_result, of_protocol, ran, run, now, later, memory,
}
use eliot_search.Session.Rules.{IsSilent}

module _ {A : Type 0} where
  pub pure-IsSilent : (a : A) → IsSilent (pure a)
  unfolding pure
  pure-IsSilent a = record { still = λ w. (refl, refl) }

  pub raise-IsSilent : (e : Bytes) → IsSilent {A = A} (raise e)
  unfolding raise
  raise-IsSilent e = record { still = λ w. (refl, refl) }

  pub or_raise-IsSilent : (o : Option A) (e : Bytes) → IsSilent (or_raise o e)
  unfolding or_raise
  or_raise-IsSilent none e = raise-IsSilent e
  or_raise-IsSilent (some a) e = pure-IsSilent a

  pub of_result-IsSilent : (r : Result Bytes A) → IsSilent (of_result r)
  unfolding of_result
  of_result-IsSilent (ok a) = pure-IsSilent a
  of_result-IsSilent (err e) = raise-IsSilent e

  pub of_protocol-IsSilent : (r : Result ProtocolError A) → IsSilent (of_protocol r)
  unfolding of_protocol
  of_protocol-IsSilent (ok a) = pure-IsSilent a
  of_protocol-IsSilent (err e) = raise-IsSilent _

  ran-still :
      (w : World) (r : Result ProtocolError (A × Env))
      → ((ran w r).1.exchange ≡ w.exchange) × ((ran w r).1.channel ≡ w.channel)
  ran-still w (ok (a, env)) = (refl, refl)
  ran-still w (err e) = (refl, refl)

  pub run-IsSilent : (m : Exec ProtocolError A) → IsSilent (run m)
  unfolding run
  run-IsSilent m = record { still = λ w. ran-still w (m w.env) }

pub now-IsSilent : IsSilent now
unfolding now
now-IsSilent = record { still = λ w. (refl, refl) }

pub later-IsSilent : (instant duration : ℕ) → IsSilent (later instant duration)
unfolding later
later-IsSilent instant duration = or_raise-IsSilent _ _

pub memory-IsSilent : IsSilent memory
unfolding memory
memory-IsSilent = record { still = λ w. ground arith }

ruleset silent = (
  pure-IsSilent, raise-IsSilent, or_raise-IsSilent, of_result-IsSilent, of_protocol-IsSilent,
  run-IsSilent, now-IsSilent, later-IsSilent, memory-IsSilent,
)
