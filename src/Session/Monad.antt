-- ===== src/Session/Monad.antt =====
-- The operations of a session: an error, or a value, and the world behind it in either case.
use eliot_search.Prelude.{ℕ, suc, Bool, true, false, Option, none, some, [], ◌∷◌, Bytes}
use eliot_search.Prelude.Words.{checked_add}
use eliot_search.Exec.{Env, Exec, Result, ok, err}
use eliot_search.Protocol.{ProtocolError}
use eliot_search.Exact.RawExact.{protocol_code}
use eliot_search.Session.Codes.{query_deadline, query_worker_panicked}
use eliot_search.Session.State.{Exchange, Message, Command, sent, World}

abbrev pub Action {ℓ} : Type ℓ → Type ℓ
Action A = World → Result Bytes A × World

module _ {ℓ} {A : Type ℓ} where
  unfoldable pub pure : A → Action A
  pure a w = (ok a, w)

  unfoldable pub raise : Bytes → Action A
  raise e w = (err e, w)

  unfoldable pub or_raise : Option A → Bytes → Action A
  unfolding pure raise
  or_raise none e = raise e
  or_raise (some a) e = pure a

  -- `result?`
  unfoldable pub of_result : Result Bytes A → Action A
  unfolding pure raise
  of_result (ok a) = pure a
  of_result (err e) = raise e

  unfoldable pub of_protocol : Result ProtocolError A → Action A
  unfolding pure raise
  of_protocol (ok a) = pure a
  of_protocol (err e) = raise (protocol_code e)

  abbrev pub ran : World → Result ProtocolError (A × Env) → Result Bytes A × World
  ran w (ok (a, env)) = (ok a, record w { env = env })
  ran w (err e) = (err (protocol_code e), w)

  -- `operation().map_err(ProtocolError::code)?` of an operation that looks at the environment.
  unfoldable pub run : Exec ProtocolError A → Action A
  run m w = ran w (m w.env)

module _ {ℓ κ} {A : Type ℓ} {B : Type κ} where
  abbrev pub continue : Result Bytes A × World → (A → Action B) → Result Bytes B × World
  continue (ok a, w) f = f a w
  continue (err e, w) f = (err e, w)

  infixl 5 ◌>>=◌
  unfoldable pub ◌>>=◌ : Action A → (A → Action B) → Action B
  ◌>>=◌ m f w = continue (m w) f

infixl 5 ◌>>◌
abbrev pub ◌>>◌ {ℓ} : {A : Type ℓ} → Action (Unit {0}) → Action A → Action A
m >> n = m >>= λ _. n

unfoldable pub get_exchange : Action Exchange
get_exchange w = (ok w.exchange, w)

unfoldable pub modify : (Exchange → Exchange) → Action (Unit {0})
modify f w = (ok tt, record w { exchange = f w.exchange })

-- `Instant::now()`
unfoldable pub now : Action ℕ
now w = (ok (w.clock 0), record w { clock = λ n. w.clock (suc n) })

-- `instant.checked_add(duration).ok_or("QUERY_DEADLINE")?`
unfoldable pub later : ℕ → ℕ → Action ℕ
unfolding or_raise
later instant duration = or_raise (checked_add instant duration) query_deadline

-- Whether the allocator grants the memory of a frame.
unfoldable pub memory : Action Bool
memory w = elim w.env [ [] ↦ (ok true, w) | m ∷ env ↦ (ok m.memory, record w { env = env }) ]

unfoldable pub tell : Message → Action (Unit {0})
tell message w = (ok tt, record w { channel = message ∷ w.channel })

-- `commands.send(command).map_err(|_| "QUERY_WORKER_PANICKED")?`
unfoldable pub send : Command → Action (Unit {0})
unfolding tell raise
send command w = elim w.listening [
  | true ↦ tell (sent command) w
  | false ↦ raise query_worker_panicked w
]

-- `let _ = commands.send(command);`
unfoldable pub try_send : Command → Action (Unit {0})
unfolding tell pure
try_send command w = elim w.listening [ true ↦ tell (sent command) w | false ↦ pure tt w ]
