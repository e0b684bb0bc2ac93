-- ===== src/Exec.antt =====
-- Operations that may fail and that look at the environment while they run: at the cancellation
-- flag and the clock (`check(deadline, cancelled)`), and at the allocator (`try_reserve_exact`).
-- An environment is the list of what successive looks find; behind its end nothing disturbs.
pub mod Ensures
pub mod Quiet
use eliot_search.Prelude.{Bool, true, false, Option, none, some, List, [], ◌∷◌, if◌then◌else◌}

pub data Result {ℓ κ} (E : Type ℓ) (A : Type κ) : Type (ℓ ⊔ κ) where
  ok : A → Result E A
  err : E → Result E A

-- What one look at the environment finds.
pub record Moment : Type 0 where
  pub cancelled : Bool
  pub expired : Bool
  pub memory : Bool

abbrev pub Env : Type 0
Env = List Moment

-- Nothing disturbs: no cancellation, no expiry, and every allocation succeeds.
abbrev pub calm : Env
calm = []

abbrev pub Exec {ℓ κ} : Type ℓ → Type κ → Type (ℓ ⊔ κ)
Exec E A = Env → Result E (A × Env)

module _ {ℓ κ} {E : Type ℓ} {A : Type κ} where
  unfoldable pub pure : A → Exec E A
  pure a env = ok (a, env)

  unfoldable pub fail : E → Exec E A
  fail e env = err e

  -- `option.ok_or(error)?`
  unfoldable pub ok_or : Option A → E → Exec E A
  unfolding pure fail
  ok_or none e = fail e
  ok_or (some a) e = pure a

module _ {ℓ} {E : Type ℓ} where
  -- `if test { return Err(error); }`
  unfoldable pub refuse_if : Bool → E → Exec E (Unit {0})
  unfolding pure fail
  refuse_if true e = fail e
  refuse_if false e = pure tt

  -- One look: a cancellation is seen before an expiry.
  unfoldable pub check_with : E → E → Exec E (Unit {0})
  check_with cancel late [] = ok (tt, [])
  check_with cancel late (m ∷ env) =
      if m.cancelled then err cancel else if m.expired then err late else ok (tt, env)

  -- `vec.try_reserve_exact(…)`: the allocator may refuse.
  unfoldable pub reserve_with : E → Exec E (Unit {0})
  reserve_with denied [] = ok (tt, [])
  reserve_with denied (m ∷ env) = if m.memory then ok (tt, env) else err denied

module _ {ℓ κ ι} {E : Type ℓ} {A : Type κ} {B : Type ι} where
  abbrev pub continue : Result E (A × Env) → (A → Exec E B) → Result E (B × Env)
  continue (ok (a, env)) f = f a env
  continue (err e) f = err e

  infixl 5 ◌>>=◌ ◌>>◌
  -- To open this is to open the other operations on environments too.
  unfoldable pub ◌>>=◌ : Exec E A → (A → Exec E B) → Exec E B
  unfolding pure fail ok_or refuse_if check_with reserve_with
  ◌>>=◌ m f env = continue (m env) f

  abbrev pub ◌>>◌ : Exec E A → Exec E B → Exec E B
  m >> n = m >>= λ _. n

-- `result.map_err(convert)?`
module _ {ℓ κ ι} {E : Type ℓ} {F : Type κ} {A : Type ι} where
  abbrev pub convert_error : (E → F) → Result E (A × Env) → Result F (A × Env)
  convert_error f (ok r) = ok r
  convert_error f (err e) = err (f e)

  unfoldable pub map_err : (E → F) → Exec E A → Exec F A
  map_err f m env = convert_error f (m env)
