-- ===== src/Exact/Calm.antt =====
-- Operations that leave an undisturbed environment so, one rule for each way to build one.
use eliot_search.Prelude.{◌≡◌, subst, Bool, true, false, Option, none, some, if◌then◌else◌}
use eliot_search.Exec.{Env, ok, calm, Exec, pure, fail, ok_or, ◌>>=◌}
use eliot_search.Exec.Ensures.{bind-ok}
use eliot_search.Exact.{QueryFailure}

-- Undisturbed, what returns leaves the environment so.
pub record KeepsCalm {A : Type 0} (m : Exec QueryFailure A) : Type 0 where
  pub at : (a : A) (env' : Env) → m calm ≡ ok (a, env') → env' ≡ calm

module _ {A : Type 0} where
  pub KeepsCalm-pure : (a : A) → KeepsCalm (pure a)
  unfolding pure
  KeepsCalm-pure a = record { at = λ b env' h. cc }

  pub KeepsCalm-ok_or : (o : Option A) (e : QueryFailure) → KeepsCalm (ok_or o e)
  unfolding ok_or fail
  KeepsCalm-ok_or none e = record { at = λ b env' h. absurd (cc) }
  KeepsCalm-ok_or (some a) e = KeepsCalm-pure a

  pub KeepsCalm-if :
      (b : Bool) (m n : Exec QueryFailure A)
      → KeepsCalm m
      → KeepsCalm n
      → KeepsCalm (if b then m else n)
  KeepsCalm-if true m n km kn = km
  KeepsCalm-if false m n km kn = kn

pub KeepsCalm-bind :
    {A B : Type 0} (m : Exec QueryFailure A) (f : A → Exec QueryFailure B)
    → KeepsCalm m
    → ((a : A) → KeepsCalm (f a))
    → KeepsCalm (m >>= f)
KeepsCalm-bind m f km kf = record {
  at = λ b env' h.
      let (a, mid, first, rest) = bind-ok m f h in
      (kf a).at b env' (subst (λ e. f a e ≡ ok (b, env')) (km.at a mid first) rest);
}
