-- ===== src/Exec/Quiet.antt =====
-- Operations whose result does not hang on the environment, one rule for each way to build one.
use eliot_search.Prelude.{◌≡◌, ap, ◌∙◌, Bool, true, false, Option, none, some}
use eliot_search.Exec.{ok, Env, Exec, pure, fail, ok_or, continue, ◌>>=◌, refuse_if}
use eliot_search.Exec.Ensures.{continue-ok}

-- What `m` returns in one environment it returns in every environment, which it leaves alone.
pub record Quiet {ℓ κ} {E : Type ℓ} {A : Type κ} (m : Exec E A) : Type (ℓ ⊔ κ) where
  pub at : (env env' other : Env) (a : A) → m env ≡ ok (a, env') → m other ≡ ok (a, other)

module _ {ℓ κ} {E : Type ℓ} {A : Type κ} where
  pub Quiet-pure : (a : A) → Quiet {E = E} (pure a)
  unfolding pure
  Quiet-pure a = record {
    at = λ env env' other b h. let same : a ≡ b = cc in ap (λ c. ok (c, other)) same;
  }

  pub Quiet-fail : (e : E) → Quiet {A = A} (fail e)
  unfolding fail
  Quiet-fail e = record { at = λ env env' other b h. absurd (cc) }

  pub Quiet-ok_or : (o : Option A) (e : E) → Quiet (ok_or o e)
  unfolding ok_or
  Quiet-ok_or none e = Quiet-fail e
  Quiet-ok_or (some a) e = Quiet-pure a

pub Quiet-refuse_if {ℓ} : {E : Type ℓ} (b : Bool) (e : E) → Quiet (refuse_if b e)
unfolding refuse_if
Quiet-refuse_if true e = Quiet-fail e
Quiet-refuse_if false e = Quiet-pure tt

pub Quiet-bind {ℓ κ ι} :
    {E : Type ℓ} {A : Type κ} {B : Type ι} (m : Exec E A) (f : A → Exec E B)
    → Quiet m
    → ((a : A) → Quiet (f a))
    → Quiet (m >>= f)
unfolding ◌>>=◌
Quiet-bind m f km kf = record {
  at = λ env env' other b h.
      let (a, mid, first, rest) = continue-ok (m env) f h in
      ap (λ r. continue r f) (km.at env mid other a first) ∙ (kf a).at mid env' other b rest;
}
