-- ===== src/Exec/Ensures.antt =====
-- What an operation ensures when it returns a result, one rule for each way to build it.
use eliot_search.Prelude.{
  ◌≡◌, ◌⊎◌, inl, inr, refl, ap, subst, Bool, true, false, Option, none, some, [], if◌then◌else◌,
}
use eliot_search.Exec.{
  Result, ok, err, Env, Exec, pure, fail, ok_or, continue, ◌>>=◌, ◌>>◌, refuse_if, check_with,
  convert_error, map_err,
}

-- Whatever the environment does, a result of `m` meets `P`.
pub record Ensures {ℓ κ ι} {E : Type ℓ} {A : Type κ} (P : A → Type ι) (m : Exec E A)
    : Type (ℓ ⊔ κ ⊔ ι) where
  pub at : (env : Env) (a : A) (env' : Env) → m env ≡ ok (a, env') → P a

module _ {ℓ κ ι} {E : Type ℓ} {A : Type κ} {P : A → Type ι} where
  pub Ensures-pure : (a : A) → P a → Ensures {E = E} P (pure a)
  unfolding pure
  Ensures-pure a h = record { at = λ env a' env' e. subst P (cc) h }

  pub Ensures-fail : (e : E) → Ensures P (fail e)
  unfolding fail
  Ensures-fail e = record { at = λ env a env' p. absurd (cc) }

  pub Ensures-ok_or : (o : Option A) (e : E) → ((a : A) → o ≡ some a → P a) → Ensures P (ok_or o e)
  unfolding ok_or
  Ensures-ok_or none e h = Ensures-fail e
  Ensures-ok_or (some a) e h = Ensures-pure a (h a refl)

  pub Ensures-if :
      (b : Bool) (m n : Exec E A)
      → (b ≡ true → Ensures P m)
      → (b ≡ false → Ensures P n)
      → Ensures P (if b then m else n)
  Ensures-if true m n km kn = km refl
  Ensures-if false m n km kn = kn refl

pub Ensures-weaken {ℓ κ μ ν} :
    {E : Type ℓ} {A : Type κ} {P : A → Type μ} {Q : A → Type ν} (m : Exec E A)
    → Ensures P m
    → ((a : A) → P a → Q a)
    → Ensures Q m
Ensures-weaken m h k = record { at = λ env a env' e. k a (h.at env a env' e) }

pub Ensures-found {ℓ κ} :
    {E : Type ℓ} {A : Type κ} (o : Option A) (e : E) → Ensures (λ a. o ≡ some a) (ok_or o e)
Ensures-found o e = Ensures-ok_or o e (λ a h. h)

-- A successful sequence has a successful first part.
pub continue-ok {ℓ κ ι} :
    {E : Type ℓ} {A : Type κ} {B : Type ι} (r : Result E (A × Env)) (f : A → Exec E B) {b : B}
    {env' : Env}
    → continue r f ≡ ok (b, env')
    → (a : A) × (env : Env) × (r ≡ ok (a, env)) × (f a env ≡ ok (b, env'))
continue-ok (ok (a, env)) f h = (a, env, refl, h)
continue-ok (err e) f h = cc

module _ {ℓ κ ι} {E : Type ℓ} {A : Type κ} {B : Type ι} where
  pub Ensures-bind {μ ν} :
      {P : A → Type μ} {Q : B → Type ν} (m : Exec E A) (f : A → Exec E B)
      → Ensures P m
      → ((a : A) → P a → Ensures Q (f a))
      → Ensures Q (m >>= f)
  unfolding ◌>>=◌
  Ensures-bind m f km kf = record {
    at = λ env b env' h.
        let (a, mid, first, rest) = continue-ok (m env) f h in
        (kf a (km.at env a mid first)).at mid b env' rest;
  }

  -- The rest does not depend on what the first part ensures.
  pub Ensures-then {ν} :
      {Q : B → Type ν} (m : Exec E A) (f : A → Exec E B)
      → ((a : A) → Ensures Q (f a))
      → Ensures Q (m >>= f)
  unfolding ◌>>=◌
  Ensures-then m f kf = record {
    at = λ env b env' h.
        let (a, mid, first, rest) = continue-ok (m env) f h in (kf a).at mid b env' rest;
  }

module _ {ℓ κ ν} {E : Type ℓ} {B : Type κ} {Q : B → Type ν} where
  pub Ensures-refuse_if :
      (b : Bool) (e : E) (m : Exec E B) → (b ≡ false → Ensures Q m) → Ensures Q (refuse_if b e >> m)
  unfolding ◌>>=◌
  Ensures-refuse_if true e m h = record { at = λ env a env' p. absurd (cc) }
  Ensures-refuse_if false e m h = h refl

-- What holds before the last operation.
pub Ensures-given {ℓ κ ν} :
    {E : Type ℓ} {A : Type κ} {P : Type ν} (m : Exec E A) → P → Ensures (λ _. P) m
Ensures-given m h = record { at = λ env a env' e. h }

-- A last refusal.
pub Ensures-refused {ℓ ν} :
    {E : Type ℓ} {Q : Unit {0} → Type ν} (b : Bool) (e : E)
    → (b ≡ false → Q tt)
    → Ensures Q (refuse_if b e)
unfolding refuse_if pure fail
Ensures-refused true e h = record { at = λ env a env' p. absurd (cc) }
Ensures-refused false e h = record { at = λ env a env' p. h refl }

-- In a calm environment nothing is seen and nothing is refused.
pub check_with-calm {ℓ} : {E : Type ℓ} (c d : E) → check_with c d [] ≡ ok (tt, [])
unfolding check_with
check_with-calm c d = refl

convert_error-ok {ℓ κ ι} :
    {E : Type ℓ} {F : Type κ} {A : Type ι} (f : E → F) (r : Result E (A × Env)) {a : A} {env' : Env}
    → convert_error f r ≡ ok (a, env')
    → r ≡ ok (a, env')
convert_error-ok f (ok r) h = cc
convert_error-ok f (err e) h = cc

pub Ensures-map_err {ℓ κ ι μ} :
    {E : Type ℓ} {F : Type κ} {A : Type ι} {P : A → Type μ} (f : E → F) (m : Exec E A)
    → Ensures P m
    → Ensures P (map_err f m)
unfolding map_err
Ensures-map_err f m h = record {
  at = λ env a env' e. h.at env a env' (convert_error-ok f (m env) e);
}

-- A sequence that goes past a refusal.
module _ {ℓ κ} {E : Type ℓ} {B : Type κ} where
  pub refused-false :
      (b : Bool) (e : E) (m : Exec E B) {a : B} {env env' : Env}
      → (refuse_if b e >> m) env ≡ ok (a, env')
      → (b ≡ false) × (m env ≡ ok (a, env'))
  unfolding ◌>>=◌
  refused-false true e m h = absurd (cc)
  refused-false false e m h = (refl, h)

  pub false-passed :
      (b : Bool) (e : E) (m : Exec E B) (env : Env) → b ≡ false → (refuse_if b e >> m) env ≡ m env
  unfolding ◌>>=◌
  false-passed true e m env h = absurd (cc)
  false-passed false e m env h = refl

-- A sequence taken apart and put together.
module _ {ℓ κ ι} {E : Type ℓ} {A : Type κ} {B : Type ι} where
  pub bind-ok :
      (m : Exec E A) (f : A → Exec E B) {b : B} {env env' : Env}
      → (m >>= f) env ≡ ok (b, env')
      → (a : A) × (mid : Env) × (m env ≡ ok (a, mid)) × (f a mid ≡ ok (b, env'))
  unfolding ◌>>=◌
  bind-ok m f {env = env} h = continue-ok (m env) f h

  pub bind-at :
      (m : Exec E A) (f : A → Exec E B) {a : A} {env mid : Env}
      → m env ≡ ok (a, mid)
      → (m >>= f) env ≡ f a mid
  unfolding ◌>>=◌
  bind-at m f h = ap (λ r. continue r f) h

  pub bind-err :
      (m : Exec E A) (f : A → Exec E B) {e : E} {env : Env} → m env ≡ err e → (m >>= f) env ≡ err e
  unfolding ◌>>=◌
  bind-err m f h = ap (λ r. continue r f) h

-- An operation returns or fails.
pub Result-cases {ℓ κ} :
    {E : Type ℓ} {A : Type κ} (r : Result E A) → ((a : A) × (r ≡ ok a)) ⊎ ((e : E) × (r ≡ err e))
Result-cases (ok a) = inl (a, refl)
Result-cases (err e) = inr (e, refl)
