-- ===== src/Materializer/Controls.antt =====
-- The binary classification of scan.rs: what `reject_binary_controls` lets through.
use native.Mathlib.Nat.{zero-add}
use eliot_search.Prelude.{
  ℕ, ◌+◌, ◌<◌, ◌≡◌, refl, Bool, false, ◌||◌, [], ◌∷◌, arith, Bytes, length, leb, ◌==◌,
  if◌then◌else◌,
}
use eliot_search.Exec.{Env, ok, err, calm, ◌>>=◌}
use eliot_search.Exec.Ensures.{
  Ensures, Ensures-pure, Ensures-weaken, Ensures-then, Ensures-refuse_if,
}
use eliot_search.Materializer.Scan.{
  MaterializationError, is_control, threshold, reject_from, reject_binary_controls,
}
use eliot_search.Materializer.Scan.Complete.{poll-calm}

-- The control bytes of a text, but for tab, line feed, carriage return and form feed.
abbrev pub count_controls : Bytes → ℕ
count_controls [] = 0
count_controls (b ∷ rest) = (if is_control b then 1 else 0) + count_controls rest

abbrev pub has_nul : Bytes → Bool
has_nul [] = false
has_nul (b ∷ rest) = b == 0 || has_nul rest

-- No zero byte, and fewer control bytes than one in a hundred, or than four in a short text.
abbrev pub IsTextual : Bytes → Type 0
IsTextual bytes = (has_nul bytes ≡ false) × (count_controls bytes < threshold (length bytes))

reject_from-Ensures :
    (limit : ℕ) (bytes : Bytes) (index controls : ℕ)
    → controls < limit
    → Ensures
        (λ _. (has_nul bytes ≡ false) × (controls + count_controls bytes < limit))
        (reject_from limit bytes index controls)
unfolding reject_from
reject_from-Ensures limit [] index controls h = Ensures-pure tt (refl, omega arith)
reject_from-Ensures limit (b ∷ rest) index controls h = Ensures-then _ _ λ _.
    Ensures-refuse_if _ _ _ λ nonzero. Ensures-refuse_if _ _ _ λ few.
      Ensures-weaken _
        (reject_from-Ensures limit rest (index + 1)
          (if is_control b then controls + 1 else controls) (ground arith))
        λ _ found. ground arith

reject_from-calm :
    (limit : ℕ) (bytes : Bytes) (index controls : ℕ)
    → controls < limit
    → reject_from limit bytes index controls calm ≡ (
        if has_nul bytes || leb limit (controls + count_controls bytes)
        then err MaterializationError.binary_content
        else ok (tt, calm))
unfolding reject_from ◌>>=◌
reject_from-calm limit [] index controls h = ground arith
reject_from-calm limit (b ∷ rest) index controls h = rw poll-calm (
    ground (
      arith,
      reject_from-calm limit rest (index + 1) (if is_control b then controls + 1 else controls),
    ))

pub reject_binary_controls-Ensures :
    (bytes : Bytes) → Ensures (λ _. IsTextual bytes) (reject_binary_controls bytes)
unfolding reject_binary_controls
reject_binary_controls-Ensures bytes =
    Ensures-weaken _ (reject_from-Ensures (threshold (length bytes)) bytes 0 0 (omega arith))
      λ _ found. (found.0, omega arith)

-- Whatever the environment does: what the classification lets through holds no zero byte and fewer
-- control bytes than the threshold.
pub reject_binary_controls-IsTextual :
    (bytes : Bytes) (env env' : Env)
    → reject_binary_controls bytes env ≡ ok (tt, env')
    → IsTextual bytes
reject_binary_controls-IsTextual bytes env env' h =
    (reject_binary_controls-Ensures bytes).at env tt env' h

-- In a calm environment, the classification refuses a text exactly if it holds a zero byte or as
-- many control bytes as the threshold.
pub reject_binary_controls-calm :
    (bytes : Bytes)
    → reject_binary_controls bytes calm ≡ (
        if has_nul bytes || leb (threshold (length bytes)) (count_controls bytes)
        then err MaterializationError.binary_content
        else ok (tt, calm))
unfolding reject_binary_controls
reject_binary_controls-calm bytes =
    let all = reject_from-calm (threshold (length bytes)) bytes 0 0 (omega arith) in
    rw zero-add at all
