-- ===== src/Exact/Border.antt =====
-- Which prefixes of a literal end at a position of a text.
use eliot_search.Prelude.{
  ℕ, suc, ◌+◌, ◌-◌, ◌≤◌, ◌<◌, ◌≡◌, inl, inr, sym, ap, ◌∙◌, arith, Bytes, get_elem?, Bool-cases, ltb,
  ltb→lt, ltb→le,
}

-- The k bytes before position n of a text are the first k bytes of the literal.
pub record Ends (text : Bytes) (n : ℕ) (literal : Bytes) (k : ℕ) : Type 0 where
  pub inside : k ≤ n
  pub same : (i j : ℕ) → i < k → j + k ≡ n + i → get_elem? text j ≡ get_elem? literal i

module _ (text : Bytes) (n : ℕ) (literal : Bytes) where
  pub Ends-zero : Ends text n literal 0
  Ends-zero = record { inside = omega arith; same = λ i j less e. absurd (omega arith) }

  -- A shorter prefix that ends there is one that ends at the end of the longer one.
  pub Ends-shorter :
      (m k : ℕ) → Ends text n literal m → Ends text n literal k → k ≤ m → Ends literal m literal k
  Ends-shorter m k long short le = record {
    inside = le;
    same = λ i j less e.
        let inside = long.inside in
        let at : (n - m + j) + k ≡ n + i = omega arith in
        sym (long.same j (n - m + j) (omega arith) (omega arith))
        ∙ short.same i (n - m + j) less at;
  }

  -- A prefix that ends at the end of a prefix that ends there.
  pub Ends-inner :
      (m k : ℕ) → Ends text n literal m → Ends literal m literal k → Ends text n literal k
  Ends-inner m k long inner = record {
    inside = let a = long.inside in let b = inner.inside in omega arith;
    same = λ i l less e.
        let a = long.inside in
        let b = inner.inside in
        long.same (m - k + i) l (omega arith) (omega arith)
        ∙ inner.same i (m - k + i) less (omega arith);
  }

  -- One byte more.
  pub Ends-before :
      (k : ℕ)
      → Ends text (n + 1) literal (suc k)
      → Ends text n literal k × (get_elem? text n ≡ get_elem? literal k)
  Ends-before k h = (
    record {
      inside = let a = h.inside in omega arith;
      same = λ i j less e. h.same i j (omega arith) (omega arith);
    },
    h.same k n (omega arith) (omega arith),
  )

  pub Ends-after :
      (k : ℕ)
      → Ends text n literal k
      → get_elem? text n ≡ get_elem? literal k
      → Ends text (n + 1) literal (suc k)
  Ends-after k h last = record {
    inside = let a = h.inside in omega arith;
    same = λ i j less e. elim (Bool-cases (ltb i k)) [
      | inl under ↦ h.same i j (ltb→lt i k under) (omega arith)
      | inr over ↦
          let here : i ≡ k = let le = ltb→le i k over in omega arith in
          let there : j ≡ n = omega arith in
          ap (get_elem? text) there ∙ (last ∙ ap (get_elem? literal) (sym here))
    ];
  }
