-- ===== src/Unitizer/Decode/Walk.antt =====
-- The decoder's walk to the end of a line, and the line that the inventory has there.
use eliot_search.Prelude.{
  ℕ, zero, suc, ◌+◌, ◌-◌, ◌≤◌, ◌<◌, ◌≡◌, ◌≢◌, ◌⊎◌, inl, refl, sym, ap, ◌∙◌, Option, none, some, [],
  ◌∷◌, arith, Bytes, length, drop,
}
use eliot_search.Exec.{pure}
use eliot_search.Exec.Ensures.{Ensures, Ensures-pure, Ensures-then, Ensures-weaken}
use eliot_search.Materializer.Scan.{span, terminator}
use eliot_search.Materializer.Scan.Inventory.{spans, Lies, terminator-Lies}
use eliot_search.Unitizer.Decode.{walk}

-- Skipping is dropping.
spans_skip : (m : ℕ) (bytes : Bytes) (e k : ℕ) → spans bytes m e e k ≡ spans (drop m bytes) 0 e e k
unfolding spans
spans_skip zero bytes e k = refl
spans_skip (suc m) [] e k = refl
spans_skip (suc m) (b ∷ bytes) e k = spans_skip m bytes e k

-- The bytes from `offset` on, of which the ones since `start` are read, begin with a line to `end`.
abbrev Begins : Bytes → ℕ → ℕ → ℕ → ℕ → Type 0
Begins bytes start offset k end =
    (content_end : ℕ) × (spans bytes 0 start offset k
      ≡ span k start content_end end ∷ spans (drop (end - offset) bytes) 0 end end (k + 1))
    × (offset ≤ end)
    × (start < end)
    × (end ≤ offset + length bytes)

drop_one : (b : ℕ) (rest : Bytes) (m n : ℕ) → m ≡ n + 1 → drop m (b ∷ rest) ≡ drop n rest
drop_one b rest zero n e = absurd (omega arith)
drop_one b rest (suc m) n e = let same : m ≡ n = omega arith in ap (λ j. drop j rest) same

spans-none :
    (b : ℕ) (rest : Bytes) (start offset k : ℕ)
    → terminator b rest ≡ none
    → spans (b ∷ rest) 0 start offset k ≡ spans rest 0 start (offset + 1) k
unfolding spans
spans-none b rest start offset k e = rw (e, spans)

spans-some :
    (b : ℕ) (rest : Bytes) (start offset k n : ℕ)
    → terminator b rest ≡ some n
    → spans (b ∷ rest) 0 start offset k
      ≡ span k start offset (offset + n) ∷ spans rest (n - 1) (offset + n) (offset + n) (k + 1)
unfolding spans
spans-some b rest start offset k n e = rw (e, spans)

spans_nil :
    (start offset k : ℕ)
    → start < offset
    → (m : ℕ)
    → spans [] 0 start offset k
      ≡ span k start offset offset ∷ spans (drop m []) 0 offset offset (k + 1)
unfolding spans
spans_nil start offset k h zero = ground arith
spans_nil start offset k h (suc m) = ground arith

pub spans_done : (o k : ℕ) → spans [] 0 o o k ≡ []
unfolding spans
spans_done o k = ground arith

walk_on :
    (b : ℕ) (rest : Bytes) (start offset k : ℕ)
    → start ≤ offset
    → Ensures (Begins rest start (offset + 1) k) (walk rest (offset + 1))
    → (o : Option ℕ) → terminator b rest ≡ o
    → Lies rest o
    → Ensures
        (Begins (b ∷ rest) start offset k)
        (elim o [ none ↦ walk rest (offset + 1) | some n ↦ pure (offset + n) ])
walk_on b rest start offset k h ih none t lies =
    Ensures-weaken _ ih λ end (content_end, lines, low, grows, high). (
      content_end,
      spans-none b rest start offset k t
          ∙ lines
          ∙ ap (λ l. span k start content_end end ∷ spans l 0 end end (k + 1))
              (sym (drop_one b rest (end - offset) (end - (offset + 1)) (omega arith))),
      omega arith,
      grows,
      omega arith,
    )
walk_on b rest start offset k h ih (some n) t lies =
    let end = offset + n in
    Ensures-pure end (
      offset,
      spans-some b rest start offset k n t
          ∙ ap (λ l. span k start offset end ∷ l)
              (spans_skip (n - 1) rest end (k + 1)
                ∙ ap (λ l. spans l 0 end end (k + 1))
                    (sym (drop_one b rest (end - offset) (n - 1) (omega arith)))),
      omega arith,
      omega arith,
      omega arith,
    )

pub walk-Ensures :
    (bytes : Bytes) (start offset k : ℕ)
    → start ≤ offset
    → (start < offset) ⊎ (bytes ≢ [])
    → Ensures (Begins bytes start offset k) (walk bytes offset)
unfolding walk
walk-Ensures [] start offset k h open_ =
    let begun : start < offset = ground arith in
    Ensures-pure offset
      (offset, spans_nil start offset k begun (offset - offset), omega arith, begun, omega arith)
walk-Ensures (b ∷ rest) start offset k h open_ = Ensures-then _ _ λ _.
    walk_on b rest start offset k h
      (walk-Ensures rest start (offset + 1) k (omega arith) (inl (omega arith))) (terminator b rest)
      refl (terminator-Lies b rest)
