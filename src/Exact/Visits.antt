-- ===== src/Exact/Visits.antt =====
-- A scan hands over exactly the ranges in which the literal stands, in ascending order.
use eliot_search.Prelude.{
  ℕ, suc, ◌+◌, ◌-◌, ◌<◌, ◌≡◌, inl, inr, refl, sym, ap, subst, ◌∙◌, Bool, true, false, Option, some,
  List, [], ◌∷◌, arith, Bytes, length, get_elem?, drop, ◌==◌, ◌%◌, Bool-cases, if◌then◌else◌,
}
use eliot_search.Exec.{ok, err, Result, Env, calm, Exec, pure, ok_or, check_with, ◌>>=◌}
use eliot_search.Exec.Ensures.{bind-at, bind-err, Result-cases}
use eliot_search.Exact.{
  QueryFailure, panic, check, poll, advance, Literal, report, scan_from, scan, new,
}
use eliot_search.Exact.Calm.{KeepsCalm}
use eliot_search.Exact.Border.{Ends-zero}
use eliot_search.Exact.Fall.{IsTable}
use eliot_search.Exact.Scan.{IsMatched, advance-IsLongest, partial-IsMatched, whole-IsMatched}
use eliot_search.Exact.Table.{drop-get_elem?, new-IsTable}
use eliot_search.Exact.Occurrences.{occurrences}

-- The ranges are handed over one after the other.
unfoldable pub visit :
    {S : Type 0} → (S → ℕ → ℕ → Exec QueryFailure S) → S → List (ℕ × ℕ) → Exec QueryFailure S
visit found s [] = pure s
visit found s ((start, end) ∷ ranges) = found s start end >>= λ s'. visit found s' ranges

poll-calm : (at : ℕ) → poll at calm ≡ ok (tt, calm)
unfolding poll check check_with pure
poll-calm at = elim (Bool-cases (at % 8192 == 0)) [ inl e ↦ rw e refl | inr e ↦ rw e refl ]

check-calm : check calm ≡ ok (tt, calm)
unfolding check check_with
check-calm = refl

ok_or-some :
    {A : Type 0} (o : Option A) (e : QueryFailure) {a : A}
    → o ≡ some a
    → ok_or o e calm ≡ ok (a, calm)
unfolding ok_or pure
ok_or-some o e h = ap (λ p. ok_or p e calm) h

module _ {S : Type 0} (literal : Literal) (found : S → ℕ → ℕ → Exec QueryFailure S) where
  report-none :
      (end r : ℕ) (s : S)
      → (r == length literal.bytes) ≡ false
      → report literal found end r s calm ≡ ok ((s, r), calm)
  unfolding report pure
  report-none end r s e = rw e refl

  report-found :
      (end r q : ℕ) (s s' : S)
      → (r == length literal.bytes) ≡ true
      → get_elem? literal.prefix (r - 1) ≡ some q
      → found s (end - length literal.bytes) end calm ≡ ok (s', calm)
      → report literal found end r s calm ≡ ok ((s', q), calm)
  unfolding report pure ok_or
  report-found end r q s s' e p h =
      rw (e, report)
        (bind-at (found s (end - length literal.bytes) end) _ h
          ∙ bind-at (ok_or (get_elem? literal.prefix (r - 1)) panic) _
              (ap (λ o. ok_or o panic calm) p))

  report-failed :
      (end r : ℕ) (s : S) (e' : QueryFailure)
      → (r == length literal.bytes) ≡ true
      → found s (end - length literal.bytes) end calm ≡ err e'
      → report literal found end r s calm ≡ err e'
  unfolding report
  report-failed end r s e' e h =
      rw (e, report) (bind-err (found s (end - length literal.bytes) end) _ h)

  module _ (quiet : (s : S) (a b : ℕ) → KeepsCalm (found s a b)) (input : Bytes)
      (table : IsTable literal.bytes literal.prefix (length literal.bytes))
      (some_bytes : 0 < length literal.bytes) where
    scan_from-visit :
        (rest : Bytes) (at m : ℕ) (s : S)
        → drop at input ≡ rest
        → IsMatched literal input at m
        → scan_from literal found rest at m s calm
          ≡ visit found s (occurrences literal.bytes input at (length rest)) calm
    unfolding scan_from visit
    scan_from-visit [] at m s left matched = bind-at check (λ _. pure s) check-calm
    scan_from-visit (byte ∷ rest) at m s left matched =
        let (here, left') = drop-get_elem? input rest at byte left in
        let (r, next, le, longest) = advance-IsLongest literal input table at byte m here matched in
        let moved : suc at ≡ at + 1 = omega arith in
        let left'' = subst (λ n. drop n input ≡ rest) moved left' in
        let start : ℕ = at + 1 - length literal.bytes in
        let later : List (ℕ × ℕ) = occurrences literal.bytes input (at + 1) (length rest) in
        let expected : Bool → Result QueryFailure (S × Env) =
          λ t. visit found s (if t then (start, at + 1) ∷ later else later) calm in
        bind-at (poll at) _ (poll-calm at)
        ∙ (bind-at (ok_or (advance literal.bytes literal.prefix byte m) panic) _
              (ok_or-some _ panic next)
            ∙ elim (Bool-cases (r == length literal.bytes)) [
              | inr e ↦
                  let (absent, matched') =
                    partial-IsMatched literal input table (at + 1) r e le longest in
                  bind-at (report literal found (at + 1) r s) _ (report-none (at + 1) r s e)
                  ∙ (scan_from-visit rest (at + 1) r s left'' matched' ∙ ap expected (sym absent))
              | inl e ↦
                  let (stands, (q, found_q, matched')) =
                    whole-IsMatched literal input table (at + 1) r some_bytes e longest in
                  elim (Result-cases (found s start (at + 1) calm)) [
                    | inl ((s', env'), h) ↦
                        let quietly =
                          h ∙ ap (λ e. ok (s', e)) ((quiet s start (at + 1)).at s' env' h) in
                        bind-at (report literal found (at + 1) r s) _
                          (report-found (at + 1) r q s s' e found_q quietly)
                        ∙ (scan_from-visit rest (at + 1) q s' left'' matched'
                            ∙ sym (ap expected stands ∙ bind-at (found s start (at + 1)) _ quietly))
                    | inr (e', h) ↦
                        bind-err (report literal found (at + 1) r s) _
                          (report-failed (at + 1) r s e' e h)
                        ∙ sym (ap expected stands ∙ bind-err (found s start (at + 1)) _ h)
                  ]
            ])

    started-IsMatched : IsMatched literal input 0 0
    started-IsMatched = record {
      proper = some_bytes;
      longest = record {
        ends = Ends-zero input 0 literal.bytes;
        most = λ k le h. let inside = h.inside in omega arith;
      };
    }

    pub scan-visit :
        (s : S)
        → scan literal found input s calm
          ≡ visit found s (occurrences literal.bytes input 0 (length input)) calm
    unfolding scan
    scan-visit s = scan_from-visit input 0 0 s refl started-IsMatched

-- Undisturbed, for a literal that is not empty and a `found` that leaves the environment so:
-- `Literal::new` compiles the literal, without a panic, and every scan with what it returns does what a
-- visit of all ranges does in which comparing place by place finds the literal, overlapping ones
-- included, in ascending order: it returns the same state, or it stops with the same error.
pub scan-new :
    {S : Type 0} (found : S → ℕ → ℕ → Exec QueryFailure S) (byte : ℕ) (rest : Bytes)
    → ((s : S) (a b : ℕ) → KeepsCalm (found s a b))
    → (literal : Literal) × (new (byte ∷ rest) calm ≡ ok (literal, calm))
      × ((input : Bytes) (s : S)
          → scan literal found input s calm
            ≡ visit found s (occurrences (byte ∷ rest) input 0 (length input)) calm)
scan-new found byte rest quiet =
    let (prefix, made, table) = new-IsTable byte rest in
    let literal : Literal = record { bytes = byte ∷ rest; prefix = prefix } in
    (literal, made, λ input s. scan-visit literal found quiet input table (omega arith) s)
