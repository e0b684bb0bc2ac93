-- ===== src/Exact/Scan.antt =====
-- What a scan has matched at a position, and how the next byte changes it.
use eliot_search.Prelude.{
  ℕ, suc, ◌+◌, ◌-◌, ◌≤◌, ◌<◌, ◌≡◌, ◌≢◌, inl, inr, sym, subst, true, false, some, arith, Bytes,
  length, get_elem?, ◌==◌, Bool-cases,
}
use eliot_search.Exact.{advance, Literal}
use eliot_search.Exact.Border.{Ends, Ends-before, Ends-inner, Ends-shorter}
use eliot_search.Exact.Fall.{IsTable, IsLongest, fall_back-IsLongest}
use eliot_search.Exact.Occurrences.{stands_before, stands_before-Ends, Ends-stands_before}

module _ (literal : Literal) where
  -- What the state of a scan is at a position: the longest proper prefix that ends there.
  pub record IsMatched (input : Bytes) (at m : ℕ) : Type 0 where
    pub proper : m < length literal.bytes
    pub longest : IsLongest input at literal.bytes (length literal.bytes - 1) m

  module _ (input : Bytes)
      (table : IsTable literal.bytes literal.prefix (length literal.bytes)) where
    -- The next byte leads to the longest prefix that ends behind it.
    pub advance-IsLongest :
        (at byte m : ℕ)
        → get_elem? input at ≡ some byte
        → IsMatched input at m
        → (r : ℕ) × (advance literal.bytes literal.prefix byte m ≡ some r)
          × (r ≤ length literal.bytes)
          × IsLongest input (at + 1) literal.bytes (length literal.bytes) r
    unfolding advance
    advance-IsLongest at byte m here matched =
        let proper = matched.proper in
        let (r, falls, le, longest) =
          fall_back-IsLongest literal.bytes literal.prefix (length literal.bytes) table input at
            byte here (length literal.bytes) (m + 1) m (omega arith) (omega arith) proper
            matched.longest.ends
            (λ k le h.
              matched.longest.most k (omega arith) (Ends-before input at literal.bytes k h).0) in
        (r, falls, omega arith, longest)

    -- Behind a prefix that is not the whole literal.
    pub partial-IsMatched :
        (at r : ℕ)
        → (r == length literal.bytes) ≡ false
        → r ≤ length literal.bytes
        → IsLongest input at literal.bytes (length literal.bytes) r
        → (stands_before literal.bytes input at ≡ false) × IsMatched input at r
    partial-IsMatched at r e le longest =
        let less : r < length literal.bytes = ground arith in
        let absent : stands_before literal.bytes input at ≢ true = λ h.
          let most =
            longest.most (length literal.bytes) (omega arith)
              (stands_before-Ends literal.bytes input at h) in
          omega arith in
        (
          elim (Bool-cases (stands_before literal.bytes input at)) [
            | inl yes_ ↦ absurd (absent yes_)
            | inr no_ ↦ no_
          ],
          record {
            proper = less;
            longest = record {
              ends = longest.ends;
              most = λ k small h. longest.most k (omega arith) h;
            };
          },
        )

    -- Behind the whole literal the scan goes on with its border.
    pub whole-IsMatched :
        (at r : ℕ)
        → 0 < length literal.bytes
        → (r == length literal.bytes) ≡ true
        → IsLongest input at literal.bytes (length literal.bytes) r
        → (stands_before literal.bytes input at ≡ true)
          × ((q : ℕ) × (get_elem? literal.prefix (r - 1) ≡ some q) × IsMatched input at q)
    whole-IsMatched at r some_bytes e longest =
        let same : r ≡ length literal.bytes = ground arith in
        let ends : Ends input at literal.bytes (length literal.bytes) =
          subst (Ends input at literal.bytes) same longest.ends in
        let (q, found_q, border) = table (r - 1) (omega arith) in
        let last : suc (r - 1) ≡ length literal.bytes = omega arith in
        let inner : Ends literal.bytes (length literal.bytes) literal.bytes q =
          subst (λ n. Ends literal.bytes n literal.bytes q) last border.ends in
        let proper = border.proper in
        (
          Ends-stands_before literal.bytes input at ends,
          (
            q,
            found_q,
            record {
              proper = omega arith;
              longest = record {
                ends = Ends-inner input at literal.bytes (length literal.bytes) q ends inner;
                most = λ k small h. border.most k (omega arith) (
                    subst (λ n. Ends literal.bytes n literal.bytes k) (sym last)
                      (Ends-shorter input at literal.bytes (length literal.bytes) k ends h
                        (omega arith)));
              };
            },
          ),
        )
