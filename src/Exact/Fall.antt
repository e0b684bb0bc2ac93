-- ===== src/Exact/Fall.antt =====
-- Falling back along the prefix table finds the longest prefix that goes on with a byte.
use eliot_search.Prelude.{
  ℕ, zero, suc, ◌+◌, ◌-◌, ◌≤◌, ◌<◌, ◌≡◌, inl, inr, refl, sym, ap, subst, ◌≢◌, ◌∙◌, true, false,
  some, List, [], ◌∷◌, arith, Bytes, length, get_elem?, ◌==◌, Bool-cases,
}
use eliot_search.Exact.{fall_back}
use eliot_search.Exact.Border.{Ends, Ends-zero, Ends-shorter, Ends-inner, Ends-before, Ends-after}

pub get_elem?-inside {ℓ} :
    {A : Type ℓ} (xs : List A) (i : ℕ) → i < length xs → (x : A) × (get_elem? xs i ≡ some x)
get_elem?-inside [] i h = absurd (omega arith)
get_elem?-inside (x ∷ xs) zero h = (x, refl)
get_elem?-inside (x ∷ xs) (suc i) h = get_elem?-inside xs i (omega arith)

pub inside-get_elem? {ℓ} :
    {A : Type ℓ} (xs : List A) (i : ℕ) {x : A} → get_elem? xs i ≡ some x → i < length xs
inside-get_elem? [] i h = absurd (cc)
inside-get_elem? (x ∷ xs) zero h = omega arith
inside-get_elem? (x ∷ xs) (suc i) h = omega (arith, inside-get_elem? xs i h)

-- The longest prefix of the literal that ends with its first i + 1 bytes and is shorter than these.
pub record IsBorder (literal : Bytes) (i q : ℕ) : Type 0 where
  pub proper : q ≤ i
  pub ends : Ends literal (suc i) literal q
  pub most : (k : ℕ) → k ≤ i → Ends literal (suc i) literal k → k ≤ q

-- A table with the borders of the first prefixes.
abbrev pub IsTable : Bytes → List ℕ → ℕ → Type 0
IsTable literal prefix count =
    (i : ℕ) → i < count → (q : ℕ) × (get_elem? prefix i ≡ some q) × IsBorder literal i q

-- The longest prefix, of those up to a bound, that ends behind position n.
pub record IsLongest (text : Bytes) (n : ℕ) (literal : Bytes) (bound r : ℕ) : Type 0 where
  pub ends : Ends text n literal r
  pub most : (k : ℕ) → k ≤ bound → Ends text n literal k → k ≤ r

module _ (literal : Bytes) (prefix : List ℕ) (byte : ℕ) where
  fall_back-hit :
      (fuel m c : ℕ)
      → get_elem? literal m ≡ some c
      → (byte == c) ≡ true
      → fall_back literal prefix byte (suc fuel) m ≡ some (m + 1)
  unfolding fall_back
  fall_back-hit fuel m c g e = rw (g, e, fall_back) refl

  fall_back-zero :
      (fuel c : ℕ)
      → get_elem? literal 0 ≡ some c
      → (byte == c) ≡ false
      → fall_back literal prefix byte (suc fuel) 0 ≡ some 0
  unfolding fall_back
  fall_back-zero fuel c g e = rw (g, e, fall_back) refl

  fall_back-next :
      (fuel m c q : ℕ)
      → get_elem? literal (suc m) ≡ some c
      → (byte == c) ≡ false
      → get_elem? prefix m ≡ some q
      → fall_back literal prefix byte (suc fuel) (suc m) ≡ fall_back literal prefix byte fuel q
  unfolding fall_back
  fall_back-next fuel m c q g e p =
      let positive : (suc m == 0) ≡ false = ground arith in
      let before : suc m - 1 ≡ m = omega arith in rw (g, e, positive, before, p, fall_back) refl

module _ (literal : Bytes) (prefix : List ℕ) (count : ℕ) (table : IsTable literal prefix count)
    (text : Bytes) (n byte : ℕ) (here : get_elem? text n ≡ some byte) (bound : ℕ) where
  -- A prefix goes on only with its own next byte.
  mismatch :
      (m c : ℕ)
      → get_elem? literal m ≡ some c
      → (byte == c) ≡ false
      → Ends text (n + 1) literal (suc m)
      → ⊥
  mismatch m c found e ends =
      let last = (Ends-before text n literal m ends).1 in
      let same : some byte ≡ some c = sym here ∙ (last ∙ found) in
      let eq : byte ≡ c = cc in ground arith

  all-IsLongest :
      (r : ℕ)
      → Ends text (n + 1) literal r
      → ((k : ℕ) → suc k ≤ bound → Ends text (n + 1) literal (suc k) → suc k ≤ r)
      → IsLongest text (n + 1) literal bound r
  all-IsLongest r ends most = record { ends = ends; most = all }
    where
      all : (k : ℕ) → k ≤ bound → Ends text (n + 1) literal k → k ≤ r
      all zero le h = omega arith
      all (suc k) le h = most k le h

  -- What falling from `m` has to find.
  abbrev Falls : ℕ → ℕ → Type 0
  Falls fuel m =
      (r : ℕ) × (fall_back literal prefix byte fuel m ≡ some r)
      × (r ≤ m + 1)
      × IsLongest text (n + 1) literal bound r

  fall_back-onward :
      (fuel m c : ℕ)
      → get_elem? literal m ≡ some c
      → (byte == c) ≡ true
      → Ends text n literal m
      → ((k : ℕ) → suc k ≤ bound → Ends text (n + 1) literal (suc k) → k ≤ m)
      → Falls (suc fuel) m
  fall_back-onward fuel m c found e ends most =
      let next : suc m ≡ m + 1 = omega arith in
      let eq : some byte ≡ some c = let same : byte ≡ c = ground arith in ap some same in
      (
        m + 1,
        fall_back-hit literal prefix byte fuel m c found e,
        omega arith,
        all-IsLongest (m + 1)
            (subst (Ends text (n + 1) literal) next
              (Ends-after text n literal m ends (here ∙ (eq ∙ sym found))))
            (λ k le h. let small = most k le h in omega arith),
      )

  -- Falling from a prefix that no longer one goes on finds the longest one that goes on.
  pub fall_back-IsLongest :
      (fuel m : ℕ)
      → m < fuel
      → m ≤ count
      → m < length literal
      → Ends text n literal m
      → ((k : ℕ) → suc k ≤ bound → Ends text (n + 1) literal (suc k) → k ≤ m)
      → Falls fuel m
  fall_back-IsLongest zero m low known room ends most = absurd (omega arith)
  fall_back-IsLongest (suc fuel) zero low known room ends most =
      let (c, found) = get_elem?-inside literal 0 room in
      elim (Bool-cases (byte == c)) [
        | inl e ↦ fall_back-onward fuel 0 c found e ends most
        | inr e ↦ (
          0,
          fall_back-zero literal prefix byte fuel c found e,
          omega arith,
          all-IsLongest 0 (Ends-zero text (n + 1) literal) (λ k le h.
              let small = most k le h in
              let none_left : k ≡ 0 = omega arith in
              absurd (
                mismatch 0 c found e (subst (λ i. Ends text (n + 1) literal (suc i)) none_left h))),
        )
      ]
  fall_back-IsLongest (suc fuel) (suc m) low known room ends most =
      let (c, found) = get_elem?-inside literal (suc m) room in
      elim (Bool-cases (byte == c)) [
        | inl e ↦ fall_back-onward fuel (suc m) c found e ends most
        | inr e ↦
            let (q, p, border) = table m (omega arith) in
            let proper = border.proper in
            let (r, falls, le, longest) =
              fall_back-IsLongest fuel q (omega arith) (omega arith) (omega arith)
                (Ends-inner text n literal (suc m) q ends border.ends)
                (λ k le h.
                  let small = most k le h in
                  let other : k ≢ suc m = λ e'.
                    mismatch (suc m) c found e
                      (subst (λ i. Ends text (n + 1) literal (suc i)) e' h) in
                  let less : k ≤ m = omega arith in
                  border.most k less (
                    Ends-shorter text n literal (suc m) k ends (Ends-before text n literal k h).0
                      (omega arith))) in
            (
              r,
              fall_back-next literal prefix byte fuel m c q found e p ∙ falls,
              omega arith,
              longest,
            )
      ]
