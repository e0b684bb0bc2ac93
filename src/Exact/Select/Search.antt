-- ===== src/Exact/Select/Search.antt =====
-- The binary search in the keys finds each of them.
use eliot_search.Prelude.{
  ℕ, zero, suc, ◌+◌, ◌/◌, ◌≤◌, ◌<◌, ◌≡◌, ◌⊎◌, refl, sym, ap, subst, ◌∙◌, Bool, true, false, Option,
  none, some, List, [], ◌∷◌, Bytes, length, get_elem?, bytes_eq, bytes_eq_refl, bytes_eq→eq, leb,
  arith, All-get_elem?, Bool-cases, inl, inr,
}
use eliot_search.Protocol.Message.Text.{bytes_lt}
use eliot_search.Protocol.Message.Order.{Pairwise}
use eliot_search.Protocol.Message.Lookup.{Occurs}
use eliot_search.Exact.Fall.{get_elem?-inside, inside-get_elem?}
use eliot_search.Exact.Select.{probe, search_between, is_published}

-- Each key is smaller than those behind it.
abbrev pub IsOrdered : List Bytes → Type 0
IsOrdered keys =
    (i j : ℕ) (a b : Bytes)
    → i < j
    → get_elem? keys i ≡ some a
    → get_elem? keys j ≡ some b
    → bytes_lt a b ≡ true

-- Each key is smaller than those behind it, as a list.
abbrev pub IsSorted : List Bytes → Type 0
IsSorted = Pairwise (λ a b. bytes_lt a b ≡ true)

pub IsSorted-IsOrdered : (keys : List Bytes) → IsSorted keys → IsOrdered keys
IsSorted-IsOrdered [] h i j a b lt ei ej = absurd (cc)
IsSorted-IsOrdered (key ∷ keys) h zero zero a b lt ei ej = absurd (omega arith)
IsSorted-IsOrdered (key ∷ keys) h (suc i) zero a b lt ei ej = absurd (omega arith)
IsSorted-IsOrdered (key ∷ keys) h zero (suc j) a b lt ei ej =
    let same : key ≡ a = cc in
    subst (λ k. bytes_lt k b ≡ true) same
      (All-get_elem? (λ k. bytes_lt key k ≡ true) keys j b h.0 ej)
IsSorted-IsOrdered (key ∷ keys) h (suc i) (suc j) a b lt ei ej =
    IsSorted-IsOrdered keys h.1 i j a b (omega arith) ei ej

bytes_lt_asymm : (a b : Bytes) → bytes_lt a b ≡ true → bytes_lt b a ≡ false
bytes_lt_asymm [] [] h = refl
bytes_lt_asymm [] (y ∷ ys) h = refl
bytes_lt_asymm (x ∷ xs) [] h = absurd (cc)
bytes_lt_asymm (x ∷ xs) (y ∷ ys) h = ground (arith, bytes_lt_asymm xs ys)

probe-cases :
    (key : Option Bytes) (id : Bytes) (left right : Bool)
    → probe key id left right ≡ true
    → (key ≡ some id) ⊎ (left ≡ true) ⊎ (right ≡ true)
unfolding probe
probe-cases none id left right h = absurd (cc)
probe-cases (some key) id left right h = elim (Bool-cases (bytes_eq key id)) [
  | inl same ↦ inl (ap some (bytes_eq→eq key id same))
  | inr other ↦ elim (Bool-cases (bytes_lt key id)) [
    | inl less ↦ inr (inr (ground arith))
    | inr more ↦ inr (inl (ground arith))
  ]
]

le_or_lt : (m n : ℕ) → (m ≤ n) ⊎ (n < m)
le_or_lt m n = elim (Bool-cases (leb m n)) [
  | inl le ↦ inl (ground arith)
  | inr more ↦ inr (ground arith)
]

le_antisym : {m n : ℕ} → m ≤ n → n ≤ m → m ≡ n
le_antisym h k = omega arith

some_eq : {a b : Bytes} → some a ≡ some b → a ≡ b
some_eq e = cc

search_between-Occurs :
    (keys : List Bytes) (id : Bytes) (fuel low high : ℕ)
    → search_between keys id fuel low high ≡ true
    → Occurs keys id
unfolding search_between
search_between-Occurs keys id zero low high h = absurd (cc)
search_between-Occurs keys id (suc fuel) low high h =
    elim (probe-cases (get_elem? keys ((low + high) / 2)) id
      (search_between keys id fuel low ((low + high) / 2))
      (search_between keys id fuel ((low + high) / 2 + 1) high) (ground arith)) [
        | inl here ↦ ((low + high) / 2, here)
        | inr (inl left) ↦ search_between-Occurs keys id fuel low ((low + high) / 2) left
        | inr (inr right) ↦ search_between-Occurs keys id fuel ((low + high) / 2 + 1) high right
      ]

probe-same : (id : Bytes) (left right : Bool) → probe (some id) id left right ≡ true
unfolding probe
probe-same id left right = rw (bytes_eq_refl id) refl

probe-left :
    (key id : Bytes) (left right : Bool)
    → bytes_lt id key ≡ true
    → left ≡ true
    → probe (some key) id left right ≡ true
unfolding probe
probe-left key id left right less h = let other = bytes_lt_asymm id key less in ground arith

probe-right :
    (key id : Bytes) (left right : Bool)
    → bytes_lt key id ≡ true
    → right ≡ true
    → probe (some key) id left right ≡ true
unfolding probe
probe-right key id left right less h = ground arith

-- A key that stands between the bounds is found, in as many rounds as there are keys between them.
search_between-true :
    (keys : List Bytes) (id : Bytes) (fuel low high i : ℕ)
    → IsOrdered keys
    → get_elem? keys i ≡ some id
    → low ≤ i
    → i < high
    → high ≤ length keys
    → high ≤ low + fuel
    → search_between keys id fuel low high ≡ true
unfolding search_between
search_between-true keys id zero low high i ordered e le lt inside enough = absurd (omega arith)
search_between-true keys id (suc fuel) low high i ordered e le lt inside enough =
    let middle : ℕ = (low + high) / 2 in
    let (key, at) = get_elem?-inside keys middle (omega arith) in
    let open_range : leb high low ≡ false = ground arith in
    let goes_on : probe (some key) id (search_between keys id fuel low middle)
          (search_between keys id fuel (middle + 1) high)
        ≡ true =
      elim (le_or_lt middle i) [
        | inl up ↦ elim (le_or_lt i middle) [
          | inl down ↦
              let same : key ≡ id =
                some_eq (sym at ∙ (ap (get_elem? keys) (le_antisym up down) ∙ e)) in
              subst
                (λ k.
                  probe (some k) id (search_between keys id fuel low middle)
                    (search_between keys id fuel (middle + 1) high)
                  ≡ true)
                (sym same) (probe-same id _ _)
          | inr after ↦ probe-right key id _ _ (ordered middle i key id after at e) (
              search_between-true keys id fuel (middle + 1) high i ordered e (omega arith) lt inside
                (omega arith))
        ]
        | inr before ↦ probe-left key id _ _ (ordered i middle id key before e at) (
            search_between-true keys id fuel low middle i ordered e le before (omega arith)
              (omega arith))
      ] in
    rw (open_range, at) goes_on

pub is_published-true :
    (keys : List Bytes) (id : Bytes) → IsOrdered keys → Occurs keys id → is_published keys id ≡ true
unfolding is_published
is_published-true keys id ordered (i, e) =
    search_between-true keys id (length keys) 0 (length keys) i ordered e (omega arith)
      (inside-get_elem? keys i e) (omega arith) (omega arith)
