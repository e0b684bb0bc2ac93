-- ===== src/Protocol/Prefix.antt =====
-- frame.rs, the search of `prepare_complete` for the longest prefix of the items that fits a frame.
use eliot_search.Prelude.{
  ℕ, zero, suc, ◌+◌, ◌-◌, ◌/◌, ◌≤◌, ◌<◌, ◌≡◌, inl, inr, refl, Bool, true, false, arith, ltb,
  Bool-cases,
}
use eliot_search.Exec.{Result, ok, err}
use eliot_search.Protocol.{ProtocolError}

-- `low + (high - low).div_ceil(2)`
abbrev pub middle : ℕ → ℕ → ℕ
middle low high = low + (high - low + 1) / 2

-- `while low < high`: each round moves one of the bounds.
unfoldable pub search_prefix : (ℕ → Result ProtocolError Bool) → ℕ → ℕ → ℕ → Result ProtocolError ℕ
search_prefix fits zero low high = ok low
search_prefix fits (suc rounds) low high = elim (ltb low high) [
  | false ↦ ok low
  | true ↦ elim (fits (middle low high)) [
    | err e ↦ err e
    | ok true ↦ search_prefix fits rounds (middle low high) high
    | ok false ↦ search_prefix fits rounds low (middle low high - 1)
  ]
]

-- The longest of the prefixes up to `high` that passes the test.
abbrev pub IsLongest : (ℕ → Bool) → ℕ → ℕ → Type 0
IsLongest test high n = (n ≤ high) × (test n ≡ true) × ((m : ℕ) → n < m → m ≤ high → test m ≡ false)

-- Serialized prefixes only grow with their items.
abbrev pub IsDownward : (ℕ → Bool) → ℕ → Type 0
IsDownward test high = (m n : ℕ) → m ≤ n → n ≤ high → test n ≡ true → test m ≡ true

module _ (fits : ℕ → Result ProtocolError Bool) (test : ℕ → Bool) (top : ℕ)
    (tested : (n : ℕ) → n ≤ top → fits n ≡ ok (test n)) (down : IsDownward test top) where
  search_prefix-between :
      (rounds low high : ℕ)
      → low ≤ high
      → high ≤ top
      → high - low ≤ rounds
      → test low ≡ true
      → ((m : ℕ) → high < m → m ≤ top → test m ≡ false)
      → (n : ℕ) × (search_prefix fits rounds low high ≡ ok n) × IsLongest test top n
  unfolding search_prefix
  search_prefix-between zero low high h1 h2 h3 fine above =
      (low, refl, (omega arith, fine, λ m over under. above m (omega arith) under))
  search_prefix-between (suc rounds) low high h1 h2 h3 fine above =
      elim (Bool-cases (ltb low high)) [
        | inr done ↦
            let same : high ≤ low = ground arith in
            rw (done, search_prefix)
              (low, refl, (omega arith, fine, λ m over under. above m (omega arith) under))
        | inl more ↦
            let less : low < high = ground arith in
            let inside : middle low high ≤ top = omega arith in
            elim (Bool-cases (test (middle low high))) [
              | inl fit ↦
                  rw (more, tested (middle low high) inside, fit, search_prefix)
                    (search_prefix-between rounds (middle low high) high (omega arith) h2
                      (omega arith) fit above)
              | inr unfit ↦
                  rw (more, tested (middle low high) inside, unfit, search_prefix)
                    (search_prefix-between rounds low (middle low high - 1) (omega arith)
                      (omega arith) (omega arith) fine
                      (λ m over under. elim (Bool-cases (test m)) [
                        | inr out ↦ out
                        | inl longer ↦
                            absurd
                              (let bad = down (middle low high) m (omega arith) under longer in cc)
                      ]))
            ]
      ]

-- Where every prefix can be measured, the empty one fits and a prefix fits with any longer one: the
-- search ends within as many rounds as there are items, with the longest prefix that fits.
pub search_prefix-IsLongest :
    (fits : ℕ → Result ProtocolError Bool) (test : ℕ → Bool) (count : ℕ)
    → ((n : ℕ) → n ≤ count → fits n ≡ ok (test n))
    → IsDownward test count
    → test 0 ≡ true
    → (n : ℕ) × (search_prefix fits count 0 count ≡ ok n) × IsLongest test count n
search_prefix-IsLongest fits test count tested down fine =
    search_prefix-between fits test count tested down count 0 count (omega arith) (omega arith)
      (omega arith) fine (λ m over under. absurd (omega arith))
