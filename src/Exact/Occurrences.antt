-- ===== src/Exact/Occurrences.antt =====
-- Where a literal stands in a text, found by comparing it at each place.
use eliot_search.Prelude.{
  ℕ, zero, suc, ◌+◌, ◌-◌, ◌≤◌, ◌<◌, ◌≡◌, refl, sym, ap, ◌∙◌, Bool, true, false, ◌&&◌, some, List,
  [], ◌∷◌, arith, Bytes, length, get_elem?, drop, leb, ◌==◌, if◌then◌else◌,
}
use eliot_search.Exact.Border.{Ends}

abbrev pub starts_with : Bytes → Bytes → Bool
starts_with xs [] = true
starts_with [] (y ∷ ys) = false
starts_with (x ∷ xs) (y ∷ ys) = x == y && starts_with xs ys

-- The literal stands before the place `end`.
abbrev pub stands_before : Bytes → Bytes → ℕ → Bool
stands_before literal text end =
    leb (length literal) end && starts_with (drop (end - length literal) text) literal

-- The ranges in which the literal stands, of those that end behind `at` and within the next bytes.
abbrev pub occurrences : Bytes → Bytes → ℕ → ℕ → List (ℕ × ℕ)
occurrences literal text at zero = []
occurrences literal text at (suc count) =
    if stands_before literal text (at + 1)
    then (at + 1 - length literal, at + 1) ∷ occurrences literal text (at + 1) count
    else occurrences literal text (at + 1) count

starts_with-get_elem? :
    (xs ys : Bytes) (i : ℕ)
    → starts_with xs ys ≡ true
    → i < length ys
    → get_elem? xs i ≡ get_elem? ys i
starts_with-get_elem? xs [] i h less = absurd (omega arith)
starts_with-get_elem? [] (y ∷ ys) i h less = absurd (cc)
starts_with-get_elem? (x ∷ xs) (y ∷ ys) zero h less =
    let same : x ≡ y = ground arith in ap some same
starts_with-get_elem? (x ∷ xs) (y ∷ ys) (suc i) h less =
    starts_with-get_elem? xs ys i (ground arith) (omega arith)

get_elem?-starts_with :
    (xs ys : Bytes)
    → ((i : ℕ) → i < length ys → get_elem? xs i ≡ get_elem? ys i)
    → starts_with xs ys ≡ true
get_elem?-starts_with xs [] h = refl
get_elem?-starts_with [] (y ∷ ys) h = absurd (let bad = h 0 (omega arith) in cc)
get_elem?-starts_with (x ∷ xs) (y ∷ ys) h =
    let first = h 0 (omega arith) in
    let same : x ≡ y = cc in
    let rest = get_elem?-starts_with xs ys (λ i less. h (suc i) (omega arith)) in ground arith

get_elem?-drop {ℓ} :
    {A : Type ℓ} (xs : List A) (n i j : ℕ) → j ≡ n + i → get_elem? (drop n xs) i ≡ get_elem? xs j
get_elem?-drop xs zero i j e = let same : i ≡ j = omega arith in ap (get_elem? xs) same
get_elem?-drop [] (suc n) i j e = refl
get_elem?-drop (x ∷ xs) (suc n) i zero e = absurd (omega arith)
get_elem?-drop (x ∷ xs) (suc n) i (suc j) e = get_elem?-drop xs n i j (omega arith)

module _ (literal text : Bytes) (end : ℕ) where
  pub stands_before-Ends :
      stands_before literal text end ≡ true → Ends text end literal (length literal)
  stands_before-Ends h =
      let inside : length literal ≤ end = ground arith in
      let starts : starts_with (drop (end - length literal) text) literal ≡ true = ground arith in
      record {
        inside = inside;
        same = λ i j less e.
            sym (get_elem?-drop text (end - length literal) i j (omega arith))
            ∙ starts_with-get_elem? (drop (end - length literal) text) literal i starts less;
      }

  pub Ends-stands_before :
      Ends text end literal (length literal) → stands_before literal text end ≡ true
  Ends-stands_before h =
      let inside = h.inside in
      let starts : starts_with (drop (end - length literal) text) literal ≡ true =
        get_elem?-starts_with (drop (end - length literal) text) literal (λ i less.
          get_elem?-drop text (end - length literal) i (end - length literal + i) refl
          ∙ h.same i (end - length literal + i) less (omega arith)) in
      ground arith
