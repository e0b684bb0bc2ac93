-- ===== src/Contracts/Kept.antt =====
-- The two loops of `UuidBytes::parse` on a text that it accepts: `compact_from` and `from_pairs`.
use mathlib.Core.Option.{some-injective}
use eliot_search.Prelude.{
  ℕ, zero, suc, ◌+◌, ◌*◌, ◌/◌, ◌%◌, ◌≤◌, ◌<◌, ◌≡◌, refl, sym, ap, ◌∙◌, Bool, true, false, Option,
  none, some, [], ◌∷◌, ◌++◌, arith, Bytes, length, take, drop, get_elem?, append-nil, if◌then◌else◌,
}
use eliot_search.Exec.{Result, ok, err}
use eliot_search.Contracts.{
  ContractErrorKind, digit, hex_encode, lower_hex, is_dash_position, is_hex, prepend, join,
  compact_from, from_pairs,
}

abbrev pub Parsed : Type 0
Parsed = Result ContractErrorKind Bytes

pub take-front : (n : ℕ) (xs ys : Bytes) → length xs ≡ n → take n (xs ++ ys) ≡ xs
take-front zero [] ys h = refl
take-front zero (x ∷ xs) ys h = absurd (omega arith)
take-front (suc n) [] ys h = absurd (omega arith)
take-front (suc n) (x ∷ xs) ys h = ap (λ l. x ∷ l) (take-front n xs ys (omega arith))

pub drop-front : (n : ℕ) (xs ys : Bytes) → length xs ≡ n → drop n (xs ++ ys) ≡ ys
drop-front zero [] ys h = refl
drop-front zero (x ∷ xs) ys h = absurd (omega arith)
drop-front (suc n) [] ys h = absurd (omega arith)
drop-front (suc n) (x ∷ xs) ys h = drop-front n xs ys (omega arith)

pub get_elem?-drop : (xs : Bytes) (n k m : ℕ) → m ≡ n + k → get_elem? (drop n xs) k ≡ get_elem? xs m
get_elem?-drop xs zero k m e = let same : k ≡ m = omega arith in ap (get_elem? xs) same
get_elem?-drop [] (suc n) k m e = refl
get_elem?-drop (x ∷ xs) (suc n) k zero e = absurd (omega arith)
get_elem?-drop (x ∷ xs) (suc n) k (suc m) e = get_elem?-drop xs n k m (omega arith)

digit-lower_hex : (x m : ℕ) → lower_hex x ≡ some m → (digit m ≡ x) × (m < 16)
unfolding lower_hex digit
digit-lower_hex x m h = ground arith

if-ok :
    (b : Bool) (r : Parsed) (e : ContractErrorKind) (c : Bytes)
    → (if b then r else err e) ≡ ok c
    → r ≡ ok c
if-ok true r e c h = h
if-ok false r e c h = absurd (cc)

prepend-ok :
    (xs : Bytes) (r : Parsed) (c : Bytes)
    → prepend xs r ≡ ok c
    → (ys : Bytes) × (r ≡ ok ys) × (c ≡ xs ++ ys)
prepend-ok xs (ok ys) c h = (ys, refl, cc)
prepend-ok xs (err e) c h = absurd (cc)

join-ok :
    (high low : Option ℕ) (r : Parsed) (c : Bytes)
    → join high low r ≡ ok c
    → (m n : ℕ) × (ys : Bytes) × (high ≡ some m)
      × (low ≡ some n)
      × (r ≡ ok ys)
      × (c ≡ (m * 16 + n) ∷ ys)
join-ok (some m) (some n) r c h =
    let (ys, found, whole) = prepend-ok ((m * 16 + n) ∷ []) r c h in
    (m, n, ys, refl, refl, found, whole)
join-ok (some m) none r c h = absurd (cc)
join-ok none low r c h = absurd (cc)

-- The pairs that are parsed are the digits of the identifier.
pub hex_encode-from_pairs :
    (k : ℕ) (c id : Bytes)
    → length c ≡ k + k
    → from_pairs c ≡ ok id
    → (hex_encode id ≡ c) × (length id ≡ k)
unfolding from_pairs hex_encode
hex_encode-from_pairs zero [] [] e h = (refl, refl)
hex_encode-from_pairs zero [] (x ∷ id) e h = absurd (cc)
hex_encode-from_pairs zero (a ∷ c) id e h = absurd (omega arith)
hex_encode-from_pairs (suc k) [] id e h = absurd (omega arith)
hex_encode-from_pairs (suc k) (a ∷ []) id e h = absurd (omega arith)
hex_encode-from_pairs (suc k) (a ∷ b ∷ c) id e h =
    let (m, n, ys, high, low, found, whole) =
      join-ok (lower_hex a) (lower_hex b) (from_pairs c) id h in
    let (spelled, sized) = hex_encode-from_pairs k c ys (omega arith) found in
    let (at_high, high_bits) = digit-lower_hex a m high in
    let (at_low, low_bits) = digit-lower_hex b n low in
    let quotient : (m * 16 + n) / 16 ≡ m = omega arith in
    let remainder : (m * 16 + n) % 16 ≡ n = omega arith in
    rw whole (rw (quotient, remainder, at_high, at_low, spelled, sized) (refl, refl))

pub split_at :
    (xs : Bytes) (n b : ℕ) → get_elem? xs n ≡ some b → xs ≡ take n xs ++ b ∷ drop (suc n) xs
split_at [] n b h = absurd (cc)
split_at (x ∷ xs) zero b h = let same : x ≡ b = some-injective _ _ h in ap (λ y. y ∷ xs) same
split_at (x ∷ xs) (suc n) b h = ap (λ l. x ∷ l) (split_at xs n b h)

pub length-before : (xs : Bytes) (n b : ℕ) → get_elem? xs n ≡ some b → length (take n xs) ≡ n
length-before [] n b h = absurd (cc)
length-before (x ∷ xs) zero b h = refl
length-before (x ∷ xs) (suc n) b h = let rest = length-before xs n b h in omega (arith, rest)

-- A run of bytes at places without a dash is kept.
compact_from-kept :
    (position : ℕ) (xs rest c : Bytes)
    → ((i : ℕ) → position ≤ i → i < position + length xs → is_dash_position i ≡ false)
    → compact_from position (xs ++ rest) ≡ ok c
    → (ys : Bytes) × (compact_from (position + length xs) rest ≡ ok ys) × (c ≡ xs ++ ys)
unfolding compact_from
compact_from-kept position [] rest c clear h =
    let same : position + 0 ≡ position = omega arith in
    (c, ap (λ n. compact_from n rest) same ∙ h, refl)
compact_from-kept position (x ∷ xs) rest c clear h =
    let others : Parsed = compact_from (position + 1) (xs ++ rest) in
    let tested : compact_from position (x ∷ (xs ++ rest))
        ≡ (if is_hex x then prepend (x ∷ []) others else err ContractErrorKind.invalid_character) =
      rw (clear position (omega arith) (omega arith)) refl in
    let (zs, found, whole) =
      prepend-ok (x ∷ []) others c (if-ok (is_hex x) _ _ c (sym tested ∙ h)) in
    let (ys, behind, rest_of) =
      compact_from-kept (position + 1) xs rest zs (λ i a b. clear i (omega arith) (omega arith))
        found in
    let same : position + suc (length xs) ≡ (position + 1) + length xs = omega arith in
    (ys, ap (λ n. compact_from n rest) same ∙ behind, whole ∙ ap (λ l. x ∷ l) rest_of)

-- A group of digits that ends at a dash.
pub compact_from-behind :
    (from to : ℕ) (xs rest c : Bytes)
    → from + length xs ≡ to
    → ((i : ℕ) → from ≤ i → i < to → is_dash_position i ≡ false)
    → is_dash_position to ≡ true
    → compact_from from (xs ++ 45 ∷ rest) ≡ ok c
    → (ys : Bytes) × (compact_from (to + 1) rest ≡ ok ys) × (c ≡ xs ++ ys)
unfolding compact_from
compact_from-behind from to xs rest c there clear dash h =
    let (ys, found, whole) =
      compact_from-kept from xs (45 ∷ rest) c (λ i a b. clear i a (omega arith)) h in
    let skipped : compact_from to (45 ∷ rest) ≡ compact_from (to + 1) rest = rw dash refl in
    (ys, sym skipped ∙ (ap (λ k. compact_from k (45 ∷ rest)) (sym there) ∙ found), whole)

pub last_group-kept : (text c : Bytes) → length text ≡ 12 → compact_from 24 text ≡ ok c → c ≡ text
unfolding compact_from
last_group-kept text c size h =
    let (ys, found, whole) =
      compact_from-kept 24 text [] c (λ i a b. ground arith)
        (ap (compact_from 24) (append-nil text) ∙ h) in
    let nothing : [] ≡ ys = cc in whole ∙ (ap (λ l. text ++ l) (sym nothing) ∙ append-nil text)
