-- ===== src/Contracts/Uuid.antt =====
-- Identifiers are parsed from their own spelling.
use eliot_search.Prelude.{
  ℕ, zero, suc, ◌+◌, ◌-◌, ◌*◌, ◌/◌, ◌%◌, ◌≤◌, ◌<◌, ◌≡◌, refl, sym, ap, ◌∙◌, true, false, some, [],
  ◌∷◌, ◌++◌, append-nil, length-append, arith, Bytes, IsBytes, All, length, take, drop, get_elem?,
  length-take, length-drop, take-append-drop, drop-drop, take_all,
}
use eliot_search.Exec.{Result, ok, err}
use eliot_search.Contracts.{
  ContractErrorKind, digit, hex_encode, lower_hex, slice, display, is_dashed, is_dash_position,
  is_hex, prepend, compact_from, from_pairs, parse,
}

lower_hex-digit : (n : ℕ) → n < 16 → lower_hex (digit n) ≡ some n
unfolding lower_hex digit
lower_hex-digit n h = ground arith

is_hex-digit : (n : ℕ) → n < 16 → is_hex (digit n) ≡ true
unfolding digit
is_hex-digit n h = ground arith

abbrev AllHex : Bytes → Type 0
AllHex = All (λ b. is_hex b ≡ true)

hex_encode-AllHex : (bs : Bytes) → IsBytes bs → AllHex (hex_encode bs)
unfolding hex_encode
hex_encode-AllHex [] h = tt
hex_encode-AllHex (b ∷ bs) (hb, h) =
    let rest : AllHex (digit (b % 16) ∷ hex_encode bs) =
      (is_hex-digit (b % 16) (omega arith), hex_encode-AllHex bs h) in
    (is_hex-digit (b / 16) (omega arith), rest)

length-hex_encode : (bs : Bytes) → length (hex_encode bs) ≡ 2 * length bs
unfolding hex_encode
length-hex_encode [] = omega arith
length-hex_encode (b ∷ bs) = omega (arith, length-hex_encode bs)

from_pairs-hex_encode : (bs : Bytes) → IsBytes bs → from_pairs (hex_encode bs) ≡ ok bs
unfolding from_pairs hex_encode
from_pairs-hex_encode [] h = refl
from_pairs-hex_encode (b ∷ bs) (hb, h) =
    let whole : b / 16 * 16 + b % 16 ≡ b = omega arith in
    rw
      (
        lower_hex-digit (b / 16) (omega arith),
        lower_hex-digit (b % 16) (omega arith),
        from_pairs-hex_encode bs h,
      )
      (ap (λ x. ok (x ∷ bs)) whole)

prepend-nil : (r : Result ContractErrorKind Bytes) → prepend [] r ≡ r
prepend-nil (ok ys) = refl
prepend-nil (err e) = refl

prepend-prepend :
    (x : ℕ) (xs : Bytes) (r : Result ContractErrorKind Bytes)
    → prepend (x ∷ []) (prepend xs r) ≡ prepend (x ∷ xs) r
prepend-prepend x xs (ok ys) = refl
prepend-prepend x xs (err e) = refl

-- A run of digits between two dashes is kept.
compact_from-run :
    (position : ℕ) (xs rest : Bytes)
    → AllHex xs
    → ((i : ℕ) → position ≤ i → i < position + length xs → is_dash_position i ≡ false)
    → compact_from position (xs ++ rest) ≡ prepend xs (compact_from (position + length xs) rest)
unfolding compact_from
compact_from-run position [] rest h clear =
    let same : position ≡ position + 0 = omega arith in
    ap (λ n. compact_from n rest) same ∙ sym (prepend-nil (compact_from (position + 0) rest))
compact_from-run position (x ∷ xs) rest (hx, h) clear =
    let same : (position + 1) + length xs ≡ position + suc (length xs) = omega arith in
    rw (clear position (omega arith) (omega arith), hx)
      (ap (prepend (x ∷ [])) (
          compact_from-run (position + 1) xs rest h (λ i a b. clear i (omega arith) (omega arith))
          ∙ ap (λ n. prepend xs (compact_from n rest)) same)
        ∙ prepend-prepend x xs (compact_from (position + suc (length xs)) rest))

compact_from-group :
    (from to : ℕ) (xs rest : Bytes)
    → AllHex xs
    → from + length xs ≡ to
    → ((i : ℕ) → from ≤ i → i < to → is_dash_position i ≡ false)
    → is_dash_position to ≡ true
    → compact_from from (xs ++ 45 ∷ rest) ≡ prepend xs (compact_from (to + 1) rest)
unfolding compact_from
compact_from-group from to xs rest h size clear dash =
    compact_from-run from xs (45 ∷ rest) h (λ i a b. clear i a (omega arith))
    ∙ (ap (λ n. prepend xs (compact_from n (45 ∷ rest))) size ∙ ap (prepend xs) (rw dash refl))

All-take : (n : ℕ) (xs : Bytes) → AllHex xs → AllHex (take n xs)
All-take zero xs h = tt
All-take (suc n) [] h = tt
All-take (suc n) (x ∷ xs) (hx, h) = (hx, All-take n xs h)

All-drop : (n : ℕ) (xs : Bytes) → AllHex xs → AllHex (drop n xs)
All-drop zero xs h = h
All-drop (suc n) [] h = tt
All-drop (suc n) (x ∷ xs) (hx, h) = All-drop n xs h

slice-AllHex : (xs : Bytes) (from to : ℕ) → AllHex xs → AllHex (slice xs from to)
slice-AllHex xs from to h = All-take (to - from) (drop from xs) (All-drop from xs h)

length-slice : (xs : Bytes) (from to : ℕ) → to ≤ length xs → length (slice xs from to) ≡ to - from
length-slice xs from to h =
    omega (arith, length-take (to - from) (drop from xs), length-drop from xs)

slice-drop : (xs : Bytes) (from to : ℕ) → from ≤ to → slice xs from to ++ drop to xs ≡ drop from xs
slice-drop xs from to h =
    ap (λ l. slice xs from to ++ l) (sym (drop-drop from (to - from) to xs (omega arith)))
    ∙ take-append-drop (to - from) (drop from xs)

get_elem?-skip :
    (xs ys : Bytes) (n k : ℕ) → n ≡ length xs + k → get_elem? (xs ++ ys) n ≡ get_elem? ys k
get_elem?-skip [] ys n k e = let same : n ≡ k = omega arith in ap (get_elem? ys) same
get_elem?-skip (x ∷ xs) ys zero k e = absurd (omega arith)
get_elem?-skip (x ∷ xs) ys (suc n) k e = get_elem?-skip xs ys n k (omega arith)

-- The spelling of 32 digits, in its groups.
abbrev grouped : Bytes → Bytes
grouped hex =
    slice hex 0 8
    ++ 45
      ∷ (slice hex 8 12 ++ 45 ∷ (slice hex 12 16 ++ 45 ∷ (slice hex 16 20 ++ 45 ∷ slice hex 20 32)))

slices :
    (hex : Bytes)
    → length hex ≡ 32
    → slice hex 0 8 ++ (slice hex 8 12 ++ (slice hex 12 16 ++ (slice hex 16 20 ++ slice hex 20 32)))
      ≡ hex
slices hex full =
    let last : slice hex 20 32 ≡ drop 20 hex =
      take_all 12 (drop 20 hex) (omega (arith, length-drop 20 hex)) in
    rw
      (
        last,
        slice-drop hex 16 20 (omega arith),
        slice-drop hex 12 16 (omega arith),
        slice-drop hex 8 12 (omega arith),
      )
      (slice-drop hex 0 8 (omega arith))

last_group : (xs : Bytes) → AllHex xs → length xs ≡ 12 → compact_from 24 xs ≡ ok xs
unfolding compact_from
last_group xs h size =
    ap (compact_from 24) (sym (append-nil xs))
    ∙ (compact_from-run 24 xs [] h (λ i a b. ground arith) ∙ ap ok (append-nil xs))

compact_grouped :
    (hex : Bytes) → length hex ≡ 32 → AllHex hex → compact_from 0 (grouped hex) ≡ ok hex
compact_grouped hex full h =
    let part : (from to : ℕ) → AllHex (slice hex from to) = λ from to. slice-AllHex hex from to h in
    let size : (from to : ℕ) → to ≤ 32 → length (slice hex from to) ≡ to - from =
      λ from to k. length-slice hex from to (omega arith) in
    compact_from-group 0 8 (slice hex 0 8) _ (part 0 8) (omega (arith, size 0 8 (omega arith)))
      (λ i a b. ground arith) refl
    ∙ (ap (prepend (slice hex 0 8)) (
          compact_from-group 9 13 (slice hex 8 12) _ (part 8 12)
            (omega (arith, size 8 12 (omega arith))) (λ i a b. ground arith) refl
          ∙ ap (prepend (slice hex 8 12)) (
              compact_from-group 14 18 (slice hex 12 16) _ (part 12 16)
                (omega (arith, size 12 16 (omega arith))) (λ i a b. ground arith) refl
              ∙ ap (prepend (slice hex 12 16)) (
                  compact_from-group 19 23 (slice hex 16 20) _ (part 16 20)
                    (omega (arith, size 16 20 (omega arith))) (λ i a b. ground arith) refl
                  ∙ ap (prepend (slice hex 16 20))
                      (last_group (slice hex 20 32) (part 20 32) (size 20 32 (omega arith))))))
        ∙ ap ok (slices hex full))

length-group :
    (xs ys : Bytes) (n m : ℕ) → length xs ≡ n → length ys ≡ m → length (xs ++ 45 ∷ ys) ≡ n + (1 + m)
length-group xs ys n m h k = omega (arith, length-append xs (45 ∷ ys))

is_dashed-grouped : (hex : Bytes) → length hex ≡ 32 → is_dashed (grouped hex) ≡ true
unfolding is_dashed
is_dashed-grouped hex full =
    let size : (from to : ℕ) → to ≤ 32 → length (slice hex from to) ≡ to - from =
      λ from to k. length-slice hex from to (omega arith) in
    let first : length (slice hex 0 8) ≡ 8 = size 0 8 (omega arith) in
    let second : length (slice hex 8 12) ≡ 4 = size 8 12 (omega arith) in
    let third : length (slice hex 12 16) ≡ 4 = size 12 16 (omega arith) in
    let fourth : length (slice hex 16 20) ≡ 4 = size 16 20 (omega arith) in
    let fifth : length (slice hex 20 32) ≡ 12 = size 20 32 (omega arith) in
    let four : Bytes = slice hex 16 20 ++ 45 ∷ slice hex 20 32 in
    let three : Bytes = slice hex 12 16 ++ 45 ∷ four in
    let two : Bytes = slice hex 8 12 ++ 45 ∷ three in
    let whole : length (grouped hex) ≡ 36 = length-group (slice hex 0 8) two 8 27 first (
      length-group (slice hex 8 12) three 4 22 second (
        length-group (slice hex 12 16) four 4 17 third
          (length-group (slice hex 16 20) (slice hex 20 32) 4 12 fourth fifth))) in
    let skip : (n k : ℕ) → n ≡ 8 + k → get_elem? (grouped hex) n ≡ get_elem? (45 ∷ two) k =
      λ n k e. get_elem?-skip (slice hex 0 8) (45 ∷ two) n k (omega arith) in
    let skip_two : (n k : ℕ) → n ≡ 4 + k → get_elem? two n ≡ get_elem? (45 ∷ three) k =
      λ n k e. get_elem?-skip (slice hex 8 12) (45 ∷ three) n k (omega arith) in
    let skip_three : (n k : ℕ) → n ≡ 4 + k → get_elem? three n ≡ get_elem? (45 ∷ four) k =
      λ n k e. get_elem?-skip (slice hex 12 16) (45 ∷ four) n k (omega arith) in
    let at_8 : get_elem? (grouped hex) 8 ≡ some 45 = skip 8 0 refl in
    let at_13 : get_elem? (grouped hex) 13 ≡ some 45 = skip 13 5 refl ∙ skip_two 4 0 refl in
    let at_18 : get_elem? (grouped hex) 18 ≡ some 45 =
      skip 18 10 refl ∙ (skip_two 9 5 refl ∙ skip_three 4 0 refl) in
    let at_23 : get_elem? (grouped hex) 23 ≡ some 45 =
      skip 23 15 refl
      ∙ (skip_two 14 10 refl
          ∙ (skip_three 9 5 refl
              ∙ get_elem?-skip (slice hex 16 20) (45 ∷ slice hex 20 32) 4 0 (omega arith))) in
    rw (whole, at_8, at_13, at_18, at_23) refl

-- An identifier of 16 bytes is parsed from the spelling that it is displayed with.
pub parse-display :
    (bytes : Bytes) → length bytes ≡ 16 → IsBytes bytes → parse (display bytes) ≡ ok bytes
unfolding parse display
parse-display bytes sixteen h =
    let hex : Bytes = hex_encode bytes in
    let full : length hex ≡ 32 = omega (arith, length-hex_encode bytes) in
    rw (is_dashed-grouped hex full, compact_grouped hex full (hex_encode-AllHex bytes h))
      (from_pairs-hex_encode bytes h)
