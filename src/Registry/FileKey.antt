-- ===== src/Registry/FileKey.antt =====
-- `NativeFileKey::to_bytes` and `from_bytes`: a platform tag and two words in 17 bytes.
use eliot_search.Prelude.{
  ℕ, zero, suc, ◌+◌, ◌-◌, ◌^◌, ◌<◌, ◌≡◌, refl, sym, ap, ap₂, ◌∙◌, subst, false, ◌&&◌, Option, none,
  some, [], ◌∷◌, ◌++◌, arith, Bytes, length, take, drop, drop-drop, take_all, length-take,
  length-drop, take-append-drop, inl, inr, IsBytes, bytes_eq, bytes_eq→eq, ◌==◌, if◌then◌else◌,
  Bool-cases,
}
use eliot_search.Prelude.Words.{
  to_le_bytes, from_le_bytes, from_le_bytes-to_le_bytes, to_le_bytes-from_le_bytes,
}

pub data NativeFileKey : Type 0 where
  unix : ℕ → ℕ → NativeFileKey
  windows : ℕ → ℕ → NativeFileKey

-- `bytes[from..to]`
abbrev slice : Bytes → ℕ → ℕ → Bytes
slice bytes from to = take (to - from) (drop from bytes)

abbrev padding : Bytes
padding = 0 ∷ 0 ∷ 0 ∷ 0 ∷ []

unfoldable pub to_bytes : NativeFileKey → Bytes
to_bytes (unix device inode) = 1 ∷ (to_le_bytes 8 device ++ to_le_bytes 8 inode)
to_bytes (windows volume_serial file_index) =
    2 ∷ (to_le_bytes 4 volume_serial ++ (padding ++ to_le_bytes 8 file_index))

-- The argument stands for an array of 17 bytes.
unfoldable pub from_bytes : Bytes → Option NativeFileKey
from_bytes [] = none
from_bytes (t ∷ rest) =
    let bytes = t ∷ rest in
    if t == 1
    then some (unix (from_le_bytes (slice bytes 1 9)) (from_le_bytes (slice bytes 9 17)))
    else if t == 2 && bytes_eq (slice bytes 5 9) padding
    then some (windows (from_le_bytes (slice bytes 1 5)) (from_le_bytes (slice bytes 9 17)))
    else none

-- The words of a key fit their fields.
abbrev pub IsValid : NativeFileKey → Type 0
IsValid (unix device inode) = (device < 256 ^ 8) × (inode < 256 ^ 8)
IsValid (windows volume_serial file_index) = (volume_serial < 256 ^ 4) × (file_index < 256 ^ 8)

-- A key is read back from its bytes.
pub from_bytes-to_bytes : (key : NativeFileKey) → IsValid key → from_bytes (to_bytes key) ≡ some key
unfolding from_bytes to_bytes to_le_bytes
from_bytes-to_bytes (unix device inode) (hd, hi) =
    ap₂ (λ d i. some (unix d i)) (from_le_bytes-to_le_bytes 8 device hd)
      (from_le_bytes-to_le_bytes 8 inode hi)
from_bytes-to_bytes (windows volume_serial file_index) (hv, hf) =
    ap₂ (λ d i. some (windows d i)) (from_le_bytes-to_le_bytes 4 volume_serial hv)
      (from_le_bytes-to_le_bytes 8 file_index hf)

IsBytes-take : (n : ℕ) (xs : Bytes) → IsBytes xs → IsBytes (take n xs)
IsBytes-take zero xs h = tt
IsBytes-take (suc n) [] h = tt
IsBytes-take (suc n) (x ∷ xs) (hx, h) = (hx, IsBytes-take n xs h)

IsBytes-drop : (n : ℕ) (xs : Bytes) → IsBytes xs → IsBytes (drop n xs)
IsBytes-drop zero xs h = h
IsBytes-drop (suc n) [] h = tt
IsBytes-drop (suc n) (x ∷ xs) (hx, h) = IsBytes-drop n xs h

word_bytes :
    (k : ℕ) (xs : Bytes) → IsBytes xs → length xs ≡ k → to_le_bytes k (from_le_bytes xs) ≡ xs
word_bytes k xs h e =
    subst (λ n. to_le_bytes n (from_le_bytes xs) ≡ xs) e (to_le_bytes-from_le_bytes xs h)

-- The words at `from` and behind it spell the bytes from there on.
two_words :
    (a b : ℕ) (xs : Bytes)
    → IsBytes xs
    → length xs ≡ a + b
    → to_le_bytes a (from_le_bytes (take a xs))
        ++ to_le_bytes b (from_le_bytes (take b (drop a xs)))
      ≡ xs
two_words a b xs h e =
    let left = word_bytes a (take a xs) (IsBytes-take a xs h) (omega (arith, length-take a xs)) in
    let all : take b (drop a xs) ≡ drop a xs =
      take_all b (drop a xs) (omega (arith, length-drop a xs)) in
    let right = word_bytes b (drop a xs) (IsBytes-drop a xs h) (omega (arith, length-drop a xs)) in
    rw (left, all, right) (take-append-drop a xs)

split_padding :
    (rest : Bytes) → take 4 (drop 4 rest) ≡ padding → take 4 rest ++ (padding ++ drop 8 rest) ≡ rest
split_padding rest e =
    ap (λ l. take 4 rest ++ l)
      (ap₂ (λ xs ys. xs ++ ys) (sym e) (sym (drop-drop 4 4 8 rest refl))
        ∙ take-append-drop 4 (drop 4 rest))
    ∙ take-append-drop 4 rest

windows_key :
    (t : ℕ) (rest : Bytes) (key : NativeFileKey)
    → (t == 1) ≡ false
    → from_bytes (t ∷ rest) ≡ some key
    → (t ≡ 2)
      × (take 4 (drop 4 rest) ≡ padding)
      × (key ≡ windows (from_le_bytes (take 4 rest)) (from_le_bytes (take 8 (drop 8 rest))))
unfolding from_bytes
windows_key t rest key n h = elim (Bool-cases (t == 2 && bytes_eq (take 4 (drop 4 rest)) padding)) [
  | inl both ↦
      (ground arith, bytes_eq→eq (take 4 (drop 4 rest)) padding (ground arith), ground arith)
  | inr other ↦ absurd (ground arith)
]

windows_words :
    (rest : Bytes)
    → IsBytes rest
    → length rest ≡ 16
    → take 4 (drop 4 rest) ≡ padding
    → to_le_bytes 4 (from_le_bytes (take 4 rest))
        ++ (padding ++ to_le_bytes 8 (from_le_bytes (take 8 (drop 8 rest))))
      ≡ rest
windows_words rest hb e padded =
    let left =
      word_bytes 4 (take 4 rest) (IsBytes-take 4 rest hb) (omega (arith, length-take 4 rest)) in
    let all : take 8 (drop 8 rest) ≡ drop 8 rest =
      take_all 8 (drop 8 rest) (omega (arith, length-drop 8 rest)) in
    let right =
      word_bytes 8 (drop 8 rest) (IsBytes-drop 8 rest hb) (omega (arith, length-drop 8 rest)) in
    rw (left, all, right) (split_padding rest padded)

-- Whatever 17 bytes `from_bytes` accepts are the bytes of the key that it returns: each key has one
-- encoding.
pub to_bytes-from_bytes :
    (bytes : Bytes) (key : NativeFileKey)
    → IsBytes bytes
    → length bytes ≡ 17
    → from_bytes bytes ≡ some key
    → to_bytes key ≡ bytes
unfolding from_bytes to_bytes
to_bytes-from_bytes [] key hb e h = cc
to_bytes-from_bytes (t ∷ rest) key (ht, hb) e h = elim (Bool-cases (t == 1)) [
  | inl u ↦
      let found : key ≡ unix (from_le_bytes (take 8 rest)) (from_le_bytes (take 8 (drop 8 rest))) =
        ground arith in
      rw found (ap₂ (λ x xs. x ∷ xs) (ground arith) (two_words 8 8 rest hb (omega arith)))
  | inr n ↦
      let (two, padded, found) = windows_key t rest key n h in
      rw found (ap₂ (λ x xs. x ∷ xs) (sym two) (windows_words rest hb (omega arith) padded))
]
