-- ===== src/Protocol/Buffer/Received.antt =====
-- The buffer as a function of the bytes that it has received.
use eliot_search.Prelude.{
  ℕ, zero, suc, ◌+◌, ◌-◌, ◌≤◌, ◌<◌, ◌≡◌, refl, sym, ap, ap₂, ◌∙◌, min, true, [], ◌∷◌, ◌++◌,
  append_assoc, arith, Bytes, length, take, drop, take_all, take-length, length-take, length-drop,
  inl, inr, Bool-cases, le→ltb, length-append, ltb, leb, ◌==◌, if◌then◌else◌,
}
use eliot_search.Prelude.Words.{from_le_bytes, max_u64}
use eliot_search.Exec.{Result, ok, err}
use eliot_search.Protocol.{ProtocolError, invalid_frame, frame_too_large}
use eliot_search.Protocol.Buffer.{FrameBuffer, zeros, copy_into, open_body, receive}

-- The length of the frame that a stream declares, with its prefix.
abbrev pub declared : Bytes → ℕ
declared stream = from_le_bytes (take 4 stream) + 4

-- What of a stream belongs to its first frame.
unfoldable pub accept : ℕ → Bytes → Result ProtocolError Bytes
accept maximum stream =
    if ltb (length stream) 4
    then ok stream
    else if declared stream == 4
    then err invalid_frame
    else if ltb maximum (declared stream)
    then err frame_too_large
    else ok (take (declared stream) stream)

-- The buffer that has received so many bytes.
abbrev pub open_with : ℕ → Bytes → FrameBuffer
open_with maximum bytes = record {
  prefix = take 4 bytes;
  prefix_used = 4;
  bytes = bytes ++ zeros (declared bytes - length bytes);
  used = length bytes;
  maximum = maximum;
}

abbrev pub started_with : ℕ → Bytes → FrameBuffer
started_with maximum bytes = record {
  prefix = bytes ++ zeros (4 - length bytes);
  prefix_used = length bytes;
  bytes = [];
  used = 0;
  maximum = maximum;
}

abbrev pub holding : ℕ → Bytes → FrameBuffer
holding maximum bytes =
    if ltb (length bytes) 4 then started_with maximum bytes else open_with maximum bytes

pub length-zeros : (n : ℕ) → length (zeros n) ≡ n
length-zeros zero = refl
length-zeros (suc n) = ap suc (length-zeros n)

drop-zeros : (k n : ℕ) → drop k (zeros n) ≡ zeros (n - k)
drop-zeros zero n = let e : n ≡ n - 0 = omega arith in ap zeros e
drop-zeros (suc k) zero = let e : 0 ≡ 0 - suc k = omega arith in ap zeros e
drop-zeros (suc k) (suc n) =
    let e : n - k ≡ suc n - suc k = omega arith in drop-zeros k n ∙ ap zeros e

drop-append : (r ys : Bytes) (k : ℕ) → drop (length r + k) (r ++ ys) ≡ drop k ys
drop-append [] ys k = let e : 0 + k ≡ k = omega arith in ap (λ j. drop j ys) e
drop-append (x ∷ r) ys k =
    let e : suc (length r) + k ≡ suc (length r + k) = omega arith in
    ap (λ j. drop j (x ∷ (r ++ ys))) e ∙ drop-append r ys k

pub take-append :
    (n : ℕ) (r i : Bytes) → length r ≤ n → take n (r ++ i) ≡ r ++ take (n - length r) i
take-append n [] i h = let e : n ≡ n - 0 = omega arith in ap (λ j. take j i) e
take-append zero (x ∷ r) i h = absurd (omega arith)
take-append (suc n) (x ∷ r) i h =
    let e : n - length r ≡ suc n - suc (length r) = omega arith in
    ap (λ l. x ∷ l) (take-append n r i (omega arith) ∙ ap (λ j. r ++ take j i) e)

pub take_prefix : (n : ℕ) (r i : Bytes) → n ≤ length r → take n (r ++ i) ≡ take n r
take_prefix zero r i h = refl
take_prefix (suc n) [] i h = absurd (omega arith)
take_prefix (suc n) (x ∷ r) i h = ap (λ l. x ∷ l) (take_prefix n r i (omega arith))

pub copy_into-zeros :
    (r s : Bytes) (m : ℕ) → copy_into (r ++ zeros m) (length r) s ≡ (r ++ s) ++ zeros (m - length s)
unfolding copy_into
copy_into-zeros r s m =
    rw
      (
        take-length r (zeros m),
        drop-append r (zeros m) (length s),
        drop-zeros (length s) m,
        append_assoc r s (zeros (m - length s)),
      )
      refl

take-min : (n : ℕ) (xs : Bytes) → take (min n (length xs)) xs ≡ take n xs
take-min n xs = elim (Bool-cases (leb n (length xs))) [
  | inl h ↦ let e : min n (length xs) ≡ n = ground arith in ap (λ j. take j xs) e
  | inr h ↦
      let e : min n (length xs) ≡ length xs = ground arith in
      let long : length xs ≤ n = ground arith in
      ap (λ j. take j xs) e ∙ (take_all (length xs) xs (omega arith) ∙ sym (take_all n xs long))
]

same_step :
    (maximum : ℕ) {n n' u u' : ℕ} {p p' b b' : Bytes}
    → n ≡ n'
    → p ≡ p'
    → b ≡ b'
    → u ≡ u'
    → ◌≡◌ {A = Result ProtocolError ℕ × FrameBuffer}
        (ok n, record { prefix = p; prefix_used = 4; bytes = b; used = u; maximum = maximum })
        (ok n', record { prefix = p'; prefix_used = 4; bytes = b'; used = u'; maximum = maximum })
same_step maximum hn hp hb hu = cc

-- Behind its prefix, a buffer takes what it lacks of the frame.
receive-open :
    (maximum consumed : ℕ) (bytes input : Bytes)
    → 4 ≤ length bytes
    → length bytes ≤ declared bytes
    → receive consumed input (open_with maximum bytes) ≡ (
      ok (
          consumed
          + (length (take (declared bytes) (bytes ++ drop consumed input)) - length bytes)),
      open_with maximum (take (declared bytes) (bytes ++ drop consumed input)),
    )
unfolding receive
receive-open maximum consumed bytes input long inside =
    let rest : Bytes = drop consumed input in
    let lack : ℕ = declared bytes - length bytes in
    let count : ℕ = min (length (bytes ++ zeros lack) - length bytes) (length input - consumed) in
    let counted : count ≡ min lack (length rest) =
      omega
        (arith, length-append bytes (zeros lack), length-zeros lack, length-drop consumed input) in
    let taken : take count rest ≡ take lack rest =
      ap (λ j. take j rest) counted ∙ take-min lack rest in
    let whole : take (declared bytes) (bytes ++ rest) ≡ bytes ++ take lack rest =
      take-append (declared bytes) bytes rest inside in
    let size : length (take (declared bytes) (bytes ++ rest)) ≡ length bytes + count =
      ap (λ (l : Bytes). length l) whole
      ∙ omega (arith, length-append bytes (take lack rest), length-take lack rest) in
    let head : take 4 (take (declared bytes) (bytes ++ rest)) ≡ take 4 bytes =
      ap (λ l. take 4 l) whole ∙ take_prefix 4 bytes (take lack rest) long in
    let same_declared : declared (take (declared bytes) (bytes ++ rest)) ≡ declared bytes =
      ap (λ l. from_le_bytes l + 4) head in
    let left : lack - length (take count rest)
        ≡ declared (take (declared bytes) (bytes ++ rest))
          - length (take (declared bytes) (bytes ++ rest)) =
      omega (arith, same_declared, size, counted, length-take count rest) in
    same_step maximum (omega (arith, size)) (sym head)
      (copy_into-zeros bytes (take count rest) lack
        ∙ ap₂ (λ l n. l ++ zeros n) (ap (λ l. bytes ++ l) taken ∙ sym whole) left)
      (sym size)

pub holding-open :
    (maximum : ℕ) (w : Bytes) → 4 ≤ length w → holding maximum w ≡ open_with maximum w
holding-open maximum w long =
    ap (λ t. if t then started_with maximum w else open_with maximum w) (le→ltb (length w) 4 long)

pub receive-holding :
    (maximum consumed before : ℕ) (bytes input : Bytes)
    → 4 ≤ length bytes
    → length bytes ≤ declared bytes
    → before + consumed ≡ length bytes
    → receive consumed input (open_with maximum bytes) ≡ (
      ok (length (take (declared bytes) (bytes ++ drop consumed input)) - before),
      holding maximum (take (declared bytes) (bytes ++ drop consumed input)),
    )
receive-holding maximum consumed before bytes input long inside split =
    let w : Bytes = take (declared bytes) (bytes ++ drop consumed input) in
    let size : length bytes ≤ length w = omega (
      arith,
      length-take (declared bytes) (bytes ++ drop consumed input),
      length-append bytes (drop consumed input),
    ) in
    let number : consumed + (length w - length bytes) ≡ length w - before = omega arith in
    receive-open maximum consumed bytes input long inside
    ∙ ap₂ (λ n b. (ok n, b)) number (sym (holding-open maximum w (omega arith)))

pub accept-short : (maximum : ℕ) (s : Bytes) → length s < 4 → accept maximum s ≡ ok s
unfolding accept
accept-short maximum s h = ground arith

pub accept-empty :
    (maximum : ℕ) (s : Bytes) → 4 ≤ length s → declared s ≡ 4 → accept maximum s ≡ err invalid_frame
unfolding accept
accept-empty maximum s long e = ground arith

pub accept-large :
    (maximum : ℕ) (s : Bytes)
    → 4 ≤ length s
    → 4 < declared s
    → maximum < declared s
    → accept maximum s ≡ err frame_too_large
unfolding accept
accept-large maximum s long e h = ground arith

pub accept-fits :
    (maximum : ℕ) (s : Bytes)
    → 4 ≤ length s
    → 4 < declared s
    → declared s ≤ maximum
    → accept maximum s ≡ ok (take (declared s) s)
unfolding accept
accept-fits maximum s long e h = ground arith

-- The buffer behind a complete prefix.
abbrev pub prefixed : ℕ → Bytes → FrameBuffer
prefixed maximum bytes = record {
  prefix = bytes;
  prefix_used = 4;
  bytes = [];
  used = 0;
  maximum = maximum;
}

pub open_body-empty :
    (maximum : ℕ) (bytes : Bytes)
    → from_le_bytes bytes ≡ 0
    → open_body true (prefixed maximum bytes) ≡ err invalid_frame
unfolding open_body
open_body-empty maximum bytes e = ground arith

pub open_body-large :
    (maximum : ℕ) (bytes : Bytes)
    → 0 < from_le_bytes bytes
    → maximum < from_le_bytes bytes + 4
    → open_body true (prefixed maximum bytes) ≡ err frame_too_large
unfolding open_body
open_body-large maximum bytes e h = ground arith

pub open_body-fits :
    (maximum : ℕ) (bytes : Bytes)
    → maximum ≤ max_u64
    → 0 < from_le_bytes bytes
    → from_le_bytes bytes + 4 ≤ maximum
    → open_body true (prefixed maximum bytes)
      ≡ ok (record (prefixed maximum bytes) {
        bytes = copy_into (zeros (from_le_bytes bytes + 4)) 0 bytes;
        used = 4;
      })
unfolding open_body
open_body-fits maximum bytes small e h = ground arith
