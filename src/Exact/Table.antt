-- ===== src/Exact/Table.antt =====
-- `Literal::new` computes the borders of all prefixes of the literal.
use eliot_search.Prelude.{
  ℕ, zero, suc, ◌+◌, ◌<◌, ◌≡◌, inl, inr, refl, sym, ap, subst, ◌∙◌, some, List, [], ◌∷◌, arith,
  Bytes, length, get_elem?, drop, length-drop, Bool-cases, ltb, ltb→lt, ltb→le,
}
use eliot_search.Exec.{ok, calm, pure, ok_or, refuse_if, check_with, reserve_with, ◌>>=◌, ◌>>◌}
use eliot_search.Protocol.Buffer.{zeros}
use eliot_search.Exact.{set_elem, advance, compile, check, panic, new}
use eliot_search.Exact.Border.{Ends, Ends-zero, Ends-before}
use eliot_search.Exact.Fall.{inside-get_elem?, IsBorder, IsTable, fall_back-IsLongest}

pub drop-get_elem? {ℓ} :
    {A : Type ℓ} (xs rest : List A) (n : ℕ) (x : A)
    → drop n xs ≡ x ∷ rest
    → (get_elem? xs n ≡ some x) × (drop (suc n) xs ≡ rest)
drop-get_elem? [] rest zero x h = absurd (cc)
drop-get_elem? [] rest (suc n) x h = absurd (cc)
drop-get_elem? (y ∷ ys) rest zero x h = (cc, cc)
drop-get_elem? (y ∷ ys) rest (suc n) x h = drop-get_elem? ys rest n x h

length-set_elem : (xs : List ℕ) (i m : ℕ) → length (set_elem xs i m) ≡ length xs
length-set_elem [] i m = refl
length-set_elem (x ∷ xs) zero m = refl
length-set_elem (x ∷ xs) (suc i) m = ap suc (length-set_elem xs i m)

get_elem?-set_elem :
    (xs : List ℕ) (i m : ℕ) → i < length xs → get_elem? (set_elem xs i m) i ≡ some m
get_elem?-set_elem [] i m h = absurd (omega arith)
get_elem?-set_elem (x ∷ xs) zero m h = refl
get_elem?-set_elem (x ∷ xs) (suc i) m h = get_elem?-set_elem xs i m (omega arith)

get_elem?-set_elem_other :
    (xs : List ℕ) (i j m : ℕ) → j < i → get_elem? (set_elem xs i m) j ≡ get_elem? xs j
get_elem?-set_elem_other [] i j m h = refl
get_elem?-set_elem_other (x ∷ xs) zero j m h = absurd (omega arith)
get_elem?-set_elem_other (x ∷ xs) (suc i) zero m h = refl
get_elem?-set_elem_other (x ∷ xs) (suc i) (suc j) m h =
    get_elem?-set_elem_other xs i j m (omega arith)

module _ (bytes : Bytes) where
  set_elem-IsTable :
      (prefix : List ℕ) (i r : ℕ)
      → IsTable bytes prefix i
      → i < length prefix
      → IsBorder bytes i r
      → IsTable bytes (set_elem prefix i r) (suc i)
  set_elem-IsTable prefix i r table room border j less = elim (Bool-cases (ltb j i)) [
    | inl under ↦
        let (q, found, old) = table j (ltb→lt j i under) in
        (q, get_elem?-set_elem_other prefix i j r (ltb→lt j i under) ∙ found, old)
    | inr over ↦
        let here : i ≡ j = let le = ltb→le j i over in omega arith in
        subst (λ k. (q : ℕ) × (get_elem? (set_elem prefix i r) k ≡ some q) × IsBorder bytes k q)
          here (r, get_elem?-set_elem prefix i r room, border)
  ]

  -- One more byte of the literal.
  advance-IsBorder :
      (prefix : List ℕ) (i byte matched : ℕ)
      → IsTable bytes prefix (suc i)
      → IsBorder bytes i matched
      → get_elem? bytes (suc i) ≡ some byte
      → (r : ℕ) × (advance bytes prefix byte matched ≡ some r) × IsBorder bytes (suc i) r
  unfolding advance
  advance-IsBorder prefix i byte matched table border here =
      let proper = border.proper in
      let room = inside-get_elem? bytes (suc i) here in
      let (r, found, le, longest) =
        fall_back-IsLongest bytes prefix (suc i) table bytes (suc i) byte here (suc i) (matched + 1)
          matched (omega arith) (omega arith) (omega arith) border.ends
          (λ k le h. border.most k (omega arith) (Ends-before bytes (suc i) bytes k h).0) in
      let next : suc i + 1 ≡ suc (suc i) = omega arith in
      (
        r,
        found,
        record {
          proper = omega arith;
          ends = subst (λ n. Ends bytes n bytes r) next longest.ends;
          most = λ k le' h. longest.most k le' (subst (λ n. Ends bytes n bytes k) (sym next) h);
        },
      )

  -- The loop from position i + 1 on.
  compile-IsTable :
      (rest : Bytes) (prefix : List ℕ) (i matched : ℕ)
      → drop (suc i) bytes ≡ rest
      → length prefix ≡ length bytes
      → IsTable bytes prefix (suc i)
      → IsBorder bytes i matched
      → (table : List ℕ) × (compile bytes rest (suc i) prefix matched ≡ some table)
        × IsTable bytes table (length bytes)
  unfolding compile
  compile-IsTable [] prefix i matched left size table border = (
    prefix,
    refl,
    λ j less. table j (
        let none_left : length (drop (suc i) bytes) ≡ 0 = ap length left in
        omega (arith, length-drop (suc i) bytes)),
  )
  compile-IsTable (byte ∷ rest) prefix i matched left size table border =
      let (here, left') = drop-get_elem? bytes rest (suc i) byte left in
      let room = inside-get_elem? bytes (suc i) here in
      let (r, found, border') = advance-IsBorder prefix i byte matched table border here in
      let (done, made, full) =
        compile-IsTable rest (set_elem prefix (suc i) r) (suc i) r left'
          (length-set_elem prefix (suc i) r ∙ size)
          (set_elem-IsTable prefix (suc i) r table (omega arith) border') border' in
      let next : suc i + 1 ≡ suc (suc i) = omega arith in
      (done, rw (found, next, compile) made, full)

  length-zeros : (n : ℕ) → length (zeros n) ≡ n
  length-zeros zero = refl
  length-zeros (suc n) = ap suc (length-zeros n)

first-IsBorder : (bytes : Bytes) → IsBorder bytes 0 0
first-IsBorder bytes = record {
  proper = omega arith;
  ends = Ends-zero bytes 1 bytes;
  most = λ k le h. le;
}

first-IsTable : (bytes : Bytes) (rest : List ℕ) → IsTable bytes (0 ∷ rest) 1
first-IsTable bytes rest zero less = (0, refl, first-IsBorder bytes)
first-IsTable bytes rest (suc j) less = absurd (omega arith)

-- Undisturbed, a literal that is not empty is compiled with the borders of all its prefixes.
pub new-IsTable :
    (byte : ℕ) (rest : Bytes)
    → (prefix : List ℕ) × (new (byte ∷ rest) calm
        ≡ ok (record { bytes = byte ∷ rest; prefix = prefix }, calm))
      × IsTable (byte ∷ rest) prefix (length (byte ∷ rest))
unfolding new check ok_or refuse_if pure ◌>>=◌ check_with reserve_with
new-IsTable byte rest =
    let bytes : Bytes = byte ∷ rest in
    let (prefix, made, table) =
      compile-IsTable bytes rest (zeros (length bytes)) 0 0 refl (length-zeros bytes (length bytes))
        (first-IsTable bytes (zeros (length rest))) (first-IsBorder bytes) in
    (
      prefix,
      ap (λ o. (ok_or o panic >>= λ p. check >> pure (record { bytes = bytes; prefix = p })) calm)
          made,
      table,
    )
