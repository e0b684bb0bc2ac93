-- ===== src/Materializer/Scan/Inventory.antt =====
-- What the inventory of lines is, apart from the scan: the text cut behind each line terminator.
use eliot_search.Prelude.{
  ℕ, ◌≤◌, zero, suc, ◌+◌, ◌-◌, ◌≡◌, ◌≢◌, inl, inr, refl, subst, true, false, Option, none, some,
  List, [], ◌∷◌, ◌++◌, drop, append_assoc, arith, Bytes, length, length-append, All, All-append,
  ltb, lt→ltb, ◌==◌, if◌then◌else◌, Bool-cases,
}
use eliot_search.Materializer.Scan.{
  LineSpan, line_feed, carriage_return, starts_with_feed, terminator, span,
}

-- The lines that a scan from a place onwards finds, with no limit and no environment: `k` is the
-- index of the next line, and the other arguments are those of `scan_from`.
unfoldable pub spans : Bytes → ℕ → ℕ → ℕ → ℕ → List LineSpan
spans [] skip start index k = if ltb start index then span k start index index ∷ [] else []
spans (b ∷ rest) (suc skip) start index k = spans rest skip start index k
spans (b ∷ rest) zero start index k = elim (terminator b rest) [
  | none ↦ spans rest 0 start (index + 1) k
  | some n ↦ span k start index (index + n) ∷ spans rest (n - 1) (index + n) (index + n) (k + 1)
]

abbrev pub lines_of : Bytes → List LineSpan
lines_of bytes = spans bytes 0 0 0 0

-- Neither `\n` nor `\r`.
abbrev pub IsPlain : ℕ → Type 0
IsPlain b = (b ≢ line_feed) × (b ≢ carriage_return)

-- What ends a line with `rest` behind it: `\r\n`, `\n`, a `\r` that no `\n` follows, or the end of
-- the text behind at least one byte.
pub data Ends (content rest : Bytes) : Bytes → Type 0 where
  crlf : {mark : Bytes} → mark ≡ carriage_return ∷ line_feed ∷ [] → Ends content rest mark
  lf : {mark : Bytes} → mark ≡ line_feed ∷ [] → Ends content rest mark
  cr :
      {mark : Bytes}
      → mark ≡ carriage_return ∷ []
      → starts_with_feed rest ≡ false
      → Ends content rest mark
  eof : {mark : Bytes} → mark ≡ [] → rest ≡ [] → content ≢ [] → Ends content rest mark

-- The spans cut `bytes`, which begin at `start`, into lines, numbered from `k` on.
abbrev pub Inventory : ℕ → ℕ → Bytes → List LineSpan → Type 0
Inventory k start bytes [] = bytes ≡ []
Inventory k start bytes (l ∷ ls) =
    (content : Bytes) × (mark : Bytes) × (rest : Bytes) × (bytes ≡ content ++ (mark ++ rest))
    × All IsPlain content
    × Ends content rest mark
    × (l ≡ span k start (start + length content) (start + length content + length mark))
    × Inventory (k + 1) (start + length content + length mark) rest ls

pub data Terminator (b : ℕ) (rest : Bytes) : Option ℕ → Type 0 where
  absent : {o : Option ℕ} → o ≡ none → IsPlain b → Terminator b rest o
  feed : {o : Option ℕ} → o ≡ some 1 → b ≡ line_feed → Terminator b rest o
  return :
      {o : Option ℕ}
      → o ≡ some 1
      → b ≡ carriage_return
      → starts_with_feed rest ≡ false
      → Terminator b rest o
  both :
      {o : Option ℕ} (rest' : Bytes)
      → o ≡ some 2
      → b ≡ carriage_return
      → rest ≡ line_feed ∷ rest'
      → Terminator b rest o

feed_rest : (rest : Bytes) → starts_with_feed rest ≡ true → (r : Bytes) × (rest ≡ line_feed ∷ r)
feed_rest [] h = absurd (cc)
feed_rest (c ∷ rest) h = (rest, ground arith)

pub terminator-cases : (b : ℕ) (rest : Bytes) → Terminator b rest (terminator b rest)
unfolding terminator
terminator-cases b rest = elim (Bool-cases (b == carriage_return)) [
  | inl r ↦ elim (Bool-cases (starts_with_feed rest)) [
    | inl f ↦ both (feed_rest rest f).0 (ground arith) (ground arith) (feed_rest rest f).1
    | inr n ↦ return (ground arith) (ground arith) n
  ]
  | inr o ↦ elim (Bool-cases (b == line_feed)) [
    | inl f ↦ feed (ground arith) (ground arith)
    | inr n ↦ absent (ground arith) (ground arith, ground arith)
  ]
]

-- Whole lines in front of a cut, the started line behind it.
push_content :
    (k start : ℕ) (content : Bytes) (b : ℕ) (rest : Bytes) (ls : List LineSpan)
    → Inventory k start ((content ++ b ∷ []) ++ rest) ls
    → Inventory k start (content ++ b ∷ rest) ls
push_content k start content b rest ls h =
    subst (λ bytes. Inventory k start bytes ls) (append_assoc content (b ∷ []) rest) h

index_suc :
    (start index : ℕ) (content : Bytes) (b : ℕ)
    → index ≡ start + length content
    → index + 1 ≡ start + length (content ++ b ∷ [])
index_suc start index content b e = omega (arith, length-append content (b ∷ []))

-- One line, in front of an inventory of the rest.
line_step :
    (k start index n : ℕ) (content mark rest : Bytes) (ls : List LineSpan)
    → index ≡ start + length content
    → n ≡ length mark
    → All IsPlain content
    → Ends content rest mark
    → Inventory (k + 1) (index + n) rest ls
    → Inventory k start (content ++ (mark ++ rest)) (span k start index (index + n) ∷ ls)
line_step k start index n content mark rest ls e m h ends tail = (
  content,
  mark,
  rest,
  refl,
  h,
  ends,
  cc,
  subst (λ end. Inventory (k + 1) end rest ls) (omega arith) tail,
)

abbrev Scanned : Bytes → Type 0
Scanned bytes =
    (skip : ℕ) (content : Bytes) (start index k : ℕ)
    → index ≡ start + length content
    → All IsPlain content
    → Inventory k start (content ++ drop skip bytes) (spans bytes skip start index k)

last_content :
    (k start index c : ℕ) (content : Bytes)
    → index ≡ start + length (c ∷ content)
    → All IsPlain (c ∷ content)
    → Inventory k start (c ∷ content ++ []) (spans [] 0 start index k)
unfolding spans
last_content k start index c content e h =
    let end : index ≡ start + length (c ∷ content) + 0 = omega arith in
    rw (lt→ltb start index (omega arith))
      (c ∷ content, [], [], refl, h, eof refl refl (cc), cc (e, end), refl)

spans_end : Scanned []
unfolding spans
spans_end zero [] start index k e h = ground arith
spans_end (suc skip) [] start index k e h = ground arith
spans_end zero (c ∷ content) start index k e h = last_content k start index c content e h
spans_end (suc skip) (c ∷ content) start index k e h = last_content k start index c content e h

spans_step :
    (b : ℕ) (rest : Bytes)
    → Scanned rest
    → (o : Option ℕ) → Terminator b rest o
    → (content : Bytes) (start index k : ℕ) → index ≡ start + length content
    → All IsPlain content
    → Inventory k start (content ++ b ∷ rest) (elim o [
      | none ↦ spans rest 0 start (index + 1) k
      | some n ↦ span k start index (index + n) ∷ spans rest (n - 1) (index + n) (index + n) (k + 1)
    ])
spans_step b rest ih o (absent e plain) content start index k at h = rw e (
    push_content k start content b rest _ (
      ih 0 (content ++ b ∷ []) start (index + 1) k (index_suc start index content b at)
        (All-append IsPlain content (b ∷ []) h (plain, tt))))
spans_step b rest ih o (feed e f) content start index k at h =
    rw (e, f)
      (line_step k start index 1 content (line_feed ∷ []) rest _ at refl h (lf refl)
        (ih 0 [] (index + 1) (index + 1) (k + 1) (omega arith) tt))
spans_step b rest ih o (return e f n) content start index k at h =
    rw (e, f)
      (line_step k start index 1 content (carriage_return ∷ []) rest _ at refl h (cr refl n)
        (ih 0 [] (index + 1) (index + 1) (k + 1) (omega arith) tt))
spans_step b rest ih o (both r e f g) content start index k at h =
    rw (e, f, g)
      (line_step k start index 2 content (carriage_return ∷ line_feed ∷ []) r _ at refl h
        (crlf refl)
        (subst
          (λ t.
            Inventory (k + 1) (index + 2) (drop 1 t) (spans t 1 (index + 2) (index + 2) (k + 1)))
          g (ih 1 [] (index + 2) (index + 2) (k + 1) (omega arith) tt)))

-- The scan's lines are the inventory of the text.
spans-Inventory : (bytes : Bytes) → Scanned bytes
unfolding spans
spans-Inventory [] skip content start index k e h = spans_end skip content start index k e h
spans-Inventory (b ∷ rest) zero content start index k e h =
    spans_step b rest (spans-Inventory rest) (terminator b rest) (terminator-cases b rest) content
      start index k e h
spans-Inventory (b ∷ rest) (suc skip) content start index k e h =
    spans-Inventory rest skip content start index k e h

-- The lines of a text are its inventory.
pub lines_of-Inventory : (bytes : Bytes) → Inventory 0 0 bytes (lines_of bytes)
lines_of-Inventory bytes = spans-Inventory bytes 0 [] 0 0 0 refl tt

-- A terminator lies in the text.
abbrev pub Lies : Bytes → Option ℕ → Type 0
Lies rest none = Unit
Lies rest (some n) = (1 ≤ n) × (n ≤ length rest + 1)

Lies-of : (b : ℕ) (rest : Bytes) (o : Option ℕ) → Terminator b rest o → Lies rest o
Lies-of b rest o (absent e p) = rw e tt
Lies-of b rest o (feed e p) = rw e (omega arith)
Lies-of b rest o (return e p q) = rw e (omega arith)
Lies-of b rest o (both r e p q) = rw (e, q) (omega arith)

pub terminator-Lies : (b : ℕ) (rest : Bytes) → Lies rest (terminator b rest)
terminator-Lies b rest = Lies-of b rest (terminator b rest) (terminator-cases b rest)
