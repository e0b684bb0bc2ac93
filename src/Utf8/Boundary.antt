-- ===== src/Utf8/Boundary.antt =====
-- In a text, the boundaries that `is_char_boundary` finds by one byte are the places where the
-- bytes before are a text of their own.
use mathlib.Core.Path.{fun_ext}
use eliot_search.Prelude.{
  ℕ, zero, suc, ◌≤◌, ◌<◌, ◌≡◌, ◌⊎◌, inl, inr, refl, sym, ap, subst, ◌∙◌, true, Option, none, some,
  [], ◌∷◌, ◌++◌, arith, Bytes, length, get_elem?, take, drop, take-append-drop, Option-cases, ◌↔◌,
}
use eliot_search.Utf8.{Decoder, start, step, and_then, run, is_utf8, is_char_boundary}

and_then_assoc :
    (o : Option Decoder) (f g : Decoder → Option Decoder)
    → and_then (and_then o f) g ≡ and_then o (λ t. and_then (f t) g)
and_then_assoc none f g = refl
and_then_assoc (some t) f g = refl

pub run-append :
    (s : Decoder) (xs ys : Bytes) → run s (xs ++ ys) ≡ and_then (run s xs) (λ t. run t ys)
unfolding run
run-append s [] ys = refl
run-append s (x ∷ xs) ys =
    ap (and_then (step s x)) (fun_ext (λ t. run-append t xs ys))
    ∙ sym (and_then_assoc (step s x) (λ t. run t xs) (λ t. run t ys))

-- A byte of ASCII stands between characters.
pub step_ascii :
    (s : Decoder) (b : ℕ) (t : Decoder) → b < 128 → step s b ≡ some t → (s ≡ start) × (t ≡ start)
unfolding step
step_ascii start b t h e = ground arith
step_ascii s b t h e = ground arith

-- A byte that is no continuation byte begins a character.
pub step_boundary :
    (s : Decoder) (b : ℕ) (t : Decoder) → (b < 128) ⊎ (192 ≤ b) → step s b ≡ some t → s ≡ start
unfolding step
step_boundary start b t h e = refl
step_boundary s b t h e = ground arith

-- A character begins with a byte that is no continuation byte.
pub step_start : (b : ℕ) (t : Decoder) → step start b ≡ some t → (b < 128) ⊎ (192 ≤ b)
unfolding step
step_start b t e = ground arith

and_then-some :
    (o : Option Decoder) (f : Decoder → Option Decoder) (t : Decoder)
    → and_then o f ≡ some t
    → (m : Decoder) × (o ≡ some m) × (f m ≡ some t)
and_then-some none f t h = absurd (cc)
and_then-some (some m) f t h = (m, refl, h)

pub run_split :
    (s t : Decoder) (xs ys : Bytes)
    → run s (xs ++ ys) ≡ some t
    → (m : Decoder) × (run s xs ≡ some m) × (run m ys ≡ some t)
run_split s t xs ys h = and_then-some (run s xs) (λ m. run m ys) t (sym (run-append s xs ys) ∙ h)

-- The bytes are whole characters.
abbrev pub IsText : Bytes → Type 0
IsText bs = run start bs ≡ some start

-- No character is cut in front of these bytes.
abbrev pub IsFront : Bytes → Type 0
IsFront [] = Unit
IsFront (b ∷ bs) = (b < 128) ⊎ (192 ≤ b)

pub is_utf8→IsText : (bs : Bytes) → is_utf8 bs ≡ true → IsText bs
unfolding is_utf8
is_utf8→IsText bs h = ground arith

pub IsText→is_utf8 : (bs : Bytes) → IsText bs → is_utf8 bs ≡ true
unfolding is_utf8
IsText→is_utf8 bs h = ground arith

run_front : (m : Decoder) (ys : Bytes) → IsFront ys → run m ys ≡ some start → m ≡ start
unfolding run
run_front m [] f h = cc
run_front m (y ∷ ys) f h =
    let (t, first, rest) = and_then-some (step m y) (λ t. run t ys) start h in
    step_boundary m y t f first

-- A cut in front of a byte that is no continuation byte leaves whole characters on both sides.
pub IsText-cut : (xs ys : Bytes) → IsText (xs ++ ys) → IsFront ys → IsText xs × IsText ys
IsText-cut xs ys h f =
    let (m, left, right) = run_split start start xs ys h in
    let e = run_front m ys f right in (left ∙ ap some e, subst (λ d. run d ys ≡ some start) e right)

-- Behind a byte of ASCII a character begins.
pub IsText-ascii :
    (xs : Bytes) (b : ℕ) (ys : Bytes) → b < 128 → IsText (xs ++ b ∷ ys) → IsText xs × IsText ys
unfolding run
IsText-ascii xs b ys h e =
    let (m, left, right) = run_split start start xs (b ∷ ys) e in
    let (t, first, rest) = and_then-some (step m b) (λ t. run t ys) start right in
    let (at_start, to_start) = step_ascii m b t h first in
    (left ∙ ap some at_start, subst (λ d. run d ys ≡ some start) to_start rest)

pub IsText-rest : (xs ys : Bytes) → IsText xs → IsText (xs ++ ys) → IsText ys
IsText-rest xs ys h k =
    sym (ap (λ o. and_then o (λ t. run t ys)) h) ∙ sym (run-append start xs ys) ∙ k

-- Whole characters in front of whole characters are a text.
pub IsText-append : (xs ys : Bytes) → IsText xs → IsText ys → IsText (xs ++ ys)
IsText-append xs ys h k = run-append start xs ys ∙ ap (λ o. and_then o (λ t. run t ys)) h ∙ k

pub IsText-IsFront : (ys : Bytes) → IsText ys → IsFront ys
unfolding run
IsText-IsFront [] h = tt
IsText-IsFront (y ∷ ys) h =
    let (t, first, rest) = and_then-some (step start y) (λ t. run t ys) start h in
    step_start y t first

drop-IsFront :
    (text : Bytes) (i : ℕ)
    → ((b : ℕ) → get_elem? text i ≡ some b → (b < 128) ⊎ (192 ≤ b))
    → IsFront (drop i text)
drop-IsFront [] zero h = tt
drop-IsFront [] (suc i) h = tt
drop-IsFront (b ∷ text) zero h = h b refl
drop-IsFront (b ∷ text) (suc i) h = drop-IsFront text i h

front_get :
    (text : Bytes) (i : ℕ) (b : ℕ)
    → IsFront (drop i text)
    → get_elem? text i ≡ some b
    → (b < 128) ⊎ (192 ≤ b)
front_get [] i b f h = absurd (cc)
front_get (x ∷ text) zero b f h = ground arith
front_get (x ∷ text) (suc i) b f h = front_get text i b f h

get_elem?-none :
    (text : Bytes) (i : ℕ) → i ≤ length text → get_elem? text i ≡ none → i ≡ length text
get_elem?-none [] i p h = omega arith
get_elem?-none (x ∷ text) zero p h = cc
get_elem?-none (x ∷ text) (suc i) p h = ap suc (get_elem?-none text i (omega arith) h)

-- The test of one byte says whether no character is cut at a position.
pub is_char_boundary→IsFront :
    (text : Bytes) (i : ℕ) → 0 < i → is_char_boundary text i ≡ true → IsFront (drop i text)
unfolding is_char_boundary
is_char_boundary→IsFront text i p h = drop-IsFront text i (λ b e. ground arith)

pub IsFront→is_char_boundary :
    (text : Bytes) (i : ℕ)
    → i ≤ length text
    → IsFront (drop i text)
    → is_char_boundary text i ≡ true
unfolding is_char_boundary
IsFront→is_char_boundary text i p f = elim (Option-cases (get_elem? text i)) [
  | inl e ↦ ground (arith, get_elem?-none text i p e)
  | inr (b, e) ↦ ground (arith, front_get text i b f e)
]

IsText-nil : is_utf8 [] ≡ true
unfolding is_utf8
IsText-nil = refl

Nat-cases : (n : ℕ) → (n ≡ 0) ⊎ (0 < n)
Nat-cases n = ground arith

-- In a text, `is_char_boundary` holds exactly at the positions where the bytes before are a text.
pub is_char_boundary_iff :
    (text : Bytes) (i : ℕ)
    → is_utf8 text ≡ true
    → i ≤ length text
    → (is_char_boundary text i ≡ true) ↔ (is_utf8 (take i text) ≡ true)
is_char_boundary_iff text i h p = (forward, backward)
  where
    whole : IsText (take i text ++ drop i text)
    whole = subst IsText (sym (take-append-drop i text)) (is_utf8→IsText text h)

    forward : is_char_boundary text i ≡ true → is_utf8 (take i text) ≡ true
    forward b = elim (Nat-cases i) [
      | inl z ↦ rw z IsText-nil
      | inr q ↦ IsText→is_utf8 _ (IsText-cut _ _ whole (is_char_boundary→IsFront text i q b)).0
    ]

    backward : is_utf8 (take i text) ≡ true → is_char_boundary text i ≡ true
    backward t =
        IsFront→is_char_boundary text i p
          (IsText-IsFront _ (IsText-rest _ _ (is_utf8→IsText _ t) whole))
