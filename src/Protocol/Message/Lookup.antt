-- ===== src/Protocol/Message/Lookup.antt =====
-- What the tests `any` and `contains` on lists say.
use eliot_search.Prelude.{
  ℕ, suc, ◌≡◌, ap, inl, inr, Bool, true, false, some, List, [], ◌∷◌, arith, Bytes, All, get_elem?,
  bytes_eq, bytes_eq→eq, Bool-cases,
}
use eliot_search.Protocol.Message.Text.{any, contains}

pub any-All {ℓ} :
    {A : Type ℓ} (test : A → Bool) (xs : List A)
    → any test xs ≡ false
    → All (λ x. test x ≡ false) xs
any-All test [] h = tt
any-All test (x ∷ xs) h = elim (Bool-cases (test x)) [
  | inl e ↦ absurd (let bad : true ≡ false = ground arith in cc)
  | inr e ↦ (e, any-All test xs (ground arith))
]

pub All-map {ℓ} :
    {A : Type ℓ} (P Q : A → Type 0) (xs : List A) → ((x : A) → P x → Q x) → All P xs → All Q xs
All-map P Q [] f h = tt
All-map P Q (x ∷ xs) f (px, h) = (f x px, All-map P Q xs f h)

pub All-zip {ℓ} :
    {A : Type ℓ} (P Q : A → Type 0) (xs : List A) → All P xs → All Q xs → All (λ x. P x × Q x) xs
All-zip P Q [] h k = tt
All-zip P Q (x ∷ xs) (px, h) (qx, k) = ((px, qx), All-zip P Q xs h k)

-- A text occurs in a list of texts.
abbrev pub Occurs : List Bytes → Bytes → Type 0
Occurs texts text = (k : ℕ) × (get_elem? texts k ≡ some text)

pub contains-Occurs :
    (texts : List Bytes) (text : Bytes) → contains texts text ≡ true → Occurs texts text
contains-Occurs [] text h = absurd (cc)
contains-Occurs (t ∷ texts) text h = elim (Bool-cases (bytes_eq t text)) [
  | inl e ↦ (0, ap some (bytes_eq→eq t text e))
  | inr e ↦ let (k, found) = contains-Occurs texts text (ground arith) in (suc k, found)
]
