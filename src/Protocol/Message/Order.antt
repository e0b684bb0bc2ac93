-- ===== src/Protocol/Message/Order.antt =====
-- Lists whose neighbours stand in a transitive relation stand in it pairwise; texts in their order.
use eliot_search.Prelude.{
  ◌≡◌, ◌⊎◌, inl, inr, refl, true, false, Option, none, some, List, [], ◌∷◌, arith, Bytes, All,
}
use eliot_search.Protocol.Message.Text.{bytes_lt}

module _ {ℓ} {A : Type ℓ} where
  abbrev pub Pairwise : (A → A → Type 0) → List A → Type 0
  Pairwise R [] = Unit
  Pairwise R (x ∷ xs) = All (R x) xs × Pairwise R xs

  abbrev pub Follows : (A → A → Type 0) → Option A → A → Type 0
  Follows R none x = Unit
  Follows R (some p) x = R p x

  abbrev pub Linked : (A → A → Type 0) → Option A → List A → Type 0
  Linked R previous [] = Unit
  Linked R previous (x ∷ xs) = Follows R previous x × Linked R (some x) xs

  module _ (R : A → A → Type 0) (trans : (x y z : A) → R x y → R y z → R x z) where
    Linked-All : (p : A) (xs : List A) → Linked R (some p) xs → All (R p) xs
    Linked-All p [] h = tt
    Linked-All p (x ∷ []) (px, h) = (px, tt)
    Linked-All p (x ∷ (y ∷ ys)) (px, (xy, h)) = (px, Linked-All p (y ∷ ys) (trans p x y px xy, h))

    pub Linked-Pairwise : (previous : Option A) (xs : List A) → Linked R previous xs → Pairwise R xs
    Linked-Pairwise previous [] h = tt
    Linked-Pairwise previous (x ∷ xs) (px, h) = (Linked-All x xs h, Linked-Pairwise (some x) xs h)

pub bytes_lt_trans :
    (xs ys zs : Bytes) → bytes_lt xs ys ≡ true → bytes_lt ys zs ≡ true → bytes_lt xs zs ≡ true
bytes_lt_trans [] [] zs h k = absurd (cc)
bytes_lt_trans [] (y ∷ ys) [] h k = absurd (cc)
bytes_lt_trans [] (y ∷ ys) (z ∷ zs) h k = refl
bytes_lt_trans (x ∷ xs) [] zs h k = absurd (cc)
bytes_lt_trans (x ∷ xs) (y ∷ ys) [] h k = absurd (cc)
bytes_lt_trans (x ∷ xs) (y ∷ ys) (z ∷ zs) h k = ground (arith, bytes_lt_trans xs ys zs)

pub bytes_lt_connex : (xs ys : Bytes) → bytes_lt ys xs ≡ false → (bytes_lt xs ys ≡ true) ⊎ (xs ≡ ys)
bytes_lt_connex [] [] h = inr refl
bytes_lt_connex [] (y ∷ ys) h = inl refl
bytes_lt_connex (x ∷ xs) [] h = absurd (cc)
bytes_lt_connex (x ∷ xs) (y ∷ ys) h = ground (arith, bytes_lt_connex xs ys)
