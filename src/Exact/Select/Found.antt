-- ===== src/Exact/Select/Found.antt =====
-- The sources that are selected are those of the request, each of them found in the inventory.
use eliot_search.Prelude.{
  ℕ, zero, suc, ◌≡◌, refl, sym, subst, Bool, true, false, some, List, [], ◌∷◌, Bytes, map,
  get_elem?, bytes_eq_refl, arith, All, Bool-cases, inl, inr,
}
use eliot_search.Exec.{ok, calm, ◌>>=◌}
use eliot_search.Contracts.{parse}
use eliot_search.Protocol.Message.Text.{contains}
use eliot_search.Protocol.Message.Lookup.{Occurs, contains-Occurs}
use eliot_search.Exact.{check}
use eliot_search.Exact.Select.{select_ids, retain, select_sources}
use eliot_search.Exact.Select.Search.{IsOrdered, IsSorted, IsSorted-IsOrdered, is_published-true}

Occurs-contains : (ids : List Bytes) (id : Bytes) → Occurs ids id → contains ids id ≡ true
Occurs-contains [] id (k, e) = absurd (cc)
Occurs-contains (i ∷ ids) id (zero, e) =
    let same : i ≡ id = cc in
    subst (λ j. contains (i ∷ ids) j ≡ true) same (rw (bytes_eq_refl i) refl)
Occurs-contains (i ∷ ids) id (suc k, e) = let rest = Occurs-contains ids id (k, e) in ground arith

-- The texts of the identities.
abbrev pub Parses : List Bytes → List Bytes → Type 0
Parses [] [] = Unit {0}
Parses (text ∷ texts) (id ∷ ids) = (parse text ≡ ok id) × Parses texts ids
Parses _ _ = ⊥

select_ids-calm :
    (keys texts ids : List Bytes)
    → IsOrdered keys
    → Parses texts ids
    → All (Occurs keys) ids
    → select_ids keys texts calm ≡ ok (ids, calm)
unfolding select_ids check ◌>>=◌
select_ids-calm keys [] [] ordered h all = refl
select_ids-calm keys [] (id ∷ ids) ordered h all = absurd h
select_ids-calm keys (text ∷ texts) [] ordered h all = absurd h
select_ids-calm keys (text ∷ texts) (id ∷ ids) ordered h all =
    let rest = select_ids-calm keys texts ids ordered h.1 all.1 in
    rw (h.0, is_published-true keys id ordered all.0, rest) refl

not-true : (b : Bool) → b ≡ false → b ≡ true → ⊥
not-true b f t = absurd (cc)

module _ {A : Type 0} (id_of : A → Bytes) where
  -- What is left of a list, in its order, by leaving out entries.
  pub data Within : List A → List A → Type 0 where
    all_left : Within [] []
    kept : {xs ys : List A} (x : A) → Within xs ys → Within (x ∷ xs) (x ∷ ys)
    left_out : {xs ys : List A} (y : A) → Within xs ys → Within xs (y ∷ ys)

  -- The entries of the inventory, in its order, that have one of the identities, and an entry for each.
  pub record IsSelection (inventory : List A) (ids : List Bytes) (selected : List A) : Type 0 where
    pub within : Within selected inventory
    pub asked : All (λ entry. Occurs ids (id_of entry)) selected
    pub whole :
        (i : ℕ) (entry : A)
        → get_elem? inventory i ≡ some entry
        → Occurs ids (id_of entry)
        → (k : ℕ) × (get_elem? selected k ≡ some entry)

  kept-IsSelection :
      (inventory : List A) (ids : List Bytes) (selected : List A) (entry : A)
      → Occurs ids (id_of entry)
      → IsSelection inventory ids selected
      → IsSelection (entry ∷ inventory) ids (entry ∷ selected)
  kept-IsSelection inventory ids selected entry occurs h = record {
    within = kept entry h.within;
    asked = (occurs, h.asked);
    whole = place;
  }
    where
      place :
          (i : ℕ) (x : A)
          → get_elem? (entry ∷ inventory) i ≡ some x
          → Occurs ids (id_of x)
          → (k : ℕ) × (get_elem? (entry ∷ selected) k ≡ some x)
      place zero x e found = (0, e)
      place (suc i) x e found = let (k, at) = h.whole i x e found in (suc k, at)

  left_out-IsSelection :
      (inventory : List A) (ids : List Bytes) (selected : List A) (entry : A)
      → ¬ Occurs ids (id_of entry)
      → IsSelection inventory ids selected
      → IsSelection (entry ∷ inventory) ids selected
  left_out-IsSelection inventory ids selected entry misses h = record {
    within = left_out entry h.within;
    asked = h.asked;
    whole = place;
  }
    where
      place :
          (i : ℕ) (x : A)
          → get_elem? (entry ∷ inventory) i ≡ some x
          → Occurs ids (id_of x)
          → (k : ℕ) × (get_elem? selected k ≡ some x)
      place zero x e found =
          let same : entry ≡ x = cc in
          absurd (misses (subst (λ y. Occurs ids (id_of y)) (sym same) found))
      place (suc i) x e found = h.whole i x e found

  retain-IsSelection :
      (ids : List Bytes) (inventory : List A)
      → IsSelection inventory ids (retain id_of ids inventory)
  unfolding retain
  retain-IsSelection ids [] = record {
    within = all_left;
    asked = tt;
    whole = λ i entry e. absurd (cc);
  }
  retain-IsSelection ids (entry ∷ entries) = elim (Bool-cases (contains ids (id_of entry))) [
    | inl found ↦ rw found (
        kept-IsSelection entries ids _ entry (contains-Occurs ids (id_of entry) found)
          (retain-IsSelection ids entries))
    | inr missing ↦ rw missing (
        left_out-IsSelection entries ids _ entry
          (λ occurs. not-true _ missing (Occurs-contains ids (id_of entry) occurs))
          (retain-IsSelection ids entries))
  ]

  -- Undisturbed, on an inventory in the order of its identities: where the texts of a request are those of
  -- identities that are all in the inventory, none is refused, and the entries that are selected are those
  -- of the inventory that have one of the identities, all of them and in their order.
  pub select_sources-IsSelection :
      (inventory : List A) (texts ids : List Bytes)
      → IsSorted (map id_of inventory)
      → Parses texts ids
      → All (Occurs (map id_of inventory)) ids
      → (selected : List A) × (select_sources id_of inventory (some texts) calm
          ≡ ok (selected, calm))
        × IsSelection inventory ids selected
  unfolding select_sources check ◌>>=◌
  select_sources-IsSelection inventory texts ids sorted parses published = (
    retain id_of ids inventory,
    rw
        (select_ids-calm (map id_of inventory) texts ids
          (IsSorted-IsOrdered (map id_of inventory) sorted) parses published)
        refl,
    retain-IsSelection ids inventory,
  )
