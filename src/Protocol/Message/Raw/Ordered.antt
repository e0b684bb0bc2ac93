-- ===== src/Protocol/Message/Raw/Ordered.antt =====
-- The items of a raw result that passes its validation stand in one strict order.
use eliot_search.Prelude.{
  ℕ, ◌+◌, ◌-◌, ◌*◌, ◌≤◌, ◌<◌, ◌≡◌, ◌⊎◌, inl, inr, sym, ◌∙◌, subst, Bool, true, false, Option, none,
  some, List, [], ◌∷◌, arith, length, All, bytes_eq, bytes_eq→eq, bytes_eq_refl, if◌then◌else◌,
}
use eliot_search.Prelude.Words.{checked_sub, checked_add-eq}
use eliot_search.Exec.{Env, ok}
use eliot_search.Exec.Ensures.{
  Ensures, Ensures-pure, Ensures-ok_or, Ensures-bind, Ensures-then, Ensures-refuse_if,
  Ensures-refused, Ensures-weaken,
}
use eliot_search.Protocol.Message.Text.{bytes_lt, lower_hex, source_object_missing}
use eliot_search.Protocol.Message.Object.{RawSourceRef}
use eliot_search.Protocol.Message.Object.Same.{source_eq→eq}
use eliot_search.Protocol.Message.Order.{
  Pairwise, Follows, Linked, Linked-Pairwise, bytes_lt_trans, bytes_lt_connex,
}
use eliot_search.Protocol.Message.Accounts.{IsAccounted, is_misaccounted-IsAccounted}
use eliot_search.Protocol.Message.Raw.{
  nonzero, RawExactItem, match, gap, raw_source, RawExactResult, is_before, is_out_of_order,
  is_repeated, compare_raw, is_match, count_raw_items, validate_raw_item, validate_raw_result,
}

-- The source of one item precedes that of another, or it is the same and the first item does.
abbrev pub PrecedesBy : RawSourceRef → RawSourceRef → Bool → Type 0
PrecedesBy left right before =
    (left.source_namespace_id ≡ right.source_namespace_id)
    × ((bytes_lt left.source_id right.source_id ≡ true) ⊎ ((left ≡ right) × (before ≡ true)))

pub not_repeated-PrecedesBy :
    (left right : RawSourceRef) (before : Bool)
    → is_out_of_order left right ≡ false
    → is_repeated left right before ≡ false
    → PrecedesBy left right before
not_repeated-PrecedesBy left right before h k = (
  bytes_eq→eq left.source_namespace_id right.source_namespace_id (ground arith),
  elim (bytes_lt_connex left.source_id right.source_id (ground arith)) [
    | inl less ↦ inl less
    | inr same ↦
        let same' : bytes_eq left.source_id right.source_id ≡ true =
          subst (λ id. bytes_eq left.source_id id ≡ true) same (bytes_eq_refl left.source_id) in
        inr (source_eq→eq left right (ground arith), ground arith)
  ],
)

pub PrecedesBy-trans :
    (x y z : RawSourceRef) (xy yz xz : Bool)
    → (xy ≡ true → yz ≡ true → xz ≡ true)
    → PrecedesBy x y xy
    → PrecedesBy y z yz
    → PrecedesBy x z xz
PrecedesBy-trans x y z xy yz xz before (n, h) (m, k) = (n ∙ m, joined h k)
  where
    joined :
        (bytes_lt x.source_id y.source_id ≡ true) ⊎ ((x ≡ y) × (xy ≡ true))
        → (bytes_lt y.source_id z.source_id ≡ true) ⊎ ((y ≡ z) × (yz ≡ true))
        → (bytes_lt x.source_id z.source_id ≡ true) ⊎ ((x ≡ z) × (xz ≡ true))
    joined (inl p) (inl q) = inl (bytes_lt_trans x.source_id y.source_id z.source_id p q)
    joined (inl p) (inr (s, b)) = inl (subst (λ r. bytes_lt x.source_id r.source_id ≡ true) s p)
    joined (inr (s, b)) (inl q) =
        inl (subst (λ r. bytes_lt r.source_id z.source_id ≡ true) (sym s) q)
    joined (inr (s, b)) (inr (t, c)) = inr (s ∙ t, before b c)

abbrev pub Precedes : RawExactItem → RawExactItem → Type 0
Precedes a b = PrecedesBy (raw_source a) (raw_source b) (is_before a b)

is_before_trans :
    (x y z : RawExactItem) → is_before x y ≡ true → is_before y z ≡ true → is_before x z ≡ true
is_before_trans (match a) (match b) (match c) h k = ground arith
is_before_trans (match a) (match b) (gap c) h k = absurd (cc)
is_before_trans (match a) (gap b) z h k = absurd (cc)
is_before_trans (gap a) y z h k = absurd (cc)

pub Precedes-trans : (x y z : RawExactItem) → Precedes x y → Precedes y z → Precedes x z
Precedes-trans x y z =
    PrecedesBy-trans (raw_source x) (raw_source y) (raw_source z) (is_before x y) (is_before y z)
      (is_before x z) (is_before_trans x y z)

compare_raw-Ensures :
    (previous : Option RawExactItem) (item : RawExactItem)
    → Ensures (λ _. Follows Precedes previous item) (compare_raw previous item)
unfolding compare_raw
compare_raw-Ensures none item = Ensures-pure tt tt
compare_raw-Ensures (some p) item = Ensures-refuse_if _ _ _ λ sorted. Ensures-refused _ _ λ fresh.
    not_repeated-PrecedesBy (raw_source p) (raw_source item) (is_before p item) sorted fresh

abbrev pub matches_in : List RawExactItem → ℕ
matches_in [] = 0
matches_in (item ∷ items) = (if is_match item then 1 else 0) + matches_in items

-- A match lies in the object that it cites and has two digits for each byte.
abbrev pub IsCited : RawExactItem → Type 0
IsCited (match h) =
    (h.start < h.end)
    × (h.end ≤ h.source.input.bytes)
    × (length h.bytes_hex ≡ 2 * (h.end - h.start))
IsCited (gap g) = g.code ≡ source_object_missing

nonzero-checked_sub : (a b n : ℕ) → nonzero (checked_sub a b) ≡ some n → (b < a) × (n ≡ a - b)
nonzero-checked_sub a b n h = ground arith

pub validate_raw_item-Ensures :
    (item : RawExactItem) → Ensures (λ _. IsCited item) (validate_raw_item item)
unfolding validate_raw_item lower_hex
validate_raw_item-Ensures (match h) = Ensures-then _ _ λ _.
    Ensures-bind _ _ (Ensures-ok_or _ _ (nonzero-checked_sub h.end h.start))
      λ len found. Ensures-refused _ _ λ fine. (found.0, ground arith, ground (arith, found.1))
validate_raw_item-Ensures (gap g) =
    Ensures-then _ _
      λ _. Ensures-refused _ _ λ fine. bytes_eq→eq g.code source_object_missing (ground arith)

count_raw_items-Ensures :
    (previous : Option RawExactItem) (items : List RawExactItem) (matches gaps : ℕ)
    → Ensures
        (λ c.
          (c.0 ≡ matches + matches_in items)
          × (c.0 + c.1 ≡ matches + gaps + length items)
          × Linked Precedes previous items
          × All IsCited items)
        (count_raw_items previous items matches gaps)
unfolding count_raw_items
count_raw_items-Ensures previous [] matches gaps = Ensures-pure _ (omega arith, omega arith, tt, tt)
count_raw_items-Ensures previous (item ∷ items) matches gaps =
    Ensures-bind _ _ (validate_raw_item-Ensures item) λ _ cited.
      Ensures-bind _ _ (compare_raw-Ensures previous item) λ _ order.
        Ensures-weaken _ (count_raw_items-Ensures (some item) items _ _) λ c h.
          let (sum, all, linked, others) = h in
          let linked' : Linked Precedes previous (item ∷ items) = (order, linked) in
          let cited' : All IsCited (item ∷ items) = (cited, others) in
          (ground (arith, sum), ground (arith, all), linked', cited')

-- A raw result whose counts agree, with its items in one strict order of sources and positions.
pub record IsConsistent (result : RawExactResult) (limit : ℕ) : Type 0 where
  pub accounts :
      IsAccounted result.selected_sources result.scanned_sources result.missing_sources
        result.scanned_bytes result.matches
        (length result.items)
        limit
        result.scan_complete
        result.complete_negative
        result.stop
  pub order : Pairwise Precedes result.items
  pub cited : All IsCited result.items
  pub matches : matches_in result.items ≤ result.matches
  pub gaps : length result.items - matches_in result.items ≤ result.missing_sources

pub validate_raw_result-Ensures :
    (result : RawExactResult) (limit : ℕ)
    → Ensures (λ _. IsConsistent result limit) (validate_raw_result result limit)
unfolding validate_raw_result
validate_raw_result-Ensures result limit =
    Ensures-bind _ _ (Ensures-ok_or _ _ (checked_add-eq result.matches result.missing_sources))
      λ total sum. Ensures-refuse_if _ _ _ λ fine.
        Ensures-bind _ _ (count_raw_items-Ensures none result.items 0 0) λ counts counted.
          Ensures-refused _ _ λ few.
            let (found, all, linked, cited) = counted in
            record {
              accounts = is_misaccounted-IsAccounted _ _ _ _ _ _ _ total _ _ _ _ fine sum;
              order = Linked-Pairwise Precedes Precedes-trans none result.items linked;
              cited = cited;
              matches = ground (arith, found);
              gaps = ground (arith, found, all);
            }

-- Whatever the environment does: a raw result that passes its validation has counts that agree, with
-- `scan_complete` and `complete_negative` set exactly when nothing is missing and when, moreover,
-- nothing was found; no two of its items are equal or out of order, each cites a range of its object,
-- and they are no more than the matches and the missing sources that it counts.
pub validate_raw_result-IsConsistent :
    (result : RawExactResult) (limit : ℕ) (env env' : Env)
    → validate_raw_result result limit env ≡ ok (tt, env')
    → IsConsistent result limit
validate_raw_result-IsConsistent result limit env env' h =
    (validate_raw_result-Ensures result limit).at env tt env' h
