-- ===== src/Protocol/Message/Read/Valid.antt =====
-- What the deserializers make of a value whose codes are in order and whose sequences are short enough.
use eliot_search.Prelude.{
  ℕ, ◌+◌, ◌≤◌, ◌≡◌, ◌⊎◌, inl, inr, refl, sym, ap, ◌∙◌, List, [], ◌∷◌, ◌++◌, append-nil,
  append_assoc, All, Option, none, some, arith, length, length-append, lt→ltb, bytes_eq→eq, subst,
}
use eliot_search.Exec.{ok, calm, Exec, pure, reserve_with, ◌>>=◌}
use eliot_search.Exec.Ensures.{
  Ensures, Ensures-pure, Ensures-given, Ensures-bind, Ensures-refuse_if, bind-at,
}
use eliot_search.Protocol.{ProtocolError, invalid_message, max_items}
use eliot_search.Protocol.Message.Text.{
  FailureCode, new_failure_code, source_object_missing, prepared_object_missing, preparation_gap,
}
use eliot_search.Protocol.Message.Object.{ObjectRefDto}
use eliot_search.Protocol.Message.Item.{SearchItem, validate_score, validate_item}
use eliot_search.Protocol.Message.Raw.{RawExactItem, RawExactResult}
use eliot_search.Protocol.Message.Raw.Ordered as RawOrdered
use eliot_search.Protocol.Message.Decoded.{DecodedUtf8Item, DecodedUtf8Result}
use eliot_search.Protocol.Message.Decoded.Ordered as DecodedOrdered
use eliot_search.Protocol.Message.Lookup.{All-map}
use eliot_search.Protocol.Message.Read.{
  deserialize_code, visit_seq, deserialize_items, deserialize_search_item, deserialize_raw_item,
  deserialize_decoded_item, deserialize_raw_result, deserialize_decoded_result,
}

-- Undisturbed, an operation leaves a value as it is.
abbrev pub IsKeptBy : {A : Type 0} → (A → Exec ProtocolError A) → A → Type 0
IsKeptBy read a = read a calm ≡ ok (a, calm)

reserved-calm : reserve_with invalid_message calm ≡ ok (tt, calm)
unfolding reserve_with
reserved-calm = refl

visit_seq-calm :
    {A : Type 0} (next : A → Exec ProtocolError A) (seq items : List A)
    → All (IsKeptBy next) seq
    → length items + length seq ≤ max_items
    → visit_seq next seq items calm ≡ ok (items ++ seq, calm)
unfolding visit_seq pure
visit_seq-calm next [] items kept few = ap (λ l. ok (l, calm)) (sym (append-nil items))
visit_seq-calm next (element ∷ seq) items (one, kept) few =
    rw (lt→ltb (length items) max_items (omega arith)) (
      bind-at (next element) _ one
      ∙ (bind-at (reserve_with invalid_message) _ reserved-calm
          ∙ (visit_seq-calm next seq (items ++ element ∷ []) kept
                (omega (arith, length-append items (element ∷ [])))
              ∙ ap (λ l. ok (l, calm)) (append_assoc items (element ∷ []) seq))))

pub deserialize_items-calm :
    {A : Type 0} (next : A → Exec ProtocolError A) (items : List A)
    → All (IsKeptBy next) items
    → length items ≤ max_items
    → deserialize_items next items calm ≡ ok (items, calm)
unfolding deserialize_items
deserialize_items-calm next items kept few = visit_seq-calm next items [] kept (omega arith)

-- The codes of the gaps.
missing_source-kept : IsKeptBy deserialize_code source_object_missing
unfolding deserialize_code new_failure_code ◌>>=◌
missing_source-kept = refl

missing_prepared-kept : IsKeptBy deserialize_code prepared_object_missing
unfolding deserialize_code new_failure_code ◌>>=◌
missing_prepared-kept = refl

preparation-kept : IsKeptBy deserialize_code preparation_gap
unfolding deserialize_code new_failure_code ◌>>=◌
preparation-kept = refl

missing-kept :
    (code : FailureCode)
    → (code ≡ source_object_missing) ⊎ (code ≡ prepared_object_missing)
    → IsKeptBy deserialize_code code
missing-kept code (inl e) = subst (IsKeptBy deserialize_code) (sym e) missing_source-kept
missing-kept code (inr e) = subst (IsKeptBy deserialize_code) (sym e) missing_prepared-kept

-- An item that is valid is read as it is.
pub validate_item-kept :
    (item : SearchItem) (generation : ℕ)
    → Ensures (λ _. IsKeptBy deserialize_search_item item) (validate_item item generation)
unfolding validate_item validate_score deserialize_search_item pure
validate_item-kept (SearchItem.hit h) generation = Ensures-given _ refl
validate_item-kept (SearchItem.gap g) generation =
    Ensures-bind _ _
      (Ensures-refuse_if _ _ _ λ h. Ensures-pure g.score (
        missing-kept g.code (
          ground (
            arith,
            bytes_eq→eq g.code source_object_missing,
            bytes_eq→eq g.code prepared_object_missing,
          ))))
      λ score kept. Ensures-given _ (bind-at (deserialize_code g.code) _ kept)

pub raw_item-kept :
    (item : RawExactItem) → RawOrdered.IsCited item → IsKeptBy deserialize_raw_item item
unfolding deserialize_raw_item pure
raw_item-kept (RawExactItem.match h) cited = refl
raw_item-kept (RawExactItem.gap g) cited =
    bind-at (deserialize_code g.code) _ (missing-kept g.code (inl cited))

explained-kept :
    (code : FailureCode) (object : Option ObjectRefDto)
    → DecodedOrdered.IsExplained code object
    → IsKeptBy deserialize_code code
explained-kept code none h = subst (IsKeptBy deserialize_code) (sym h) preparation-kept
explained-kept code (some object) h = missing-kept code h

pub decoded_item-kept :
    (item : DecodedUtf8Item) → DecodedOrdered.IsCited item → IsKeptBy deserialize_decoded_item item
unfolding deserialize_decoded_item pure
decoded_item-kept (DecodedUtf8Item.match h) cited = refl
decoded_item-kept (DecodedUtf8Item.gap g) cited =
    bind-at (deserialize_code g.code) _ (explained-kept g.code g.prepared_object cited)

pub raw_result-kept :
    (result : RawExactResult) (limit : ℕ)
    → RawOrdered.IsConsistent result limit
    → IsKeptBy deserialize_raw_result result
unfolding deserialize_raw_result pure
raw_result-kept result limit consistent =
    bind-at (deserialize_items deserialize_raw_item result.items) _ (
      deserialize_items-calm deserialize_raw_item result.items
        (All-map _ _ result.items raw_item-kept consistent.cited)
        (omega (arith, consistent.accounts.limited)))

pub decoded_result-kept :
    (result : DecodedUtf8Result) (limit : ℕ)
    → DecodedOrdered.IsConsistent result limit
    → IsKeptBy deserialize_decoded_result result
unfolding deserialize_decoded_result pure
decoded_result-kept result limit consistent =
    bind-at (deserialize_items deserialize_decoded_item result.items) _ (
      deserialize_items-calm deserialize_decoded_item result.items
        (All-map _ _ result.items decoded_item-kept consistent.cited)
        (omega (arith, consistent.accounts.limited)))
