-- ===== src/Protocol/Message/Decoded/Ordered.antt =====
-- The items of a decoded result that passes its validation stand in one strict order, and those of
-- an answer hold the literal of its request.
use eliot_search.Prelude.{
  ℕ, ◌+◌, ◌-◌, ◌≤◌, ◌<◌, ◌≡◌, ◌⊎◌, true, false, Option, none, some, List, [], ◌∷◌, arith, Bytes,
  length, All, bytes_eq→eq, if◌then◌else◌,
}
use eliot_search.Prelude.Words.{checked_add-eq}
use eliot_search.Exec.{Env, ok}
use eliot_search.Exec.Ensures.{
  Ensures, Ensures-pure, Ensures-ok_or, Ensures-bind, Ensures-then, Ensures-refuse_if,
  Ensures-refused, Ensures-weaken,
}
use eliot_search.Protocol.Message.Text.{
  FailureCode, source_object_missing, prepared_object_missing, preparation_gap,
}
use eliot_search.Protocol.Message.Object.{ObjectRefDto}
use eliot_search.Protocol.Message.Object.Same.{object_eq→eq}
use eliot_search.Protocol.Message.Order.{Pairwise, Follows, Linked, Linked-Pairwise}
use eliot_search.Protocol.Message.Accounts.{IsAccounted, is_misaccounted-IsAccounted}
use eliot_search.Protocol.Message.Lookup.{any-All, All-map}
use eliot_search.Protocol.Message.Request.{DecodedUtf8Request}
use eliot_search.Protocol.Message.Raw.Ordered.{
  PrecedesBy, not_repeated-PrecedesBy, PrecedesBy-trans,
}
use eliot_search.Protocol.Message.Raw.Literal.{IsSelected, is_unselected-IsSelected}
use eliot_search.Protocol.Message.Decoded.{
  DecodedUtf8Item, match, gap, decoded_source, sources_of, DecodedUtf8Result, is_before,
  compare_decoded, is_match, count_decoded_items, validate_gap, validate_decoded_item,
  validate_decoded_result, is_other_text, validate_decoded_answer,
}

abbrev pub Precedes : DecodedUtf8Item → DecodedUtf8Item → Type 0
Precedes a b = PrecedesBy (decoded_source a) (decoded_source b) (is_before a b)

pub is_before_trans :
    (x y z : DecodedUtf8Item) → is_before x y ≡ true → is_before y z ≡ true → is_before x z ≡ true
is_before_trans (match a) (match b) (match c) h k =
    let same : a.prepared_object ≡ b.prepared_object =
      object_eq→eq a.prepared_object b.prepared_object (ground arith) in
    rw same (ground arith)
is_before_trans (match a) (match b) (gap c) h k = absurd (cc)
is_before_trans (match a) (gap b) z h k = absurd (cc)
is_before_trans (gap a) y z h k = absurd (cc)

pub Precedes-trans : (x y z : DecodedUtf8Item) → Precedes x y → Precedes y z → Precedes x z
Precedes-trans x y z =
    PrecedesBy-trans (decoded_source x) (decoded_source y) (decoded_source z) (is_before x y)
      (is_before y z) (is_before x z) (is_before_trans x y z)

compare_decoded-Ensures :
    (previous : Option DecodedUtf8Item) (item : DecodedUtf8Item)
    → Ensures (λ _. Follows Precedes previous item) (compare_decoded previous item)
unfolding compare_decoded
compare_decoded-Ensures none item = Ensures-pure tt tt
compare_decoded-Ensures (some p) item = Ensures-refused _ _ λ fine.
    not_repeated-PrecedesBy (decoded_source p) (decoded_source item) (is_before p item)
      (ground arith) (ground arith)

-- A gap names why there is no text, with the artifact if there should be one.
abbrev pub IsExplained : FailureCode → Option ObjectRefDto → Type 0
IsExplained code none = code ≡ preparation_gap
IsExplained code (some object) = (code ≡ source_object_missing) ⊎ (code ≡ prepared_object_missing)

-- A match lies at the same place in the text and in the source, and is as long as its range.
abbrev pub IsCited : DecodedUtf8Item → Type 0
IsCited (match h) =
    (h.representation_start < h.representation_end)
    × (h.source_start ≡ h.representation_start)
    × (h.source_end ≡ h.representation_end)
    × (h.source_end ≤ h.source.input.bytes)
    × (length h.text ≡ h.representation_end - h.representation_start)
IsCited (gap g) = IsExplained g.code g.prepared_object

validate_gap-Ensures :
    (code : FailureCode) (object : Option ObjectRefDto)
    → Ensures (λ _. IsExplained code object) (validate_gap code object)
unfolding validate_gap
validate_gap-Ensures code none =
    Ensures-refused _ _ λ h. bytes_eq→eq code preparation_gap (ground arith)
validate_gap-Ensures code (some object) = Ensures-refuse_if _ _ _ λ h. record {
  at = λ env a env' e.
      ground
        (arith, bytes_eq→eq code source_object_missing, bytes_eq→eq code prepared_object_missing);
}

pub validate_decoded_item-Ensures :
    (item : DecodedUtf8Item) → Ensures (λ _. IsCited item) (validate_decoded_item item)
unfolding validate_decoded_item
validate_decoded_item-Ensures (match h) = Ensures-then _ _ λ _. Ensures-then _ _ λ _.
    Ensures-refused _ _
      λ fine. (ground arith, ground arith, ground arith, ground arith, ground arith)
validate_decoded_item-Ensures (gap g) =
    Ensures-then _ _ λ _. validate_gap-Ensures g.code g.prepared_object

abbrev pub matches_in : List DecodedUtf8Item → ℕ
matches_in [] = 0
matches_in (item ∷ items) = (if is_match item then 1 else 0) + matches_in items

count_decoded_items-Ensures :
    (previous : Option DecodedUtf8Item) (items : List DecodedUtf8Item) (matches gaps : ℕ)
    → Ensures
        (λ c.
          (c.0 ≡ matches + matches_in items)
          × (c.0 + c.1 ≡ matches + gaps + length items)
          × Linked Precedes previous items
          × All IsCited items)
        (count_decoded_items previous items matches gaps)
unfolding count_decoded_items
count_decoded_items-Ensures previous [] matches gaps =
    Ensures-pure _ (omega arith, omega arith, tt, tt)
count_decoded_items-Ensures previous (item ∷ items) matches gaps =
    Ensures-bind _ _ (validate_decoded_item-Ensures item) λ _ cited.
      Ensures-bind _ _ (compare_decoded-Ensures previous item) λ _ order.
        Ensures-weaken _ (count_decoded_items-Ensures (some item) items _ _) λ c h.
          let (sum, all, linked, others) = h in
          let linked' : Linked Precedes previous (item ∷ items) = (order, linked) in
          let cited' : All IsCited (item ∷ items) = (cited, others) in
          (ground (arith, sum), ground (arith, all), linked', cited')

-- A decoded result whose counts agree, with its items in one strict order of sources and positions.
pub record IsConsistent (result : DecodedUtf8Result) (limit : ℕ) : Type 0 where
  pub accounts :
      IsAccounted result.selected_sources result.scanned_sources result.gap_sources
        result.scanned_bytes result.matches
        (length result.items)
        limit
        result.scan_complete
        result.complete_negative
        result.stop
  pub order : Pairwise Precedes result.items
  pub cited : All IsCited result.items
  pub matches : matches_in result.items ≤ result.matches
  pub gaps : length result.items - matches_in result.items ≤ result.gap_sources

pub validate_decoded_result-Ensures :
    (result : DecodedUtf8Result) (limit : ℕ)
    → Ensures (λ _. IsConsistent result limit) (validate_decoded_result result limit)
unfolding validate_decoded_result
validate_decoded_result-Ensures result limit =
    Ensures-bind _ _ (Ensures-ok_or _ _ (checked_add-eq result.matches result.gap_sources))
      λ total sum. Ensures-refuse_if _ _ _ λ fine.
        Ensures-bind _ _ (count_decoded_items-Ensures none result.items 0 0) λ counts counted.
          Ensures-refused _ _ λ few.
            let (found, all, linked, cited) = counted in
            record {
              accounts = is_misaccounted-IsAccounted _ _ _ _ _ _ _ total _ _ _ _ fine sum;
              order = Linked-Pairwise Precedes Precedes-trans none result.items linked;
              cited = cited;
              matches = ground (arith, found);
              gaps = ground (arith, found, all);
            }

abbrev pub Holds : Bytes → DecodedUtf8Item → Type 0
Holds literal (match h) = h.text ≡ literal
Holds literal (gap g) = Unit

pub same_text-Holds :
    (literal : Bytes) (item : DecodedUtf8Item)
    → is_other_text literal item ≡ false
    → Holds literal item
same_text-Holds literal (match h) same = bytes_eq→eq h.text literal (ground arith)
same_text-Holds literal (gap g) same = tt

-- An answer to a request.
pub record IsAnswer (result : DecodedUtf8Result) (request : DecodedUtf8Request) : Type 0 where
  pub consistent : IsConsistent result request.limit
  pub selected : IsSelected request.source_ids result.selected_sources (sources_of result.items)
  pub literal : All (Holds request.literal) result.items

validate_decoded_answer-Ensures :
    (result : DecodedUtf8Result) (request : DecodedUtf8Request)
    → Ensures (λ _. IsAnswer result request) (validate_decoded_answer result request)
unfolding validate_decoded_answer
validate_decoded_answer-Ensures result request = Ensures-then _ _ λ _.
    Ensures-bind _ _ (validate_decoded_result-Ensures result request.limit) λ _ consistent.
      Ensures-refuse_if _ _ _ λ selected. Ensures-refused _ _ λ same. record {
        consistent = consistent;
        selected =
            is_unselected-IsSelected request.source_ids result.selected_sources
              (sources_of result.items) selected;
        literal =
            All-map _ _ result.items (same_text-Holds request.literal)
              (any-All (is_other_text request.literal) result.items same);
      }

-- Whatever the environment does: a decoded result that is accepted as the answer to a request has counts
-- that agree within the limit, items in one strict order that cite ranges of their sources, only sources
-- of the selection, and the literal of the request as the text of each match.
pub validate_decoded_answer-IsAnswer :
    (result : DecodedUtf8Result) (request : DecodedUtf8Request) (env env' : Env)
    → validate_decoded_answer result request env ≡ ok (tt, env')
    → IsAnswer result request
validate_decoded_answer-IsAnswer result request env env' h =
    (validate_decoded_answer-Ensures result request).at env tt env' h
