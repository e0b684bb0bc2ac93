-- ===== src/Protocol/Message/Raw/Literal.antt =====
-- A raw result that answers a request holds the literal of the request and sources of its selection.
use eliot_search.Prelude.{
  ℕ, ◌-◌, ◌*◌, ◌/◌, ◌%◌, ◌≡◌, refl, ap₂, false, not, Option, none, some, List, [], ◌∷◌, arith,
  Bytes, length, All,
}
use eliot_search.Exec.{Env, ok}
use eliot_search.Exec.Ensures.{
  Ensures, Ensures-bind, Ensures-then, Ensures-refuse_if, Ensures-refused,
}
use eliot_search.Contracts.{hex_encode, digit}
use eliot_search.Protocol.Message.Text.{contains}
use eliot_search.Protocol.Message.Lookup.{any-All, All-map, All-zip, Occurs, contains-Occurs}
use eliot_search.Protocol.Message.Object.{RawSourceRef}
use eliot_search.Protocol.Message.Request.{RawExactRequest}
use eliot_search.Protocol.Message.Raw.{
  RawExactItem, match, gap, sources_of, RawExactResult, differs, is_other_literal, is_unselected,
  validate_raw_answer,
}
use eliot_search.Protocol.Message.Raw.Ordered.{IsCited, IsConsistent, validate_raw_result-Ensures}

pub same_digits :
    (hex literal : Bytes)
    → length hex ≡ 2 * length literal
    → differs hex literal ≡ false
    → hex ≡ hex_encode literal
unfolding hex_encode
same_digits [] [] size h = refl
same_digits [] (b ∷ bs) size h = absurd (omega arith)
same_digits (p ∷ []) [] size h = absurd (omega arith)
same_digits (p ∷ []) (b ∷ bs) size h = absurd (omega arith)
same_digits (p ∷ (q ∷ rest)) [] size h = absurd (omega arith)
same_digits (p ∷ (q ∷ rest)) (b ∷ bs) size h =
    let high : p ≡ digit (b / 16) = ground arith in
    let low : q ≡ digit (b % 16) = ground arith in
    let others : rest ≡ hex_encode bs = same_digits rest bs (omega arith) (ground arith) in
    ap₂ (λ x l. x ∷ l) high (ap₂ (λ x l. x ∷ l) low others)

-- A match holds the digits of the literal, one pair for each of its bytes.
abbrev pub Holds : Bytes → RawExactItem → Type 0
Holds literal (match h) = (h.bytes_hex ≡ hex_encode literal) × (h.end - h.start ≡ length literal)
Holds literal (gap g) = Unit

pub cited-Holds :
    (literal : Bytes) (item : RawExactItem)
    → IsCited item × (is_other_literal literal item ≡ false)
    → Holds literal item
unfolding is_other_literal
cited-Holds literal (match h) (cited, same) =
    let range : h.end - h.start ≡ length literal = ground arith in
    (same_digits h.bytes_hex literal (omega (arith, cited.2, range)) (ground arith), range)
cited-Holds literal (gap g) h = tt

-- The sources are among those selected, if there is a selection.
abbrev pub IsSelected : Option (List Bytes) → ℕ → List RawSourceRef → Type 0
IsSelected none selected sources = Unit
IsSelected (some ids) selected sources =
    (length ids ≡ selected) × All (λ s. Occurs ids s.source_id) sources

pub is_unselected-IsSelected :
    (ids : Option (List Bytes)) (selected : ℕ) (sources : List RawSourceRef)
    → is_unselected ids selected sources ≡ false
    → IsSelected ids selected sources
is_unselected-IsSelected none selected sources h = tt
is_unselected-IsSelected (some ids) selected sources h = (
  ground arith,
  All-map _ _ sources (λ s e. contains-Occurs ids s.source_id (ground arith))
      (any-All (λ s. not (contains ids s.source_id)) sources (ground arith)),
)

-- An answer to a request.
pub record IsAnswer (result : RawExactResult) (request : RawExactRequest) : Type 0 where
  pub consistent : IsConsistent result request.limit
  pub selected : IsSelected request.source_ids result.selected_sources (sources_of result.items)
  pub literal : All (Holds request.literal) result.items

pub validate_raw_answer-Ensures :
    (result : RawExactResult) (request : RawExactRequest)
    → Ensures (λ _. IsAnswer result request) (validate_raw_answer result request)
unfolding validate_raw_answer
validate_raw_answer-Ensures result request = Ensures-then _ _ λ _.
    Ensures-bind _ _ (validate_raw_result-Ensures result request.limit) λ _ consistent.
      Ensures-refuse_if _ _ _ λ selected. Ensures-refused _ _ λ same. record {
        consistent = consistent;
        selected =
            is_unselected-IsSelected request.source_ids result.selected_sources
              (sources_of result.items) selected;
        literal = All-map _ _ result.items (cited-Holds request.literal) (
            All-zip IsCited (λ item. is_other_literal request.literal item ≡ false) result.items
              consistent.cited (any-All (is_other_literal request.literal) result.items same));
      }

-- Whatever the environment does: a raw result that is accepted as the answer to a request is consistent
-- within its limit, has as many selected sources as the request selects and only sources of the
-- selection, and each match in it spells the literal of the request, byte for byte, in a range of the
-- length of the literal.
pub validate_raw_answer-IsAnswer :
    (result : RawExactResult) (request : RawExactRequest) (env env' : Env)
    → validate_raw_answer result request env ≡ ok (tt, env')
    → IsAnswer result request
validate_raw_answer-IsAnswer result request env env' h =
    (validate_raw_answer-Ensures result request).at env tt env' h
