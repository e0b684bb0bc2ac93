-- ===== src/Protocol/Message/Page/Ordered.antt =====
-- The items of a window stand in one strict order over all of its pages.
use eliot_search.Prelude.{
  ℕ, ◌≤◌, ◌<◌, ◌≡◌, inl, inr, refl, subst, Bool, true, false, Option, none, some, List, [], ◌∷◌,
  ◌++◌, arith, Bytes, length, All, bytes_eq→eq, ltb→le, or_false, not-false, not_eq_false,
  Bool-cases,
}
use eliot_search.Exec.{Env, ok}
use eliot_search.Exec.Ensures.{
  Ensures, Ensures-pure, Ensures-fail, Ensures-bind, Ensures-then, Ensures-refuse_if,
  Ensures-refused, Ensures-weaken,
}
use eliot_search.Protocol.Message.Text.{bytes_lt}
use eliot_search.Protocol.Message.Order.{Pairwise, Follows, Linked, Linked-Pairwise}
use eliot_search.Protocol.Message.Lookup.{Occurs, contains-Occurs}
use eliot_search.Protocol.Message.Object.{RawSourceRef}
use eliot_search.Protocol.Message.Object.Same.{source_eq→eq}
use eliot_search.Protocol.Message.Item.{rank_of}
use eliot_search.Protocol.Message.Raw.{raw_source}
use eliot_search.Protocol.Message.Raw.Ordered as RawOrdered
use eliot_search.Protocol.Message.Raw.Ordered.{PrecedesBy, PrecedesBy-trans}
use eliot_search.Protocol.Message.Raw.Literal as RawLiteral
use eliot_search.Protocol.Message.Decoded.{decoded_source}
use eliot_search.Protocol.Message.Decoded.Ordered as DecodedOrdered
use eliot_search.Protocol.Message.Session.{WindowQuery, limit_of}
use eliot_search.Protocol.Message.Window.{
  WindowItem, search, raw, decoded_utf8, WindowEntry, WindowPage,
}
use eliot_search.Protocol.Message.Window.Entries.{
  IsSound, validate_window_item-Ensures, IsPage, validate_page-Ensures,
}
use eliot_search.Protocol.Message.Page.{
  is_outside, match_query, validate_item_request, follows_source, is_ordered, Tally, fresh_tally,
  count_item, validate_order, tally_entries, validate_page_request,
}

-- One item of a window stands before another.
abbrev pub Before : WindowItem → WindowItem → Type 0
Before (search a) (search b) = rank_of a < rank_of b
Before (raw a) (raw b) = RawOrdered.Precedes a b
Before (decoded_utf8 a) (decoded_utf8 b) = DecodedOrdered.Precedes a b
Before _ _ = ⊥

Before-trans : (x y z : WindowItem) → Before x y → Before y z → Before x z
Before-trans (search a) (search b) (search c) h k = omega arith
Before-trans (search a) (search b) (raw c) h k = absurd k
Before-trans (search a) (search b) (decoded_utf8 c) h k = absurd k
Before-trans (search a) (raw b) z h k = absurd h
Before-trans (search a) (decoded_utf8 b) z h k = absurd h
Before-trans (raw a) (search b) z h k = absurd h
Before-trans (raw a) (raw b) (search c) h k = absurd k
Before-trans (raw a) (raw b) (raw c) h k = RawOrdered.Precedes-trans a b c h k
Before-trans (raw a) (raw b) (decoded_utf8 c) h k = absurd k
Before-trans (raw a) (decoded_utf8 b) z h k = absurd h
Before-trans (decoded_utf8 a) (search b) z h k = absurd h
Before-trans (decoded_utf8 a) (raw b) z h k = absurd h
Before-trans (decoded_utf8 a) (decoded_utf8 b) (search c) h k = absurd k
Before-trans (decoded_utf8 a) (decoded_utf8 b) (raw c) h k = absurd k
Before-trans (decoded_utf8 a) (decoded_utf8 b) (decoded_utf8 c) h k =
    DecodedOrdered.Precedes-trans a b c h k

follows_source-PrecedesBy :
    (left right : RawSourceRef) (before : Bool)
    → follows_source left right before ≡ true
    → PrecedesBy left right before
follows_source-PrecedesBy left right before h = (
  bytes_eq→eq left.source_namespace_id right.source_namespace_id (ground arith),
  elim (Bool-cases (bytes_lt left.source_id right.source_id)) [
    | inl less ↦ inl less
    | inr over ↦ inr (source_eq→eq left right (ground arith), ground arith)
  ],
)

ordered-Before : (a b : WindowItem) → is_ordered a b ≡ true → Before a b
unfolding is_ordered
ordered-Before (search a) (search b) h = ground arith
ordered-Before (search a) (raw b) h = absurd (cc)
ordered-Before (search a) (decoded_utf8 b) h = absurd (cc)
ordered-Before (raw a) (search b) h = absurd (cc)
ordered-Before (raw a) (raw b) h = follows_source-PrecedesBy _ _ _ h
ordered-Before (raw a) (decoded_utf8 b) h = absurd (cc)
ordered-Before (decoded_utf8 a) (search b) h = absurd (cc)
ordered-Before (decoded_utf8 a) (raw b) h = absurd (cc)
ordered-Before (decoded_utf8 a) (decoded_utf8 b) h = follows_source-PrecedesBy _ _ _ h

-- The source is among those selected, if there is a selection.
abbrev pub IsInside : Option (List Bytes) → RawSourceRef → Type 0
IsInside none s = Unit
IsInside (some ids) s = Occurs ids s.source_id

-- An item that the query asks for.
abbrev pub Answers : WindowQuery → WindowItem → Type 0
Answers (WindowQuery.search request) (search item) = Unit
Answers (WindowQuery.raw request) (raw item) =
    RawLiteral.Holds request.literal item × IsInside request.source_ids (raw_source item)
Answers (WindowQuery.decoded_utf8 request) (decoded_utf8 item) =
    DecodedOrdered.Holds request.literal item × IsInside request.source_ids (decoded_source item)
Answers _ _ = ⊥

is_outside-IsInside :
    (ids : Option (List Bytes)) (s : RawSourceRef) → is_outside ids s ≡ false → IsInside ids s
is_outside-IsInside none s h = tt
is_outside-IsInside (some ids) s h = contains-Occurs ids s.source_id (not-false _ h)

match_query-Ensures :
    (item : WindowItem) (query : WindowQuery) (generation : ℕ)
    → IsSound generation item
    → Ensures (λ _. Answers query item) (match_query item query)
unfolding match_query
match_query-Ensures (search item) (WindowQuery.search request) generation sound = Ensures-pure tt tt
match_query-Ensures (search item) (WindowQuery.raw request) generation sound = Ensures-fail _
match_query-Ensures (search item) (WindowQuery.decoded_utf8 request) generation sound =
    Ensures-fail _
match_query-Ensures (raw item) (WindowQuery.search request) generation sound = Ensures-fail _
match_query-Ensures (raw item) (WindowQuery.raw request) generation sound =
    Ensures-refuse_if _ _ _ λ same. Ensures-refused _ _ λ inside.
      (RawLiteral.cited-Holds request.literal item (sound, same), is_outside-IsInside _ _ inside)
match_query-Ensures (raw item) (WindowQuery.decoded_utf8 request) generation sound = Ensures-fail _
match_query-Ensures (decoded_utf8 item) (WindowQuery.search request) generation sound =
    Ensures-fail _
match_query-Ensures (decoded_utf8 item) (WindowQuery.raw request) generation sound = Ensures-fail _
match_query-Ensures (decoded_utf8 item) (WindowQuery.decoded_utf8 request) generation sound =
    Ensures-refuse_if _ _ _ λ same. Ensures-refused _ _ λ inside.
      (DecodedOrdered.same_text-Holds request.literal item same, is_outside-IsInside _ _ inside)

validate_item_request-Ensures :
    (item : WindowItem) (query : WindowQuery) (generation : ℕ)
    → Ensures (λ _. Answers query item) (validate_item_request item query generation)
unfolding validate_item_request
validate_item_request-Ensures item query generation =
    Ensures-bind _ _ (validate_window_item-Ensures item generation)
      λ _ sound. match_query-Ensures item query generation sound

validate_order-Ensures :
    (previous : Option WindowItem) (item : WindowItem)
    → Ensures (λ _. Follows Before previous item) (validate_order previous item)
unfolding validate_order
validate_order-Ensures none item = Ensures-pure tt tt
validate_order-Ensures (some left) item =
    Ensures-refused _ _ λ h. ordered-Before left item (not-false _ h)

-- Counting an item leaves the item before it alone.
count_item-Ensures :
    (item : WindowItem) (t : Tally) → Ensures (λ t'. t'.previous ≡ t.previous) (count_item item t)
unfolding count_item
count_item-Ensures (search item) t = Ensures-refuse_if _ _ _ λ h. Ensures-pure _ refl
count_item-Ensures (raw item) t = Ensures-pure _ (ground arith)
count_item-Ensures (decoded_utf8 item) t = Ensures-pure _ (ground arith)

abbrev pub items_of : List WindowEntry → List WindowItem
items_of [] = []
items_of (entry ∷ entries) = entry.item ∷ items_of entries

tally_entries-Ensures :
    (query : WindowQuery) (generation : ℕ) (entries : List WindowEntry) (t : Tally)
    → Ensures
        (λ _. Linked Before t.previous (items_of entries) × All (Answers query) (items_of entries))
        (tally_entries query generation entries t)
unfolding tally_entries
tally_entries-Ensures query generation [] t = Ensures-pure t (tt, tt)
tally_entries-Ensures query generation (entry ∷ entries) t =
    Ensures-bind _ _ (validate_item_request-Ensures entry.item query generation) λ _ answers.
      Ensures-bind _ _ (count_item-Ensures entry.item t) λ t' same.
        Ensures-bind _ _ (validate_order-Ensures t'.previous entry.item) λ _ order.
          Ensures-weaken _ (tally_entries-Ensures query generation entries _) λ _ rest.
            let order' : Follows Before t.previous entry.item =
              subst (λ p. Follows Before p entry.item) same order in
            let linked : Linked Before t.previous (items_of (entry ∷ entries)) = (order', rest.0) in
            let all : All (Answers query) (items_of (entry ∷ entries)) = (answers, rest.1) in
            (linked, all)

-- A page that continues what was emitted for a query.
pub record IsNext (page : WindowPage) (query : WindowQuery) (emitted : List WindowEntry)
    (page_size : ℕ) : Type 0 where
  pub consistent : IsPage page
  pub start : page.start_index ≡ length emitted
  pub limited : (page.summary.retained_items ≤ limit_of query) × (length page.items ≤ page_size)
  pub order : Pairwise Before (items_of (emitted ++ page.items))
  pub answers : All (Answers query) (items_of (emitted ++ page.items))

validate_page_request-Ensures :
    (page : WindowPage) (query : WindowQuery) (emitted : List WindowEntry) (page_size : ℕ)
    → Ensures
        (λ _. IsNext page query emitted page_size)
        (validate_page_request page query emitted page_size)
unfolding validate_page_request
validate_page_request-Ensures page query emitted page_size =
    Ensures-bind _ _ (validate_page-Ensures page) λ _ consistent. Ensures-then _ _ λ _.
      Ensures-then _ _ λ _. Ensures-refuse_if _ _ _ λ h.
        let (h1, _) = or_false _ _ h in
        let (h2, _) = or_false _ _ h1 in
        let (h3, few) = or_false _ _ h2 in
        let (at, limited) = or_false _ _ h3 in
        let few' = ltb→le _ _ few in
        Ensures-bind _ _
          (tally_entries-Ensures query page.summary.generation (emitted ++ page.items) fresh_tally)
          λ t found. Ensures-refused _ _ λ _. record {
            consistent = consistent;
            start = not_eq_false page.start_index (length emitted) at;
            limited = (ltb→le _ _ limited, omega arith);
            order =
                Linked-Pairwise Before Before-trans none (items_of (emitted ++ page.items))
                  (found.0);
            answers = found.1;
          }

-- Whatever the environment does: a page that is accepted behind what was emitted before starts where
-- that ends and is no longer than the page size; all items of the window so far, those emitted and those
-- of the page, stand in one strict order of ranks or of sources and positions, so that none is repeated,
-- and each is one that the query asks for, within its selection.
pub validate_page_request-IsNext :
    (page : WindowPage) (query : WindowQuery) (emitted : List WindowEntry) (page_size : ℕ)
    (env env' : Env)
    → validate_page_request page query emitted page_size env ≡ ok (tt, env')
    → IsNext page query emitted page_size
validate_page_request-IsNext page query emitted page_size env env' h =
    (validate_page_request-Ensures page query emitted page_size).at env tt env' h
