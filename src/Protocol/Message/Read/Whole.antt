-- ===== src/Protocol/Message/Read/Whole.antt =====
-- What the deserializers make of a terminal and of a reply that are valid.
use eliot_search.Prelude.{ℕ, ◌+◌, ◌≡◌, refl, List, [], ◌∷◌, All, arith, Bytes}
use eliot_search.Exec.{Env, ok, calm, pure}
use eliot_search.Exec.Ensures.{
  Ensures, Ensures-pure, Ensures-given, Ensures-bind, Ensures-then, Ensures-refuse_if,
  Ensures-weaken, bind-at,
}
use eliot_search.Protocol.{max_items}
use eliot_search.Protocol.Message.Text.{new_failure_code}
use eliot_search.Protocol.Message.Item.{SearchItem}
use eliot_search.Protocol.Message.Raw.Ordered as RawOrdered
use eliot_search.Protocol.Message.Decoded.Ordered as DecodedOrdered
use eliot_search.Protocol.Message.Terminal.{
  QueryOutcome, Terminal, validate_ranked, validate_outcome, validate_terminal,
}
use eliot_search.Protocol.Message.Window.{
  WindowItem, WindowEntry, WindowSummary, WindowPage, validate_window_item, validate_entries,
  validate_page,
}
use eliot_search.Protocol.Message.Window.Entries.{validate_page-Ensures}
use eliot_search.Protocol.Message.Reply.{
  SessionOutcome, SessionReply, validate_session_outcome, validate_session_reply,
}
use eliot_search.Protocol.Message.Read.{
  deserialize_code, deserialize_items, deserialize_search_item, deserialize_raw_item,
  deserialize_decoded_item, deserialize_raw_result, deserialize_decoded_result, DecodedOutcome,
  DecodedTerminal, deserialize_outcome, deserialize_terminal, deserialize_window_item,
  deserialize_entry, deserialize_page, deserialize_session_outcome, deserialize_reply,
}
use eliot_search.Protocol.Message.Read.Valid.{
  IsKeptBy, deserialize_items-calm, validate_item-kept, raw_item-kept, decoded_item-kept,
  raw_result-kept, decoded_result-kept,
}

-- A code that `FailureCode::new` accepts, as every value of the type does.
abbrev pub IsFailureCode : Bytes → Type 0
IsFailureCode code = new_failure_code code calm ≡ ok (code, calm)

abbrev pub HasCode : QueryOutcome → Type 0
HasCode (QueryOutcome.failed code) = IsFailureCode code
HasCode _ = Unit

abbrev pub HasReplyCode : SessionOutcome → Type 0
HasReplyCode (SessionOutcome.failed code) = IsFailureCode code
HasReplyCode _ = Unit

-- A terminal, as its derived serialization spells it.
abbrev pub spelled_outcome : QueryOutcome → DecodedOutcome
spelled_outcome (QueryOutcome.complete generation items stop) =
    DecodedOutcome.complete generation items stop
spelled_outcome (QueryOutcome.raw_exact result) = DecodedOutcome.raw_exact result
spelled_outcome (QueryOutcome.decoded_utf8 result) = DecodedOutcome.decoded_utf8 result
spelled_outcome QueryOutcome.cancelled = DecodedOutcome.cancelled
spelled_outcome (QueryOutcome.failed code) = DecodedOutcome.failed code

abbrev pub spelled : Terminal → DecodedTerminal
spelled terminal = record {
  request_id = terminal.request_id;
  outcome = spelled_outcome terminal.outcome;
}

validate_ranked-kept :
    (generation index : ℕ) (seen : List Bytes) (items : List SearchItem)
    → Ensures
        (λ _. All (IsKeptBy deserialize_search_item) items)
        (validate_ranked generation index seen items)
unfolding validate_ranked
validate_ranked-kept generation index seen [] = Ensures-pure tt tt
validate_ranked-kept generation index seen (item ∷ items) = Ensures-then _ _ λ _.
    Ensures-bind _ _ (validate_item-kept item generation) λ _ kept.
      Ensures-weaken _ (validate_ranked-kept generation (index + 1) _ items) λ _ rest. (kept, rest)

outcome-kept :
    (outcome : QueryOutcome)
    → HasCode outcome
    → Ensures
        (λ _. deserialize_outcome (spelled_outcome outcome) calm ≡ ok (outcome, calm))
        (validate_outcome outcome max_items)
unfolding validate_outcome deserialize_outcome deserialize_code pure
outcome-kept (QueryOutcome.complete generation items stop) h = Ensures-refuse_if _ _ _ λ few.
    Ensures-weaken _ (validate_ranked-kept generation 0 [] items) λ _ kept.
      bind-at (deserialize_items deserialize_search_item items) _
        (deserialize_items-calm deserialize_search_item items kept (ground arith))
outcome-kept (QueryOutcome.raw_exact result) h =
    Ensures-weaken _ (RawOrdered.validate_raw_result-Ensures result max_items) λ _ consistent.
      bind-at (deserialize_raw_result result) _ (raw_result-kept result max_items consistent)
outcome-kept (QueryOutcome.decoded_utf8 result) h =
    Ensures-weaken _ (DecodedOrdered.validate_decoded_result-Ensures result max_items)
      λ _ consistent.
        bind-at (deserialize_decoded_result result) _
          (decoded_result-kept result max_items consistent)
outcome-kept QueryOutcome.cancelled h = Ensures-given _ refl
outcome-kept (QueryOutcome.failed code) h = Ensures-given _ (bind-at (new_failure_code code) _ h)

pub deserialize_terminal-valid :
    (terminal : Terminal) (env env' : Env)
    → HasCode terminal.outcome
    → validate_terminal terminal max_items env ≡ ok (tt, env')
    → deserialize_terminal (spelled terminal) calm ≡ ok (terminal, calm)
unfolding deserialize_terminal validate_terminal pure
deserialize_terminal-valid terminal env env' code valid =
    let kept : Ensures
        (λ _.
          deserialize_outcome (spelled_outcome terminal.outcome) calm ≡ ok (terminal.outcome, calm))
        (validate_terminal terminal max_items) =
      Ensures-then _ _ λ _. Ensures-then _ _ λ _. outcome-kept terminal.outcome code in
    bind-at (deserialize_outcome (spelled_outcome terminal.outcome)) _ (kept.at env tt env' valid)

window_item-kept :
    (item : WindowItem) (generation : ℕ)
    → Ensures (λ _. IsKeptBy deserialize_window_item item) (validate_window_item item generation)
unfolding validate_window_item deserialize_window_item pure
window_item-kept (WindowItem.search item) generation =
    Ensures-weaken _ (validate_item-kept item generation)
      λ _ kept. bind-at (deserialize_search_item item) _ kept
window_item-kept (WindowItem.raw item) generation =
    Ensures-weaken _ (RawOrdered.validate_raw_item-Ensures item)
      λ _ cited. bind-at (deserialize_raw_item item) _ (raw_item-kept item cited)
window_item-kept (WindowItem.decoded_utf8 item) generation =
    Ensures-weaken _ (DecodedOrdered.validate_decoded_item-Ensures item)
      λ _ cited. bind-at (deserialize_decoded_item item) _ (decoded_item-kept item cited)

entries-kept :
    (summary : WindowSummary) (index : ℕ) (entries : List WindowEntry)
    → Ensures
        (λ _. All (IsKeptBy deserialize_entry) entries)
        (validate_entries summary index entries)
unfolding validate_entries deserialize_entry pure
entries-kept summary index [] = Ensures-pure tt tt
entries-kept summary index (entry ∷ entries) = Ensures-then _ _ λ _.
    Ensures-bind _ _ (window_item-kept entry.item summary.generation) λ _ kept.
      Ensures-then _ _ λ _. Ensures-then _ _ λ _.
        Ensures-weaken _ (entries-kept summary (index + 1) entries)
          λ _ rest. (bind-at (deserialize_window_item entry.item) _ kept, rest)

page-kept : (page : WindowPage) → Ensures (λ _. IsKeptBy deserialize_page page) (validate_page page)
unfolding validate_page deserialize_page pure
page-kept page = record {
  at = λ env done env' valid.
      let is_page = (validate_page-Ensures page).at env done env' valid in
      let entries : Ensures (λ _. All (IsKeptBy deserialize_entry) page.items)
          (validate_page page) =
        Ensures-then _ _
          λ _. Ensures-then _ _ λ _. entries-kept page.summary page.start_index page.items in
      bind-at (deserialize_items deserialize_entry page.items) _ (
        deserialize_items-calm deserialize_entry page.items (entries.at env done env' valid)
          (omega (arith, is_page.next, is_page.inside)));
}

session_outcome-kept :
    (outcome : SessionOutcome)
    → HasReplyCode outcome
    → Ensures (λ _. IsKeptBy deserialize_session_outcome outcome) (validate_session_outcome outcome)
unfolding validate_session_outcome deserialize_session_outcome deserialize_code pure
session_outcome-kept (SessionOutcome.page page) h =
    Ensures-weaken _ (page-kept page) λ _ kept. bind-at (deserialize_page page) _ kept
session_outcome-kept (SessionOutcome.expanded x) h = Ensures-given _ refl
session_outcome-kept SessionOutcome.closed h = Ensures-given _ refl
session_outcome-kept SessionOutcome.expired h = Ensures-given _ refl
session_outcome-kept SessionOutcome.cancelled h = Ensures-given _ refl
session_outcome-kept (SessionOutcome.failed code) h =
    Ensures-given _ (bind-at (new_failure_code code) _ h)

pub deserialize_reply-valid :
    (reply : SessionReply) (env env' : Env)
    → HasReplyCode reply.outcome
    → validate_session_reply reply env ≡ ok (tt, env')
    → deserialize_reply reply calm ≡ ok (reply, calm)
unfolding deserialize_reply validate_session_reply pure
deserialize_reply-valid reply env env' code valid =
    let kept : Ensures (λ _. IsKeptBy deserialize_session_outcome reply.outcome)
        (validate_session_reply reply) =
      Ensures-then _ _ λ _. session_outcome-kept reply.outcome code in
    bind-at (deserialize_session_outcome reply.outcome) _ (kept.at env tt env' valid)
