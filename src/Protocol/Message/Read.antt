-- ===== src/Protocol/Message/Read.antt =====
-- dto.rs, the `Deserialize` that it writes out: `deserialize_items`, `FailureCode` and `QueryOutcome`, and
-- where the derived ones of the types around call them. A value that is not yet deserialized is what the
-- derived code reads of it, with its sequences whole and its codes as any text.
pub mod Valid
pub mod Whole
use eliot_search.Prelude.{ℕ, List, [], ◌∷◌, ◌++◌, Bytes, length, ltb, if◌then◌else◌}
use eliot_search.Exec.{Exec, pure, fail, reserve_with, ◌>>=◌, ◌>>◌}
use eliot_search.Protocol.{ProtocolError, invalid_message, max_items}
use eliot_search.Protocol.Message.Text.{FailureCode, new_failure_code}
use eliot_search.Protocol.Message.Item.{SearchItem, StopReason}
use eliot_search.Protocol.Message.Raw.{RawExactItem, RawExactResult}
use eliot_search.Protocol.Message.Decoded.{DecodedUtf8Item, DecodedUtf8Result}
use eliot_search.Protocol.Message.Terminal.{QueryOutcome, Terminal}
use eliot_search.Protocol.Message.Window.{WindowItem, WindowEntry, WindowPage}
use eliot_search.Protocol.Message.Reply.{SessionOutcome, SessionReply}

-- `FailureCode::deserialize`; every failure of a deserializer is an invalid message.
unfoldable pub deserialize_code : Bytes → Exec ProtocolError FailureCode
deserialize_code code = new_failure_code code

-- `Items::visit_seq`, with what `next` makes of an element: the items so far are the last argument.
unfoldable pub visit_seq :
    {A : Type 0} → (A → Exec ProtocolError A) → List A → List A → Exec ProtocolError (List A)
visit_seq next [] items = pure items
visit_seq next (element ∷ seq) items =
    if ltb (length items) max_items
    then (next element >>= λ item.
        reserve_with invalid_message >>= λ _. visit_seq next seq (items ++ item ∷ []))
    else fail invalid_message

unfoldable pub deserialize_items :
    {A : Type 0} → (A → Exec ProtocolError A) → List A → Exec ProtocolError (List A)
unfolding visit_seq
deserialize_items next seq = visit_seq next seq []

unfoldable pub deserialize_search_item : SearchItem → Exec ProtocolError SearchItem
unfolding deserialize_code
deserialize_search_item (SearchItem.hit h) = pure (SearchItem.hit h)
deserialize_search_item (SearchItem.gap g) = do
  code ← deserialize_code g.code
  pure (SearchItem.gap (record g { code = code }))

unfoldable pub deserialize_raw_item : RawExactItem → Exec ProtocolError RawExactItem
unfolding deserialize_code
deserialize_raw_item (RawExactItem.match h) = pure (RawExactItem.match h)
deserialize_raw_item (RawExactItem.gap g) = do
  code ← deserialize_code g.code
  pure (RawExactItem.gap (record g { code = code }))

unfoldable pub deserialize_decoded_item : DecodedUtf8Item → Exec ProtocolError DecodedUtf8Item
unfolding deserialize_code
deserialize_decoded_item (DecodedUtf8Item.match h) = pure (DecodedUtf8Item.match h)
deserialize_decoded_item (DecodedUtf8Item.gap g) = do
  code ← deserialize_code g.code
  pure (DecodedUtf8Item.gap (record g { code = code }))

unfoldable pub deserialize_raw_result : RawExactResult → Exec ProtocolError RawExactResult
unfolding deserialize_items deserialize_raw_item
deserialize_raw_result result = do
  items ← deserialize_items deserialize_raw_item result.items
  pure (record result { items = items })

unfoldable pub deserialize_decoded_result : DecodedUtf8Result → Exec ProtocolError DecodedUtf8Result
unfolding deserialize_items deserialize_decoded_item
deserialize_decoded_result result = do
  items ← deserialize_items deserialize_decoded_item result.items
  pure (record result { items = items })

-- The `DecodedOutcome` of `QueryOutcome::deserialize`.
pub data DecodedOutcome : Type 0 where
  complete : ℕ → List SearchItem → StopReason → DecodedOutcome
  raw_exact : RawExactResult → DecodedOutcome
  decoded_utf8 : DecodedUtf8Result → DecodedOutcome
  cancelled : DecodedOutcome
  failed : Bytes → DecodedOutcome

pub record DecodedTerminal : Type 0 where
  pub request_id : ℕ
  pub outcome : DecodedOutcome

-- `QueryOutcome::deserialize`
unfoldable pub deserialize_outcome : DecodedOutcome → Exec ProtocolError QueryOutcome
unfolding deserialize_items deserialize_search_item deserialize_raw_result
    deserialize_decoded_result deserialize_code
deserialize_outcome (complete generation seq stop) = do
  items ← deserialize_items deserialize_search_item seq
  pure (QueryOutcome.complete generation items stop)
deserialize_outcome (raw_exact r) = do
  result ← deserialize_raw_result r
  pure (QueryOutcome.raw_exact result)
deserialize_outcome (decoded_utf8 r) = do
  result ← deserialize_decoded_result r
  pure (QueryOutcome.decoded_utf8 result)
deserialize_outcome cancelled = pure QueryOutcome.cancelled
deserialize_outcome (failed text) = do code ← deserialize_code text; pure (QueryOutcome.failed code)

unfoldable pub deserialize_terminal : DecodedTerminal → Exec ProtocolError Terminal
unfolding deserialize_outcome
deserialize_terminal terminal = do
  outcome ← deserialize_outcome terminal.outcome
  pure (record { request_id = terminal.request_id; outcome = outcome })

unfoldable pub deserialize_window_item : WindowItem → Exec ProtocolError WindowItem
unfolding deserialize_search_item deserialize_raw_item deserialize_decoded_item
deserialize_window_item (WindowItem.search i) = do
  item ← deserialize_search_item i
  pure (WindowItem.search item)
deserialize_window_item (WindowItem.raw i) = do
  item ← deserialize_raw_item i
  pure (WindowItem.raw item)
deserialize_window_item (WindowItem.decoded_utf8 i) = do
  item ← deserialize_decoded_item i
  pure (WindowItem.decoded_utf8 item)

unfoldable pub deserialize_entry : WindowEntry → Exec ProtocolError WindowEntry
unfolding deserialize_window_item
deserialize_entry entry = do
  item ← deserialize_window_item entry.item
  pure (record entry { item = item })

unfoldable pub deserialize_page : WindowPage → Exec ProtocolError WindowPage
unfolding deserialize_items deserialize_entry
deserialize_page page = do
  items ← deserialize_items deserialize_entry page.items
  pure (record page { items = items })

unfoldable pub deserialize_session_outcome : SessionOutcome → Exec ProtocolError SessionOutcome
unfolding deserialize_page deserialize_code
deserialize_session_outcome (SessionOutcome.page p) = do
  page ← deserialize_page p
  pure (SessionOutcome.page page)
deserialize_session_outcome (SessionOutcome.failed text) = do
  code ← deserialize_code text
  pure (SessionOutcome.failed code)
deserialize_session_outcome outcome = pure outcome

unfoldable pub deserialize_reply : SessionReply → Exec ProtocolError SessionReply
unfolding deserialize_session_outcome
deserialize_reply reply = do
  outcome ← deserialize_session_outcome reply.outcome
  pure (record reply { outcome = outcome })
