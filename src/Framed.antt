-- ===== src/Framed.antt =====
-- framed_search/window.rs of the daemon: the retained items of a query and the cursor over them. The
-- pinned view, the root and the expiry of a window are read through the environment only.
pub mod Pages
pub mod Rounds
pub mod Open
use eliot_search.Prelude.{
  ℕ, zero, suc, ◌+◌, ◌-◌, min, Bool, true, false, not, ◌&&◌, ◌||◌, List, [], ◌∷◌, Bytes, length,
  take, drop, ltb, leb, ◌==◌, if◌then◌else◌,
}
use eliot_search.Exec.{Env, Exec, Result, ok, err, pure, fail, refuse_if, reserve_with, ◌>>=◌, ◌>>◌}
use eliot_search.Protocol.{ProtocolError, frame_too_large, session_window_id}
use eliot_search.Protocol.Message.Item.{StopReason}
use eliot_search.Protocol.Message.Window.{WindowItem, WindowEntry, WindowSummary, WindowPage}
use eliot_search.Protocol.Message.Reply.{SessionOutcome, SessionReply}
use eliot_search.Protocol.Frames.{Serializer, encode_session_reply}
use eliot_search.Exact.{QueryFailure, code, query_allocation_failed, check}
use eliot_search.Exact.RawExact.{refuse}

pub record PreparedPage : Type 0 where
  pub bytes : Bytes
  pub expected_cursor : ℕ
  pub next_cursor : ℕ

pub record Window : Type 0 where
  pub items : List WindowItem
  pub summary : WindowSummary
  pub cursor : ℕ

-- "WINDOW_ITEM_TOO_LARGE"
abbrev pub window_item_too_large : QueryFailure
window_item_too_large = code (
    87 ∷ 73 ∷ 78 ∷ 68 ∷ 79 ∷ 87 ∷ 95 ∷ 73 ∷ 84 ∷ 69 ∷ 77 ∷ 95 ∷ 84 ∷ 79 ∷ 79 ∷ 95 ∷ 76 ∷ 65 ∷ 82
    ∷ 71 ∷ 69 ∷ [])

-- "WINDOW_CURSOR_STALE"
abbrev pub window_cursor_stale : QueryFailure
window_cursor_stale = code (
    87 ∷ 73 ∷ 78 ∷ 68 ∷ 79 ∷ 87 ∷ 95 ∷ 67 ∷ 85 ∷ 82 ∷ 83 ∷ 79 ∷ 82 ∷ 95 ∷ 83 ∷ 84 ∷ 65 ∷ 76 ∷ 69
    ∷ [])

-- "WINDOW_ITEM_LIMIT"
abbrev pub window_item_limit : QueryFailure
window_item_limit =
    code (87 ∷ 73 ∷ 78 ∷ 68 ∷ 79 ∷ 87 ∷ 95 ∷ 73 ∷ 84 ∷ 69 ∷ 77 ∷ 95 ∷ 76 ∷ 73 ∷ 77 ∷ 73 ∷ 84 ∷ [])

-- The items from a place on, with their places.
abbrev pub entries_of : ℕ → List WindowItem → List WindowEntry
entries_of index [] = []
entries_of index (item ∷ items) =
    record { item_index = index; item = item } ∷ entries_of (index + 1) items

-- The outcome of an operation as a value. What looks come after a failure is up to the environment, as
-- is what looks it took.
abbrev pub caught :
    {A : Type 0}
    → Env
    → Result ProtocolError (A × Env)
    → Result QueryFailure (Result ProtocolError A × Env)
caught env (ok (a, env')) = ok (ok a, env')
caught env (err e) = ok (err e, env)

unfoldable pub attempt :
    {A : Type 0} → Exec ProtocolError A → Exec QueryFailure (Result ProtocolError A)
attempt m env = caught env (m env)

abbrev pub reply_of : ℕ → WindowPage → SessionReply
reply_of request_id page = record { request_id = request_id; outcome = SessionOutcome.page page }

-- `page.items.pop()` of n + 1 items, and what is set with it.
abbrev pub popped : ℕ → WindowPage → WindowPage
popped n page = record page {
  items = take n page.items;
  next_index = page.next_index - 1;
  has_more = true;
  page_stop = StopReason.output_limit;
}

abbrev pub prepared_of : WindowPage → Bytes → PreparedPage
prepared_of page bytes = record {
  bytes = bytes;
  expected_cursor = page.start_index;
  next_cursor = page.next_index;
}

-- What follows on an encoding: `smaller` is what is done where the frame is too large.
unfoldable pub settle_page :
    WindowPage
    → Exec QueryFailure PreparedPage
    → Result ProtocolError Bytes
    → Exec QueryFailure PreparedPage
settle_page page smaller (ok bytes) = pure (prepared_of page bytes)
settle_page page smaller (err frame_too_large) = smaller
settle_page page smaller (err e) = fail (refuse e)

module _ (json : Serializer SessionReply) where
  -- The loop over ever shorter pages; the number is that of the items.
  unfoldable pub offer : ℕ → ℕ → WindowPage → Exec QueryFailure PreparedPage
  unfolding attempt settle_page
  offer zero request_id page = do
    check
    encoded ← attempt (encode_session_reply json (reply_of request_id page))
    check
    settle_page page (fail window_item_too_large) encoded
  offer (suc n) request_id page = do
    check
    encoded ← attempt (encode_session_reply json (reply_of request_id page))
    check
    let rest = offer n request_id (popped n page)
    settle_page page (if n == 0 then fail window_item_too_large else rest) encoded

  unfoldable pub page : Window → ℕ → ℕ → Exec QueryFailure PreparedPage
  unfolding offer
  page window request_id page_size = do
    check
    let end = min (length window.items) (window.cursor + page_size)
    reserve_with query_allocation_failed
    refuse_if (ltb 255 end) window_item_limit
    let count = end - window.cursor
    offer count request_id (record {
      window_id = session_window_id;
      summary = window.summary;
      start_index = window.cursor;
      next_index = end;
      items = entries_of window.cursor (take count (drop window.cursor window.items));
      has_more = ltb end (length window.items);
      page_stop = StopReason.complete;
    })

unfoldable pub commit_page : ℕ → ℕ → Window → Result QueryFailure Window
commit_page expected next window =
    if not (window.cursor == expected) || ltb next expected || ltb (length window.items) next
    then err window_cursor_stale
    else ok (record window { cursor = next })
