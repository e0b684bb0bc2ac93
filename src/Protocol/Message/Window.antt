-- ===== src/Protocol/Message/Window.antt =====
-- dto.rs, `WindowItem`, `WindowSummary` and `WindowPage`: what a window returns.
pub mod Entries
use eliot_search.Prelude.{
  ℕ, ◌+◌, ◌-◌, Bool, true, false, not, ◌&&◌, ◌||◌, Option, none, some, List, [], ◌∷◌, length, ltb,
  leb, ◌==◌,
}
use eliot_search.Exec.{Exec, pure, refuse_if, ◌>>=◌, ◌>>◌}
use eliot_search.Protocol.{ProtocolError, invalid_message, max_items}
use eliot_search.Protocol.Message.Text.{bool_eq, no_items}
use eliot_search.Protocol.Message.Item.{SearchItem, rank_of, validate_item, StopReason}
use eliot_search.Protocol.Message.Raw.{RawExactItem, validate_raw_item}
use eliot_search.Protocol.Message.Decoded.{DecodedUtf8Item, validate_decoded_item}
use eliot_search.Protocol.Message.Session.{validate_window_id}

pub data WindowItem : Type 0 where
  search : SearchItem → WindowItem
  raw : RawExactItem → WindowItem
  decoded_utf8 : DecodedUtf8Item → WindowItem

unfoldable pub validate_window_item : WindowItem → ℕ → Exec ProtocolError (Unit {0})
validate_window_item (search item) generation = validate_item item generation
validate_window_item (raw item) generation = validate_raw_item item
validate_window_item (decoded_utf8 item) generation = validate_decoded_item item

pub record WindowEntry : Type 0 where
  pub item_index : ℕ
  pub item : WindowItem

pub record WindowSummary : Type 0 where
  pub generation : ℕ
  pub retained_items : ℕ
  pub found_matches : Option ℕ
  pub scan_complete : Option Bool
  pub complete_negative : Option Bool
  pub result_stop : StopReason

pub record WindowPage : Type 0 where
  pub window_id : ℕ
  pub summary : WindowSummary
  pub start_index : ℕ
  pub next_index : ℕ
  pub items : List WindowEntry
  pub has_more : Bool
  pub page_stop : StopReason

abbrev pub is_none {ℓ} : {A : Type ℓ} → Option A → Bool
is_none none = true
is_none (some a) = false

-- `flag == Some(true)` and `count == Some(n)`.
abbrev pub is_true : Option Bool → Bool
is_true none = false
is_true (some b) = b

abbrev pub is_count : Option ℕ → ℕ → Bool
is_count none n = false
is_count (some m) n = m == n

-- All three facts of an exact search, or none of them.
abbrev pub has_all_or_none : WindowSummary → Bool
has_all_or_none s =
    (is_none s.found_matches && is_none s.scan_complete && is_none s.complete_negative)
    || (not (is_none s.found_matches)
        && not (is_none s.scan_complete)
        && not (is_none s.complete_negative))

abbrev pub is_false_negative : Option Bool → WindowSummary → Bool
is_false_negative none s = false
is_false_negative (some negative) s =
    not (bool_eq negative (is_true s.scan_complete && is_count s.found_matches 0))

unfoldable pub is_inconsistent : WindowPage → Bool
is_inconsistent page =
    page.summary.generation == 0
    || ltb max_items page.summary.retained_items
    || ltb page.next_index page.start_index
    || ltb page.summary.retained_items page.next_index
    || not (page.next_index - page.start_index == length page.items)
    || not (bool_eq page.has_more (ltb page.next_index page.summary.retained_items))
    || (no_items page.items && page.has_more)
    || not (has_all_or_none page.summary)
    || is_false_negative page.summary.complete_negative page.summary

abbrev pub is_search : WindowItem → Bool
is_search (search item) = true
is_search _ = false

-- A ranked item stands at another place than its rank.
abbrev pub is_misranked : WindowItem → ℕ → Bool
is_misranked (search item) index = not (rank_of item == index + 1)
is_misranked _ index = false

-- The loop over the entries; `index` is that of the first of them.
unfoldable pub validate_entries :
    WindowSummary → ℕ → List WindowEntry → Exec ProtocolError (Unit {0})
unfolding validate_window_item
validate_entries summary index [] = pure tt
validate_entries summary index (entry ∷ entries) = do
  refuse_if (not (entry.item_index == index)) invalid_message
  validate_window_item entry.item summary.generation
  refuse_if (not (bool_eq (is_search entry.item) (is_none summary.found_matches))) invalid_message
  refuse_if (is_misranked entry.item entry.item_index) invalid_message
  validate_entries summary (index + 1) entries

unfoldable pub validate_page : WindowPage → Exec ProtocolError (Unit {0})
unfolding is_inconsistent validate_entries
validate_page page = do
  validate_window_id page.window_id
  refuse_if (is_inconsistent page) invalid_message
  validate_entries page.summary page.start_index page.items
