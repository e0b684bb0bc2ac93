-- ===== src/Session/Worker/Pages.antt =====
-- The window of a worker keeps its cursor within its items, and a reply with a page is of the window that
-- the worker then has.
use eliot_search.Prelude.{ℕ, ◌≤◌, ◌≡◌, refl, subst, Option, none, some, length, arith}
use eliot_search.Exec.{Exec}
use eliot_search.Exec.Ensures.{
  Ensures, Ensures-pure, Ensures-fail, Ensures-bind, Ensures-then, Ensures-weaken, Ensures-map_err,
}
use eliot_search.Protocol.Message.Session.{
  SessionClientFrame, WindowQuery, open_window, continue_window, expand,
}
use eliot_search.Protocol.Message.Session.SessionClientFrame.{cancel, close}
use eliot_search.Protocol.Message.Window.{WindowItem}
use eliot_search.Protocol.Message.Expansion.{WindowExpansion}
use eliot_search.Protocol.Message.Reply.{SessionReply}
use eliot_search.Protocol.Frames.{Serializer}
use eliot_search.Exact.{QueryFailure}
use eliot_search.Framed.{Window}
use eliot_search.Framed.Open.{Searches, opened_window}
use eliot_search.Framed.Pages.{IsWindow, page-Framed}
use eliot_search.Session.State.{Ready, Job}
use eliot_search.Session.Served.{outcome-commit}
use eliot_search.Session.Worker.{page_of, expansion_of, window_for, answer_from}

-- The cursor of the window, if there is one, stands within its items.
abbrev pub IsOpen : Option Window → Type 0
IsOpen none = Unit {0}
IsOpen (some window) = IsWindow window

-- The page is one that the window would commit.
abbrev pub IsOffered : Option Window → ℕ × ℕ → Type 0
IsOffered window (expected, next) =
    (v : Window) × (window ≡ some v)
    × (expected ≡ v.cursor)
    × (v.cursor ≤ next)
    × (next ≤ length v.items)

-- A reply with a page is of that window.
abbrev pub IsFrom : Option Window → Ready → Type 0
IsFrom window ready = (p : ℕ × ℕ) → ready.commit ≡ some p → IsOffered window p

pub plain-IsFrom :
    (window : Option Window) (ready : Ready) → ready.commit ≡ none → IsFrom window ready
plain-IsFrom window ready plain p e = absurd (cc)

module _ (searches : Searches)
    (context : ℕ → WindowItem → ℕ → ℕ → Exec QueryFailure WindowExpansion)
    (json : Serializer SessionReply) where
  page_of-IsFrom :
      (window : Option Window) (request_id size : ℕ)
      → IsOpen window
      → Ensures (IsFrom window) (page_of searches context json window request_id size)
  unfolding page_of
  page_of-IsFrom none request_id size inside = Ensures-fail _
  page_of-IsFrom (some v) request_id size inside =
      Ensures-bind
        {P = λ prepared. IsOffered (some v) (prepared.expected_cursor, prepared.next_cursor)} _ _
        (record {
          at = λ env prepared env' h.
              let (k, le, more, framed) =
                page-Framed json v request_id size prepared env env' inside h in
              let (q, next, runs) = framed.framed in
              let at_next = framed.next in
              let within = next.inside in (v, refl, framed.expected, omega arith, omega arith);
        })
        λ prepared offered. Ensures-pure _ λ p e. subst (IsOffered (some v)) (cc) offered

  expansion_of-IsFrom :
      (window : Option Window) (request_id item_index before after : ℕ)
      → Ensures
          (IsFrom window)
          (expansion_of searches context json window request_id item_index before after)
  unfolding expansion_of
  expansion_of-IsFrom none request_id item_index before after = Ensures-fail _
  expansion_of-IsFrom (some v) request_id item_index before after = Ensures-then _ _ λ expansion.
      Ensures-weaken _ (Ensures-map_err _ _ (outcome-commit json _ _ _)) (plain-IsFrom _)

  pub answer_from-IsFrom :
      (window : Option Window) (message : SessionClientFrame)
      → IsOpen window
      → Ensures (IsFrom window) (answer_from searches context json window message)
  unfolding answer_from
  answer_from-IsFrom window (open_window f) inside = page_of-IsFrom window _ _ inside
  answer_from-IsFrom window (continue_window f) inside = page_of-IsFrom window _ _ inside
  answer_from-IsFrom window (expand f) inside = expansion_of-IsFrom window _ _ _ _
  answer_from-IsFrom window (close id) inside =
      Ensures-weaken _ (Ensures-map_err _ _ (outcome-commit json _ _ _)) (plain-IsFrom _)
  answer_from-IsFrom window (cancel id) inside = Ensures-fail _

  opened_window-IsWindow : (query : WindowQuery) → Ensures IsWindow (opened_window searches query)
  unfolding opened_window
  opened_window-IsWindow query = Ensures-then _ _ λ _. Ensures-then _ _ λ _. Ensures-then _ _ λ _.
      Ensures-then _ _ λ generation.
        Ensures-then _ _
          λ retrieved. Ensures-then _ _ λ _. Ensures-then _ _ λ _. Ensures-pure _ (omega arith)

  pub window_for-IsOpen :
      (job : Job) (window : Option Window) (message : SessionClientFrame)
      → IsOpen window
      → Ensures IsOpen (window_for searches context json job window message)
  unfolding window_for
  window_for-IsOpen job window (open_window f) inside = Ensures-then _ _ λ _.
      Ensures-then _ _ λ expires.
        Ensures-bind _ _ (opened_window-IsWindow f.query) λ v inside'. Ensures-pure _ inside'
  window_for-IsOpen job window (continue_window f) inside =
      Ensures-then _ _ λ _. Ensures-pure _ inside
  window_for-IsOpen job window (expand f) inside = Ensures-then _ _ λ _. Ensures-pure _ inside
  window_for-IsOpen job window (close id) inside = Ensures-then _ _ λ _. Ensures-pure _ tt
  window_for-IsOpen job window (cancel id) inside = Ensures-then _ _ λ _. Ensures-pure _ inside
