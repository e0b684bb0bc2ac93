-- ===== src/Framed/Rounds.antt =====
-- Pages that are prepared and committed one after the other.
use eliot_search.Prelude.{
  inl, inr, ℕ, zero, suc, ◌+◌, ◌≤◌, ◌<◌, ◌≡◌, refl, ap, ◌∙◌, min, false, not, ◌||◌, arith, length,
  ltb, ltb→lt, ltb→le, ◌==◌, Bool-cases,
}
use eliot_search.Exec.{Env, ok}
use eliot_search.Protocol.Message.Reply.{SessionReply}
use eliot_search.Protocol.Frames.{Serializer}
use eliot_search.Framed.{PreparedPage, Window, page, commit_page}
use eliot_search.Framed.Pages.{IsWindow, page-Framed}

-- The window with the cursor moved.
abbrev pub moved : Window → ℕ → Window
moved window next = record window { cursor = next }

-- Windows that follow each other by as many rounds, in each of which a page of at least one item was
-- asked for, prepared in some environment and committed.
pub data Rounds (json : Serializer SessionReply) : ℕ → Window → Window → Type 0 where
  done : (window : Window) → Rounds json 0 window window
  round :
      {n : ℕ} {window window' last : Window} (request_id page_size : ℕ) (prepared : PreparedPage)
      (env env' : Env)
      → 0 < page_size
      → page json window request_id page_size env ≡ ok (prepared, env')
      → commit_page prepared.expected_cursor prepared.next_cursor window ≡ ok window'
      → Rounds json n window' last
      → Rounds json (suc n) window last

-- A page that was prepared is committed by the window that it was prepared from.
pub commit_page-moved :
    (window : Window) (expected next : ℕ)
    → expected ≡ window.cursor
    → window.cursor ≤ next
    → next ≤ length window.items
    → commit_page expected next window ≡ ok (moved window next)
unfolding commit_page
commit_page-moved window expected next same low high =
    let fresh : (not (window.cursor == expected)
          || ltb next expected
          || ltb (length window.items) next)
        ≡ false =
      ground arith in
    rw fresh refl

-- Whatever the environments do: where pages of at least one item each were prepared and committed in n
-- rounds, from a window whose cursor stands within its items, the items are the same, the cursor stands
-- within them, and it has moved on by n or stands at their end: in as many rounds as there are items all
-- of them are emitted.
pub Rounds-drained :
    (json : Serializer SessionReply) (n : ℕ) (window last : Window)
    → IsWindow window
    → Rounds json n window last
    → (last.items ≡ window.items)
      × IsWindow last
      × (min (length window.items) (window.cursor + n) ≤ last.cursor)
Rounds-drained json zero window last inside (done _) = (refl, inside, omega arith)
Rounds-drained json (suc n) window last inside
      (round {window' = window'} request_id page_size prepared env env' some_size made committed
        rest) =
    let (k, le, more, framed) =
      page-Framed json window request_id page_size prepared env env' inside made in
    let (p, next, runs) = framed.framed in
    let within = next.inside in
    let at_next = framed.next in
    let is_moved : window' ≡ moved window prepared.next_cursor =
      let step =
        commit_page-moved window prepared.expected_cursor prepared.next_cursor framed.expected
          (omega arith) (omega arith) in
      cc in
    let same : window'.items ≡ window.items = ap (λ w. Window.items w) is_moved in
    let cursor : window'.cursor ≡ prepared.next_cursor = ap (λ w. Window.cursor w) is_moved in
    let size : length window'.items ≡ length window.items = ap length same in
    let (same', inside', far) = Rounds-drained json n window' last (omega arith) rest in
    (
      same' ∙ same,
      inside',
      elim (Bool-cases (ltb window.cursor (length window.items))) [
        | inl left ↦ let k_some = more some_size (ltb→lt _ _ left) in omega arith
        | inr over ↦ let full = ltb→le _ _ over in omega arith
      ],
    )
