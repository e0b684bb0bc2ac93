-- ===== src/Framed/Pages.antt =====
-- A page that is prepared holds the items from the cursor on, and moves on where items are left.
use eliot_search.Prelude.{
  ℕ, zero, suc, ◌+◌, ◌-◌, ◌≤◌, ◌<◌, ◌≡◌, refl, sym, ap, ◌∙◌, min, List, [], ◌∷◌, arith, Bytes,
  length, take, drop, ltb, lt→ltb, ◌==◌,
}
use eliot_search.Exec.{Env, Exec, Result, ok, err}
use eliot_search.Exec.Ensures.{
  Ensures, Ensures-pure, Ensures-fail, Ensures-bind, Ensures-then, Ensures-refuse_if, Ensures-if,
  Ensures-weaken,
}
use eliot_search.Protocol.{
  ProtocolError, invalid_frame, frame_too_large, invalid_message, invalid_correlation,
  resource_exhausted, serialization,
}
use eliot_search.Protocol.Message.Window.{WindowItem, WindowPage}
use eliot_search.Protocol.Message.Reply.{SessionReply}
use eliot_search.Protocol.Frames.{Serializer, encode_session_reply}
use eliot_search.Exact.{QueryFailure}
use eliot_search.Framed.{
  PreparedPage, Window, entries_of, caught, attempt, reply_of, popped, settle_page, offer, page,
}

take-entries_of :
    (n index : ℕ) (items : List WindowItem)
    → take n (entries_of index items) ≡ entries_of index (take n items)
take-entries_of zero index items = refl
take-entries_of (suc n) index [] = refl
take-entries_of (suc n) index (item ∷ items) =
    ap (λ l. record { item_index = index; item = item } ∷ l) (take-entries_of n (index + 1) items)

take-take-suc : (n : ℕ) (items : List WindowItem) → take n (take (suc n) items) ≡ take n items
take-take-suc zero items = refl
take-take-suc (suc n) [] = refl
take-take-suc (suc n) (item ∷ items) = ap (λ l. item ∷ l) (take-take-suc n items)

-- Some run of the operation returns the value.
abbrev pub Returns : {A : Type 0} → Exec ProtocolError A → A → Type 0
Returns m a = (env : Env) × (env' : Env) × (m env ≡ ok (a, env'))

caught-ok :
    {A : Type 0} (env : Env) (run : Result ProtocolError (A × Env)) {a : A} {env' : Env}
    → caught env run ≡ ok (ok a, env')
    → run ≡ ok (a, env')
caught-ok env (ok (b, mid)) h = cc
caught-ok env (err e) h = absurd (cc)

attempt-Ensures :
    {A : Type 0} (m : Exec ProtocolError A)
    → Ensures (λ r. (a : A) → r ≡ ok a → Returns m a) (attempt m)
unfolding attempt
attempt-Ensures m = record {
  at = λ env r env' h a e. (env, env', caught-ok env (m env) (h ∙ ap (λ q. ok (q, env')) e));
}

module _ (json : Serializer SessionReply) (window : Window) (request_id : ℕ) where
  -- A page of the next n items.
  pub record IsNext (n : ℕ) (p : WindowPage) : Type 0 where
    pub start : p.start_index ≡ window.cursor
    pub next : p.next_index ≡ window.cursor + n
    pub items : p.items ≡ entries_of window.cursor (take n (drop window.cursor window.items))
    pub more : p.has_more ≡ ltb (window.cursor + n) (length window.items)
    pub inside : window.cursor + n ≤ length window.items

  -- A page of so many items that was framed.
  pub record IsFramed (n : ℕ) (prepared : PreparedPage) : Type 0 where
    pub expected : prepared.expected_cursor ≡ window.cursor
    pub next : prepared.next_cursor ≡ window.cursor + n
    pub framed :
        (p : WindowPage) × IsNext n p
        × Returns (encode_session_reply json (reply_of request_id p)) prepared.bytes

  popped-IsNext : (n : ℕ) (p : WindowPage) → IsNext (suc n) p → IsNext n (popped n p)
  popped-IsNext n p h =
      let next = h.next in
      let inside = h.inside in
      let less : window.cursor + n < length window.items = omega arith in
      record {
        start = h.start;
        next = omega arith;
        items =
            ap (take n) h.items
            ∙ (take-entries_of n window.cursor (take (suc n) (drop window.cursor window.items))
                ∙ ap (entries_of window.cursor)
                    (take-take-suc n (drop window.cursor window.items)));
        more = sym (lt→ltb _ _ less);
        inside = omega arith;
      }

  -- At least one item, where there was one.
  abbrev pub Framed : ℕ → PreparedPage → Type 0
  Framed n prepared = (k : ℕ) × (k ≤ n) × (0 < n → 0 < k) × IsFramed k prepared

  settle_page-Ensures :
      (n : ℕ) (p : WindowPage) (smaller : Exec QueryFailure PreparedPage)
      (encoded : Result ProtocolError Bytes)
      → IsNext n p
      → ((bytes : Bytes)
          → encoded ≡ ok bytes
          → Returns (encode_session_reply json (reply_of request_id p)) bytes)
      → Ensures (Framed n) smaller
      → Ensures (Framed n) (settle_page p smaller encoded)
  unfolding settle_page
  settle_page-Ensures n p smaller (ok bytes) next runs h = Ensures-pure _ (
    n,
    omega arith,
    λ some_items. some_items,
    record { expected = next.start; next = next.next; framed = (p, next, runs bytes refl) },
  )
  settle_page-Ensures n p smaller (err frame_too_large) next runs h = h
  settle_page-Ensures n p smaller (err invalid_frame) next runs h = Ensures-fail _
  settle_page-Ensures n p smaller (err invalid_message) next runs h = Ensures-fail _
  settle_page-Ensures n p smaller (err invalid_correlation) next runs h = Ensures-fail _
  settle_page-Ensures n p smaller (err resource_exhausted) next runs h = Ensures-fail _
  settle_page-Ensures n p smaller (err serialization) next runs h = Ensures-fail _

  offer-Ensures :
      (n : ℕ) (p : WindowPage) → IsNext n p → Ensures (Framed n) (offer json n request_id p)
  unfolding offer
  offer-Ensures zero p next = Ensures-then _ _ λ _.
      Ensures-bind _ _ (attempt-Ensures (encode_session_reply json (reply_of request_id p)))
        λ encoded runs.
          Ensures-then _ _ λ _. settle_page-Ensures 0 p _ encoded next runs (Ensures-fail _)
  offer-Ensures (suc n) p next = Ensures-then _ _ λ _.
      Ensures-bind _ _ (attempt-Ensures (encode_session_reply json (reply_of request_id p)))
        λ encoded runs. Ensures-then _ _ λ _. settle_page-Ensures (suc n) p _ encoded next runs (
          Ensures-if (n == 0) _ _ (λ _. Ensures-fail _)
            λ over.
              Ensures-weaken _ (offer-Ensures n (popped n p) (popped-IsNext n p next))
                λ prepared shorter.
                  let (k, le, more, framed) = shorter in
                  let some_items : 0 < n = ground arith in
                  let some_framed = more some_items in (k, omega arith, λ _. some_framed, framed))

-- The cursor of a window stands within its items.
abbrev pub IsWindow : Window → Type 0
IsWindow window = window.cursor ≤ length window.items

-- Whatever the environment does: where a page is prepared from a window whose cursor stands within its
-- items, it is prepared for that cursor; it is the frame of a page of the items from there to the next
-- cursor, numbered by their places, that says truthfully whether items are left behind it; it has no more
-- items than the page size, and at least one where one is left and the page size is not zero, so that the
-- cursor moves on.
pub page-Framed :
    (json : Serializer SessionReply) (window : Window) (request_id page_size : ℕ)
    (prepared : PreparedPage) (env env' : Env)
    → IsWindow window
    → page json window request_id page_size env ≡ ok (prepared, env')
    → (k : ℕ) × (k ≤ page_size)
      × (0 < page_size → window.cursor < length window.items → 0 < k)
      × IsFramed json window request_id k prepared
unfolding page
page-Framed json window request_id page_size prepared env env' inside h =
    let end : ℕ = min (length window.items) (window.cursor + page_size) in
    let count : ℕ = end - window.cursor in
    let at_end : window.cursor + count ≡ end = omega arith in
    let (k, le, more, framed) =
      (Ensures-then _ _ λ _. Ensures-then _ _ λ _. Ensures-refuse_if _ _ _ λ _.
          offer-Ensures json window request_id count _ (record {
            start = refl;
            next = sym at_end;
            items = refl;
            more = ap (λ n. ltb n (length window.items)) (sym at_end);
            inside = omega arith;
          })).at
        env prepared env' h in
    (k, omega arith, λ some_size left. more (omega arith), framed)
