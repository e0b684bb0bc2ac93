-- ===== src/Protocol/Message/Window/Entries.antt =====
-- The entries of a page that passes its validation are numbered without a gap, and its claims agree.
use eliot_search.Prelude.{
  ℕ, ◌+◌, ◌-◌, ◌≤◌, ◌<◌, ◌≡◌, ◌↔◌, refl, Bool, true, false, not, ◌&&◌, Option, none, some, List, [],
  ◌∷◌, arith, length, ltb, or_false, not-false, not_eq_false, ltb→le, ltb→lt, lt→ltb, subst, sym,
  ap, ◌∙◌,
}
use eliot_search.Exec.{Env, ok}
use eliot_search.Exec.Ensures.{
  Ensures, Ensures-pure, Ensures-bind, Ensures-then, Ensures-refuse_if, Ensures-weaken,
}
use eliot_search.Protocol.{max_items}
use eliot_search.Protocol.Message.Text.{bool_eq, no_items}
use eliot_search.Protocol.Message.Item.{rank_of}
use eliot_search.Protocol.Message.Terminal.Ranked.{IsCard, validate_item-Ensures}
use eliot_search.Protocol.Message.Raw.Ordered as RawOrdered
use eliot_search.Protocol.Message.Decoded.Ordered as DecodedOrdered
use eliot_search.Protocol.Message.Window.{
  WindowItem, search, raw, decoded_utf8, WindowEntry, WindowSummary, WindowPage, is_none, is_true,
  is_count, is_false_negative, is_inconsistent, is_search, is_misranked, validate_window_item,
  validate_entries, validate_page,
}

-- An item that cites what it should, in a window of a generation.
abbrev pub IsSound : ℕ → WindowItem → Type 0
IsSound generation (search item) = IsCard generation item
IsSound generation (raw item) = RawOrdered.IsCited item
IsSound generation (decoded_utf8 item) = DecodedOrdered.IsCited item

pub validate_window_item-Ensures :
    (item : WindowItem) (generation : ℕ)
    → Ensures (λ _. IsSound generation item) (validate_window_item item generation)
unfolding validate_window_item
validate_window_item-Ensures (search item) generation = validate_item-Ensures item generation
validate_window_item-Ensures (raw item) generation = RawOrdered.validate_raw_item-Ensures item
validate_window_item-Ensures (decoded_utf8 item) generation =
    DecodedOrdered.validate_decoded_item-Ensures item

-- A ranked item has the rank behind its index.
abbrev pub IsRanked : ℕ → WindowItem → Type 0
IsRanked index (search item) = rank_of item ≡ index + 1
IsRanked index (raw item) = Unit
IsRanked index (decoded_utf8 item) = Unit

-- The entries from `index` on.
abbrev pub Numbered : WindowSummary → ℕ → List WindowEntry → Type 0
Numbered summary index [] = Unit
Numbered summary index (entry ∷ entries) =
    (entry.item_index ≡ index)
    × IsSound summary.generation entry.item
    × (is_search entry.item ≡ is_none summary.found_matches)
    × IsRanked index entry.item
    × Numbered summary (index + 1) entries

misranked-IsRanked :
    (item : WindowItem) (at index : ℕ)
    → at ≡ index
    → is_misranked item at ≡ false
    → IsRanked index item
misranked-IsRanked (search item) at index same h = ground arith
misranked-IsRanked (raw item) at index same h = tt
misranked-IsRanked (decoded_utf8 item) at index same h = tt

bool_eq→eq : (a b : Bool) → not (bool_eq a b) ≡ false → a ≡ b
bool_eq→eq a b h = ground arith

validate_entries-Ensures :
    (summary : WindowSummary) (index : ℕ) (entries : List WindowEntry)
    → Ensures (λ _. Numbered summary index entries) (validate_entries summary index entries)
unfolding validate_entries
validate_entries-Ensures summary index [] = Ensures-pure tt tt
validate_entries-Ensures summary index (entry ∷ entries) = Ensures-refuse_if _ _ _ λ h.
    Ensures-bind _ _ (validate_window_item-Ensures entry.item summary.generation) λ _ sound.
      Ensures-refuse_if _ _ _ λ k. Ensures-refuse_if _ _ _ λ m.
        Ensures-weaken _ (validate_entries-Ensures summary (index + 1) entries) λ _ rest.
          let at : entry.item_index ≡ index = ground arith in
          (
            at,
            sound,
            bool_eq→eq _ _ k,
            misranked-IsRanked entry.item entry.item_index index at m,
            rest,
          )

-- The negative claim of an exact search.
abbrev pub Claims : WindowSummary → Type 0
Claims s =
    (s.complete_negative ≡ some true) → (s.scan_complete ≡ some true) × (s.found_matches ≡ some 0)

pub record IsPage (page : WindowPage) : Type 0 where
  pub numbered : Numbered page.summary page.start_index page.items
  pub next : page.next_index ≡ page.start_index + length page.items
  pub inside :
      (page.next_index ≤ page.summary.retained_items) × (page.summary.retained_items ≤ max_items)
  pub more : (page.has_more ≡ true) ↔ (page.next_index < page.summary.retained_items)
  pub progress : page.has_more ≡ true → 0 < length page.items
  pub claims : Claims page.summary

is_true→eq : (b : Option Bool) → is_true b ≡ true → b ≡ some true
is_true→eq none e = absurd (cc)
is_true→eq (some b) e = ap some e

is_count→eq : (c : Option ℕ) (n : ℕ) → is_count c n ≡ true → c ≡ some n
is_count→eq none n e = absurd (cc)
is_count→eq (some c) n e = let same : c ≡ n = ground arith in ap some same

and_true : (a b : Bool) → (a && b) ≡ true → (a ≡ true) × (b ≡ true)
and_true true b h = (refl, h)
and_true false b h = absurd (cc)

true_negative-Claims :
    (s : WindowSummary) → is_false_negative s.complete_negative s ≡ false → Claims s
true_negative-Claims s k negative =
    let k' : is_false_negative (some true) s ≡ false =
      subst (λ n. is_false_negative n s ≡ false) negative k in
    let (whole, empty) = and_true _ _ (not-false _ k') in
    (is_true→eq s.scan_complete whole, is_count→eq s.found_matches 0 empty)

items_progress :
    (entries : List WindowEntry) (more : Bool)
    → (no_items entries && more) ≡ false
    → more ≡ true
    → 0 < length entries
items_progress [] more h m = absurd (let bad : true ≡ false = sym m ∙ h in cc)
items_progress (e ∷ es) more h m = omega arith

pub validate_page-Ensures : (page : WindowPage) → Ensures (λ _. IsPage page) (validate_page page)
unfolding validate_page is_inconsistent
validate_page-Ensures page = Ensures-then _ _ λ _. Ensures-refuse_if _ _ _ λ h.
    let (h1, negative) = or_false _ _ h in
    let (h2, all) = or_false _ _ h1 in
    let (h3, idle) = or_false _ _ h2 in
    let (h4, more) = or_false _ _ h3 in
    let (h5, count) = or_false _ _ h4 in
    let (h6, over) = or_false _ _ h5 in
    let (h7, back) = or_false _ _ h6 in
    let (_, many) = or_false _ _ h7 in
    Ensures-weaken _ (validate_entries-Ensures page.summary page.start_index page.items)
      λ _ numbered.
        let more' : page.has_more ≡ ltb page.next_index page.summary.retained_items =
          bool_eq→eq _ _ more in
        let retained : page.next_index ≤ page.summary.retained_items = ltb→le _ _ over in
        let forward : page.start_index ≤ page.next_index = ltb→le _ _ back in
        let size : page.next_index - page.start_index ≡ length page.items =
          not_eq_false (page.next_index - page.start_index) (length page.items) count in
        record {
          numbered = numbered;
          next = omega (arith, size);
          inside = (retained, ltb→le _ _ many);
          more = (λ m. ltb→lt _ _ (sym more' ∙ m), λ m. more' ∙ lt→ltb _ _ m);
          progress = items_progress page.items page.has_more idle;
          claims = true_negative-Claims page.summary negative;
        }

-- Whatever the environment does: the entries of a page that passes its validation are numbered from its
-- start to its next index without a gap and sound in its generation, a ranked item has the rank behind
-- its index, `has_more` says whether retained items are left and comes with an item, and a complete
-- negative is claimed only for a complete scan without a match.
pub validate_page-IsPage :
    (page : WindowPage) (env env' : Env) → validate_page page env ≡ ok (tt, env') → IsPage page
validate_page-IsPage page env env' h = (validate_page-Ensures page).at env tt env' h
