-- ===== src/Protocol/Message/Terminal/Ranked.antt =====
-- The items of a terminal that passes its validation are ranked without a gap and cite distinct points.
use eliot_search.Prelude.{
  ℕ, ◌+◌, ◌-◌, ◌≤◌, ◌<◌, ◌≡◌, ◌≢◌, sym, ◌∙◌, subst, true, false, List, [], ◌∷◌, ◌++◌, arith, Bytes,
  length, All, bytes_eq, bytes_eq_refl, ltb→le, leb→lt, or_false, not_eq_false,
}
use eliot_search.Exec.{Env, ok}
use eliot_search.Exec.Ensures.{
  Ensures, Ensures-pure, Ensures-bind, Ensures-then, Ensures-refuse_if, Ensures-given,
  Ensures-weaken,
}
use eliot_search.Protocol.{query_request_id, max_items, max_unit_text_bytes}
use eliot_search.Protocol.Message.Text.{contains}
use eliot_search.Protocol.Message.Order.{Pairwise}
use eliot_search.Protocol.Message.Lookup.{any-All, All-map}
use eliot_search.Protocol.Message.Object.{EvidenceMetadata, validate_evidence}
use eliot_search.Protocol.Message.Item.{
  SearchItem, hit, gap, rank_of, evidence_of, validate_score, validate_item,
}
use eliot_search.Protocol.Message.Terminal.{
  QueryOutcome, Terminal, complete, raw_exact, decoded_utf8, cancelled, failed, validate_ranked,
  validate_outcome, validate_terminal,
}
use eliot_search.Protocol.Message.Raw.Ordered as RawOrdered
use eliot_search.Protocol.Message.Decoded.Ordered as DecodedOrdered

-- A citation of a generation: a range of the source, as long as a unit may be.
abbrev pub IsCitation : EvidenceMetadata → ℕ → Type 0
IsCitation e generation =
    (e.generation ≡ generation)
    × (e.start < e.end)
    × (e.end ≤ e.input.bytes)
    × (e.end - e.start ≤ max_unit_text_bytes)
    × (e.line_start < e.line_end)

pub validate_evidence-Ensures :
    (e : EvidenceMetadata) (generation : ℕ)
    → Ensures (λ _. IsCitation e generation) (validate_evidence e generation)
unfolding validate_evidence
validate_evidence-Ensures e generation = Ensures-refuse_if _ _ _ λ h.
    let (h1, l1) = or_false _ _ h in
    let (h2, f1) = or_false _ _ h1 in
    let (h3, b1) = or_false _ _ h2 in
    let (h4, _) = or_false _ _ h3 in
    let (h5, _) = or_false _ _ h4 in
    let (h6, _) = or_false _ _ h5 in
    let (h7, _) = or_false _ _ h6 in
    let (_, s1) = or_false _ _ h7 in
    Ensures-then _ _ λ _. Ensures-refuse_if _ _ _ λ k. Ensures-given _ (
      not_eq_false e.generation generation s1,
      leb→lt _ _ b1,
      ltb→le _ _ k,
      ltb→le _ _ f1,
      leb→lt _ _ l1,
    )

-- A card carries its whole unit.
abbrev pub IsCard : ℕ → SearchItem → Type 0
IsCard generation (hit h) =
    IsCitation h.evidence generation × (length h.unit_text ≡ h.evidence.end - h.evidence.start)
IsCard generation (gap g) = IsCitation g.evidence generation

pub validate_item-Ensures :
    (item : SearchItem) (generation : ℕ)
    → Ensures (λ _. IsCard generation item) (validate_item item generation)
unfolding validate_item
validate_item-Ensures (hit h) generation = Ensures-bind _ _ (score_of h) λ score whole.
    Ensures-then _ _ λ _.
      Ensures-weaken _ (validate_evidence-Ensures h.evidence generation) λ _ cited. (cited, whole)
  where
    score_of :
        (h : _)
        → Ensures
            (λ _. length h.unit_text ≡ h.evidence.end - h.evidence.start)
            (validate_score (hit h))
    score_of h = Ensures-refuse_if _ _ _ λ k. Ensures-pure h.score (ground arith)
validate_item-Ensures (gap g) generation =
    Ensures-then _ _ λ _. Ensures-then _ _ λ _. validate_evidence-Ensures g.evidence generation

abbrev pub point_of : SearchItem → Bytes
point_of item = (evidence_of item).point_id

abbrev pub Other : SearchItem → SearchItem → Type 0
Other a b = point_of a ≢ point_of b

-- The ranks count on from `index`.
abbrev pub Ranked : ℕ → List SearchItem → Type 0
Ranked index [] = Unit
Ranked index (item ∷ items) = (rank_of item ≡ index + 1) × Ranked (index + 1) items

pub not_contains-All :
    (seen : List Bytes) (point : Bytes) → contains seen point ≡ false → All (λ p. p ≢ point) seen
not_contains-All seen point h =
    All-map _ _ seen
      (λ p e same.
        let equal : bytes_eq p point ≡ true =
          subst (λ q. bytes_eq p q ≡ true) same (bytes_eq_refl p) in
        let bad : true ≡ false = sym equal ∙ e in cc)
      (any-All (λ t. bytes_eq t point) seen h)

pub All-snoc {ℓ} :
    {A : Type ℓ} (P : A → Type 0) (xs : List A) (y : A) → All P (xs ++ y ∷ []) → All P xs × P y
All-snoc P [] y (py, h) = (tt, py)
All-snoc P (x ∷ xs) y (px, h) = let (hs, py) = All-snoc P xs y h in ((px, hs), py)

abbrev Fresh : List Bytes → SearchItem → Type 0
Fresh seen item = All (λ p. p ≢ point_of item) seen

Fresh-split :
    (seen : List Bytes) (item : SearchItem) (items : List SearchItem)
    → All (Fresh (seen ++ point_of item ∷ [])) items
    → All (Fresh seen) items × All (Other item) items
Fresh-split seen item [] h = (tt, tt)
Fresh-split seen item (next ∷ items) (f, h) =
    let (old, last) = All-snoc (λ p. p ≢ point_of next) seen (point_of item) f in
    let (olds, lasts) = Fresh-split seen item items h in ((old, olds), (last, lasts))

validate_ranked-Ensures :
    (generation index : ℕ) (seen : List Bytes) (items : List SearchItem)
    → Ensures
        (λ _.
          Ranked index items
          × All (IsCard generation) items
          × All (Fresh seen) items
          × Pairwise Other items)
        (validate_ranked generation index seen items)
unfolding validate_ranked
validate_ranked-Ensures generation index seen [] = Ensures-pure tt (tt, tt, tt, tt)
validate_ranked-Ensures generation index seen (item ∷ items) = Ensures-refuse_if _ _ _ λ h.
    Ensures-bind _ _ (validate_item-Ensures item generation) λ _ card.
      Ensures-weaken _
        (validate_ranked-Ensures generation (index + 1) (seen ++ point_of item ∷ []) items)
        λ _ rest.
          let (ranked, cards, fresh, others) = rest in
          let (olds, lasts) = Fresh-split seen item items fresh in
          let ranked' : Ranked index (item ∷ items) = (ground arith, ranked) in
          let cards' : All (IsCard generation) (item ∷ items) = (card, cards) in
          let fresh' : All (Fresh seen) (item ∷ items) =
            (not_contains-All seen (point_of item) (ground arith), olds) in
          let others' : Pairwise Other (item ∷ items) = (lasts, others) in
          (ranked', cards', fresh', others')

-- What a terminal within a limit holds.
abbrev pub IsOutcome : ℕ → QueryOutcome → Type 0
IsOutcome limit (complete generation items stop) =
    (length items ≤ limit) × Ranked 0 items × All (IsCard generation) items × Pairwise Other items
IsOutcome limit (raw_exact result) = RawOrdered.IsConsistent result limit
IsOutcome limit (decoded_utf8 result) = DecodedOrdered.IsConsistent result limit
IsOutcome limit cancelled = Unit
IsOutcome limit (failed code) = Unit

validate_outcome-Ensures :
    (outcome : QueryOutcome) (limit : ℕ)
    → Ensures (λ _. IsOutcome limit outcome) (validate_outcome outcome limit)
unfolding validate_outcome
validate_outcome-Ensures (complete generation items stop) limit = Ensures-refuse_if _ _ _ λ h.
    Ensures-weaken _ (validate_ranked-Ensures generation 0 [] items)
      λ _ k. let (ranked, cards, fresh, others) = k in (ground arith, ranked, cards, others)
validate_outcome-Ensures (raw_exact result) limit =
    RawOrdered.validate_raw_result-Ensures result limit
validate_outcome-Ensures (decoded_utf8 result) limit =
    DecodedOrdered.validate_decoded_result-Ensures result limit
validate_outcome-Ensures cancelled limit = Ensures-pure tt tt
validate_outcome-Ensures (failed code) limit = Ensures-pure tt tt

pub validate_terminal-Ensures :
    (terminal : Terminal) (limit : ℕ)
    → Ensures
        (λ _.
          (terminal.request_id ≡ query_request_id)
          × (limit ≤ max_items)
          × IsOutcome limit terminal.outcome)
        (validate_terminal terminal limit)
unfolding validate_terminal
validate_terminal-Ensures terminal limit = Ensures-refuse_if _ _ _ λ h. Ensures-refuse_if _ _ _ λ k.
    Ensures-weaken _ (validate_outcome-Ensures terminal.outcome limit)
      λ _ outcome. (ground arith, ground arith, outcome)

-- Whatever the environment does: a terminal that passes its validation answers the one query and, if it
-- carries ranked items, no more of them than the limit, with ranks that count from one, with distinct
-- points, each a citation of the generation of the terminal that lies in its source, and each hit with
-- the whole text of its range; a raw or decoded result in it is consistent within the limit.
pub validate_terminal-IsOutcome :
    (terminal : Terminal) (limit : ℕ) (env env' : Env)
    → validate_terminal terminal limit env ≡ ok (tt, env')
    → (terminal.request_id ≡ query_request_id)
      × (limit ≤ max_items)
      × IsOutcome limit terminal.outcome
validate_terminal-IsOutcome terminal limit env env' h =
    (validate_terminal-Ensures terminal limit).at env tt env' h
