-- ===== src/Protocol/Message/Expansion/Context.antt =====
-- An expansion that is accepted is the context of the item that it was asked for.
use eliot_search.Prelude.{
  ℕ, ◌+◌, ◌-◌, ◌≤◌, ◌<◌, ◌≡◌, refl, sym, ap, subst, ◌∙◌, min, true, false, Option, none, some,
  arith, bytes_eq→eq, not-false,
}
use eliot_search.Prelude.Words.{checked_add, checked_add-eq}
use eliot_search.Exec.{Env, ok}
use eliot_search.Exec.Ensures.{
  Ensures, Ensures-fail, Ensures-bind, Ensures-then, Ensures-refuse_if, Ensures-refused,
  Ensures-found,
}
use eliot_search.Protocol.{invalid_message, max_expansion_bytes}
use eliot_search.Protocol.Message.Object.{ObjectRefDto, RawSourceRef}
use eliot_search.Protocol.Message.Object.Same.{object_eq→eq, source_eq→eq}
use eliot_search.Protocol.Message.Session.{SessionClientFrame, Expand, expand}
use eliot_search.Protocol.Message.Window.{WindowItem}
use eliot_search.Protocol.Message.Expansion.{
  WindowExpansion, Original, original_of, same_object, is_other_source, is_misbound,
  validate_expansion_request,
}
use eliot_search.Protocol.Message.Expansion.Bounded.{
  Embeds, has_original-Embeds, validate_expansion-Ensures,
}

-- The range that the frame asks for: around the item, within its object.
abbrev pub IsAround : WindowExpansion → Expand → Original → Type 0
IsAround x f o =
    (x.representation_start ≡ o.start - f.before_bytes)
    × (x.representation_end ≡ min (o.end + f.after_bytes) o.input.bytes)

-- The expansion cites what the item cites.
pub record IsSameObject (x : WindowExpansion) (o : Original) : Type 0 where
  pub namespace : x.source.source_namespace_id ≡ o.source_namespace_id
  pub id : x.source.source_id ≡ o.source_id
  pub input : x.source.input ≡ o.input
  pub prepared : x.prepared_object ≡ o.prepared_object
  pub revision : (s : RawSourceRef) → o.source ≡ some s → x.source ≡ s

pub record IsContext (x : WindowExpansion) (f : Expand) (o : Original) : Type 0 where
  pub asked : (f.window_id ≡ x.window_id) × (f.item_index ≡ x.item_index)
  pub object : IsSameObject x o
  pub around : IsAround x f o
  pub bounded :
      (x.representation_start < x.representation_end)
      × (x.representation_end ≤ x.representation_start + max_expansion_bytes)
      × (x.representation_end ≤ x.source.input.bytes)
  pub source : (x.source_start ≡ x.representation_start) × (x.source_end ≡ x.representation_end)
  pub content :
      Embeds x.content o.content
        (x.representation_end - x.representation_start)
        (o.start - x.representation_start)

same_object→eq : (a b : Option ObjectRefDto) → same_object a b ≡ true → a ≡ b
same_object→eq none none h = refl
same_object→eq none (some b) h = absurd (cc)
same_object→eq (some a) none h = absurd (cc)
same_object→eq (some a) (some b) h = ap some (object_eq→eq a b h)

not_other-eq :
    (o : Option RawSourceRef) (t s : RawSourceRef)
    → is_other_source o t ≡ false
    → o ≡ some s
    → t ≡ s
not_other-eq none t s h e = absurd (cc)
not_other-eq (some r) t s h e = let same : r ≡ t = source_eq→eq r t (not-false _ h) in cc

bound-IsSameObject :
    (x : WindowExpansion) (window_id item_index : ℕ) (o : Original) (from to : ℕ)
    → is_misbound x window_id item_index o from to ≡ false
    → IsSameObject x o
unfolding is_misbound
bound-IsSameObject x window_id item_index o from to h = record {
  namespace = bytes_eq→eq x.source.source_namespace_id o.source_namespace_id (ground arith);
  id = bytes_eq→eq x.source.source_id o.source_id (ground arith);
  input = object_eq→eq x.source.input o.input (ground arith);
  prepared = same_object→eq x.prepared_object o.prepared_object (ground arith);
  revision = λ s e. not_other-eq o.source x.source s (ground arith) e;
}

validate_expansion_request-Ensures :
    (x : WindowExpansion) (frame : SessionClientFrame) (item : WindowItem)
    → Ensures
        (λ _.
          (f : Expand) × (o : Original) × (frame ≡ expand f)
          × (original_of item ≡ some o)
          × IsContext x f o)
        (validate_expansion_request x frame item)
unfolding validate_expansion_request is_misbound
validate_expansion_request-Ensures x (expand f) item =
    Ensures-bind _ _ (validate_expansion-Ensures x) λ _ bounded.
      Ensures-bind _ _ (Ensures-found (original_of item) invalid_message) λ o found.
        Ensures-bind _ _ (Ensures-found (checked_add o.end f.after_bytes) invalid_message)
          λ sum added. Ensures-refuse_if _ _ _ λ h. Ensures-refused _ _ λ k.
            let start_at : x.representation_start ≡ o.start - f.before_bytes = ground arith in
            let end_at : x.representation_end ≡ min sum o.input.bytes = ground arith in
            (
              f,
              o,
              refl,
              found,
              record {
                asked = (ground arith, ground arith);
                object = bound-IsSameObject x f.window_id f.item_index o _ _ h;
                around = (
                  start_at,
                  end_at
                      ∙ ap (λ n. min n o.input.bytes)
                          (checked_add-eq o.end f.after_bytes sum added),
                );
                bounded = (bounded.some_bytes, bounded.few_bytes, bounded.inside);
                source = bounded.same_range;
                content =
                    subst
                      (λ n.
                        Embeds x.content o.content (x.representation_end - x.representation_start)
                          (o.start - n))
                      (sym start_at)
                      (has_original-Embeds x.content o.content _ _ _ bounded.long (not-false _ k));
              },
            )
validate_expansion_request-Ensures x (SessionClientFrame.open_window f) item =
    Ensures-then _ _ λ _. Ensures-fail _
validate_expansion_request-Ensures x (SessionClientFrame.continue_window f) item =
    Ensures-then _ _ λ _. Ensures-fail _
validate_expansion_request-Ensures x (SessionClientFrame.cancel id) item =
    Ensures-then _ _ λ _. Ensures-fail _
validate_expansion_request-Ensures x (SessionClientFrame.close id) item =
    Ensures-then _ _ λ _. Ensures-fail _

-- Whatever the environment does: an expansion that is accepted for a request and an emitted item answers
-- a request to expand a match or hit; it cites the objects of that item, its range reaches as far before
-- and behind the item as was asked, cut only at the ends of the object, it has some bytes and at most the
-- ceiling of them, and its content is as long as its range and holds the content of the item in its place.
pub validate_expansion_request-IsContext :
    (x : WindowExpansion) (frame : SessionClientFrame) (item : WindowItem) (env env' : Env)
    → validate_expansion_request x frame item env ≡ ok (tt, env')
    → (f : Expand) × (o : Original) × (frame ≡ expand f)
      × (original_of item ≡ some o)
      × IsContext x f o
validate_expansion_request-IsContext x frame item env env' h =
    (validate_expansion_request-Ensures x frame item).at env tt env' h
