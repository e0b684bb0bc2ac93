-- ===== src/Protocol/Message/Expansion/Bounded.antt =====
-- The range of an expansion and the place of a part in its content.
use eliot_search.Prelude.{
  ℕ, ◌+◌, ◌-◌, ◌*◌, ◌≤◌, ◌<◌, ◌≡◌, sym, ap, subst, ◌∙◌, true, Option, none, some, ◌++◌, arith,
  Bytes, length, take, drop, length-take, take-append-drop, bytes_eq→eq,
}
use eliot_search.Prelude.Words.{checked_sub}
use eliot_search.Exec.Ensures.{
  Ensures, Ensures-fail, Ensures-bind, Ensures-then, Ensures-refuse_if, Ensures-refused,
  Ensures-found, Ensures-weaken,
}
use eliot_search.Protocol.{max_expansion_bytes}
use eliot_search.Protocol.Message.Text.{lower_hex}
use eliot_search.Protocol.Message.Object.{ObjectRefDto}
use eliot_search.Protocol.Message.Raw.{nonzero}
use eliot_search.Protocol.Message.Expansion.{
  ExpansionContent, raw, utf8, WindowExpansion, narrow, validate_content, validate_expansion,
  has_part, has_original,
}

-- A text holds a part behind its first bytes.
abbrev IsWithin : Bytes → Bytes → ℕ → Type 0
IsWithin text part from =
    (before after : Bytes) × (text ≡ before ++ (part ++ after)) × (length before ≡ from)

-- A content of so many bytes of which the part is one, both as text or both in digits.
abbrev pub Embeds : ExpansionContent → ExpansionContent → ℕ → ℕ → Type 0
Embeds (utf8 text) (utf8 part) len from = (length text ≡ len) × IsWithin text part from
Embeds (raw text) (raw part) len from = (length text ≡ len * 2) × IsWithin text part (from * 2)
Embeds _ _ len from = ⊥

has_part-IsWithin :
    (text : Bytes) (from to : ℕ) (part : Bytes)
    → has_part text from to part ≡ true
    → IsWithin text part from
unfolding has_part
has_part-IsWithin text from to part h =
    let found : take (to - from) (drop from text) ≡ part =
      bytes_eq→eq (take (to - from) (drop from text)) part (ground arith) in
    let inside : from ≤ length text = ground arith in
    (
      take from text,
      drop (to - from) (drop from text),
      sym (take-append-drop from text)
          ∙ ap (λ l. take from text ++ l)
              (sym (take-append-drop (to - from) (drop from text))
                ∙ ap (λ l. l ++ drop (to - from) (drop from text)) found),
      omega (arith, length-take from text, inside),
    )

-- The length of a content in bytes of the source.
abbrev IsLong : ExpansionContent → ℕ → Type 0
IsLong (utf8 text) len = length text ≡ len
IsLong (raw text) len = length text ≡ len * 2

validate_content-Ensures :
    (content : ExpansionContent) (object : Option ObjectRefDto) (len : ℕ)
    → Ensures (λ _. IsLong content len) (validate_content content object len)
unfolding validate_content lower_hex
validate_content-Ensures (raw hex) none len = Ensures-refused _ _ λ h. ground arith
validate_content-Ensures (raw hex) (some object) len = Ensures-fail _
validate_content-Ensures (utf8 text) none len = Ensures-fail _
validate_content-Ensures (utf8 text) (some object) len =
    Ensures-then _ _ λ _. Ensures-refused _ _ λ h. ground arith

pub has_original-Embeds :
    (content part : ExpansionContent) (len from to : ℕ)
    → IsLong content len
    → has_original content part from to ≡ true
    → Embeds content part len from
unfolding has_original
has_original-Embeds (utf8 text) (utf8 part) len from to long h =
    (long, has_part-IsWithin text from to part h)
has_original-Embeds (utf8 text) (raw part) len from to long h = absurd (cc)
has_original-Embeds (raw text) (utf8 part) len from to long h = absurd (cc)
has_original-Embeds (raw text) (raw part) len from to long h =
    (long, has_part-IsWithin text (from * 2) (to * 2) part h)

-- What an expansion says of itself.
pub record IsBounded (x : WindowExpansion) : Type 0 where
  pub some_bytes : x.representation_start < x.representation_end
  pub few_bytes : x.representation_end ≤ x.representation_start + max_expansion_bytes
  pub inside : x.representation_end ≤ x.source.input.bytes
  pub same_range : (x.source_start ≡ x.representation_start) × (x.source_end ≡ x.representation_end)
  pub long : IsLong x.content (x.representation_end - x.representation_start)

range-Bounded :
    (start end len : ℕ)
    → narrow (nonzero (checked_sub end start)) ≡ some len
    → (start < end) × (end ≤ start + max_expansion_bytes) × (len ≡ end - start)
range-Bounded start end len h = ground arith

pub validate_expansion-Ensures :
    (x : WindowExpansion) → Ensures (λ _. IsBounded x) (validate_expansion x)
unfolding validate_expansion
validate_expansion-Ensures x = Ensures-then _ _ λ _. Ensures-then _ _ λ _.
    Ensures-bind _ _ (Ensures-found _ _) λ len found. Ensures-refuse_if _ _ _ λ h.
      let (some_bytes, few_bytes, same) =
        range-Bounded x.representation_start x.representation_end len found in
      let inside : x.source_end ≤ x.source.input.bytes = ground arith in
      let at_start : x.source_start ≡ x.representation_start = ground arith in
      let at_end : x.source_end ≡ x.representation_end = ground arith in
      Ensures-weaken _ (validate_content-Ensures x.content x.prepared_object len) λ _ long. record {
        some_bytes = some_bytes;
        few_bytes = few_bytes;
        inside = omega arith;
        same_range = (at_start, at_end);
        long = subst (λ n. IsLong x.content n) same long;
      }
