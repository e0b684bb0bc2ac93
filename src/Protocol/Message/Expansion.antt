-- ===== src/Protocol/Message/Expansion.antt =====
-- dto.rs, `WindowExpansion`: the context of an item that was emitted before.
pub mod Bounded
pub mod Context
use eliot_search.Prelude.{
  ℕ, ◌+◌, ◌-◌, ◌*◌, min, Bool, true, false, not, ◌&&◌, ◌||◌, Option, none, some, Bytes, length,
  take, drop, bytes_eq, ltb, leb, ◌==◌, if◌then◌else◌,
}
use eliot_search.Prelude.Words.{checked_add, checked_sub, max_u64}
use eliot_search.Exec.{Exec, pure, fail, ok_or, refuse_if, ◌>>=◌, ◌>>◌}
use eliot_search.Utf8.{is_char_boundary}
use eliot_search.Protocol.{ProtocolError, invalid_message, max_items, max_expansion_bytes}
use eliot_search.Protocol.Message.Text.{lower_hex}
use eliot_search.Protocol.Message.Object.{
  ObjectRefDto, object_eq, validate_object, RawSourceRef, source_eq, validate_source,
}
use eliot_search.Protocol.Message.Object.ObjectKindDto.{prepared}
use eliot_search.Protocol.Message.Item.{SearchItem}
use eliot_search.Protocol.Message.Raw.{RawExactItem, nonzero}
use eliot_search.Protocol.Message.Decoded.{DecodedUtf8Item}
use eliot_search.Protocol.Message.Session.{SessionClientFrame, expand, validate_window_id}
use eliot_search.Protocol.Message.Window.{WindowItem}

pub data ExpansionContent : Type 0 where
  raw : Bytes → ExpansionContent
  utf8 : Bytes → ExpansionContent

pub record WindowExpansion : Type 0 where
  pub window_id : ℕ
  pub item_index : ℕ
  pub source : RawSourceRef
  pub prepared_object : Option ObjectRefDto
  pub representation_start : ℕ
  pub representation_end : ℕ
  pub source_start : ℕ
  pub source_end : ℕ
  pub content : ExpansionContent

-- `.filter(|n| *n <= MAX_EXPANSION_BYTES)`
abbrev pub narrow : Option ℕ → Option ℕ
narrow none = none
narrow (some n) = if leb n max_expansion_bytes then some n else none

unfoldable pub validate_content :
    ExpansionContent → Option ObjectRefDto → ℕ → Exec ProtocolError (Unit {0})
validate_content (raw bytes_hex) none len =
    refuse_if (not (lower_hex bytes_hex (len * 2))) invalid_message
validate_content (utf8 text) (some object) len = do
  validate_object object prepared
  refuse_if (not (length text == len)) invalid_message
validate_content _ _ len = fail invalid_message

unfoldable pub validate_expansion : WindowExpansion → Exec ProtocolError (Unit {0})
unfolding validate_content
validate_expansion x = do
  validate_window_id x.window_id
  validate_source x.source
  len ←
      ok_or (narrow (nonzero (checked_sub x.representation_end x.representation_start)))
        invalid_message
  refuse_if
      (leb max_items x.item_index
        || not (x.source_start == x.representation_start)
        || not (x.source_end == x.representation_end)
        || ltb x.source.input.bytes x.source_end)
      invalid_message
  validate_content x.content x.prepared_object len

-- What an emitted item says of the object that it cites.
pub record Original : Type 0 where
  pub source_namespace_id : Bytes
  pub source_id : Bytes
  pub input : ObjectRefDto
  pub prepared_object : Option ObjectRefDto
  pub start : ℕ
  pub end : ℕ
  pub content : ExpansionContent
  pub source : Option RawSourceRef

unfoldable pub original_of : WindowItem → Option Original
original_of (WindowItem.search (SearchItem.hit h)) = some (record {
  source_namespace_id = h.evidence.source_namespace_id;
  source_id = h.evidence.source_id;
  input = h.evidence.input;
  prepared_object = some h.evidence.prepared_object;
  start = h.evidence.start;
  end = h.evidence.end;
  content = utf8 h.unit_text;
  source = none;
})
original_of (WindowItem.raw (RawExactItem.match h)) = some (record {
  source_namespace_id = h.source.source_namespace_id;
  source_id = h.source.source_id;
  input = h.source.input;
  prepared_object = none;
  start = h.start;
  end = h.end;
  content = raw h.bytes_hex;
  source = some h.source;
})
original_of (WindowItem.decoded_utf8 (DecodedUtf8Item.match h)) = some (record {
  source_namespace_id = h.source.source_namespace_id;
  source_id = h.source.source_id;
  input = h.source.input;
  prepared_object = some h.prepared_object;
  start = h.representation_start;
  end = h.representation_end;
  content = utf8 h.text;
  source = some h.source;
})
original_of _ = none

abbrev pub same_object : Option ObjectRefDto → Option ObjectRefDto → Bool
same_object none none = true
same_object (some a) (some b) = object_eq a b
same_object _ _ = false

abbrev pub is_other_source : Option RawSourceRef → RawSourceRef → Bool
is_other_source none t = false
is_other_source (some s) t = not (source_eq s t)

-- `text.get(from..to) == Some(part)`
unfoldable pub has_part : Bytes → ℕ → ℕ → Bytes → Bool
has_part text from to part =
    leb from to
    && leb to (length text)
    && is_char_boundary text from
    && is_char_boundary text to
    && bytes_eq (take (to - from) (drop from text)) part

unfoldable pub has_original : ExpansionContent → ExpansionContent → ℕ → ℕ → Bool
unfolding has_part
has_original (utf8 expanded) (utf8 original) from to = has_part expanded from to original
has_original (raw expanded) (raw original) from to = has_part expanded (from * 2) (to * 2) original
has_original _ _ from to = false

-- The frame asks for other context than the expansion holds.
unfoldable pub is_misbound : WindowExpansion → ℕ → ℕ → Original → ℕ → ℕ → Bool
is_misbound x window_id item_index o wanted_start wanted_end =
    not (window_id == x.window_id)
    || not (item_index == x.item_index)
    || not (bytes_eq x.source.source_namespace_id o.source_namespace_id)
    || not (bytes_eq x.source.source_id o.source_id)
    || not (object_eq x.source.input o.input)
    || not (same_object x.prepared_object o.prepared_object)
    || is_other_source o.source x.source
    || not (x.representation_start == wanted_start)
    || not (x.representation_end == wanted_end)

unfoldable pub validate_expansion_request :
    WindowExpansion → SessionClientFrame → WindowItem → Exec ProtocolError (Unit {0})
unfolding is_misbound has_original original_of
validate_expansion_request x (expand f) item = do
  validate_expansion x
  o ← ok_or (original_of item) invalid_message
  let wanted_start = o.start - f.before_bytes
  sum ← ok_or (checked_add o.end f.after_bytes) invalid_message
  let wanted_end = min sum o.input.bytes
  refuse_if (is_misbound x f.window_id f.item_index o wanted_start wanted_end) invalid_message
  refuse_if (not (has_original x.content o.content (o.start - wanted_start) (o.end - wanted_start)))
      invalid_message
validate_expansion_request x other item = validate_expansion x >> fail invalid_message
