-- ===== src/Protocol/Message/Object.antt =====
-- dto.rs, object references and the citations that carry them.
pub mod Same
use eliot_search.Prelude.{
  ℕ, ◌+◌, ◌-◌, ◌*◌, Bool, true, false, not, ◌&&◌, ◌||◌, Option, none, some, List, [], ◌∷◌, Bytes,
  take, bytes_eq, ltb, leb, ◌==◌,
}
use eliot_search.Exec.{Exec, refuse_if, ◌>>=◌, ◌>>◌}
use eliot_search.Contracts
use eliot_search.Protocol.{ProtocolError, invalid_message, max_unit_text_bytes}
use eliot_search.Protocol.Message.Text.{lower_hex, canonical_uuid, is_length}

pub data ObjectKindDto : Type 0 where
  source prepared : ObjectKindDto

abbrev pub kind_eq : ObjectKindDto → ObjectKindDto → Bool
kind_eq source source = true
kind_eq prepared prepared = true
kind_eq _ _ = false

pub record ObjectRefDto : Type 0 where
  pub version : ℕ
  pub kind : ObjectKindDto
  pub digest : Bytes
  pub bytes : ℕ

abbrev pub object_eq : ObjectRefDto → ObjectRefDto → Bool
object_eq a b =
    a.version == b.version
    && kind_eq a.kind b.kind
    && bytes_eq a.digest b.digest
    && a.bytes == b.bytes

abbrev pub maximum_of : ObjectKindDto → ℕ
maximum_of source = 8 * 1024 * 1024
maximum_of prepared = 64 * 1024 * 1024

unfoldable pub validate_object : ObjectRefDto → ObjectKindDto → Exec ProtocolError (Unit {0})
validate_object object expected =
    refuse_if
      (not (object.version == 1)
        || not (kind_eq object.kind expected)
        || not (lower_hex object.digest 64)
        || ltb (maximum_of expected) object.bytes
        || (kind_eq expected prepared && object.bytes == 0))
      invalid_message

-- `u64::from_str_radix(digits, 16).ok()` of lowercase digits, as many as fit.
abbrev append_digit : Option ℕ → Option ℕ → Option ℕ
append_digit (some value) (some d) = some (16 * value + d)
append_digit _ _ = none

unfoldable pub from_hex : Option ℕ → Bytes → Option ℕ
unfolding Contracts.lower_hex
from_hex value [] = value
from_hex value (b ∷ rest) = from_hex (append_digit value (Contracts.lower_hex b)) rest

pub record EvidenceMetadata : Type 0 where
  pub generation : ℕ
  pub point_id : Bytes
  pub source_namespace_id : Bytes
  pub source_id : Bytes
  pub input : ObjectRefDto
  pub prepared_object : ObjectRefDto
  pub unit : ℕ
  pub start : ℕ
  pub end : ℕ
  pub line_start : ℕ
  pub line_end : ℕ
  pub starts_at_line_boundary : Bool
  pub ends_at_line_boundary : Bool

unfoldable pub validate_evidence : EvidenceMetadata → ℕ → Exec ProtocolError (Unit {0})
unfolding validate_object from_hex
validate_evidence e generation = do
  refuse_if
      (generation == 0
        || not (e.generation == generation)
        || not (lower_hex e.point_id 32)
        || not (is_length (from_hex (some 0) (take 16 e.point_id)) generation)
        || not (canonical_uuid e.source_namespace_id)
        || not (canonical_uuid e.source_id)
        || leb e.end e.start
        || ltb max_unit_text_bytes (e.end - e.start)
        || leb e.line_end e.line_start)
      invalid_message
  validate_object e.input source
  refuse_if (ltb e.input.bytes e.end) invalid_message
  validate_object e.prepared_object prepared

pub record RawSourceRef : Type 0 where
  pub source_namespace_id : Bytes
  pub source_id : Bytes
  pub row_revision : ℕ
  pub registration_revision : ℕ
  pub input : ObjectRefDto

abbrev pub source_eq : RawSourceRef → RawSourceRef → Bool
source_eq a b =
    bytes_eq a.source_namespace_id b.source_namespace_id
    && bytes_eq a.source_id b.source_id
    && a.row_revision == b.row_revision
    && a.registration_revision == b.registration_revision
    && object_eq a.input b.input

unfoldable pub validate_source : RawSourceRef → Exec ProtocolError (Unit {0})
unfolding validate_object
validate_source s = do
  refuse_if
      (not (canonical_uuid s.source_namespace_id)
        || not (canonical_uuid s.source_id)
        || s.row_revision == 0
        || s.registration_revision == 0)
      invalid_message
  validate_object s.input source
