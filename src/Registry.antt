-- ===== src/Registry.antt =====
-- crates/search-source/search-source-registry/src/lib.rs: typed source rows, object references and
-- the fixed encoding of native file keys. Identifiers and digests of search-contracts are the bytes
-- that they wrap.
pub mod FileKey
use eliot_search.Prelude.{
  ℕ, ◌*◌, Bool, ◌&&◌, Option, none, some, Bytes, ltb, leb, ◌==◌, if◌then◌else◌,
}
use eliot_search.Registry.FileKey.{NativeFileKey}

abbrev pub source_object_format_version : ℕ
source_object_format_version = 1

abbrev pub max_source_object_bytes : ℕ
max_source_object_bytes = 8 * 1024 * 1024

abbrev pub max_preparation_unit_bytes : ℕ
max_preparation_unit_bytes = 64 * 1024

pub record PreparationSettings : Type 0 where
  pub utf8_version : ℕ
  pub line_unitizer_version : ℕ
  pub preferred_unit_bytes : ℕ
  pub max_unit_bytes : ℕ

abbrev pub default_settings : PreparationSettings
default_settings = record {
  utf8_version = 1;
  line_unitizer_version = 1;
  preferred_unit_bytes = 16 * 1024;
  max_unit_bytes = max_preparation_unit_bytes;
}

unfoldable pub is_supported : PreparationSettings → Bool
is_supported s =
    s.utf8_version == 1
    && s.line_unitizer_version == 1
    && ltb 0 s.preferred_unit_bytes
    && leb s.preferred_unit_bytes s.max_unit_bytes
    && leb s.max_unit_bytes max_preparation_unit_bytes

pub data ObjectKind : Type 0 where
  source prepared : ObjectKind

unfoldable pub tag : ObjectKind → ℕ
tag source = 1
tag prepared = 2

unfoldable pub from_tag : ℕ → Option ObjectKind
from_tag t = if t == 1 then some source else if t == 2 then some prepared else none

pub record ObjectRef : Type 0 where
  pub format_version : ℕ
  pub kind : ObjectKind
  pub digest : Bytes
  pub byte_length : ℕ

abbrev pub source_object : Bytes → ℕ → ObjectRef
source_object digest byte_length = record {
  format_version = source_object_format_version;
  kind = source;
  digest = digest;
  byte_length = byte_length;
}

abbrev pub prepared_object : Bytes → ℕ → ObjectRef
prepared_object digest byte_length = record {
  format_version = source_object_format_version;
  kind = prepared;
  digest = digest;
  byte_length = byte_length;
}

pub record CurrentSourceRecord : Type 0 where
  pub source_namespace_id : Bytes
  pub source_id : Bytes
  pub row_revision : ℕ
  pub registration_revision : ℕ
  pub locator : Bytes
  pub file_key : NativeFileKey
  pub object_ref : ObjectRef
