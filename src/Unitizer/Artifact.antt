-- ===== src/Unitizer/Artifact.antt =====
-- prepared.rs and the entry of prepared/decode.rs: a complete artifact is prepared from verified
-- bytes, and a saved one is accepted. The digest of a byte string is a parameter: the crate blake3
-- hashes the chunks that it is fed as one string.
pub mod Accepted
pub mod Prepared
use eliot_search.Prelude.{
  ℕ, ◌+◌, Bool, true, false, not, ◌&&◌, ◌||◌, Option, none, some, List, [], ◌∷◌, Bytes, length,
  bytes_eq, ltb, leb, ◌==◌, if◌then◌else◌,
}
use eliot_search.Exec.{Exec, pure, ok_or, ◌>>=◌, ◌>>◌, refuse_if, map_err}
use eliot_search.Utf8.{from_utf8}
use eliot_search.Registry.{
  CurrentSourceRecord, PreparationSettings, ObjectKind, source, prepared, tag, is_supported,
  source_object_format_version, max_source_object_bytes,
}
use eliot_search.Materializer.{MaterializationLimits, materialize_utf8}
use eliot_search.Unitizer.Errors.{
  E, PreparationLimits, from_materialization, validate_limits, check, check_text_length,
  encoded_too_large, invalid_artifact, invalid_settings, binding_mismatch, integrity_failure,
  too_many_units,
}
use eliot_search.Unitizer.Layout.{UnitSpan, unitize_text}
use eliot_search.Unitizer.Wire.{
  magic, version, header_bytes, encoded_size, Reader, new_reader, take_bytes, u16, u32, u64, usize,
  at_end,
}
use eliot_search.Unitizer.Encode.{poll_chunk, encode}
use eliot_search.Unitizer.Decode.{PreparedUtf8, read_units}

unfoldable pub is_source_kind : ObjectKind → Bool
is_source_kind source = true
is_source_kind prepared = false

-- The binding of a source that can be prepared.
unfoldable pub is_bindable : CurrentSourceRecord → Bool
unfolding is_source_kind
is_bindable record_ = not (
    record_.registration_revision == 0
    || not (is_source_kind record_.object_ref.kind)
    || not (record_.object_ref.format_version == source_object_format_version)
    || ltb max_source_object_bytes record_.object_ref.byte_length)

unfoldable pub validate :
    CurrentSourceRecord → PreparationSettings → PreparationLimits → Exec E (Unit {0})
unfolding is_bindable
validate record_ settings limits = do
  check
  validate_limits limits
  refuse_if (not (is_supported settings)) invalid_settings
  refuse_if (not (is_bindable record_)) binding_mismatch
  check_text_length limits record_.object_ref.byte_length

-- The looks at the environment while the chunks of a text are hashed.
unfoldable pub feed_chunks : Bytes → ℕ → Exec E (Unit {0})
feed_chunks [] index = pure tt
feed_chunks (b ∷ rest) index = poll_chunk index >> feed_chunks rest (index + 1)

-- A field is read and compared, and the rest is read only if it agrees.
unfoldable pub expect_bytes : ℕ → Bytes → Reader → Exec E Reader
expect_bytes count expected reader = do
  taken ← take_bytes count reader
  refuse_if (not (bytes_eq taken.0 expected)) binding_mismatch
  pure taken.1

unfoldable pub expect_word : (Reader → Exec E (ℕ × Reader)) → ℕ → Reader → Exec E Reader
expect_word read expected reader = do
  taken ← read reader
  refuse_if (not (taken.0 == expected)) binding_mismatch
  pure taken.1

unfoldable pub read_magic : Reader → Exec E Reader
read_magic reader = do
  taken ← take_bytes (length magic) reader
  refuse_if (not (bytes_eq taken.0 magic)) invalid_artifact
  found ← u16 taken.1
  refuse_if (not (found.0 == version)) invalid_artifact
  pure found.1

unfoldable pub read_binding : Reader → CurrentSourceRecord → PreparationSettings → Exec E Reader
unfolding read_magic expect_bytes expect_word
read_binding reader record_ settings = do
  r ← read_magic reader
  r ← expect_bytes 16 record_.source_namespace_id r
  r ← expect_bytes 16 record_.source_id r
  r ← expect_word u64 record_.registration_revision r
  r ← expect_word u16 record_.object_ref.format_version r
  r ← expect_bytes 1 (tag record_.object_ref.kind ∷ []) r
  r ← expect_bytes 32 record_.object_ref.digest r
  r ← expect_word u64 record_.object_ref.byte_length r
  r ← expect_word u16 settings.utf8_version r
  r ← expect_word u16 settings.line_unitizer_version r
  r ← expect_word u32 settings.preferred_unit_bytes r
  expect_word u32 settings.max_unit_bytes r

module _ (blake3 : Bytes → Bytes) where
  unfoldable pub verify_digest : CurrentSourceRecord → Bytes → Exec E (Unit {0})
  unfolding feed_chunks
  verify_digest record_ bytes = do
    feed_chunks bytes 0
    check
    refuse_if (not (bytes_eq (blake3 bytes) record_.object_ref.digest)) integrity_failure
    pure tt

  unfoldable pub prepare_utf8 :
      CurrentSourceRecord → Bytes → PreparationSettings → PreparationLimits → Exec E Bytes
  unfolding validate verify_digest
  prepare_utf8 record_ verified_bytes settings limits = do
    validate record_ settings limits
    refuse_if (not (length verified_bytes == record_.object_ref.byte_length)) binding_mismatch
    verify_digest record_ verified_bytes
    product ← map_err from_materialization (
        materialize_utf8 verified_bytes (record {
          max_input_bytes = limits.max_input_bytes;
          max_output_bytes = limits.max_output_bytes;
          max_lines = limits.max_lines;
        }))
    units ← unitize_text product settings limits
    encode record_ settings product units limits

  unfoldable pub decode :
      Bytes → CurrentSourceRecord → PreparationSettings → PreparationLimits → Exec E PreparedUtf8
  unfolding verify_digest read_binding
  decode artifact record_ settings limits = do
    refuse_if (ltb limits.max_encoded_bytes (length artifact)) encoded_too_large
    refuse_if (ltb (length artifact) header_bytes) invalid_artifact
    bound ← read_binding (new_reader artifact) record_ settings
    text_length ← usize bound
    unit_count ← usize text_length.1
    refuse_if (ltb limits.max_units unit_count.0) too_many_units
    check_text_length limits text_length.0
    refuse_if (not (text_length.0 == record_.object_ref.byte_length)) binding_mismatch
    size ← encoded_size text_length.0 unit_count.0
    refuse_if (not (size == length artifact)) invalid_artifact
    check
    text_bytes ← take_bytes text_length.0 unit_count.1
    text ← ok_or (from_utf8 text_bytes.0) invalid_artifact
    verify_digest record_ text_bytes.0
    units ← read_units text_bytes.1 text unit_count.0 settings limits
    refuse_if (not (at_end units.1)) invalid_artifact
    check
    pure (record { text = text; units = units.0 })

  unfoldable pub decode_prepared_utf8 :
      Bytes → CurrentSourceRecord → PreparationSettings → PreparationLimits → Exec E PreparedUtf8
  unfolding validate decode
  decode_prepared_utf8 artifact record_ settings limits = do
    validate record_ settings limits
    decode artifact record_ settings limits
