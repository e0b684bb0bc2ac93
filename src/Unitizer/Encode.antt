-- ===== src/Unitizer/Encode.antt =====
-- prepared/encode.rs: the complete artifact of a text and its units.
use eliot_search.Prelude.{
  ℕ, ◌+◌, ◌%◌, Bool, true, false, List, [], ◌∷◌, ◌++◌, Bytes, length, ltb, ◌==◌, if◌then◌else◌,
}
use eliot_search.Prelude.Words.{to_le_bytes}
use eliot_search.Exec.{Exec, pure, ◌>>=◌, ◌>>◌, refuse_if, reserve_with}
use eliot_search.Registry.{CurrentSourceRecord, PreparationSettings, tag}
use eliot_search.Materializer.{MaterializedText}
use eliot_search.Unitizer.Errors.{E, PreparationLimits, check, encoded_too_large, allocation_failed}
use eliot_search.Unitizer.Layout.{UnitSpan}
use eliot_search.Unitizer.Wire.{magic, version, encoded_size, put_usize}

-- `u8::from(flag)`
abbrev pub bool_byte : Bool → ℕ
bool_byte true = 1
bool_byte false = 0

unfoldable pub binding : CurrentSourceRecord → PreparationSettings → Bytes
binding source settings =
    source.source_namespace_id
    ++ (source.source_id
        ++ (to_le_bytes 8 source.registration_revision
            ++ (to_le_bytes 2 source.object_ref.format_version
                ++ (tag source.object_ref.kind
                    ∷ (source.object_ref.digest
                        ++ (to_le_bytes 8 source.object_ref.byte_length
                            ++ (to_le_bytes 2 settings.utf8_version
                                ++ (to_le_bytes 2 settings.line_unitizer_version
                                    ++ (to_le_bytes 4 settings.preferred_unit_bytes
                                        ++ to_le_bytes 4 settings.max_unit_bytes)))))))))

unfoldable pub header : CurrentSourceRecord → PreparationSettings → ℕ → ℕ → Bytes
unfolding binding put_usize
header source settings text_length unit_count =
    magic
    ++ (to_le_bytes 2 version
        ++ (binding source settings ++ (put_usize text_length ++ put_usize unit_count)))

-- `for chunk in bytes.chunks(8192) { check(…)?; … }`: a look at the head of each chunk.
unfoldable pub poll_chunk : ℕ → Exec E (Unit {0})
poll_chunk index = if index % 8192 == 0 then check else pure tt

unfoldable pub write_text : Bytes → ℕ → Bytes → Exec E Bytes
unfolding poll_chunk
write_text [] index out = pure out
write_text (b ∷ rest) index out = poll_chunk index >> write_text rest (index + 1) (out ++ b ∷ [])

unfoldable pub encode_unit : UnitSpan → Bytes
unfolding put_usize
encode_unit u =
    put_usize u.source_start
    ++ (put_usize u.source_end
        ++ (to_le_bytes 8 u.logical_line_start
            ++ (to_le_bytes 8 u.logical_line_end
                ++ bool_byte u.starts_at_line_boundary ∷ bool_byte u.ends_at_line_boundary ∷ [])))

unfoldable pub write_units : List UnitSpan → Bytes → Exec E Bytes
unfolding encode_unit
write_units [] out = pure out
write_units (u ∷ us) out = check >> write_units us (out ++ encode_unit u)

unfoldable pub encode :
    CurrentSourceRecord
    → PreparationSettings
    → MaterializedText
    → List UnitSpan
    → PreparationLimits
    → Exec E Bytes
unfolding header write_text write_units
encode source settings product units limits = do
  check
  size ← encoded_size (length product.text) (length units)
  refuse_if (ltb limits.max_encoded_bytes size) encoded_too_large
  reserve_with allocation_failed
  with_text ←
      write_text product.text 0 (header source settings (length product.text) (length units))
  out ← write_units units with_text
  check
  pure out
