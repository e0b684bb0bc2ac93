-- ===== src/Examples/Artifacts.antt =====
-- The units of a short text, and its artifact, prepared and accepted. The digest of a byte string
-- is its length here.
use eliot_search.Prelude.{ℕ, ◌≡◌, refl, true, List, [], ◌∷◌, ◌+◌, Bytes, length}
use eliot_search.Prelude.Words.{to_le_bytes, from_le_bytes}
use eliot_search.Exec.{ok, err, calm, Exec, ◌>>=◌}
use eliot_search.Utf8.{from_utf8, is_char_boundary, is_utf8}
use eliot_search.Registry.{
  CurrentSourceRecord, PreparationSettings, source_object, is_supported, tag,
}
use eliot_search.Registry.FileKey.{unix}
use eliot_search.Materializer.{MaterializedText, validate, materialize_utf8}
use eliot_search.Materializer.Scan.{
  LineSpan, span, reject_binary_controls, reject_from, is_control, terminator, scan_lines,
  scan_from, push_line, last_line,
}
use eliot_search.Unitizer.Errors.{PreparationLimits, validate_limits, check, check_text_length}
use eliot_search.Unitizer.Layout.{
  UnitSpan, unitize_text, unitize_from, next_unit, choose_end, choose_character, climb, descend,
  ascend, describe, partition_point,
}
use eliot_search.Unitizer.Layout.Partition.{IsPartition, unitize_text-Partition}
use eliot_search.Unitizer.Wire.{
  encoded_size, put_usize, new_reader, get_range, take_bytes, word, boolean, at_end,
}
use eliot_search.Unitizer.Encode.{
  binding, header, poll_chunk, write_text, encode_unit, write_units, encode,
}
use eliot_search.Unitizer.Decode.{
  poll, walk, next_line, seek, read_unit, is_misplaced, is_misnamed, accept_unit, accept_units,
  read_units,
}
use eliot_search.Unitizer.Artifact.{
  is_source_kind, is_bindable, feed_chunks, expect_bytes, expect_word, read_magic, read_binding,
  verify_digest, prepare_utf8, decode, decode_prepared_utf8,
}
use eliot_search.Unitizer.Artifact.Prepared.{IsPrepared, IsSized, prepare_utf8-IsPrepared}
use eliot_search.Unitizer.Artifact.Accepted.{IsAccepted, decode_prepared_utf8-IsAccepted}

-- "ab\nc\n"
abbrev letters : Bytes
letters = 97 ∷ 98 ∷ 10 ∷ 99 ∷ 10 ∷ []

abbrev lines : List LineSpan
lines = span 0 0 2 3 ∷ span 1 3 4 5 ∷ []

abbrev product : MaterializedText
product = record { text = letters; lines = lines }

abbrev settings : PreparationSettings
settings = record {
  utf8_version = 1;
  line_unitizer_version = 1;
  preferred_unit_bytes = 3;
  max_unit_bytes = 4;
}

abbrev limits : PreparationLimits
limits = record {
  max_input_bytes = 64;
  max_output_bytes = 64;
  max_lines = 8;
  max_units = 8;
  max_encoded_bytes = 1024;
}

abbrev unit : ℕ → ℕ → ℕ → UnitSpan
unit from to line = record {
  source_start = from;
  source_end = to;
  logical_line_start = line;
  logical_line_end = line + 1;
  starts_at_line_boundary = true;
  ends_at_line_boundary = true;
}

abbrev units : List UnitSpan
units = unit 0 3 0 ∷ unit 3 5 1 ∷ []

letters_units : unitize_text product settings limits calm ≡ ok (units, calm)
unfolding unitize_text unitize_from next_unit choose_end choose_character climb descend ascend
    describe partition_point is_char_boundary check ◌>>=◌
letters_units = refl

abbrev toy_digest : Bytes → Bytes
toy_digest bytes = to_le_bytes 32 (length bytes)

abbrev record_ : CurrentSourceRecord
record_ = record {
  source_namespace_id = to_le_bytes 16 1;
  source_id = to_le_bytes 16 2;
  row_revision = 4;
  registration_revision = 3;
  locator = 47 ∷ 97 ∷ [];
  file_key = unix 1 2;
  object_ref = source_object (toy_digest letters) (length letters);
}

abbrev artifact : Bytes
artifact =
    69 ∷ 76 ∷ 83 ∷ 80 ∷ 82 ∷ 80 ∷ 48 ∷ 49 ∷ 1 ∷ 0 ∷ 1 ∷ 0 ∷ 0 ∷ 0 ∷ 0 ∷ 0 ∷ 0 ∷ 0 ∷ 0 ∷ 0 ∷ 0 ∷ 0
    ∷ 0 ∷ 0 ∷ 0 ∷ 0 ∷ 2 ∷ 0 ∷ 0 ∷ 0 ∷ 0 ∷ 0 ∷ 0 ∷ 0 ∷ 0 ∷ 0 ∷ 0 ∷ 0 ∷ 0 ∷ 0 ∷ 0 ∷ 0 ∷ 3 ∷ 0 ∷ 0 ∷ 0
    ∷ 0 ∷ 0 ∷ 0 ∷ 0 ∷ 1 ∷ 0 ∷ 1 ∷ 5 ∷ 0 ∷ 0 ∷ 0 ∷ 0 ∷ 0 ∷ 0 ∷ 0 ∷ 0 ∷ 0 ∷ 0 ∷ 0 ∷ 0 ∷ 0 ∷ 0 ∷ 0 ∷ 0
    ∷ 0 ∷ 0 ∷ 0 ∷ 0 ∷ 0 ∷ 0 ∷ 0 ∷ 0 ∷ 0 ∷ 0 ∷ 0 ∷ 0 ∷ 0 ∷ 0 ∷ 0 ∷ 5 ∷ 0 ∷ 0 ∷ 0 ∷ 0 ∷ 0 ∷ 0 ∷ 0 ∷ 1
    ∷ 0 ∷ 1 ∷ 0 ∷ 3 ∷ 0 ∷ 0 ∷ 0 ∷ 4 ∷ 0 ∷ 0 ∷ 0 ∷ 5 ∷ 0 ∷ 0 ∷ 0 ∷ 0 ∷ 0 ∷ 0 ∷ 0 ∷ 2 ∷ 0 ∷ 0 ∷ 0 ∷ 0
    ∷ 0 ∷ 0 ∷ 0 ∷ 97 ∷ 98 ∷ 10 ∷ 99 ∷ 10 ∷ 0 ∷ 0 ∷ 0 ∷ 0 ∷ 0 ∷ 0 ∷ 0 ∷ 0 ∷ 3 ∷ 0 ∷ 0 ∷ 0 ∷ 0 ∷ 0 ∷ 0
    ∷ 0 ∷ 0 ∷ 0 ∷ 0 ∷ 0 ∷ 0 ∷ 0 ∷ 0 ∷ 0 ∷ 1 ∷ 0 ∷ 0 ∷ 0 ∷ 0 ∷ 0 ∷ 0 ∷ 0 ∷ 1 ∷ 1 ∷ 3 ∷ 0 ∷ 0 ∷ 0 ∷ 0
    ∷ 0 ∷ 0 ∷ 0 ∷ 5 ∷ 0 ∷ 0 ∷ 0 ∷ 0 ∷ 0 ∷ 0 ∷ 0 ∷ 1 ∷ 0 ∷ 0 ∷ 0 ∷ 0 ∷ 0 ∷ 0 ∷ 0 ∷ 2 ∷ 0 ∷ 0 ∷ 0 ∷ 0
    ∷ 0 ∷ 0 ∷ 0 ∷ 1 ∷ 1 ∷ []

artifact_accepted :
    decode_prepared_utf8 toy_digest artifact record_ settings limits calm
    ≡ ok (record { text = letters; units = units }, calm)
unfolding decode_prepared_utf8 decode validate validate_limits check check_text_length is_supported
    is_bindable is_source_kind tag to_le_bytes from_le_bytes header binding put_usize encode_unit
    ◌>>=◌ read_binding read_magic expect_bytes expect_word take_bytes get_range word boolean at_end
    new_reader encoded_size from_utf8 verify_digest feed_chunks poll_chunk read_units accept_units
    accept_unit read_unit is_misplaced is_misnamed seek next_line walk poll terminator
    is_char_boundary
artifact_accepted = refl

letters_prepared :
    prepare_utf8 toy_digest record_ letters settings limits calm ≡ ok (artifact, calm)
unfolding prepare_utf8 validate validate_limits check check_text_length is_supported is_bindable
    is_source_kind tag to_le_bytes header binding put_usize encode_unit ◌>>=◌ encoded_size from_utf8
    verify_digest feed_chunks poll_chunk materialize_utf8 reject_binary_controls reject_from
    is_control scan_lines scan_from push_line last_line terminator unitize_text unitize_from
    next_unit choose_end choose_character climb descend ascend describe partition_point
    is_char_boundary encode write_text write_units eliot_search.Exec.map_err
    eliot_search.Materializer.Scan.check eliot_search.Materializer.Scan.poll
letters_prepared = refl

unitize_text-Partition_example : IsPartition letters settings limits units
unfolding is_utf8 eliot_search.Materializer.Scan.Inventory.spans terminator
unitize_text-Partition_example =
    unitize_text-Partition letters settings limits calm calm units refl letters_units

decode_prepared_utf8-IsAccepted_example :
    IsAccepted toy_digest record_ settings limits (record { text = letters; units = units })
    × (is_supported settings ≡ true)
    × (is_bindable record_ ≡ true)
decode_prepared_utf8-IsAccepted_example =
    decode_prepared_utf8-IsAccepted toy_digest record_ settings limits artifact calm calm
      (record { text = letters; units = units }) artifact_accepted

record_-IsSized : IsSized record_
unfolding to_le_bytes
record_-IsSized = record { namespace = refl; id = refl; digest = refl }

prepare_utf8-IsPrepared_example : IsPrepared toy_digest record_ settings limits letters artifact
prepare_utf8-IsPrepared_example =
    prepare_utf8-IsPrepared toy_digest record_ settings limits letters calm calm artifact
      record_-IsSized letters_prepared
