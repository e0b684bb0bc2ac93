-- ===== src/Examples/Executions.antt =====
-- A raw execution over two sources, one of which is missing.
use eliot_search.Prelude.{
  Bool, ℕ, ◌≡◌, refl, none, Option, List, [], ◌∷◌, arith, Bytes, All, ◌==◌, if◌then◌else◌,
}
use eliot_search.Exec.{
  Result, ok, err, calm, Exec, pure, ok_or, refuse_if, map_err, ◌>>=◌, ◌>>◌, check_with,
  reserve_with, fail,
}
use eliot_search.Contracts
use eliot_search.Contracts.{display}
use eliot_search.Registry.{ObjectRef, ObjectKind, CurrentSourceRecord}
use eliot_search.Registry.FileKey.{NativeFileKey}
use eliot_search.Protocol.Message.Text.{canonical_uuid, lower_hex}
use eliot_search.Protocol.Message.Request.{RawExactRequest, validate_raw_request}
use eliot_search.Protocol.Message.Object.{validate_source, validate_object}
use eliot_search.Protocol.Message.Item.{StopReason}
use eliot_search.Protocol.Message.Raw.{
  RawExactResult, validate_raw_answer, validate_raw_result, is_misaccounted, count_raw_items,
  compare_raw, validate_raw_item, validate_raw_range, raw_source, is_other_literal,
}
use eliot_search.Protocol.Message.Raw.Literal.{IsAnswer}
use eliot_search.Exact.{
  QueryFailure, new, check, poll, compile, advance, fall_back, scan, scan_from, report,
}
use eliot_search.Exact.RawExact.{
  ObjectStoreError, missing, refuse, execute, scan_sources, scan_source, source_ref, object_ref,
  hex, on_read, on_match, keep_match, settle,
}
use eliot_search.Exact.RawExact.Added.{citation}
use eliot_search.Exact.RawExact.Items.{match_of}
use eliot_search.Exact.RawExact.Inventory.{IsServed}
use eliot_search.Exact.RawExact.Report.{IsReport, execute-IsReport}
use eliot_search.Exact.RawExact.{io, fresh_result}
use eliot_search.Exact.{Literal}
use eliot_search.Exact.Table.{new-IsTable}
use eliot_search.Registry.{max_source_object_bytes}
use eliot_search.Exact.RawExact.Failed.{failure_of, scan_sources-fatal}
use eliot_search.Exact.RawExact.Answer.{execute-IsAnswer}

-- An identifier or digest of so many equal bytes.
abbrev repeated : ℕ → ℕ → Bytes
repeated ℕ.zero b = []
repeated (ℕ.suc n) b = b ∷ repeated n b

abbrev row : ℕ → ℕ → CurrentSourceRecord
row id size = record {
  source_namespace_id = repeated 16 1;
  source_id = repeated 16 id;
  row_revision = 1;
  registration_revision = 1;
  locator = [];
  file_key = NativeFileKey.unix 0 id;
  object_ref = record {
    format_version = 1;
    kind = ObjectKind.source;
    digest = repeated 32 id;
    byte_length = size;
  };
}

abbrev rows : List CurrentSourceRecord
rows = row 1 4 ∷ row 2 9 ∷ []

-- "abab", and nothing else.
abbrev outcomes : ObjectRef → Result ObjectStoreError Bytes
outcomes reference = if reference.byte_length == 4 then ok (97 ∷ 98 ∷ 97 ∷ 98 ∷ []) else err missing

abbrev store : ObjectRef → ℕ → Exec QueryFailure (Result ObjectStoreError Bytes)
store reference maximum = pure (outcomes reference)

abbrev inventory : Option (List Bytes) → Exec QueryFailure (List CurrentSourceRecord)
inventory ids = pure rows

abbrev request : RawExactRequest
request = record { literal = 97 ∷ 98 ∷ []; source_ids = none; limit = 2 }

request_valid : validate_raw_request request calm ≡ ok (tt, calm)
unfolding validate_raw_request refuse_if pure ◌>>=◌
request_valid = refl

rows-IsServed : All (IsServed store outcomes) rows
unfolding pure
rows-IsServed =
    (record { reads_it = refl; available = tt }, (record { reads_it = refl; available = tt }, tt))

execute-IsReport_example :
    (result : RawExactResult) × (execute store inventory 7 request calm
      ≡ (map_err refuse (validate_raw_answer result request) >> pure result) calm)
    × IsReport (97 ∷ 98 ∷ []) outcomes rows 2 7 result
unfolding pure
execute-IsReport_example =
    execute-IsReport store inventory outcomes 97 (98 ∷ []) none 2 7 rows request_valid refl
      rows-IsServed (omega arith) (omega arith)

-- Two matches of three items; the gap of the second source is left out.
abbrev two_matches : RawExactResult
two_matches = record {
  generation = 7;
  selected_sources = 2;
  scanned_sources = 1;
  missing_sources = 1;
  scanned_bytes = 4;
  matches = 2;
  items =
      match_of (citation (row 1 4)) (97 ∷ 98 ∷ 97 ∷ 98 ∷ []) 0 2
      ∷ match_of (citation (row 1 4)) (97 ∷ 98 ∷ 97 ∷ 98 ∷ []) 2 4
      ∷ [];
  scan_complete = Bool.false;
  complete_negative = Bool.false;
  stop = StopReason.output_limit;
}

executed : execute store inventory 7 request calm ≡ ok (two_matches, calm)
unfolding execute new check compile advance fall_back scan scan_from report poll scan_sources
    scan_source source_ref object_ref hex on_read on_match keep_match settle map_err
    validate_raw_answer validate_raw_request validate_raw_result is_misaccounted count_raw_items
    compare_raw validate_raw_item validate_raw_range raw_source validate_source validate_object
    canonical_uuid lower_hex is_other_literal display Contracts.hex_encode Contracts.digit refuse_if
    ok_or pure fail check_with reserve_with ◌>>=◌
executed = refl

execute-IsAnswer_example : IsAnswer two_matches request
execute-IsAnswer_example = execute-IsAnswer store inventory 7 request two_matches calm calm executed

-- A literal with the table that is computed for it.
abbrev ab : Literal
ab = record { bytes = 97 ∷ 98 ∷ []; prefix = (new-IsTable 97 (98 ∷ [])).0 }

-- The object of the second source is not readable.
abbrev broken_outcomes : ObjectRef → Result ObjectStoreError Bytes
broken_outcomes reference =
    if reference.byte_length == 9 then err io else ok (97 ∷ 98 ∷ 97 ∷ 98 ∷ [])

abbrev broken_store : ObjectRef → ℕ → Exec QueryFailure (Result ObjectStoreError Bytes)
broken_store reference maximum = pure (broken_outcomes reference)

first-IsServed : All (IsServed broken_store broken_outcomes) (row 1 4 ∷ [])
unfolding pure
first-IsServed = (record { reads_it = refl; available = tt }, tt)

second_broken : broken_store (row 2 9).object_ref max_source_object_bytes calm ≡ ok (err io, calm)
unfolding pure
second_broken = refl

scan_sources-fatal_example :
    scan_sources broken_store (row 1 4 ∷ row 2 9 ∷ row 3 4 ∷ []) ab (fresh_result 7 3) 2 calm
    ≡ err (failure_of io)
scan_sources-fatal_example =
    scan_sources-fatal broken_store broken_outcomes ab (new-IsTable 97 (98 ∷ [])).2 (omega arith) 2
      (row 1 4 ∷ []) (row 2 9) (row 3 4 ∷ []) (fresh_result 7 3) io first-IsServed tt second_broken
      (omega arith) (omega arith) (omega arith)
