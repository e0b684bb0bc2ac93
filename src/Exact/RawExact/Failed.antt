-- ===== src/Exact/RawExact/Failed.antt =====
-- A source whose object cannot be read ends the execution, unless the object is missing.
use eliot_search.Prelude.{
  ℕ, ◌+◌, ◌≤◌, ◌<◌, ◌≡◌, refl, ◌∙◌, List, [], ◌∷◌, ◌++◌, arith, Bytes, length, All,
}
use eliot_search.Prelude.Words.{max_u64}
use eliot_search.Exec.{Result, ok, err, calm, Exec, fail, check_with}
use eliot_search.Exec.Ensures.{bind-at, bind-err}
use eliot_search.Registry.{ObjectRef, CurrentSourceRecord, max_source_object_bytes}
use eliot_search.Protocol.Message.Raw.{RawExactResult}
use eliot_search.Exact.{QueryFailure, code, check, Literal}
use eliot_search.Exact.Fall.{IsTable}
use eliot_search.Exact.RawExact.{
  ObjectStoreError, invalid_reference, missing, not_regular_file, integrity_failure,
  allocation_failed, immutable_conflict, publish_failed, io, deadline, cancelled, error_code,
  source_ref, on_read, scan_source, scan_sources,
}
use eliot_search.Exact.RawExact.Added.{citation, source_ref-calm}
use eliot_search.Exact.RawExact.Scanned.{scan_source-IsAdded}
use eliot_search.Exact.RawExact.Inventory.{all_matches, all_bytes, IsServed}

-- What the execution fails with; a missing object is none of its failures.
abbrev pub failure_of : ObjectStoreError → QueryFailure
unfolding error_code
failure_of cancelled = QueryFailure.cancelled
failure_of deadline = QueryFailure.deadline
failure_of e = code (error_code e)

abbrev pub IsFatal : ObjectStoreError → Type 0
IsFatal missing = ⊥
IsFatal e = Unit

module _ (read_object : ObjectRef → ℕ → Exec QueryFailure (Result ObjectStoreError Bytes))
    (reads : ObjectRef → Result ObjectStoreError Bytes) (literal : Literal)
    (table : IsTable literal.bytes literal.prefix (length literal.bytes))
    (some_bytes : 0 < length literal.bytes) (limit : ℕ) where
  on_read-fatal :
      (source : CurrentSourceRecord) (result : RawExactResult) (e : ObjectStoreError)
      → IsFatal e
      → on_read literal (citation source) source.object_ref limit result (err e) calm
        ≡ err (failure_of e)
  unfolding on_read fail error_code
  on_read-fatal source result missing h = absurd h
  on_read-fatal source result invalid_reference h = refl
  on_read-fatal source result not_regular_file h = refl
  on_read-fatal source result integrity_failure h = refl
  on_read-fatal source result allocation_failed h = refl
  on_read-fatal source result immutable_conflict h = refl
  on_read-fatal source result publish_failed h = refl
  on_read-fatal source result io h = refl
  on_read-fatal source result deadline h = refl
  on_read-fatal source result cancelled h = refl

  check-calm : check calm ≡ ok (tt, calm)
  unfolding check check_with
  check-calm = refl

  scan_source-fatal :
      (source : CurrentSourceRecord) (result : RawExactResult) (e : ObjectStoreError)
      → IsFatal e
      → read_object source.object_ref max_source_object_bytes calm ≡ ok (err e, calm)
      → scan_source read_object source literal result limit calm ≡ err (failure_of e)
  unfolding scan_source
  scan_source-fatal source result e fatal outcome =
      bind-at check _ check-calm
      ∙ (bind-at (source_ref source) _ (source_ref-calm source)
          ∙ (bind-at (read_object source.object_ref max_source_object_bytes) _ outcome
              ∙ on_read-fatal source result e fatal))

  -- Undisturbed, with a table of the borders of a literal that is not empty, where the objects of the
  -- first sources are read or missing, their matches and bytes counted within 64 bits, and the object of
  -- the next source is refused for another reason than that it is missing: the scan of the sources fails
  -- with the code of that reason, or with the cancellation or the deadline that the store met, whatever
  -- the sources behind are.
  pub scan_sources-fatal :
      (before : List CurrentSourceRecord) (source : CurrentSourceRecord)
      (behind : List CurrentSourceRecord) (result : RawExactResult) (e : ObjectStoreError)
      → All (IsServed read_object reads) before
      → IsFatal e
      → read_object source.object_ref max_source_object_bytes calm ≡ ok (err e, calm)
      → result.matches + all_matches literal.bytes reads before ≤ max_u64
      → result.scanned_bytes + all_bytes literal.bytes reads before ≤ max_u64
      → length result.items ≤ limit
      → scan_sources read_object (before ++ source ∷ behind) literal result limit calm
        ≡ err (failure_of e)
  unfolding scan_sources
  scan_sources-fatal [] source behind result e served fatal outcome small sized few =
      bind-err (scan_source read_object source literal result limit) _
        (scan_source-fatal source result e fatal outcome)
  scan_sources-fatal (first ∷ before) source behind result e (served, others) fatal outcome small
        sized few =
      let (middle, made, added) =
        scan_source-IsAdded literal table some_bytes first limit read_object result
          (reads first.object_ref) served.reads_it served.available (omega arith) (omega arith)
          few in
      let matches_eq = added.matches in
      let bytes_eq = added.bytes in
      bind-at (scan_source read_object first literal result limit) _ made
      ∙ scan_sources-fatal before source behind middle e others fatal outcome (omega arith)
          (omega arith) added.few
