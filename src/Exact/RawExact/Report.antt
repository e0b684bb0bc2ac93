-- ===== src/Exact/RawExact/Report.antt =====
-- What an execution reports, before it holds the result against the request.
use eliot_search.Prelude.{
  ℕ, ◌+◌, ◌≤◌, ◌≡◌, refl, ap, ◌∙◌, ◌&&◌, Option, List, ◌∷◌, arith, Bytes, length, take, All, ◌==◌,
  if◌then◌else◌,
}
use eliot_search.Prelude.Words.{max_u64, checked_add, checked_add-some}
use eliot_search.Exec.{Result, ok, calm, Exec, pure, ok_or, map_err, reserve_with, check_with, ◌>>◌}
use eliot_search.Exec.Ensures.{bind-at}
use eliot_search.Registry.{ObjectRef, CurrentSourceRecord}
use eliot_search.Protocol.{ProtocolError}
use eliot_search.Protocol.Message.Request.{RawExactRequest, validate_raw_request}
use eliot_search.Protocol.Message.Item.{StopReason}
use eliot_search.Protocol.Message.Raw.{RawExactResult, validate_raw_answer}
use eliot_search.Exact.{QueryFailure, query_allocation_failed, check, Literal, new}
use eliot_search.Exact.Table.{new-IsTable}
use eliot_search.Exact.RawExact.{
  ObjectStoreError, exact_input_limit, scan_sources, settle, fresh_result, refuse, execute,
}
use eliot_search.Exact.RawExact.Inventory.{
  all_items, all_matches, all_gaps, all_reads, all_bytes, IsServed, scan_sources-IsSum,
}

-- A result that counts all occurrences in the sources, and holds the first items of them.
pub record IsReport (literal : Bytes) (reads : ObjectRef → Result ObjectStoreError Bytes)
    (sources : List CurrentSourceRecord) (limit number : ℕ) (result : RawExactResult) : Type 0 where
  pub generation : result.generation ≡ number
  pub selected : result.selected_sources ≡ length sources
  pub matches : result.matches ≡ all_matches literal reads sources
  pub missing : result.missing_sources ≡ all_gaps literal reads sources
  pub scanned : result.scanned_sources ≡ all_reads literal reads sources
  pub bytes : result.scanned_bytes ≡ all_bytes literal reads sources
  pub items : result.items ≡ take limit (all_items literal reads sources)
  pub complete : result.scan_complete ≡ (result.missing_sources == 0)
  pub negative : result.complete_negative ≡ (result.scan_complete && result.matches == 0)
  pub stop : result.stop ≡ (
      if length result.items == result.matches + result.missing_sources
      then StopReason.complete
      else StopReason.output_limit)

check-calm : check calm ≡ ok (tt, calm)
unfolding check check_with
check-calm = refl

reserve-calm : reserve_with query_allocation_failed calm ≡ ok (tt, calm)
unfolding reserve_with
reserve-calm = refl

map_err-calm :
    {A : Type 0} (m : Exec ProtocolError A) {a : A}
    → m calm ≡ ok (a, calm)
    → map_err refuse m calm ≡ ok (a, calm)
unfolding map_err
map_err-calm m h = rw h refl

-- The result that is settled from what the loop returned.
abbrev settled_of : RawExactResult → RawExactResult
settled_of result = record result {
  scan_complete = result.missing_sources == 0;
  complete_negative = (result.missing_sources == 0) && result.matches == 0;
  stop =
      if length result.items == result.matches + result.missing_sources
      then result.stop
      else StopReason.output_limit;
}

settle-calm :
    (result : RawExactResult)
    → result.matches + result.missing_sources ≤ max_u64
    → settle result calm ≡ ok (settled_of result, calm)
unfolding settle pure ok_or
settle-calm result small =
    bind-at (ok_or (checked_add result.matches result.missing_sources) exact_input_limit) _ (
      ap (λ o. ok_or o exact_input_limit calm)
        (checked_add-some result.matches result.missing_sources small))

-- Undisturbed, for a valid request, where the published inventory of the selection is `sources`, each of
-- whose objects is read or missing, and where the numbers of matches, of matches with gaps and of bytes
-- fit into 64 bits: what is left of `execute`, once a result is settled, is to hold it against the request
-- and to return it. That result counts all occurrences of the literal in all objects that were read, and
-- the missing ones, whatever the limit is, and its items are the first ones of all matches and gaps, up to
-- the limit; the scan is complete if no object is missing, a negative is claimed only if, moreover, nothing
-- was found, and the stop says whether items were left out.
pub execute-IsReport :
    (read_object : ObjectRef → ℕ → Exec QueryFailure (Result ObjectStoreError Bytes))
    (inventory_of : Option (List Bytes) → Exec QueryFailure (List CurrentSourceRecord))
    (reads : ObjectRef → Result ObjectStoreError Bytes) (byte : ℕ) (rest : Bytes)
    (source_ids : Option (List Bytes)) (limit generation : ℕ) (sources : List CurrentSourceRecord)
    → let request : RawExactRequest = record {
      literal = byte ∷ rest;
      source_ids = source_ids;
      limit = limit;
    } in
      validate_raw_request request calm ≡ ok (tt, calm)
      → inventory_of source_ids calm ≡ ok (sources, calm)
      → All (IsServed read_object reads) sources
      → all_matches (byte ∷ rest) reads sources + all_gaps (byte ∷ rest) reads sources ≤ max_u64
      → all_bytes (byte ∷ rest) reads sources ≤ max_u64
      → (result : RawExactResult) × (execute read_object inventory_of generation request calm
          ≡ (map_err refuse (validate_raw_answer result request) >> pure result) calm)
        × IsReport (byte ∷ rest) reads sources limit generation result
unfolding execute
execute-IsReport read_object inventory_of reads byte rest source_ids limit generation sources valid
      inventory served small sized =
    let request : RawExactRequest = record {
      literal = byte ∷ rest;
      source_ids = source_ids;
      limit = limit;
    } in
    let (prefix, made, table) = new-IsTable byte rest in
    let literal : Literal = record { bytes = byte ∷ rest; prefix = prefix } in
    let fresh : RawExactResult = fresh_result generation (length sources) in
    let (result, scanned, sum) =
      scan_sources-IsSum read_object reads literal table (omega arith) limit sources fresh served
        (omega arith) (omega arith) (omega arith) in
    let matches_eq = sum.matches in
    let missing_eq = sum.missing in
    let scanned_eq = sum.scanned in
    let bytes_eq = sum.bytes in
    (
      settled_of result,
      bind-at check _ check-calm
          ∙ (bind-at (map_err refuse (validate_raw_request request)) _
                (map_err-calm (validate_raw_request request) valid)
              ∙ (bind-at (new (byte ∷ rest)) _ made
                  ∙ (bind-at (inventory_of source_ids) _ inventory
                      ∙ (bind-at (reserve_with query_allocation_failed) _ reserve-calm
                          ∙ (bind-at (scan_sources read_object sources literal fresh limit) _
                                scanned
                              ∙ (bind-at check _ check-calm
                                  ∙ bind-at (settle result) _
                                      (settle-calm result (omega arith)))))))),
      record {
        generation = sum.kept.generation;
        selected = sum.kept.selected;
        matches = omega arith;
        missing = omega arith;
        scanned = omega arith;
        bytes = omega arith;
        items = sum.items;
        complete = refl;
        negative = refl;
        stop =
            ap
              (λ s.
                if length result.items == result.matches + result.missing_sources
                then s
                else StopReason.output_limit)
              sum.kept.stop;
      },
    )
