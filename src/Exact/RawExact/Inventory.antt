-- ===== src/Exact/RawExact/Inventory.antt =====
-- The scan of all selected sources against the count of all occurrences in them.
use eliot_search.Prelude.{
  ℕ, ◌+◌, ◌*◌, ◌≤◌, ◌<◌, ◌≡◌, refl, sym, ap, ◌∙◌, List, [], ◌∷◌, ◌++◌, append-nil, append_assoc,
  arith, Bytes, length, take, take_all, All,
}
use eliot_search.Prelude.Words.{max_u64}
use eliot_search.Exec.{Result, ok, calm, Exec, pure}
use eliot_search.Exec.Ensures.{bind-at}
use eliot_search.Registry.{ObjectRef, CurrentSourceRecord, max_source_object_bytes}
use eliot_search.Protocol.Message.Raw.{RawExactItem, RawExactResult}
use eliot_search.Exact.{QueryFailure, Literal}
use eliot_search.Exact.Fall.{IsTable}
use eliot_search.Exact.RawExact.{ObjectStoreError, scan_source, scan_sources}
use eliot_search.Exact.RawExact.Items.{take-take-append}
use eliot_search.Exact.RawExact.Added.{found_in, items_of, read_count, gap_count, IsAvailable, Kept}
use eliot_search.Exact.RawExact.Scanned.{scan_source-IsAdded}

module _ (literal : Bytes) (reads : ObjectRef → Result ObjectStoreError Bytes) where
  -- All items of an inventory, each match and each gap, and their numbers.
  abbrev pub all_items : List CurrentSourceRecord → List RawExactItem
  all_items [] = []
  all_items (source ∷ sources) =
      items_of literal source (reads source.object_ref) ++ all_items sources

  abbrev pub all_matches : List CurrentSourceRecord → ℕ
  all_matches [] = 0
  all_matches (source ∷ sources) =
      length (found_in literal (reads source.object_ref)) + all_matches sources

  abbrev pub all_gaps : List CurrentSourceRecord → ℕ
  all_gaps [] = 0
  all_gaps (source ∷ sources) = gap_count (reads source.object_ref) + all_gaps sources

  abbrev pub all_reads : List CurrentSourceRecord → ℕ
  all_reads [] = 0
  all_reads (source ∷ sources) = read_count (reads source.object_ref) + all_reads sources

  abbrev pub all_bytes : List CurrentSourceRecord → ℕ
  all_bytes [] = 0
  all_bytes (source ∷ sources) =
      read_count (reads source.object_ref) * source.object_ref.byte_length + all_bytes sources

  -- What the scan of an inventory adds.
  pub record IsSum (sources : List CurrentSourceRecord) (limit : ℕ) (before after : RawExactResult)
      : Type 0 where
    pub matches : after.matches ≡ before.matches + all_matches sources
    pub missing : after.missing_sources ≡ before.missing_sources + all_gaps sources
    pub scanned : after.scanned_sources ≡ before.scanned_sources + all_reads sources
    pub bytes : after.scanned_bytes ≡ before.scanned_bytes + all_bytes sources
    pub items : after.items ≡ take limit (before.items ++ all_items sources)
    pub kept : Kept before after

-- The object of a source is read, or it is missing, as `reads` says.
pub record IsServed
    (read_object : ObjectRef → ℕ → Exec QueryFailure (Result ObjectStoreError Bytes))
    (reads : ObjectRef → Result ObjectStoreError Bytes) (source : CurrentSourceRecord)
    : Type 0 where
  pub reads_it :
      read_object source.object_ref max_source_object_bytes calm
      ≡ ok (reads source.object_ref, calm)
  pub available : IsAvailable (reads source.object_ref)

module _ (read_object : ObjectRef → ℕ → Exec QueryFailure (Result ObjectStoreError Bytes))
    (reads : ObjectRef → Result ObjectStoreError Bytes) (literal : Literal)
    (table : IsTable literal.bytes literal.prefix (length literal.bytes))
    (some_bytes : 0 < length literal.bytes) (limit : ℕ) where
  pub scan_sources-IsSum :
      (sources : List CurrentSourceRecord) (result : RawExactResult)
      → All (IsServed read_object reads) sources
      → result.matches + all_matches literal.bytes reads sources ≤ max_u64
      → result.scanned_bytes + all_bytes literal.bytes reads sources ≤ max_u64
      → length result.items ≤ limit
      → (after : RawExactResult) × (scan_sources read_object sources literal result limit calm
          ≡ ok (after, calm))
        × IsSum literal.bytes reads sources limit result after
  unfolding scan_sources pure
  scan_sources-IsSum [] result served small sized few = (
    result,
    refl,
    record {
      matches = omega arith;
      missing = omega arith;
      scanned = omega arith;
      bytes = omega arith;
      items = sym (ap (take limit) (append-nil result.items) ∙ take_all limit result.items few);
      kept = record { generation = refl; selected = refl; stop = refl };
    },
  )
  scan_sources-IsSum (source ∷ sources) result (served, others) small sized few =
      let outcome : Result ObjectStoreError Bytes = reads source.object_ref in
      let (middle, first, added) =
        scan_source-IsAdded literal table some_bytes source limit read_object result outcome
          served.reads_it served.available (omega arith) (omega arith) few in
      let matches_eq = added.matches in
      let missing_eq = added.missing in
      let scanned_eq = added.scanned in
      let bytes_eq = added.bytes in
      let (after, rest, sum) =
        scan_sources-IsSum sources middle others (omega arith) (omega arith) added.few in
      let matches_eq' = sum.matches in
      let missing_eq' = sum.missing in
      let scanned_eq' = sum.scanned in
      let bytes_eq' = sum.bytes in
      let own : List RawExactItem = items_of literal.bytes source outcome in
      let later : List RawExactItem = all_items literal.bytes reads sources in
      (
        after,
        bind-at (scan_source read_object source literal result limit) _ first ∙ rest,
        record {
          matches = omega arith;
          missing = omega arith;
          scanned = omega arith;
          bytes = omega arith;
          items =
              sum.items
              ∙ (ap (λ l. take limit (l ++ later)) added.items
                  ∙ (take-take-append limit (result.items ++ own) later
                      ∙ ap (take limit) (append_assoc result.items own later)));
          kept = record {
            generation = sum.kept.generation ∙ added.kept.generation;
            selected = sum.kept.selected ∙ added.kept.selected;
            stop = sum.kept.stop ∙ added.kept.stop;
          };
        },
      )
