-- ===== src/Exact/RawExact/Scanned.antt =====
-- What the scan of one source adds to the result.
use eliot_search.Prelude.{
  inl, inr, ℕ, ◌*◌, length-take, ◌+◌, ◌≤◌, ◌<◌, ◌≡◌, refl, sym, ap, ◌∙◌, List, [], ◌∷◌, ◌++◌, arith,
  Bytes, length, take, take_all, length-append, ltb, ltb→lt, ltb→le, Bool-cases,
}
use eliot_search.Prelude.Words.{max_u64, checked_add, checked_add-some}
use eliot_search.Exec.{Result, ok, err, calm, Exec, pure, ok_or, check_with}
use eliot_search.Exec.Ensures.{bind-at}
use eliot_search.Registry.{ObjectRef, CurrentSourceRecord, max_source_object_bytes}
use eliot_search.Protocol.Message.Object.{RawSourceRef}
use eliot_search.Protocol.Message.Raw.{RawExactItem, RawExactResult}
use eliot_search.Exact.{QueryFailure, check, Literal, scan}
use eliot_search.Exact.Fall.{IsTable}
use eliot_search.Exact.Occurrences.{occurrences}
use eliot_search.Exact.RawExact.{
  ObjectStoreError, invalid_reference, missing, not_regular_file, integrity_failure,
  allocation_failed, immutable_conflict, publish_failed, io, deadline, cancelled, exact_input_limit,
  source_ref, push_item, on_match, gap_of, on_read, scan_source,
}
use eliot_search.Exact.RawExact.Items.{matches_of, grown, visit-on_match, take-append_full}
use eliot_search.Exact.Visits.{scan-visit}
use eliot_search.Exact.RawExact.Added.{
  on_match-KeepsCalm, occurrences-AreInside, citation, source_ref-calm, found_in, read_count,
  IsAvailable, IsAdded,
}

module _ (literal : Literal) (table : IsTable literal.bytes literal.prefix (length literal.bytes))
    (some_bytes : 0 < length literal.bytes) (source : CurrentSourceRecord) (limit : ℕ) where
  total_bytes :
      (result : RawExactResult)
      → result.scanned_bytes + source.object_ref.byte_length ≤ max_u64
      → ok_or
          (checked_add result.scanned_bytes source.object_ref.byte_length)
          exact_input_limit
          calm
        ≡ ok (result.scanned_bytes + source.object_ref.byte_length, calm)
  unfolding ok_or pure
  total_bytes result small = ap (λ o. ok_or o exact_input_limit calm) (checked_add-some _ _ small)

  on_read-IsAdded :
      (result : RawExactResult) (outcome : Result ObjectStoreError Bytes)
      → IsAvailable outcome
      → result.matches + length (found_in literal.bytes outcome) ≤ max_u64
      → result.scanned_bytes + read_count outcome * source.object_ref.byte_length ≤ max_u64
      → length result.items ≤ limit
      → (after : RawExactResult) × (on_read literal
            (citation source)
            source.object_ref
            limit
            result
            outcome
            calm
          ≡ ok (after, calm))
        × IsAdded literal.bytes source outcome limit result after
  unfolding on_read pure
  on_read-IsAdded result (ok bytes) available small sized few =
      let binding : RawSourceRef = citation source in
      let ranges : List (ℕ × ℕ) = occurrences literal.bytes bytes 0 (length bytes) in
      let found : RawExactResult =
        grown binding bytes limit result (length ranges)
          (take limit (result.items ++ matches_of binding bytes ranges)) in
      let scanned_bytes : ℕ = result.scanned_bytes + source.object_ref.byte_length in
      (
        record found {
          scanned_sources = result.scanned_sources + 1;
          scanned_bytes = scanned_bytes;
        },
        bind-at (scan literal (on_match binding bytes limit) bytes result) _ (
              scan-visit literal (on_match binding bytes limit)
                (on_match-KeepsCalm binding bytes limit) bytes table some_bytes result
              ∙ visit-on_match binding bytes limit ranges result
                  (occurrences-AreInside literal.bytes bytes 0 (length bytes) (length bytes)
                    (omega arith))
                  small few)
            ∙ bind-at
                (ok_or (checked_add result.scanned_bytes source.object_ref.byte_length)
                  exact_input_limit)
                _ (total_bytes result (omega arith)),
        record {
          matches = refl;
          missing = omega arith;
          scanned = refl;
          bytes = omega arith;
          items = refl;
          few = omega (arith, length-take limit (result.items ++ matches_of binding bytes ranges));
          kept = record { generation = refl; selected = refl; stop = refl };
        },
      )
  on_read-IsAdded result (err missing) available small sized few =
      let counted : RawExactResult = record result {
        missing_sources = result.missing_sources + 1;
      } in
      let gaps : List RawExactItem = gap_of (citation source) ∷ [] in
      elim (Bool-cases (ltb (length result.items) limit)) [
        | inl room ↦
            let less = ltb→lt _ _ room in
            let fits : length (result.items ++ gaps) ≤ limit =
              omega (arith, length-append result.items gaps) in
            (
              push_item counted (gap_of (citation source)),
              rw room refl,
              record {
                matches = omega arith;
                missing = refl;
                scanned = omega arith;
                bytes = omega arith;
                items = sym (take_all limit (result.items ++ gaps) fits);
                few = fits;
                kept = record { generation = refl; selected = refl; stop = refl };
              },
            )
        | inr full ↦
            let at_limit : length result.items ≡ limit = let le = ltb→le _ _ full in omega arith in
            (
              counted,
              rw full refl,
              record {
                matches = omega arith;
                missing = refl;
                scanned = omega arith;
                bytes = omega arith;
                items = sym (take-append_full limit result.items gaps at_limit);
                few = few;
                kept = record { generation = refl; selected = refl; stop = refl };
              },
            )
      ]
  on_read-IsAdded result (err invalid_reference) available small sized few = absurd available
  on_read-IsAdded result (err not_regular_file) available small sized few = absurd available
  on_read-IsAdded result (err integrity_failure) available small sized few = absurd available
  on_read-IsAdded result (err allocation_failed) available small sized few = absurd available
  on_read-IsAdded result (err immutable_conflict) available small sized few = absurd available
  on_read-IsAdded result (err publish_failed) available small sized few = absurd available
  on_read-IsAdded result (err io) available small sized few = absurd available
  on_read-IsAdded result (err deadline) available small sized few = absurd available
  on_read-IsAdded result (err cancelled) available small sized few = absurd available

  module _ (read_object : ObjectRef → ℕ → Exec QueryFailure (Result ObjectStoreError Bytes)) where
    check-calm : check calm ≡ ok (tt, calm)
    unfolding check check_with
    check-calm = refl

    pub scan_source-IsAdded :
        (result : RawExactResult) (outcome : Result ObjectStoreError Bytes)
        → read_object source.object_ref max_source_object_bytes calm ≡ ok (outcome, calm)
        → IsAvailable outcome
        → result.matches + length (found_in literal.bytes outcome) ≤ max_u64
        → result.scanned_bytes + read_count outcome * source.object_ref.byte_length ≤ max_u64
        → length result.items ≤ limit
        → (after : RawExactResult) × (scan_source read_object source literal result limit calm
            ≡ ok (after, calm))
          × IsAdded literal.bytes source outcome limit result after
    unfolding scan_source
    scan_source-IsAdded result outcome reads available small sized few =
        let (after, made, added) = on_read-IsAdded result outcome available small sized few in
        (
          after,
          bind-at check _ check-calm
              ∙ (bind-at (source_ref source) _ (source_ref-calm source)
                  ∙ (bind-at (read_object source.object_ref max_source_object_bytes) _ reads
                      ∙ made)),
          added,
        )
