-- ===== src/Exact/RawExact/Added.antt =====
-- What the scan of one source adds to a result.
use eliot_search.Prelude.{
  inl, inr, ℕ, zero, suc, ◌*◌, ◌+◌, ◌≤◌, ◌≡◌, refl, List, [], ◌∷◌, ◌++◌, arith, Bytes, length, take,
  Bool-cases,
}
use eliot_search.Exec.{Result, ok, err, calm, pure, reserve_with, ◌>>=◌}
use eliot_search.Contracts.{display}
use eliot_search.Registry.{CurrentSourceRecord}
use eliot_search.Protocol.Message.Object.{RawSourceRef}
use eliot_search.Protocol.Message.Raw.{RawExactItem, RawExactResult}
use eliot_search.Exact.Calm.{
  KeepsCalm, KeepsCalm-pure, KeepsCalm-ok_or, KeepsCalm-bind, KeepsCalm-if,
}
use eliot_search.Exact.Occurrences.{stands_before, occurrences}
use eliot_search.Exact.RawExact.{
  ObjectStoreError, missing, hex_text, hex, kind_of, object_ref, source_ref, keep_match, on_match,
  gap_of,
}
use eliot_search.Exact.RawExact.Items.{matches_of, AreInside}

KeepsCalm-hex : (text : Bytes) → KeepsCalm (hex text)
unfolding hex reserve_with pure ◌>>=◌
KeepsCalm-hex text = record { at = λ b env' h. cc }

pub on_match-KeepsCalm :
    (binding : RawSourceRef) (bytes : Bytes) (limit : ℕ) (result : RawExactResult) (start end : ℕ)
    → KeepsCalm (on_match binding bytes limit result start end)
unfolding on_match keep_match
on_match-KeepsCalm binding bytes limit result start end =
    KeepsCalm-bind _ _ (KeepsCalm-ok_or _ _) λ matches.
      KeepsCalm-if _ _ _
        (KeepsCalm-bind _ _ (KeepsCalm-ok_or _ _)
          λ matched. KeepsCalm-bind _ _ (KeepsCalm-hex matched) λ text. KeepsCalm-pure _)
        (KeepsCalm-pure _)

pub occurrences-AreInside :
    (literal text : Bytes) (at count size : ℕ)
    → at + count ≤ size
    → AreInside size (occurrences literal text at count)
occurrences-AreInside literal text at zero size h = tt
occurrences-AreInside literal text at (suc count) size h =
    let rest = occurrences-AreInside literal text (at + 1) count size (omega arith) in
    elim (Bool-cases (stands_before literal text (at + 1))) [
      | inl e ↦ rw e (omega arith, omega arith, rest)
      | inr e ↦ rw e rest
    ]

-- The citation of a source.
abbrev pub citation : CurrentSourceRecord → RawSourceRef
citation source = record {
  source_namespace_id = display source.source_namespace_id;
  source_id = display source.source_id;
  row_revision = source.row_revision;
  registration_revision = source.registration_revision;
  input = record {
    version = source.object_ref.format_version;
    kind = kind_of source.object_ref.kind;
    digest = hex_text source.object_ref.digest;
    bytes = source.object_ref.byte_length;
  };
}

pub source_ref-calm :
    (source : CurrentSourceRecord) → source_ref source calm ≡ ok (citation source, calm)
unfolding source_ref object_ref hex reserve_with pure ◌>>=◌
source_ref-calm source = refl

-- The ranges in which the literal stands in what was read, and the items of them.
abbrev pub found_in : Bytes → Result ObjectStoreError Bytes → List (ℕ × ℕ)
found_in literal (ok bytes) = occurrences literal bytes 0 (length bytes)
found_in literal (err e) = []

abbrev pub items_of :
    Bytes → CurrentSourceRecord → Result ObjectStoreError Bytes → List RawExactItem
items_of literal source (ok bytes) =
    matches_of (citation source) bytes (occurrences literal bytes 0 (length bytes))
items_of literal source (err e) = gap_of (citation source) ∷ []

-- One if the object was read, and otherwise none; and the other way round.
abbrev pub read_count : Result ObjectStoreError Bytes → ℕ
read_count (ok bytes) = 1
read_count (err e) = 0

abbrev pub gap_count : Result ObjectStoreError Bytes → ℕ
gap_count (ok bytes) = 0
gap_count (err e) = 1

-- The object was read, or it is missing.
abbrev pub IsAvailable : Result ObjectStoreError Bytes → Type 0
IsAvailable (ok bytes) = Unit
IsAvailable (err missing) = Unit
IsAvailable (err e) = ⊥

-- What the loop leaves alone.
pub record Kept (before after : RawExactResult) : Type 0 where
  pub generation : after.generation ≡ before.generation
  pub selected : after.selected_sources ≡ before.selected_sources
  pub stop : after.stop ≡ before.stop

-- What the scan of a source adds, with items that are cut at the limit.
pub record IsAdded (literal : Bytes) (source : CurrentSourceRecord)
    (outcome : Result ObjectStoreError Bytes) (limit : ℕ) (before after : RawExactResult)
    : Type 0 where
  pub matches : after.matches ≡ before.matches + length (found_in literal outcome)
  pub missing : after.missing_sources ≡ before.missing_sources + gap_count outcome
  pub scanned : after.scanned_sources ≡ before.scanned_sources + read_count outcome
  pub bytes :
      after.scanned_bytes
      ≡ before.scanned_bytes + read_count outcome * source.object_ref.byte_length
  pub items : after.items ≡ take limit (before.items ++ items_of literal source outcome)
  pub few : length after.items ≤ limit
  pub kept : Kept before after
