-- ===== src/Unitizer/Artifact/Prepared.antt =====
-- What holds of an artifact that is prepared from verified bytes.
use eliot_search.Prelude.{
  ℕ, ◌+◌, ◌*◌, ◌≤◌, ◌≡◌, refl, sym, ap, ◌∙◌, subst, List, [], ◌∷◌, ◌++◌, append-nil, append_assoc,
  true, arith, Bytes, length, length-append,
}
use eliot_search.Prelude.Words.{to_le_bytes, length-to_le_bytes}
use eliot_search.Exec.{Env, ok}
use eliot_search.Exec.Ensures.{
  Ensures, Ensures-pure, Ensures-found, Ensures-bind, Ensures-then, Ensures-refuse_if,
  Ensures-weaken, Ensures-map_err,
}
use eliot_search.Utf8.{is_utf8}
use eliot_search.Utf8.Boundary.{is_utf8→IsText}
use eliot_search.Registry.{CurrentSourceRecord, PreparationSettings}
use eliot_search.Materializer.{MaterializedText}
use eliot_search.Materializer.Product.{materialize_utf8-Ensures}
use eliot_search.Materializer.Controls.{IsTextual}
use eliot_search.Materializer.Scan.Inventory.{lines_of}
use eliot_search.Unitizer.Errors.{PreparationLimits, from_materialization}
use eliot_search.Unitizer.Layout.{UnitSpan, unitize_text}
use eliot_search.Unitizer.Layout.Partition.{IsPartition, unitize_text-Ensures}
use eliot_search.Unitizer.Wire.{version, put_usize, encoded_size, unit_bytes, header_bytes}
use eliot_search.Unitizer.Encode.{binding, header, write_text, encode_unit, write_units, encode}
use eliot_search.Unitizer.Artifact.{prepare_utf8}
use eliot_search.Unitizer.Artifact.Accepted.{verify_digest-Ensures}

-- The descriptors of the units, one behind the other.
abbrev pub descriptors : List UnitSpan → Bytes
descriptors [] = []
descriptors (u ∷ us) = encode_unit u ++ descriptors us

write_text-Ensures :
    (text : Bytes) (index : ℕ) (out : Bytes)
    → Ensures (λ written. written ≡ out ++ text) (write_text text index out)
unfolding write_text
write_text-Ensures [] index out = Ensures-pure out (sym (append-nil out))
write_text-Ensures (b ∷ rest) index out = Ensures-then _ _ λ _.
    Ensures-weaken _ (write_text-Ensures rest (index + 1) (out ++ b ∷ []))
      λ written h. h ∙ append_assoc out (b ∷ []) rest

write_units-Ensures :
    (us : List UnitSpan) (out : Bytes)
    → Ensures (λ written. written ≡ out ++ descriptors us) (write_units us out)
unfolding write_units
write_units-Ensures [] out = Ensures-pure out (sym (append-nil out))
write_units-Ensures (u ∷ us) out = Ensures-then _ _ λ _.
    Ensures-weaken _ (write_units-Ensures us (out ++ encode_unit u))
      λ written h. h ∙ append_assoc out (encode_unit u) (descriptors us)

encoded_size-Ensures :
    (text units : ℕ)
    → Ensures (λ size. size ≡ units * unit_bytes + header_bytes + text) (encoded_size text units)
unfolding encoded_size
encoded_size-Ensures text units = Ensures-weaken _ (Ensures-found _ _) λ size h. ground arith

-- The complete framing of a text and its units.
abbrev pub framing : CurrentSourceRecord → PreparationSettings → Bytes → List UnitSpan → Bytes
framing source settings text units =
    header source settings (length text) (length units) ++ (text ++ descriptors units)

-- The widths of the arrays in a row: `[u8; 16]` for the identifiers and `[u8; 32]` for the digest.
pub record IsSized (source : CurrentSourceRecord) : Type 0 where
  pub namespace : length source.source_namespace_id ≡ 16
  pub id : length source.source_id ≡ 16
  pub digest : length source.object_ref.digest ≡ 32

length-binding :
    (source : CurrentSourceRecord) (settings : PreparationSettings)
    → IsSized source
    → length (binding source settings) ≡ 95
unfolding binding
length-binding source settings sized =
    let object = source.object_ref in
    rw
      (
        length-append source.source_namespace_id _,
        length-append source.source_id _,
        length-append (to_le_bytes 8 source.registration_revision) _,
        length-append (to_le_bytes 2 object.format_version) _,
        length-append object.digest _,
        length-append (to_le_bytes 8 object.byte_length) _,
        length-append (to_le_bytes 2 settings.utf8_version) _,
        length-append (to_le_bytes 2 settings.line_unitizer_version) _,
        length-append (to_le_bytes 4 settings.preferred_unit_bytes) _,
        length-to_le_bytes 8 source.registration_revision,
        length-to_le_bytes 2 object.format_version,
        length-to_le_bytes 8 object.byte_length,
        length-to_le_bytes 2 settings.utf8_version,
        length-to_le_bytes 2 settings.line_unitizer_version,
        length-to_le_bytes 4 settings.preferred_unit_bytes,
        length-to_le_bytes 4 settings.max_unit_bytes,
        sized.namespace,
        sized.id,
        sized.digest,
      )
      refl

length-header :
    (source : CurrentSourceRecord) (settings : PreparationSettings) (text_length unit_count : ℕ)
    → IsSized source
    → length (header source settings text_length unit_count) ≡ header_bytes
unfolding header put_usize
length-header source settings text_length unit_count sized =
    rw
      (
        length-append (to_le_bytes 2 version) _,
        length-append (binding source settings) _,
        length-append (to_le_bytes 8 text_length) _,
        length-to_le_bytes 2 version,
        length-to_le_bytes 8 text_length,
        length-to_le_bytes 8 unit_count,
        length-binding source settings sized,
      )
      refl

length-encode_unit : (u : UnitSpan) → length (encode_unit u) ≡ unit_bytes
unfolding encode_unit put_usize
length-encode_unit u =
    rw
      (
        length-append (to_le_bytes 8 u.source_start) _,
        length-append (to_le_bytes 8 u.source_end) _,
        length-append (to_le_bytes 8 u.logical_line_start) _,
        length-append (to_le_bytes 8 u.logical_line_end) _,
        length-to_le_bytes 8 u.source_start,
        length-to_le_bytes 8 u.source_end,
        length-to_le_bytes 8 u.logical_line_start,
        length-to_le_bytes 8 u.logical_line_end,
      )
      refl

length-descriptors : (us : List UnitSpan) → length (descriptors us) ≡ length us * unit_bytes
length-descriptors [] = omega arith
length-descriptors (u ∷ us) = omega (
  arith,
  length-append (encode_unit u) (descriptors us),
  length-encode_unit u,
  length-descriptors us,
)

-- The size that `encode` counts is the length of what it writes.
length-framing :
    (source : CurrentSourceRecord) (settings : PreparationSettings) (text : Bytes)
    (units : List UnitSpan)
    → IsSized source
    → length (framing source settings text units)
      ≡ length units * unit_bytes + header_bytes + length text
length-framing source settings text units sized = omega (
  arith,
  length-append (header source settings (length text) (length units)) (text ++ descriptors units),
  length-append text (descriptors units),
  length-header source settings (length text) (length units) sized,
  length-descriptors units,
)

encode-Ensures :
    (source : CurrentSourceRecord) (settings : PreparationSettings) (product : MaterializedText)
    (units : List UnitSpan) (limits : PreparationLimits)
    → Ensures
        (λ out.
          (out ≡ framing source settings product.text units)
          × (length units * unit_bytes + header_bytes + length product.text
              ≤ limits.max_encoded_bytes))
        (encode source settings product units limits)
unfolding encode
encode-Ensures source settings product units limits = Ensures-then _ _ λ _.
    Ensures-bind _ _ (encoded_size-Ensures (length product.text) (length units)) λ size counted.
      Ensures-refuse_if _ _ _ λ small. Ensures-then _ _ λ _.
        Ensures-bind _ _ (write_text-Ensures product.text 0 _) λ with_text first.
          Ensures-bind _ _ (write_units-Ensures units with_text) λ out second. Ensures-then _ _ λ _.
            Ensures-pure out (
              second
                  ∙ (ap (λ b. b ++ descriptors units) first
                      ∙ append_assoc (header source settings (length product.text) (length units))
                          product.text (descriptors units)),
              ground (arith, counted),
            )

module _ (blake3 : Bytes → Bytes) (source : CurrentSourceRecord) (settings : PreparationSettings)
    (limits : PreparationLimits) where
  -- The artifact frames the given bytes and the units of a partition of them.
  pub record IsPrepared (bytes artifact : Bytes) : Type 0 where
    pub units : List UnitSpan
    pub framed : artifact ≡ framing source settings bytes units
    pub partition : IsPartition bytes settings limits units
    pub fits : length artifact ≤ limits.max_encoded_bytes
    pub valid : is_utf8 bytes ≡ true
    pub textual : IsTextual bytes
    pub digest : blake3 bytes ≡ source.object_ref.digest
    pub whole : length bytes ≡ source.object_ref.byte_length

  prepare_utf8-Ensures :
      (bytes : Bytes)
      → IsSized source
      → Ensures (IsPrepared bytes) (prepare_utf8 blake3 source bytes settings limits)
  unfolding prepare_utf8
  prepare_utf8-Ensures bytes sized = Ensures-then _ _ λ _. Ensures-refuse_if _ _ _ λ same_length.
      Ensures-bind _ _ (verify_digest-Ensures blake3 source settings limits bytes) λ _ digest.
        Ensures-bind _ _ (Ensures-map_err from_materialization _ (materialize_utf8-Ensures bytes _))
          λ product p.
            Ensures-bind _ _ (units_of product bytes p.unchanged p.inventory p.valid)
              λ units partition.
                Ensures-weaken _ (encode-Ensures source settings product units limits) λ artifact e.
                  record {
                    units = units;
                    framed = e.0 ∙ ap (λ t. framing source settings t units) p.unchanged;
                    partition = partition;
                    fits =
                        subst (λ n. n ≤ limits.max_encoded_bytes)
                          (sym (length-framing source settings product.text units sized)
                            ∙ sym (ap length (e.0)))
                          (e.1);
                    valid = p.valid;
                    textual = p.textual;
                    digest = digest;
                    whole = ground arith;
                  }
    where
      units_of :
          (product : MaterializedText) (bytes : Bytes)
          → product.text ≡ bytes
          → product.lines ≡ lines_of bytes
          → is_utf8 bytes ≡ true
          → Ensures (IsPartition bytes settings limits) (unitize_text product settings limits)
      units_of product bytes same lines valid =
          let whole : product ≡ record { text = bytes; lines = lines_of bytes } = cc in
          subst (λ p. Ensures (IsPartition bytes settings limits) (unitize_text p settings limits))
            (sym whole) (unitize_text-Ensures bytes settings limits (is_utf8→IsText bytes valid))

-- Whatever the environment does, for a row whose identifiers and digest have the widths of their arrays:
-- an artifact that is prepared frames the given bytes unchanged with their number and with the units of a
-- partition of them into bounded pieces of whole characters that name their lines; the artifact has at
-- most `max_encoded_bytes` bytes, and the given bytes are UTF-8, pass the binary classification and have
-- the length and the digest of the source.
pub prepare_utf8-IsPrepared :
    (blake3 : Bytes → Bytes) (source : CurrentSourceRecord) (settings : PreparationSettings)
    (limits : PreparationLimits) (bytes : Bytes) (env env' : Env) (artifact : Bytes)
    → IsSized source
    → prepare_utf8 blake3 source bytes settings limits env ≡ ok (artifact, env')
    → IsPrepared blake3 source settings limits bytes artifact
prepare_utf8-IsPrepared blake3 source settings limits bytes env env' artifact sized h =
    (prepare_utf8-Ensures blake3 source settings limits bytes sized).at env artifact env' h
