-- ===== src/Unitizer/Artifact/Accepted.antt =====
-- What holds of a saved artifact that is accepted, whatever its bytes are.
use eliot_search.Prelude.{
  ℕ, ◌≤◌, ◌≡◌, some, ◌-◌, length-take, length-drop, take, drop, ap, ◌∙◌, true, arith, Bytes, length,
  bytes_eq→eq,
}
use eliot_search.Exec.{Env, ok}
use eliot_search.Exec.Ensures.{
  Ensures, Ensures-pure, Ensures-found, Ensures-bind, Ensures-then, Ensures-refuse_if,
  Ensures-weaken,
}
use eliot_search.Utf8.{is_utf8, from_utf8}
use eliot_search.Utf8.Boundary.{is_utf8→IsText}
use eliot_search.Registry.{CurrentSourceRecord, PreparationSettings, is_supported}
use eliot_search.Unitizer.Errors.{PreparationLimits}
use eliot_search.Unitizer.Layout.Partition.{IsPartition}
use eliot_search.Prelude.Words.{checked_add-eq}
use eliot_search.Exec.Ensures.{Ensures-ok_or}
use eliot_search.Unitizer.Wire.{Reader, get_range, take_bytes}
use eliot_search.Unitizer.Decode.{PreparedUtf8}
use eliot_search.Unitizer.Decode.Sound.{read_units-Ensures}
use eliot_search.Unitizer.Artifact.{
  is_bindable, validate, verify_digest, decode, decode_prepared_utf8,
}

from_utf8-some :
    (bytes text : Bytes) → from_utf8 bytes ≡ some text → (text ≡ bytes) × (is_utf8 text ≡ true)
unfolding from_utf8
from_utf8-some bytes text h = ground arith

get_range-length :
    (bytes : Bytes) (from to : ℕ) (found : Bytes)
    → get_range bytes from to ≡ some found
    → length found ≡ to - from
unfolding get_range
get_range-length bytes from to found h =
    let inside : to ≤ length bytes = ground arith in
    let same : found ≡ take (to - from) (drop from bytes) = ground arith in
    ap (λ (b : Bytes). length b) same
    ∙ omega (arith, length-take (to - from) (drop from bytes), length-drop from bytes)

take_bytes-length :
    (count : ℕ) (reader : Reader)
    → Ensures (λ (r : Bytes × Reader). length r.0 ≡ count) (take_bytes count reader)
unfolding take_bytes
take_bytes-length count reader =
    Ensures-bind _ _ (Ensures-ok_or _ _ (checked_add-eq reader.position count)) λ end at.
      Ensures-bind _ _ (Ensures-found _ _) λ bytes found.
        Ensures-pure _
          (omega (arith, get_range-length reader.bytes reader.position end bytes found))

validate-Ensures :
    (source : CurrentSourceRecord) (settings : PreparationSettings) (limits : PreparationLimits)
    → Ensures
        (λ _. (is_supported settings ≡ true) × (is_bindable source ≡ true))
        (validate source settings limits)
unfolding validate
validate-Ensures source settings limits = Ensures-then _ _ λ _. Ensures-then _ _ λ _.
    Ensures-refuse_if _ _ _ λ supported.
      Ensures-refuse_if _ _ _
        λ bindable. record { at = λ env a env' e. (ground arith, ground arith) }

module _ (blake3 : Bytes → Bytes) (source : CurrentSourceRecord) (settings : PreparationSettings)
    (limits : PreparationLimits) where
  pub verify_digest-Ensures :
      (bytes : Bytes)
      → Ensures (λ _. blake3 bytes ≡ source.object_ref.digest) (verify_digest blake3 source bytes)
  unfolding verify_digest
  verify_digest-Ensures bytes = Ensures-then _ _ λ _. Ensures-then _ _ λ _.
      Ensures-refuse_if _ _ _
        λ same. Ensures-pure tt (bytes_eq→eq (blake3 bytes) source.object_ref.digest (ground arith))

  -- The text is the retained source, and its units are a partition of it.
  pub record IsAccepted (p : PreparedUtf8) : Type 0 where
    pub valid : is_utf8 p.text ≡ true
    pub digest : blake3 p.text ≡ source.object_ref.digest
    pub whole : length p.text ≡ source.object_ref.byte_length
    pub partition : IsPartition p.text settings limits p.units

  decode-Ensures :
      (artifact : Bytes) → Ensures IsAccepted (decode blake3 artifact source settings limits)
  unfolding decode
  decode-Ensures artifact = Ensures-refuse_if _ _ _ λ _. Ensures-refuse_if _ _ _ λ _.
      Ensures-then _ _ λ bound. Ensures-then _ _ λ text_length. Ensures-then _ _ λ unit_count.
        Ensures-refuse_if _ _ _ λ few. Ensures-then _ _ λ _. Ensures-refuse_if _ _ _ λ bound_length.
          Ensures-then _ _ λ size. Ensures-refuse_if _ _ _ λ _. Ensures-then _ _ λ _.
            Ensures-bind _ _ (take_bytes-length text_length.0 unit_count.1) λ text_bytes taken.
              Ensures-bind _ _ (Ensures-found (from_utf8 text_bytes.0) _) λ text read.
                let (same, valid) = from_utf8-some text_bytes.0 text read in
                Ensures-bind _ _ (verify_digest-Ensures text_bytes.0) λ _ digest.
                  Ensures-bind _ _
                    (read_units-Ensures text text_bytes.1 unit_count.0 settings limits
                      (is_utf8→IsText text valid))
                    λ units found. Ensures-refuse_if _ _ _ λ _. Ensures-then _ _ λ _.
                      Ensures-pure _ (record {
                        valid = valid;
                        digest = ap blake3 same ∙ digest;
                        whole = ap (λ (b : Bytes). length b) same ∙ taken ∙ (ground arith);
                        partition = (found.0, ground (arith, found.1));
                      })

accepted :
    (blake3 : Bytes → Bytes) (source : CurrentSourceRecord) (settings : PreparationSettings)
    (limits : PreparationLimits) (artifact : Bytes)
    → Ensures
        (λ p.
          IsAccepted blake3 source settings limits p
          × (is_supported settings ≡ true)
          × (is_bindable source ≡ true))
        (decode_prepared_utf8 blake3 artifact source settings limits)
unfolding decode_prepared_utf8
accepted blake3 source settings limits artifact =
    Ensures-bind _ _ (validate-Ensures source settings limits) λ _ checked.
      Ensures-weaken _ (decode-Ensures blake3 source settings limits artifact)
        λ p h. (h, checked.0, checked.1)

-- Whatever the bytes of an artifact and whatever the environment does: a text that is accepted is
-- UTF-8 with the length and the digest of the source, and its units are those of a partition of the text into
-- bounded pieces of whole characters that name their lines, no more than `max_units`; the settings
-- are supported and the source can be bound.
pub decode_prepared_utf8-IsAccepted :
    (blake3 : Bytes → Bytes) (source : CurrentSourceRecord) (settings : PreparationSettings)
    (limits : PreparationLimits) (artifact : Bytes) (env env' : Env) (p : PreparedUtf8)
    → decode_prepared_utf8 blake3 artifact source settings limits env ≡ ok (p, env')
    → IsAccepted blake3 source settings limits p
      × (is_supported settings ≡ true)
      × (is_bindable source ≡ true)
decode_prepared_utf8-IsAccepted blake3 source settings limits artifact env env' p h =
    (accepted blake3 source settings limits artifact).at env p env' h
