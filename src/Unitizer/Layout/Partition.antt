-- ===== src/Unitizer/Layout/Partition.antt =====
-- The units cut the whole text into bounded texts and name the lines that they touch.
use eliot_search.Prelude.{
  ℕ, zero, suc, ◌+◌, ◌-◌, ◌≤◌, ◌<◌, ◌≡◌, inl, inr, refl, sym, ◌∙◌, subst, true, some, List, [], ◌∷◌,
  ◌++◌, append-nil, append_assoc, arith, Bytes, length, length-append, get_elem?, take, drop, ltb,
  leb, ltb→le, leb→lt, ◌==◌, Bool-cases,
}
use eliot_search.Prelude.Words.{checked_add-eq}
use eliot_search.Exec.{Env, ok}
use eliot_search.Exec.Ensures.{
  Ensures, Ensures-pure, Ensures-ok_or, Ensures-found, Ensures-bind, Ensures-then,
  Ensures-refuse_if, Ensures-weaken,
}
use eliot_search.Utf8.{is_utf8}
use eliot_search.Utf8.Boundary.{IsText, IsText-IsFront, is_utf8→IsText}
use eliot_search.Registry.{PreparationSettings}
use eliot_search.Materializer.Scan.{LineSpan}
use eliot_search.Materializer.Scan.Inventory.{lines_of, lines_of-Inventory}
use eliot_search.Unitizer.Errors.{PreparationLimits}
use eliot_search.Unitizer.Layout.{
  UnitSpan, partition_point, describe, next_unit, unitize_from, unitize_text,
}
use eliot_search.Unitizer.Layout.Boundaries.{IsBoundary, lines_of-IsBoundary, IsText-between}
use eliot_search.Unitizer.Layout.Choice.{choose_end-Ensures}
use eliot_search.Unitizer.Layout.Lines.{line_of_byte, line_of_end}

-- The lines of the first and of the last byte of a unit, and its marks.
pub record IsLocated (lines : List LineSpan) (u : UnitSpan) : Type 0 where
  pub first : LineSpan
  pub last : LineSpan
  pub first_at : get_elem? lines u.logical_line_start ≡ some first
  pub first_from : first.source_start ≤ u.source_start
  pub first_to : u.source_start < first.source_end
  pub last_at : get_elem? lines (u.logical_line_end - 1) ≡ some last
  pub last_from : last.source_start < u.source_end
  pub last_to : u.source_end ≤ last.source_end
  pub starts : u.starts_at_line_boundary ≡ (first.source_start == u.source_start)
  pub ends : u.ends_at_line_boundary ≡ (last.source_end == u.source_end)

-- `u` is the unit of `text` at `start`, of at most `hard` bytes.
pub record IsUnit (text : Bytes) (lines : List LineSpan) (hard start : ℕ) (u : UnitSpan)
    : Type 0 where
  pub at : u.source_start ≡ start
  pub grows : start < u.source_end
  pub bounded : u.source_end - start ≤ hard
  pub boundary : IsBoundary text u.source_end
  pub whole_characters : IsText (take (u.source_end - start) (drop start text))
  pub located : IsLocated lines u

-- The units follow one another from `start` to the end of the text.
abbrev pub Partition : Bytes → List LineSpan → ℕ → ℕ → List UnitSpan → Type 0
Partition text lines hard start [] = start ≡ length text
Partition text lines hard start (u ∷ us) =
    IsUnit text lines hard start u × Partition text lines hard u.source_end us

module _ (text : Bytes) (t : IsText text) where
  describe-Ensures :
      (start end : ℕ)
      → start < end
      → Ensures
          (λ u. (u.source_start ≡ start) × (u.source_end ≡ end) × IsLocated (lines_of text) u)
          (describe (lines_of text) start end)
  unfolding describe
  describe-Ensures start end h = Ensures-bind _ _ (Ensures-found _ _) λ first first_at.
      Ensures-bind _ _ (Ensures-found _ _) λ last last_at. Ensures-then _ _ λ _.
        Ensures-bind _ _ (Ensures-ok_or _ _ (checked_add-eq last.line_index 1)) λ line_end counted.
          let inv = lines_of-Inventory text in
          let lines = lines_of text in
          let i = partition_point (λ s. leb s.source_end start) lines in
          let j = partition_point (λ s. ltb s.source_end end) lines in
          let (first_index, first_from, first_to) =
            line_of_byte 0 0 text lines start first inv (omega arith) first_at in
          let (last_index, last_from, last_to) =
            line_of_end 0 0 text lines end last inv (omega arith) last_at in
          Ensures-pure _ (
            refl,
            refl,
            record {
              first = first;
              last = last;
              first_at = subst (λ n. get_elem? lines n ≡ some first) (omega arith) first_at;
              first_from = first_from;
              first_to = first_to;
              last_at = subst (λ n. get_elem? lines n ≡ some last) (omega arith) last_at;
              last_from = last_from;
              last_to = last_to;
              starts = refl;
              ends = refl;
            },
          )

  module _ (settings : PreparationSettings) (max_units : ℕ) where
    abbrev hard : ℕ
    hard = settings.max_unit_bytes

    next_unit-Ensures :
        (start : ℕ) (units : List UnitSpan)
        → IsBoundary text start
        → Ensures
            (λ u. IsUnit text (lines_of text) hard start u × (length units < max_units))
            (next_unit text (lines_of text) settings max_units start units)
    unfolding next_unit
    next_unit-Ensures start units from = Ensures-then _ _ λ _. Ensures-refuse_if _ _ _ λ room.
        Ensures-bind _ _
          (choose_end-Ensures text (lines_of text) (lines_of-IsBoundary text t) start
            settings.preferred_unit_bytes settings.max_unit_bytes)
          λ end to. Ensures-refuse_if _ _ _ λ fits.
            Ensures-weaken _ (describe-Ensures start end (ground arith)) λ u found.
              let boundary = subst (IsBoundary text) (sym found.1) to in
              let grows : start < u.source_end = ground arith in
              (
                record {
                  at = found.0;
                  grows = grows;
                  bounded = ground arith;
                  boundary = boundary;
                  whole_characters =
                      IsText-between text start u.source_end t (omega arith) from boundary;
                  located = found.2;
                },
                leb→lt _ _ room,
              )

    unitize_from-Ensures :
        (rounds start : ℕ) (units : List UnitSpan)
        → IsBoundary text start
        → length text ≤ start + rounds
        → length units ≤ max_units
        → Ensures
            (λ us.
              (new : List UnitSpan) × (us ≡ units ++ new)
              × Partition text (lines_of text) hard start new
              × (length us ≤ max_units))
            (unitize_from text (lines_of text) settings max_units rounds start units)
    unfolding unitize_from
    unitize_from-Ensures zero start units from enough few =
        Ensures-pure units ([], sym (append-nil units), omega (arith, from.inside), few)
    unitize_from-Ensures (suc rounds) start units from enough few =
        elim (Bool-cases (ltb start (length text))) [
          | inr done ↦
              rw (done, unitize_from)
                (Ensures-pure units
                  ([], sym (append-nil units), omega (arith, from.inside, ltb→le _ _ done), few))
          | inl more ↦
              rw (more, unitize_from)
                (Ensures-bind _ _ (next_unit-Ensures start units from) λ unit next.
                  let is_unit = next.0 in
                  Ensures-weaken _
                    (unitize_from-Ensures rounds unit.source_end (units ++ unit ∷ [])
                      is_unit.boundary (omega (arith, is_unit.grows))
                      (omega (arith, next.1, length-append units (unit ∷ []))))
                    λ us found. (
                      unit ∷ found.0,
                      found.1 ∙ append_assoc units (unit ∷ []) found.0,
                      (is_unit, found.2),
                      found.3,
                    ))
        ]

-- The partition of what a whole run returns.
abbrev pub IsPartition : Bytes → PreparationSettings → PreparationLimits → List UnitSpan → Type 0
IsPartition text settings limits units =
    Partition text (lines_of text) settings.max_unit_bytes 0 units
    × (length units ≤ limits.max_units)

pub unitize_text-Ensures :
    (text : Bytes) (settings : PreparationSettings) (limits : PreparationLimits)
    → IsText text
    → Ensures
        (IsPartition text settings limits)
        (unitize_text (record { text = text; lines = lines_of text }) settings limits)
unfolding unitize_text
unitize_text-Ensures text settings limits t =
    Ensures-bind _ _
      (unitize_from-Ensures text t settings limits.max_units (length text) 0 []
        (record { inside = omega arith; front = IsText-IsFront text t }) (omega arith)
        (omega arith))
      λ units found. Ensures-then _ _ λ _. Ensures-pure units (
        subst (Partition text (lines_of text) settings.max_unit_bytes 0) (sym found.1) found.2,
        found.3,
      )

-- Whatever the environment does: the units of a text, with its own lines, follow one another and
-- cut it from its first byte to its last into pieces of at most `max_unit_bytes` bytes, each whole
-- characters of UTF-8 and marked with its lines; they are at most `max_units`.
pub unitize_text-Partition :
    (text : Bytes) (settings : PreparationSettings) (limits : PreparationLimits) (env env' : Env)
    (units : List UnitSpan)
    → is_utf8 text ≡ true
    → unitize_text (record { text = text; lines = lines_of text }) settings limits env
      ≡ ok (units, env')
    → IsPartition text settings limits units
unitize_text-Partition text settings limits env env' units valid h =
    (unitize_text-Ensures text settings limits (is_utf8→IsText text valid)).at env units env' h
