-- ===== src/Unitizer/Decode/Units.antt =====
-- Where a unit that the decoder takes stands in the text, and how its lines are found in the inventory.
use eliot_search.Prelude.{
  ℕ, ◌+◌, ◌-◌, ◌≤◌, ◌<◌, ◌≡◌, refl, sym, ap, ◌∙◌, subst, true, false, some, List, [], ◌∷◌, ◌++◌,
  arith, Bytes, length, get_elem?, ◌==◌,
}
use eliot_search.Utf8.{is_char_boundary}
use eliot_search.Materializer.Scan.Inventory.{lines_of}
use eliot_search.Unitizer.Layout.{UnitSpan}
use eliot_search.Unitizer.Layout.Partition.{IsUnit, Partition}
use eliot_search.Unitizer.Decode.{Line, Lines, is_misplaced, is_misnamed}
use eliot_search.Unitizer.Decode.Walker.{OnLine}

get_elem?-middle {ℓ} :
    {A : Type ℓ} (xs : List A) (y : A) (ys : List A) → get_elem? (xs ++ y ∷ ys) (length xs) ≡ some y
get_elem?-middle [] y ys = refl
get_elem?-middle (x ∷ xs) y ys = get_elem?-middle xs y ys

-- The units follow one another from one position to another.
abbrev pub Chain : Bytes → ℕ → ℕ → List UnitSpan → ℕ → Type 0
Chain text hard start [] end = start ≡ end
Chain text hard start (u ∷ us) end =
    IsUnit text (lines_of text) hard start u × Chain text hard u.source_end us end

pub Chain-Partition :
    (text : Bytes) (hard start : ℕ) (us : List UnitSpan)
    → Chain text hard start us (length text)
    → Partition text (lines_of text) hard start us
Chain-Partition text hard start [] h = h
Chain-Partition text hard start (u ∷ us) (hu, h) = (hu, Chain-Partition text hard u.source_end us h)

-- The range of a unit that is not misplaced.
pub record IsPlaced (text : Bytes) (hard start : ℕ) (u : UnitSpan) : Type 0 where
  pub at : u.source_start ≡ start
  pub grows : start < u.source_end
  pub bounded : u.source_end - start ≤ hard
  pub inside : u.source_end ≤ length text
  pub boundary : is_char_boundary text u.source_end ≡ true

pub IsPlaced-of :
    (text : Bytes) (hard start : ℕ) (u : UnitSpan)
    → is_misplaced text hard start u ≡ false
    → IsPlaced text hard start u
unfolding is_misplaced
IsPlaced-of text hard start u h = record {
  at = ground arith;
  grows = ground arith;
  bounded = ground arith;
  inside = ground arith;
  boundary = ground arith;
}

-- The names of a unit that is not misnamed.
pub record IsNamed (u : UnitSpan) (first last : Line) : Type 0 where
  pub first_line : u.logical_line_start ≡ first.index
  pub last_line : u.logical_line_end ≡ last.index + 1
  pub starts : u.starts_at_line_boundary ≡ (first.start == u.source_start)
  pub ends : u.ends_at_line_boundary ≡ (last.end == u.source_end)

pub IsNamed-of :
    (u : UnitSpan) (first last : Line) → is_misnamed u first last ≡ false → IsNamed u first last
unfolding is_misnamed
IsNamed-of u first last h = record {
  first_line = ground arith;
  last_line = ground arith;
  starts = ground arith;
  ends = ground arith;
}

-- The index of the line on which a walk stands finds it in the inventory.
pub OnLine-at :
    (text : Bytes) (line : Line) (lines : Lines)
    → (on : OnLine text line lines) → (n : ℕ) → n ≡ line.index
    → get_elem? (lines_of text) n ≡ some on.here
OnLine-at text line lines on n e =
    subst (λ k. get_elem? (lines_of text) k ≡ some on.here)
      (on.counted ∙ sym (ap (λ (l : Line). l.index) on.is_here) ∙ sym e)
      (subst (λ ls. get_elem? ls (length on.before) ≡ some on.here) (sym on.whole)
        (get_elem?-middle on.before on.here on.after))
