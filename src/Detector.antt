-- ===== src/Detector.antt =====
-- `resolve_overlaps` of src/detector.rs: findings whose spans overlap become one. The scanner is in the
-- modules below.
pub mod Overlaps
pub mod Sources
pub mod Decode
pub mod View
pub mod Compose
pub mod Matches
pub mod Rules
pub mod Scan
pub mod Patterns
pub mod Located
pub mod Normal
pub mod Rounds
mod Composed
pub mod Scanned
mod Tests
mod ScanTests
use agent_veil.Domain.{Finding, Action, Span, precedence}
use agent_veil.Prelude.{
  ℕ, Bool, List, [], ◌∷◌, ◌&&◌, ◌||◌, ◌==◌, ltb, leb, if◌then◌else◌, max, ◌-◌, true, false,
}

-- `DetectorError`: the scanner fails closed. `panicked` stands for the panic of an index or of a
-- slice of a text inside a character.
pub data DetectorError : Type 0 where
  pattern invalid_normalized_utf8 invalid_source_map : DetectorError
  normalization_limit invalid_percent_encoding panicked : DetectorError

-- A finding with the action that the policy chose for it.
abbrev pub Decided : Type 0
Decided = Finding × Action

-- The start and the end of a span, compared in this order.
unfoldable pub span_le : Span → Span → Bool
span_le a b = ltb a.start b.start || a.start == b.start && leb a.end b.end

unfoldable pub insert_sorted : Decided → List Decided → List Decided
insert_sorted d [] = d ∷ []
insert_sorted d (x ∷ xs) =
    let rest = insert_sorted d xs in
    if span_le d.0.source_span x.0.source_span then d ∷ x ∷ xs else x ∷ rest

-- `sort_by_key`, which is stable.
unfoldable pub sort_by_key : List Decided → List Decided
sort_by_key [] = []
sort_by_key (d ∷ ds) = insert_sorted d (sort_by_key ds)

-- The order of `max_by`: the first is greater than the second.
unfoldable pub outranks : Decided → Decided → Bool
outranks a b =
    ltb (precedence b.1) (precedence a.1)
    || precedence a.1 == precedence b.1
      && ltb (b.0.source_span.end - b.0.source_span.start)
          (a.0.source_span.end - a.0.source_span.start)

-- One step of `max_by`, which keeps the last of equals.
unfoldable pub stronger : Decided → Decided → Decided
stronger best d = if outranks best d then best else d

-- The strongest finding of a component, with the span of the component.
unfoldable pub component : ℕ → ℕ → Decided → Decided
component start end best =
    (record best.0 { source_span = record { start = start; end = end } }, best.1)

-- The loop over the sorted findings; the component so far has a start, an end and a strongest
-- finding.
unfoldable pub merge_from : ℕ → ℕ → Decided → List Decided → List Decided
merge_from start end best [] = component start end best ∷ []
merge_from start end best (d ∷ ds) = elim (ltb d.0.source_span.start end) [
  | true ↦ merge_from start (max end d.0.source_span.end) (stronger best d) ds
  | false ↦ component start end best ∷ merge_from d.0.source_span.start d.0.source_span.end d ds
]

unfoldable pub merge : List Decided → List Decided
merge [] = []
merge (d ∷ ds) = merge_from d.0.source_span.start d.0.source_span.end d ds

unfoldable pub resolve_overlaps : List Decided → List Decided
resolve_overlaps findings = merge (sort_by_key findings)
