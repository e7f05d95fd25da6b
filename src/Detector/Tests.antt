-- ===== src/Detector/Tests.antt =====
-- A run of `resolve_overlaps` of src/detector.rs and its theorems at it.
use agent_veil.Detector.Overlaps.{resolve_overlaps-IsSeparated, IsSeparated, IsCovered}
use agent_veil.Detector.Sources.{resolve_overlaps-IsDrawnFrom, IsDrawnFrom}
use agent_veil.Detector.{
  Decided, resolve_overlaps, sort_by_key, insert_sorted, span_le, merge, merge_from, stronger,
  outranks, component,
}
use agent_veil.Domain.{Action, DataClass, DetectorId, Confidence, precedence}
use agent_veil.Prelude.{List, [], ◌∷◌, ◌≡◌, refl, In, All}

abbrev narrow : Decided
narrow = (
  record {
    data_class = DataClass.email;
    detector = DetectorId.email;
    confidence = Confidence.high;
    source_span = record { start = 8; end = 12 };
  },
  Action.tokenize,
)

abbrev broad : Decided
broad = (
  record {
    data_class = DataClass.email;
    detector = DetectorId.email;
    confidence = Confidence.high;
    source_span = record { start = 4; end = 10 };
  },
  Action.block,
)

abbrev findings : List Decided
findings = narrow ∷ broad ∷ []

resolved : resolve_overlaps findings ≡ component 4 12 broad ∷ []
unfolding resolve_overlaps sort_by_key insert_sorted span_le merge merge_from stronger outranks
    component precedence
resolved = refl

resolve_overlaps-IsSeparated_example :
    IsSeparated (resolve_overlaps findings)
    × ((d : Decided) → In d findings → IsCovered (resolve_overlaps findings) d)
resolve_overlaps-IsSeparated_example = resolve_overlaps-IsSeparated findings

resolve_overlaps-IsDrawnFrom_example : All (IsDrawnFrom findings) (resolve_overlaps findings)
resolve_overlaps-IsDrawnFrom_example = resolve_overlaps-IsDrawnFrom findings
