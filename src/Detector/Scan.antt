-- ===== src/Detector/Scan.antt =====
-- `Scanner` of src/detector.rs. What `regex` compiles and finds is a parameter.
use agent_veil.Detector.Compose.{composed_views}
use agent_veil.Detector.Rules.{
  Findings, collect, push_finding, scan_private_keys, scan_env_assignments, scan_email,
  scan_private_ipv4, scan_phone, scan_configured,
}
use agent_veil.Detector.View.{ScanView, normalize, collapse_candidate_separators}
use agent_veil.Detector.{DetectorError}
use agent_veil.Domain.{Span, Finding, DataClass, DetectorId, Confidence, detector_rank, class_eq}
use agent_veil.Prelude.{
  ℕ, ◌+◌, Text, Bool, true, false, not, ◌&&◌, ◌||◌, ◌==◌, ltb, leb, Option, none, some, List, [],
  ◌∷◌, ◌++◌, Result, ok, ◌>>=◌, ◌>>◌, if◌then◌else◌, refuse_if,
}

abbrev pub max_scan_views : ℕ
max_scan_views = 12

pub record PatternDetector (R : Type 0) : Type 0 where
  pub regex : R
  pub data_class : DataClass
  pub detector : DetectorId
  pub confidence : Confidence
  pub secret_only : Bool

pub record Scanner (R : Type 0) : Type 0 where
  pub patterns : List (PatternDetector R)
  pub email : R
  pub private_ipv4 : R
  pub phone : R
  pub env_assignment : R
  pub internal_hostname_suffixes : List Text
  pub custom_terms : List Text
  pub home_prefixes : List Text

-- The order and the test of `sort_by_key` and `dedup_by`.
unfoldable pub finding_le : Finding → Finding → Bool
finding_le f g =
    let a = f.source_span in
    let b = g.source_span in
    ltb a.start b.start
    || a.start == b.start
      && (ltb a.end b.end
          || a.end == b.end && leb (detector_rank f.detector) (detector_rank g.detector))

unfoldable pub insert_finding : Finding → List Finding → List Finding
insert_finding f [] = f ∷ []
insert_finding f (g ∷ gs) =
    let rest = insert_finding f gs in if finding_le f g then f ∷ g ∷ gs else g ∷ rest

unfoldable pub sort_findings : List Finding → List Finding
sort_findings [] = []
sort_findings (f ∷ fs) = insert_finding f (sort_findings fs)

unfoldable pub same_finding : Finding → Finding → Bool
same_finding f g =
    f.source_span.start == g.source_span.start
    && f.source_span.end == g.source_span.end
    && class_eq f.data_class g.data_class
    && detector_rank f.detector == detector_rank g.detector

-- `dedup_by`, behind a finding that is kept.
unfoldable pub dedup_from : Finding → List Finding → List Finding
dedup_from kept [] = []
dedup_from kept (f ∷ fs) = elim (same_finding f kept) [
  | true ↦ dedup_from kept fs
  | false ↦ f ∷ dedup_from f fs
]

unfoldable pub dedup : List Finding → List Finding
dedup [] = []
dedup (f ∷ fs) = f ∷ dedup_from f fs

-- The views to scan, each with the mark of a collapsed view; the number counts the views so far.
unfoldable pub scan_views : ℕ → List ScanView → Result DetectorError (List (ScanView × Bool))
scan_views count [] = ok []
scan_views count (view ∷ views) = do
  refuse_if (leb max_scan_views count) DetectorError.normalization_limit
  collapsed ← collapse_candidate_separators view
  elim collapsed [
    | none ↦ scan_views (count + 1) views >>= (λ rest. ok ((view, false) ∷ rest))
    | some c ↦
        refuse_if (leb max_scan_views (count + 1)) DetectorError.normalization_limit
        >> (scan_views (count + 2) views >>= (λ rest. ok ((view, false) ∷ (c, true) ∷ rest)))
  ]

module _ {R : Type 0} (find_iter : R → Text → List Span)
    (captures_iter : R → Text → List (Span × Option Span)) (is_alphanumeric : Text → Bool)
    (nfkc : Text → Text) where
  -- The matches of one pattern; a collapsed view is searched for secrets and reserved tokens only.
  unfoldable pub scan_pattern : ScanView → Bool → PatternDetector R → Findings
  scan_pattern view secret_view p =
      if secret_view && not p.secret_only && not (class_eq p.data_class DataClass.token_namespace)
      then ok []
      else collect (λ candidate. push_finding view candidate p.data_class p.detector p.confidence)
          (find_iter p.regex view.text)

  unfoldable pub scan_regular : Scanner R → ScanView → Findings
  scan_regular scanner view = do
    emails ← scan_email view (find_iter scanner.email view.text)
    addresses ← scan_private_ipv4 view (find_iter scanner.private_ipv4 view.text)
    phones ← scan_phone view (find_iter scanner.phone view.text)
    configured ←
        scan_configured is_alphanumeric view scanner.internal_hostname_suffixes scanner.custom_terms
          scanner.home_prefixes
    ok (emails ++ (addresses ++ (phones ++ configured)))

  -- The body of the loop over the views.
  unfoldable pub scan_view : Scanner R → ScanView × Bool → Findings
  scan_view scanner (view, secret_view) = do
    matched ← collect (scan_pattern view secret_view) scanner.patterns
    keys ← scan_private_keys view
    assignments ← scan_env_assignments view (captures_iter scanner.env_assignment view.text)
    regular ← if secret_view then ok [] else scan_regular scanner view
    ok (matched ++ (keys ++ (assignments ++ regular)))

  unfoldable pub scan : Scanner R → Text → Findings
  scan scanner source = do
    normalized ← normalize nfkc source
    regular_views ← composed_views nfkc normalized
    views ← scan_views 0 regular_views
    findings ← collect (scan_view scanner) views
    ok (dedup (sort_findings findings))
