-- ===== src/Gateway/Activity.antt =====
-- What the dashboard keeps of src/gateway.rs: the latest requests, and the proof of the synthetic
-- wire.
use agent_veil.Audit.{AuditDecision, AuditFinding, AuditEvent, UpstreamOutcome}
use agent_veil.Prelude.{
  ℕ, zero, suc, ◌≤◌, ◌≡◌, ◌≢◌, ◌↔◌, inl, inr, refl, Text, bytes, Bool, true, false, ◌==◌,
  if◌then◌else◌, List, [], ◌∷◌, All, any, take, length, arith, Bool-cases, All-take, length-take,
  In,
}

abbrev pub dashboard_activity_limit : ℕ
dashboard_activity_limit = 64

pub record DashboardActivity : Type 0 where
  pub request_sequence : ℕ
  pub timestamp_unix_ms : ℕ
  pub decision : AuditDecision
  pub findings : List AuditFinding
  pub upstream_outcome : UpstreamOutcome
  pub scan_latency_ms : ℕ

unfoldable pub is_activity_of : AuditEvent → DashboardActivity → Bool
is_activity_of event item = item.request_sequence == event.request_sequence

-- The first item of the request gets the outcome and the latency of the event.
unfoldable pub update_activity : AuditEvent → List DashboardActivity → List DashboardActivity
update_activity event [] = []
update_activity event (item ∷ items) =
    let rest = update_activity event items in
    if is_activity_of event item
    then record item {
      upstream_outcome = event.upstream_outcome;
      scan_latency_ms = event.scan_latency_ms;
    }
      ∷ items
    else item ∷ rest

unfoldable pub new_activity : AuditEvent → DashboardActivity
new_activity event = record {
  request_sequence = event.request_sequence;
  timestamp_unix_ms = event.timestamp_unix_ms;
  decision = event.decision;
  findings = event.findings;
  upstream_outcome = event.upstream_outcome;
  scan_latency_ms = event.scan_latency_ms;
}

-- `record_dashboard_activity`; with a poisoned lock nothing is recorded.
unfoldable pub record_dashboard_activity :
    Bool → AuditEvent → List DashboardActivity → List DashboardActivity
record_dashboard_activity is_poisoned event activity =
    if is_poisoned
    then activity
    else if any (is_activity_of event) activity
    then update_activity event activity
    else take dashboard_activity_limit (new_activity event ∷ activity)

-- `SyntheticWireProof`
pub data SyntheticWireProof : Type 0 where
  unmeasured passed failed : SyntheticWireProof

pub data Mark : Type 0 where
  mark_passed mark_failed : Mark

unfoldable pub mark : Mark → SyntheticWireProof → SyntheticWireProof
mark Mark.mark_failed proof = SyntheticWireProof.failed
mark Mark.mark_passed SyntheticWireProof.unmeasured = SyntheticWireProof.passed
mark Mark.mark_passed SyntheticWireProof.passed = SyntheticWireProof.passed
mark Mark.mark_passed SyntheticWireProof.failed = SyntheticWireProof.failed

unfoldable pub marked : List Mark → SyntheticWireProof → SyntheticWireProof
marked [] proof = proof
marked (m ∷ ms) proof = marked ms (mark m proof)

unfoldable pub wire_label : SyntheticWireProof → Text
unfolding bytes
wire_label SyntheticWireProof.unmeasured = bytes "not_measured"
wire_label SyntheticWireProof.passed = bytes "synthetic_passed"
wire_label SyntheticWireProof.failed = bytes "synthetic_failed"

-- The item is of another request.
abbrev Differs : ℕ → DashboardActivity → Type 0
Differs n item = item.request_sequence ≢ n

abbrev AreDistinct : List DashboardActivity → Type 0
AreDistinct [] = Unit
AreDistinct (item ∷ items) = All (Differs item.request_sequence) items × AreDistinct items

-- At most 64 items, each of another request.
pub record IsBoundedActivity (activity : List DashboardActivity) : Type 0 where
  pub bounded : length activity ≤ dashboard_activity_limit
  pub distinct : AreDistinct activity

All-update_activity :
    (event : AuditEvent) (n : ℕ) (items : List DashboardActivity)
    → All (Differs n) items
    → All (Differs n) (update_activity event items)
unfolding update_activity
All-update_activity event n [] h = tt
All-update_activity event n (item ∷ items) h = elim (Bool-cases (is_activity_of event item)) [
  | inl t ↦ rw t (h.0, h.1)
  | inr f ↦ rw f (h.0, All-update_activity event n items h.1)
]

update_activity-AreDistinct :
    (event : AuditEvent) (items : List DashboardActivity)
    → AreDistinct items
    → AreDistinct (update_activity event items)
unfolding update_activity
update_activity-AreDistinct event [] h = tt
update_activity-AreDistinct event (item ∷ items) h = elim (Bool-cases (is_activity_of event item)) [
  | inl t ↦ rw t (h.0, h.1)
  | inr f ↦ rw f (
    All-update_activity event item.request_sequence items h.0,
    update_activity-AreDistinct event items h.1,
  )
]

length-update_activity :
    (event : AuditEvent) (items : List DashboardActivity)
    → length (update_activity event items) ≡ length items
unfolding update_activity
length-update_activity event [] = refl
length-update_activity event (item ∷ items) = ground (arith, length-update_activity event items)

take-AreDistinct :
    (n : ℕ) (items : List DashboardActivity) → AreDistinct items → AreDistinct (take n items)
take-AreDistinct zero items h = tt
take-AreDistinct (suc n) [] h = tt
take-AreDistinct (suc n) (item ∷ items) h = (All-take _ n items h.0, take-AreDistinct n items h.1)

new_activity-Differs :
    (event : AuditEvent) (items : List DashboardActivity)
    → any (is_activity_of event) items ≡ false
    → All (Differs event.request_sequence) items
unfolding is_activity_of
new_activity-Differs event [] h = tt
new_activity-Differs event (item ∷ items) h =
    (λ e. absurd (ground arith), new_activity-Differs event items (ground arith))

-- A record keeps the list of the dashboard at 64 items at most, each of another request.
pub record_dashboard_activity-IsBoundedActivity :
    (is_poisoned : Bool) (event : AuditEvent) (activity : List DashboardActivity)
    → IsBoundedActivity activity
    → IsBoundedActivity (record_dashboard_activity is_poisoned event activity)
unfolding record_dashboard_activity
record_dashboard_activity-IsBoundedActivity true event activity h = h
record_dashboard_activity-IsBoundedActivity false event activity h =
    elim (Bool-cases (any (is_activity_of event) activity)) [
      | inl t ↦ rw t (record {
        bounded = omega (arith, length-update_activity event activity, h.bounded);
        distinct = update_activity-AreDistinct event activity h.distinct;
      })
      | inr f ↦ rw f (record {
        bounded = length-take dashboard_activity_limit (new_activity event ∷ activity);
        distinct =
            take-AreDistinct dashboard_activity_limit (new_activity event ∷ activity)
              (unfold new_activity in (new_activity-Differs event activity f, h.distinct));
      })
    ]

marked_failed : (ms : List Mark) → marked ms SyntheticWireProof.failed ≡ SyntheticWireProof.failed
unfolding marked mark
marked_failed [] = refl
marked_failed (Mark.mark_passed ∷ ms) = marked_failed ms
marked_failed (Mark.mark_failed ∷ ms) = marked_failed ms

failure_sticks :
    (ms : List Mark) (proof : SyntheticWireProof)
    → In Mark.mark_failed ms
    → marked ms proof ≡ SyntheticWireProof.failed
unfolding marked mark
failure_sticks (Mark.mark_failed ∷ ms) proof m = marked_failed ms
failure_sticks (Mark.mark_passed ∷ ms) proof (inl e) = absurd (cc e)
failure_sticks (Mark.mark_passed ∷ ms) proof (inr m) = failure_sticks ms _ m
failure_sticks [] proof m = absurd m

failure_reported :
    (ms : List Mark) (proof : SyntheticWireProof)
    → proof ≢ SyntheticWireProof.failed
    → marked ms proof ≡ SyntheticWireProof.failed
    → In Mark.mark_failed ms
unfolding marked mark
failure_reported [] proof h e = absurd (h e)
failure_reported (Mark.mark_failed ∷ ms) proof h e = inl refl
failure_reported (Mark.mark_passed ∷ ms) SyntheticWireProof.unmeasured h e =
    inr (failure_reported ms SyntheticWireProof.passed (λ f. cc f) e)
failure_reported (Mark.mark_passed ∷ ms) SyntheticWireProof.passed h e =
    inr (failure_reported ms SyntheticWireProof.passed (λ f. cc f) e)
failure_reported (Mark.mark_passed ∷ ms) SyntheticWireProof.failed h e = absurd (h refl)

-- After any number of marks the proof has failed exactly when one of them reported a failure, in
-- whatever order they came.
pub marked_failed_iff :
    (ms : List Mark)
    → (marked ms SyntheticWireProof.unmeasured ≡ SyntheticWireProof.failed) ↔ In Mark.mark_failed ms
marked_failed_iff ms = (
  failure_reported ms SyntheticWireProof.unmeasured (λ f. cc f),
  failure_sticks ms SyntheticWireProof.unmeasured,
)
