-- ===== src/Engine/Passed.antt =====
-- The summary of `protect` of src/engine.rs tells whether a finding of a plan is to be blocked.
use agent_veil.Engine.Apply.{sort_reversed, insert_reversed}
use agent_veil.Engine.Plan.{
  TargetPlan, FindingSummary, has_action, summarize, add_finding, add_findings, add_plans,
  is_summary_of, insert_summary, sort_summaries, summary_le, u32_max,
}
use agent_veil.Detector.{Decided}
use agent_veil.Domain.{Action, FieldClass, action_eq}
use agent_veil.Domain.Laws.{action_eq_iff}
use agent_veil.Prelude.{
  false, ◌≡◌, inl, inr, List, [], ◌∷◌, Bool-cases, refl, All, any, arith, min, ◌+◌, ◌||◌, subst,
  leb,
}

-- The finding is not one to block.
abbrev pub IsPassed : Decided → Type 0
IsPassed d = action_eq d.1 Action.block ≡ false

abbrev pub HasPassed : TargetPlan → Type 0
HasPassed plan = All IsPassed plan.findings

abbrev IsLowSummary : FindingSummary → Type 0
IsLowSummary f = action_eq f.action Action.block ≡ false

-- A finding that is not in the summary by its action has not been added.
low_add_finding :
    (field : FieldClass) (d : Decided) (fs : List FindingSummary)
    → All IsLowSummary (add_finding field d fs)
    → All IsLowSummary fs × IsPassed d
unfolding add_finding is_summary_of
low_add_finding field (f, a) [] h = (tt, h.0)
low_add_finding field (f, a) (x ∷ fs) h = elim (Bool-cases (is_summary_of field (f, a) x)) [
  | inl same ↦
      let low : All IsLowSummary (record x { count = min (x.count + 1) u32_max } ∷ fs) =
        rw (same, add_finding) at h in
      let equal : x.action ≡ a = (action_eq_iff x.action a).0 (ground arith) in
      ((low.0, low.1), subst (λ b. action_eq b Action.block ≡ false) equal low.0)
  | inr other ↦
      let low : All IsLowSummary (x ∷ add_finding field (f, a) fs) = rw (other, add_finding) at h in
      let (rest, passed) = low_add_finding field (f, a) fs low.1 in ((low.0, rest), passed)
]

low_add_findings :
    (field : FieldClass) (ds : List Decided) (fs : List FindingSummary)
    → All IsLowSummary (add_findings field ds fs)
    → All IsLowSummary fs × All IsPassed ds
unfolding add_findings
low_add_findings field [] fs h = (h, tt)
low_add_findings field (d ∷ ds) fs h =
    let (low, passed) = low_add_findings field ds (add_finding field d fs) h in
    let (before, first) = low_add_finding field d fs low in (before, (first, passed))

low_add_plans :
    (plans : List TargetPlan) (fs : List FindingSummary)
    → All IsLowSummary (add_plans plans fs)
    → All IsLowSummary fs × All HasPassed plans
unfolding add_plans
low_add_plans [] fs h = (h, tt)
low_add_plans (plan ∷ plans) fs h =
    let (low, passed) = low_add_plans plans (add_findings plan.field_class plan.findings fs) h in
    let (before, first) = low_add_findings plan.field_class plan.findings fs low in
    (before, (first, passed))

low_insert :
    (a : FindingSummary) (bs : List FindingSummary)
    → any (λ f. action_eq f.action Action.block) (insert_summary a bs) ≡ false
    → IsLowSummary a × (any (λ f. action_eq f.action Action.block) bs ≡ false)
unfolding insert_summary
low_insert a [] h = (ground arith, refl)
low_insert a (b ∷ bs) h = elim (Bool-cases (summary_le a b)) [
  | inl t ↦ let low = rw (t, insert_summary) at h in (ground (arith, low), ground (arith, low))
  | inr f ↦
      let low : action_eq b.action Action.block
            || any (λ g. action_eq g.action Action.block) (insert_summary a bs)
          ≡ false =
        rw (f, insert_summary) at h in
      let (first, rest) = low_insert a bs (ground arith) in (first, ground arith)
]

low_sort :
    (fs : List FindingSummary)
    → any (λ f. action_eq f.action Action.block) (sort_summaries fs) ≡ false
    → All IsLowSummary fs
unfolding sort_summaries
low_sort [] h = tt
low_sort (a ∷ more) h =
    let (first, rest) = low_insert a (sort_summaries more) h in (first, low_sort more rest)

-- Without a blocked finding in the summary, no plan holds one.
pub plans-HasPassed :
    (plans : List TargetPlan)
    → has_action Action.block (summarize plans) ≡ false
    → All HasPassed plans
unfolding has_action summarize
plans-HasPassed plans h = (low_add_plans plans [] (low_sort (add_plans plans []) h)).1

pub sort_reversed-All :
    (P : Decided → Type 0) (ds : List Decided) → All P ds → All P (sort_reversed ds)
unfolding sort_reversed insert_reversed
sort_reversed-All P [] h = tt
sort_reversed-All P (d ∷ ds) h =
    insert_reversed-All d (sort_reversed ds) h.0 (sort_reversed-All P ds h.1)
  where
    insert_reversed-All :
        (x : Decided) (xs : List Decided) → P x → All P xs → All P (insert_reversed x xs)
    insert_reversed-All x [] p q = (p, tt)
    insert_reversed-All x (y ∷ ys) p q =
        elim (Bool-cases (leb y.0.source_span.start x.0.source_span.start)) [
          | inl t ↦ rw (insert_reversed, t) (p, q)
          | inr f ↦ rw (insert_reversed, f) (q.0, insert_reversed-All x ys p q.1)
        ]
