-- ===== src/Detector/Sources.antt =====
-- Where the results of `resolve_overlaps` of src/detector.rs come from.
use agent_veil.Detector.{
  Decided, span_le, insert_sorted, sort_by_key, stronger, outranks, component, merge_from, merge,
  resolve_overlaps,
}
use agent_veil.Prelude.{
  ℕ, ◌≡◌, List, [], ◌∷◌, All, In, inl, inr, refl, arith, Bool-cases, max, ltb, In-All, ◌⊎◌, ap, ◌∙◌,
}

-- The finding has the class, the detector, the confidence and the action of one of the list; its
-- span starts where one of the list starts and ends where one of the list ends.
abbrev pub IsDrawnFrom : List Decided → Decided → Type 0
IsDrawnFrom findings m =
    ((d : Decided) × In d findings
      × (m.0.data_class ≡ d.0.data_class)
      × (m.0.detector ≡ d.0.detector)
      × (m.0.confidence ≡ d.0.confidence)
      × (m.1 ≡ d.1))
    × ((d : Decided) × In d findings × (m.0.source_span.start ≡ d.0.source_span.start))
    × ((d : Decided) × In d findings × (m.0.source_span.end ≡ d.0.source_span.end))

sort-In :
    (x : Decided) (d : Decided) (ds : List Decided) → In x (insert_sorted d ds) → In x (d ∷ ds)
unfolding insert_sorted
sort-In x d [] m = m
sort-In x d (y ∷ ys) m = elim (Bool-cases (span_le d.0.source_span y.0.source_span)) [
  | inl t ↦ rw (insert_sorted, t) at m
  | inr f ↦ later (sort-In x d ys) (rw (insert_sorted, f) at m)
]
  where
    later :
        (In x (insert_sorted d ys) → In x (d ∷ ys))
        → In x (y ∷ insert_sorted d ys)
        → In x (d ∷ y ∷ ys)
    later f (inl e) = inr (inl e)
    later f (inr k) = elim (f k) [ inl e ↦ inl e | inr i ↦ inr (inr i) ]

In-sorted : (x : Decided) (ds : List Decided) → In x (sort_by_key ds) → In x ds
unfolding sort_by_key
In-sorted x [] m = m
In-sorted x (d ∷ ds) m = elim (sort-In x d (sort_by_key ds) m) [
  | inl e ↦ inl e
  | inr k ↦ inr (In-sorted x ds k)
]

stronger_cases : (best d : Decided) → (stronger best d ≡ best) ⊎ (stronger best d ≡ d)
unfolding stronger
stronger_cases best d = elim (Bool-cases (outranks best d)) [
  | inl t ↦ inl (rw (stronger, t) refl)
  | inr f ↦ inr (rw (stronger, f) refl)
]

max_cases : (m n : ℕ) → (max m n ≡ m) ⊎ (max m n ≡ n)
max_cases m n = elim (Bool-cases (ltb m n)) [
  | inl t ↦ inr (ground arith)
  | inr f ↦ inl (ground arith)
]

module _ (findings : List Decided) where
  -- A component that takes in one more finding is drawn from the findings as well.
  component-IsDrawnFrom :
      (start end : ℕ) (best d : Decided)
      → IsDrawnFrom findings (component start end best)
      → In d findings
      → IsDrawnFrom findings (component start (max end d.0.source_span.end) (stronger best d))
  unfolding component
  component-IsDrawnFrom start end best d ((b, i, c, t, f, a), s, (l, j, e)) m = (
    elim (stronger_cases best d) [
      | inl same ↦ (
        b,
        i,
        ap (λ (z : Decided). z.0.data_class) same ∙ c,
        ap (λ (z : Decided). z.0.detector) same ∙ t,
        ap (λ (z : Decided). z.0.confidence) same ∙ f,
        ap (λ (z : Decided). z.1) same ∙ a,
      )
      | inr new ↦ (
        d,
        m,
        ap (λ (z : Decided). z.0.data_class) new,
        ap (λ (z : Decided). z.0.detector) new,
        ap (λ (z : Decided). z.0.confidence) new,
        ap (λ (z : Decided). z.1) new,
      )
    ],
    s,
    elim (max_cases end d.0.source_span.end) [
      | inl same ↦ (l, j, same ∙ e)
      | inr new ↦ (d, m, new)
    ],
  )

  -- The component so far is drawn from the findings.
  merge_from-IsDrawnFrom :
      (start end : ℕ) (best : Decided) (ds : List Decided)
      → IsDrawnFrom findings (component start end best)
      → All (λ d. In d findings) ds
      → All (IsDrawnFrom findings) (merge_from start end best ds)
  unfolding merge_from component
  merge_from-IsDrawnFrom start end best [] c h = (c, tt)
  merge_from-IsDrawnFrom start end best (d ∷ ds) (b, s, e) h =
      elim (Bool-cases (ltb d.0.source_span.start end)) [
        | inl t ↦
            rw (merge_from, t)
              (merge_from-IsDrawnFrom start (max end d.0.source_span.end) (stronger best d) ds
                (component-IsDrawnFrom start end best d (b, s, e) h.0) h.1)
        | inr f ↦
            rw (merge_from, f)
              (
                (b, s, e),
                merge_from-IsDrawnFrom d.0.source_span.start d.0.source_span.end d ds
                    ((d, h.0, refl, refl, refl, refl), (d, h.0, refl), (d, h.0, refl)) h.1,
              )
      ]

  merge-IsDrawnFrom :
      (ds : List Decided) → All (λ d. In d findings) ds → All (IsDrawnFrom findings) (merge ds)
  unfolding merge component
  merge-IsDrawnFrom [] h = tt
  merge-IsDrawnFrom (d ∷ ds) h =
      merge_from-IsDrawnFrom d.0.source_span.start d.0.source_span.end d ds
        ((d, h.0, refl, refl, refl, refl), (d, h.0, refl), (d, h.0, refl)) h.1

-- Every result has the class, the detector, the confidence and the action of one of the findings, and
-- starts where one of them starts and ends where one of them ends.
pub resolve_overlaps-IsDrawnFrom :
    (findings : List Decided) → All (IsDrawnFrom findings) (resolve_overlaps findings)
unfolding resolve_overlaps
resolve_overlaps-IsDrawnFrom findings =
    merge-IsDrawnFrom findings (sort_by_key findings)
      (In-All (λ d. In d findings) (sort_by_key findings) (λ d m. In-sorted d findings m))
