-- ===== src/Detector/Overlaps.antt =====
-- What `resolve_overlaps` of src/detector.rs keeps of the findings.
use agent_veil.Detector.{
  Decided, span_le, insert_sorted, sort_by_key, outranks, stronger, merge_from, component, merge,
  resolve_overlaps,
}
use agent_veil.Domain.{precedence}
use agent_veil.Prelude.{
  ℕ, List, [], ◌∷◌, All, In, inl, inr, ◌≤◌, arith, Bool-cases, All-imp, max, ltb, refl, subst, sym,
}

-- Some finding of the list spans the given one and has an action of its precedence or a higher one.
abbrev pub IsCovered : List Decided → Decided → Type 0
IsCovered ms d =
    (m : Decided) × In m ms
    × (m.0.source_span.start ≤ d.0.source_span.start)
    × (d.0.source_span.end ≤ m.0.source_span.end)
    × (precedence d.1 ≤ precedence m.1)

abbrev StartsFrom : ℕ → Decided → Type 0
StartsFrom n d = n ≤ d.0.source_span.start

-- Each span ends before the later ones start.
abbrev pub IsSeparated : List Decided → Type 0
IsSeparated [] = Unit
IsSeparated (m ∷ ms) = All (StartsFrom m.0.source_span.end) ms × IsSeparated ms

abbrev IsAscending : List Decided → Type 0
IsAscending [] = Unit
IsAscending (d ∷ ds) = All (StartsFrom d.0.source_span.start) ds × IsAscending ds

insert_sorted-All :
    (P : Decided → Type 0) (d : Decided) (ds : List Decided)
    → P d
    → All P ds
    → All P (insert_sorted d ds)
unfolding insert_sorted
insert_sorted-All P d [] p h = (p, tt)
insert_sorted-All P d (x ∷ xs) p h = elim (Bool-cases (span_le d.0.source_span x.0.source_span)) [
  | inl t ↦ rw (insert_sorted, t) (p, h)
  | inr f ↦ rw (insert_sorted, f) (h.0, insert_sorted-All P d xs p h.1)
]

insert_sorted-IsAscending :
    (d : Decided) (ds : List Decided) → IsAscending ds → IsAscending (insert_sorted d ds)
unfolding insert_sorted
insert_sorted-IsAscending d [] h = (tt, tt)
insert_sorted-IsAscending d (x ∷ xs) h =
    elim (Bool-cases (span_le d.0.source_span x.0.source_span)) [
      | inl t ↦
          let below : d.0.source_span.start ≤ x.0.source_span.start =
            unfold span_le in ground arith in
          rw (insert_sorted, t)
            (
              (
                below,
                All-imp (StartsFrom x.0.source_span.start) (StartsFrom d.0.source_span.start)
                    (λ y l. omega (arith, l, below)) xs h.0,
              ),
              h,
            )
      | inr f ↦
          let below : x.0.source_span.start ≤ d.0.source_span.start =
            unfold span_le in ground arith in
          rw (insert_sorted, f)
            (
              insert_sorted-All (StartsFrom x.0.source_span.start) d xs below h.0,
              insert_sorted-IsAscending d xs h.1,
            )
    ]

sort_by_key-IsAscending : (ds : List Decided) → IsAscending (sort_by_key ds)
unfolding sort_by_key
sort_by_key-IsAscending [] = tt
sort_by_key-IsAscending (d ∷ ds) =
    insert_sorted-IsAscending d (sort_by_key ds) (sort_by_key-IsAscending ds)

In-insert_sorted : (d x : Decided) (xs : List Decided) → In x (d ∷ xs) → In x (insert_sorted d xs)
unfolding insert_sorted
In-insert_sorted d x [] m = m
In-insert_sorted d x (y ∷ xs) m = elim (Bool-cases (span_le d.0.source_span y.0.source_span)) [
  | inl t ↦ rw (insert_sorted, t) m
  | inr f ↦ rw (insert_sorted, f) (later m (In-insert_sorted d x xs))
]
  where
    later :
        In x (d ∷ y ∷ xs)
        → (In x (d ∷ xs) → In x (insert_sorted d xs))
        → In x (y ∷ insert_sorted d xs)
    later (inl e) f = inr (f (inl e))
    later (inr (inl e)) f = inl e
    later (inr (inr k)) f = inr (f (inr k))

In-sort_by_key : (x : Decided) (ds : List Decided) → In x ds → In x (sort_by_key ds)
unfolding sort_by_key
In-sort_by_key x (d ∷ ds) (inl e) = In-insert_sorted d x (sort_by_key ds) (inl e)
In-sort_by_key x (d ∷ ds) (inr m) =
    In-insert_sorted d x (sort_by_key ds) (inr (In-sort_by_key x ds m))
In-sort_by_key x [] m = absurd m

precedence-stronger :
    (best d : Decided)
    → (precedence best.1 ≤ precedence (stronger best d).1)
      × (precedence d.1 ≤ precedence (stronger best d).1)
unfolding stronger outranks
precedence-stronger best d = (ground arith, ground arith)

-- A component covers what lies in it, and the merge covers the findings still to come.
merge_from-IsCovered :
    (start end : ℕ) (best : Decided) (ds : List Decided) (x : Decided)
    → start ≤ x.0.source_span.start
    → x.0.source_span.end ≤ end
    → precedence x.1 ≤ precedence best.1
    → IsCovered (merge_from start end best ds) x
unfolding merge_from component
merge_from-IsCovered start end best [] x l r p = (component start end best, inl refl, l, r, p)
merge_from-IsCovered start end best (d ∷ ds) x l r p =
    elim (Bool-cases (ltb d.0.source_span.start end)) [
      | inl t ↦
          let stronger_le = precedence-stronger best d in
          rw (merge_from, t)
            (merge_from-IsCovered start (max end d.0.source_span.end) (stronger best d) ds x l
              (omega (arith, r)) (omega (arith, p, stronger_le.0)))
      | inr f ↦ rw (merge_from, f) (component start end best, inl refl, l, r, p)
    ]

IsCovered-later : (m x : Decided) (ms : List Decided) → IsCovered ms x → IsCovered (m ∷ ms) x
IsCovered-later m x ms (n, i, l, r, p) = (n, inr i, l, r, p)

rest-IsCovered :
    (start end : ℕ) (best : Decided) (ds : List Decided)
    → All (StartsFrom start) ds
    → IsAscending ds
    → (x : Decided) → In x ds
    → IsCovered (merge_from start end best ds) x
unfolding merge_from
rest-IsCovered start end best [] h a x m = absurd m
rest-IsCovered start end best (d ∷ ds) h a x m = elim (Bool-cases (ltb d.0.source_span.start end)) [
  | inl t ↦
      let wide = max end d.0.source_span.end in
      let (first, second) = precedence-stronger best d in
      rw (merge_from, t)
        (either _ m
          (merge_from-IsCovered start wide (stronger best d) ds d h.0 (omega arith) second)
          (rest-IsCovered start wide (stronger best d) ds h.1 a.1 x))
  | inr f ↦
      let n = d.0.source_span.start in
      let e = d.0.source_span.end in
      rw (merge_from, f)
        (IsCovered-later (component start end best) x _ (
          either _ m (merge_from-IsCovered n e d ds d (omega arith) (omega arith) (omega arith))
            (rest-IsCovered n e d ds a.0 a.1 x)))
]
  where
    either :
        (ms : List Decided)
        → In x (d ∷ ds)
        → IsCovered ms d
        → (In x ds → IsCovered ms x)
        → IsCovered ms x
    either ms (inl e) c f = subst (λ y. IsCovered ms y) (sym e) c
    either ms (inr k) c f = f k

merge_from-IsSeparated :
    (start end : ℕ) (best : Decided) (ds : List Decided)
    → All (StartsFrom start) ds
    → IsAscending ds
    → All (StartsFrom start) (merge_from start end best ds)
      × IsSeparated (merge_from start end best ds)
unfolding merge_from component
merge_from-IsSeparated start end best [] h a = ((omega arith, tt), (tt, tt))
merge_from-IsSeparated start end best (d ∷ ds) h a =
    elim (Bool-cases (ltb d.0.source_span.start end)) [
      | inl t ↦
          rw (merge_from, t)
            (merge_from-IsSeparated start (max end d.0.source_span.end) (stronger best d) ds h.1
              a.1)
      | inr f ↦
          let n = d.0.source_span.start in
          let past : end ≤ n = ground arith in
          let (from, apart) = merge_from-IsSeparated n d.0.source_span.end d ds a.0 a.1 in
          rw (merge_from, f)
            (
              (
                omega arith,
                All-imp (StartsFrom n) (StartsFrom start) (λ y l. omega (arith, l, h.0)) _ from,
              ),
              (
                All-imp (StartsFrom n) (StartsFrom end) (λ y l. omega (arith, l, past)) _ from,
                apart,
              ),
            )
    ]

merge-IsSeparated : (ds : List Decided) → IsAscending ds → IsSeparated (merge ds)
unfolding merge
merge-IsSeparated [] a = tt
merge-IsSeparated (d ∷ ds) a =
    (merge_from-IsSeparated d.0.source_span.start d.0.source_span.end d ds a.0 a.1).1

merge-IsCovered :
    (ds : List Decided) → IsAscending ds → (x : Decided) → In x ds → IsCovered (merge ds) x
unfolding merge
merge-IsCovered [] a x m = absurd m
merge-IsCovered (d ∷ ds) a x (inl e) =
    subst (λ y. IsCovered (merge_from d.0.source_span.start d.0.source_span.end d ds) y) (sym e)
      (merge_from-IsCovered d.0.source_span.start d.0.source_span.end d ds d (omega arith)
        (omega arith) (omega arith))
merge-IsCovered (d ∷ ds) a x (inr m) =
    rest-IsCovered d.0.source_span.start d.0.source_span.end d ds a.0 a.1 x m

-- The spans that are left are in order and do not overlap, and every finding lies in one of them
-- whose action is at least as strong.
pub resolve_overlaps-IsSeparated :
    (findings : List Decided)
    → IsSeparated (resolve_overlaps findings)
      × ((d : Decided) → In d findings → IsCovered (resolve_overlaps findings) d)
unfolding resolve_overlaps
resolve_overlaps-IsSeparated findings =
    let ascending = sort_by_key-IsAscending findings in
    (
      merge-IsSeparated (sort_by_key findings) ascending,
      λ d m. merge-IsCovered (sort_by_key findings) ascending d (In-sort_by_key d findings m),
    )
