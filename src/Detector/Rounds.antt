-- ===== src/Detector/Rounds.antt =====
-- `composed_views` of src/detector.rs: its loop over the queue ends, and how many views it returns.
use agent_veil.Detector.Compose.{
  Queue, enqueue, decoded_views, visit, explore, is_seen, max_decode_layers, composed_views,
  composed_views_within, saturating_mul,
}
use agent_veil.Detector.View.{ScanView, decode_json_escapes, decode_percent_encoding, canonicalize}
use agent_veil.Detector.{DetectorError}
use agent_veil.Prelude.{
  ℕ, zero, suc, ◌+◌, ◌≤◌, ◌≡◌, refl, Text, false, leb, Option, none, some, List, [], ◌∷◌, ◌++◌,
  length, length-append, arith, Bool-cases, Result-cases, Ensures, Ensures-ok, Ensures-err,
  Ensures-bind, ensures_rules, Result, ok, err, inl, inr, if◌then◌else◌, ◌==◌, ◌*◌, ◌-◌, subst, max,
  append-nil, append_assoc, ◌∙◌, ap,
}

-- The views that can come of a view at a depth, itself included.
layers : ℕ → ℕ
layers depth = if leb max_decode_layers depth then 1 else if depth == 1 then 3 else 7

weight : Queue → ℕ
weight [] = 0
weight ((view, depth) ∷ queue) = layers depth + weight queue

weight-append : (p q : Queue) → weight (p ++ q) ≡ weight p + weight q
unfolding weight
weight-append [] q = omega arith
weight-append ((view, depth) ∷ p) q = omega (arith, weight-append p q)

layers_halve :
    (depth : ℕ) → leb max_decode_layers depth ≡ false → 2 * layers (depth + 1) + 1 ≤ layers depth
unfolding layers
layers_halve depth h = ground arith

layers_positive : (depth : ℕ) → 1 ≤ layers depth
unfolding layers
layers_positive depth = ground arith

module _ (nfkc : Text → Text) where
  enqueue-weight :
      (depth : ℕ) (o : Option ScanView)
      → Ensures (λ q. weight q ≤ layers (depth + 1)) (enqueue nfkc depth o)
  unfolding enqueue weight
  enqueue-weight depth none = Ensures-ok _ (omega arith)
  enqueue-weight depth (some decoded) =
      Ensures-bind {P = λ v. Unit {0}} (canonicalize nfkc decoded) _ (record { at = λ v e. tt })
        λ v h. Ensures-ok _ (omega arith)

  abbrev anything : {A : Type 0} (r : Result DetectorError A) → Ensures (λ a. Unit {0}) r
  anything r = record { at = λ a e. tt }

  decoded_views-weight :
      (view : ScanView) (depth : ℕ)
      → Ensures (λ q. weight q + 1 ≤ layers depth) (decoded_views nfkc view depth)
  unfolding decoded_views
  decoded_views-weight view depth = elim (Bool-cases (leb max_decode_layers depth)) [
    | inl t ↦ rw t (Ensures-ok _ (unfold weight in omega (arith, layers_positive depth)))
    | inr f ↦ rw f (
        Ensures-bind _ _ (anything (decode_json_escapes view)) λ json _.
          Ensures-bind _ _ (enqueue-weight depth json) λ first h.
            Ensures-bind _ _ (anything (decode_percent_encoding view)) λ percent _.
              Ensures-bind _ _ (enqueue-weight depth percent) λ second k.
                Ensures-ok _ (omega (arith, weight-append first second, layers_halve depth f)))
  ]

  visit-weight :
      (m : ℕ) (view : ScanView) (depth : ℕ) (views : List ScanView)
      → Ensures (λ q. weight q + 1 ≤ layers depth) (visit nfkc m view depth views)
  unfolding visit
  visit-weight m view depth views = search (ensures_rules, decoded_views-weight view depth)

  -- The rounds suffice where they are as many as the views that can come of the queue.
  explore_returns :
      (rounds m : ℕ) (queue : Queue) (views : List ScanView)
      → weight queue ≤ rounds
      → (r : Result DetectorError (List ScanView)) × (explore nfkc rounds m queue views ≡ some r)
        × Ensures (λ vs. length vs ≤ length views + weight queue) r
  unfolding explore weight
  explore_returns zero m [] views h = (ok views, refl, Ensures-ok _ (omega arith))
  explore_returns (suc rounds) m [] views h = (ok views, refl, Ensures-ok _ (omega arith))
  explore_returns zero m ((view, depth) ∷ queue) views h =
      absurd (omega (arith, layers_positive depth))
  explore_returns (suc rounds) m ((view, depth) ∷ queue) views h =
      elim (Bool-cases (is_seen view views)) [
        | inl t ↦
            let (r, e, k) =
              explore_returns rounds m queue views (omega (arith, layers_positive depth)) in
            (r, rw (explore, t) e, record { at = λ vs q. omega (arith, k.at vs q) })
        | inr f ↦ elim (Result-cases (visit nfkc m view depth views)) [
          | inr (e, failed) ↦ (err e, rw (explore, f, failed) refl, Ensures-err e)
          | inl (added, made) ↦
              let less = (visit-weight m view depth views).at added made in
              let (r, e, k) =
                explore_returns rounds m (queue ++ added) (views ++ view ∷ [])
                  (omega (arith, weight-append queue added)) in
              (
                r,
                rw (explore, f, made) e,
                record {
                  at = λ vs q. omega (
                    arith,
                    k.at vs q,
                    length-append views (view ∷ []),
                    weight-append queue added,
                  );
                },
              )
        ]
      ]

  -- A run that has ended is the same with more rounds.
  explore_more :
      (rounds more m : ℕ) (queue : Queue) (views : List ScanView)
      (r : Result DetectorError (List ScanView))
      → explore nfkc rounds m queue views ≡ some r
      → explore nfkc (rounds + more) m queue views ≡ some r
  unfolding explore
  explore_more zero zero m [] views r h = h
  explore_more zero (suc more) m [] views r h = h
  explore_more (suc rounds) more m [] views r h = h
  explore_more zero more m ((view, depth) ∷ queue) views r h = absurd (cc h)
  explore_more (suc rounds) more m ((view, depth) ∷ queue) views r h =
      let total : suc (rounds + more) ≡ suc rounds + more = omega arith in
      subst (λ n. explore nfkc n m ((view, depth) ∷ queue) views ≡ some r) total
        (elim (Bool-cases (is_seen view views)) [
          | inl t ↦
              rw (explore, t) (explore_more rounds more m queue views r (rw (explore, t) at h))
          | inr f ↦ elim (Result-cases (visit nfkc m view depth views)) [
            | inr (x, failed) ↦ rw (explore, f, failed) (rw (explore, f, failed) at h)
            | inl (added, made) ↦
                rw (explore, f, made)
                  (explore_more rounds more m (queue ++ added) (views ++ view ∷ []) r
                    (rw (explore, f, made) at h))
          ]
        ])

  abbrev pub limit : ScanView → ℕ
  limit root = max (saturating_mul (length root.source_by_byte) 4) 4

  -- Seven rounds of the loop over the queue suffice: with any number of rounds from seven on the
  -- loop ends, with the result of `composed_views`.
  pub composed_views_within-composed_views :
      (rounds : ℕ) (root : ScanView)
      → 7 ≤ rounds
      → composed_views_within nfkc rounds root ≡ some (composed_views nfkc root)
  unfolding composed_views composed_views_within weight layers
  composed_views_within-composed_views rounds root h =
      let (r, e, k) = explore_returns 7 (limit root) ((root, 0) ∷ []) [] (omega arith) in
      let all : 7 + (rounds - 7) ≡ rounds = omega arith in
      let more = explore_more 7 (rounds - 7) (limit root) ((root, 0) ∷ []) [] r e in
      rw e (subst (λ n. explore nfkc n (limit root) ((root, 0) ∷ []) [] ≡ some r) all more)

  -- The views that are there stay at the front.
  explore-extends :
      (rounds m : ℕ) (queue : Queue) (views vs : List ScanView)
      → explore nfkc rounds m queue views ≡ some (ok vs)
      → (rest : List ScanView) × (vs ≡ views ++ rest)
  unfolding explore
  explore-extends zero m [] views vs h = ([], cc (h, append-nil views))
  explore-extends (suc rounds) m [] views vs h = ([], cc (h, append-nil views))
  explore-extends zero m ((view, depth) ∷ queue) views vs h = absurd (cc h)
  explore-extends (suc rounds) m ((view, depth) ∷ queue) views vs h =
      elim (Bool-cases (is_seen view views)) [
        | inl t ↦ explore-extends rounds m queue views vs (rw (explore, t) at h)
        | inr f ↦ elim (Result-cases (visit nfkc m view depth views)) [
          | inr (e, failed) ↦ absurd (cc (rw (explore, f, failed) at h))
          | inl (added, made) ↦
              let (rest, split) =
                explore-extends rounds m (queue ++ added) (views ++ view ∷ []) vs
                  (rw (explore, f, made) at h) in
              (view ∷ rest, split ∙ append_assoc views (view ∷ []) rest)
        ]
      ]

  explore-length :
      (rounds m : ℕ) (queue : Queue) (views vs : List ScanView)
      → explore nfkc rounds m queue views ≡ some (ok vs)
      → length vs ≤ length views + weight queue
  explore-length rounds m queue views vs h =
      let (r, e, k) = explore_returns (rounds + weight queue) m queue views (omega arith) in
      let same = explore_more rounds (weight queue) m queue views (ok vs) h in
      k.at vs (cc (e, same))

  explore-first :
      (rounds m : ℕ) (root : ScanView) (vs : List ScanView)
      → explore nfkc rounds m ((root, 0) ∷ []) [] ≡ some (ok vs)
      → (rest : List ScanView) × (vs ≡ root ∷ rest)
  unfolding explore
  explore-first zero m root vs h = absurd (cc h)
  explore-first (suc rounds) m root vs h =
      let unseen : is_seen root [] ≡ false = (unfold is_seen in refl) in
      elim (Result-cases (visit nfkc m root 0 [])) [
        | inr (e, failed) ↦ absurd (cc (rw (explore, unseen, failed) at h))
        | inl (added, made) ↦
            explore-extends rounds m added (root ∷ []) vs (rw (explore, unseen, made) at h)
      ]

  -- However many rounds the loop is given, views that it returns are the view that it began with
  -- and at most six others, so the limit of eight is not reached.
  pub length-composed_views_within :
      (rounds : ℕ) (root : ScanView) (views : List ScanView)
      → composed_views_within nfkc rounds root ≡ some (ok views)
      → (rest : List ScanView) × (views ≡ root ∷ rest) × (length rest ≤ 6)
  unfolding composed_views_within weight layers
  length-composed_views_within rounds root views h =
      let (rest, split) = explore-first rounds (limit root) root views h in
      let short = explore-length rounds (limit root) ((root, 0) ∷ []) [] views h in
      (rest, split, omega (arith, short, ap (λ vs. length vs) split))
