-- ===== src/Detector/Composed.antt =====
-- The views that `composed_views` of src/detector.rs returns come from the source.
use agent_veil.Detector.Located.{
  IsLocatedOption, IsLocatedView, canonicalize-IsLocated, decode_json_escapes-IsLocated,
  decode_percent_encoding-IsLocated,
}
use agent_veil.Detector.Compose.{
  Queue, enqueue, decoded_views, visit, explore, is_seen, max_decode_layers, composed_views,
  composed_views_within,
}
use agent_veil.Detector.View.{ScanView}
use agent_veil.Detector.{DetectorError}
use agent_veil.Prelude.{
  ℕ, zero, suc, ◌≡◌, Text, leb, Option, none, some, List, [], ◌∷◌, ◌++◌, arith, Bool-cases,
  Result-cases, Ensures, Ensures-ok, Ensures-bind, ensures_rules, Result, inl, inr, All, subst,
  All-append,
}
use agent_veil.Detector.Rounds.{composed_views_within-composed_views, limit}

module _ (nfkc : Text → Text) {source : Text} where
  enqueue-IsLocated :
      (depth : ℕ) (o : Option ScanView)
      → IsLocatedOption source o
      → Ensures (All (λ v. IsLocatedView source v.0)) (enqueue nfkc depth o)
  unfolding enqueue
  enqueue-IsLocated depth none h = Ensures-ok _ tt
  enqueue-IsLocated depth (some decoded) h =
      Ensures-bind _ _ (canonicalize-IsLocated nfkc decoded h) λ v k. Ensures-ok _ (k, tt)

  decoded_views-IsLocated :
      (view : ScanView) (depth : ℕ)
      → IsLocatedView source view
      → Ensures (All (λ v. IsLocatedView source v.0)) (decoded_views nfkc view depth)
  unfolding decoded_views
  decoded_views-IsLocated view depth h =
      let decoded = Ensures-bind _ _ (decode_json_escapes-IsLocated view h) λ json j.
        Ensures-bind _ _ (enqueue-IsLocated depth json j) λ first p.
          Ensures-bind _ _ (decode_percent_encoding-IsLocated view h) λ percent k.
            Ensures-bind _ _ (enqueue-IsLocated depth percent k)
              λ second q. Ensures-ok _ (All-append _ first second p q) in
      elim (Bool-cases (leb max_decode_layers depth)) [
        | inl t ↦ rw t (Ensures-ok _ tt)
        | inr f ↦ rw f decoded
      ]

  visit-IsLocated :
      (m : ℕ) (view : ScanView) (depth : ℕ) (views : List ScanView)
      → IsLocatedView source view
      → Ensures (All (λ v. IsLocatedView source v.0)) (visit nfkc m view depth views)
  unfolding visit
  visit-IsLocated m view depth views h =
      search (ensures_rules, decoded_views-IsLocated view depth h)

  explore-IsLocated :
      (rounds m : ℕ) (queue : Queue) (views : List ScanView)
      (r : Result DetectorError (List ScanView))
      → All (λ v. IsLocatedView source v.0) queue
      → All (IsLocatedView source) views
      → explore nfkc rounds m queue views ≡ some r
      → Ensures (All (IsLocatedView source)) r
  unfolding explore
  explore-IsLocated zero m [] views r h k e = record { at = λ vs q. subst (All _) (cc (e, q)) k }
  explore-IsLocated (suc rounds) m [] views r h k e = record {
    at = λ vs q. subst (All _) (cc (e, q)) k;
  }
  explore-IsLocated zero m ((view, depth) ∷ queue) views r h k e = absurd (cc e)
  explore-IsLocated (suc rounds) m ((view, depth) ∷ queue) views r h k e =
      elim (Bool-cases (is_seen view views)) [
        | inl t ↦ explore-IsLocated rounds m queue views r h.1 k (rw (explore, t) at e)
        | inr f ↦ elim (Result-cases (visit nfkc m view depth views)) [
          | inr (x, failed) ↦
              let same = rw (explore, f, failed) at e in
              record { at = λ vs q. absurd (cc (same, q)) }
          | inl (added, made) ↦
              explore-IsLocated rounds m (queue ++ added) (views ++ view ∷ []) r
                (All-append _ queue added h.1
                  ((visit-IsLocated m view depth views h.0).at added made))
                (All-append _ views (view ∷ []) k (h.0, tt)) (rw (explore, f, made) at e)
        ]
      ]

  pub composed_views-IsLocated :
      (root : ScanView)
      → IsLocatedView source root
      → Ensures (All (IsLocatedView source)) (composed_views nfkc root)
  unfolding composed_views_within
  composed_views-IsLocated root h =
      explore-IsLocated 7 (limit nfkc root) ((root, 0) ∷ []) [] _ (h, tt) tt
        (composed_views_within-composed_views nfkc 7 root (omega arith))
