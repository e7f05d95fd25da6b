-- ===== src/Ledger/Entries/Recency.antt =====
-- The least recently used entry of the map of src/ledger.rs.
use agent_veil.Prelude.{
  ℕ, ◌≤◌, ◌≡◌, Text, some, [], ◌∷◌, All, In, inl, inr, arith, ltb, if◌then◌else◌, refl, Bool, subst,
  true, false, none, length,
}
use agent_veil.Ledger.Entries.{Entry, EntryMap, min_from, min_by_last_used}

abbrev pub last_used : Text × Entry → ℕ
last_used x = x.1.last_used_sequence

min_from-le : (b : Text × Entry) (m : EntryMap) → last_used (min_from b m) ≤ last_used b
unfolding min_from
min_from-le b [] = omega arith
min_from-le b (x ∷ m) =
    ground (arith, min_from-le (if ltb (last_used x) (last_used b) then x else b) m)

min_from-All :
    (b : Text × Entry) (m : EntryMap) → All (λ y. last_used (min_from b m) ≤ last_used y) m
unfolding min_from
min_from-All b [] = tt
min_from-All b (x ∷ m) =
    let best : Text × Entry = if ltb (last_used x) (last_used b) then x else b in
    (ground (arith, min_from-le best m), min_from-All best m)

In-skip : (a b x : Text × Entry) (m : EntryMap) → In a (b ∷ m) → In a (b ∷ x ∷ m)
In-skip a b x m (inl e) = inl e
In-skip a b x m (inr i) = inr (inr i)

min_from-In : (b : Text × Entry) (m : EntryMap) → In (min_from b m) (b ∷ m)
unfolding min_from
min_from-In b [] = inl refl
min_from-In b (x ∷ m) = either (ltb (last_used x) (last_used b)) (min_from-In x m) (min_from-In b m)
  where
    either :
        (t : Bool)
        → In (min_from x m) (x ∷ m)
        → In (min_from b m) (b ∷ m)
        → In (min_from (if t then x else b) m) (b ∷ x ∷ m)
    either true i j = inr i
    either false i j = In-skip (min_from b m) b x m j

-- The victim stands in the map, and no entry was used before it.
pub min_by_last_used_lem :
    (m : EntryMap) (v : Text × Entry)
    → min_by_last_used m ≡ some v
    → In v m × All (λ y. last_used v ≤ last_used y) m
unfolding min_by_last_used
min_by_last_used_lem [] v h = absurd (ground arith)
min_by_last_used_lem (x ∷ m) v h =
    let e : min_from x m ≡ v = ground arith in
    (
      subst (λ w. In w (x ∷ m)) e (min_from-In x m),
      subst (λ w. All (λ y. last_used w ≤ last_used y) (x ∷ m)) e
          (min_from-le x m, min_from-All x m),
    )

pub min_by_last_used_some : (m : EntryMap) → min_by_last_used m ≡ none → length m ≡ 0
unfolding min_by_last_used
min_by_last_used_some [] h = refl
min_by_last_used_some (x ∷ m) h = absurd (ground arith)
