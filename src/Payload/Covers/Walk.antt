-- ===== src/Payload/Covers/Walk.antt =====
-- `collect_untracked_strings` of src/payload.rs reaches every string of a value.
use agent_veil.Domain.{FieldClass}
use agent_veil.Payload.Request.{locate}
use agent_veil.Payload.Strings.{
  track, collect_untracked_strings, collect_untracked_values, collect_untracked_members,
}
use agent_veil.Prelude.{
  ℕ, ◌≡◌, Text, ◌++◌, In, none, All, ◌≢◌, ◌∷◌, Bool-cases, [], any, inl, ok, arith, inr, ◌+◌, some,
  refl, sym, suc, ◌∙◌, In-append_right, any-In, All-In, append_assoc, Option-cases, subst,
  append-nil, text_eq, text_eq_iff, zero,
}
use agent_veil.Payload.Value.{Value, get_value, Values, get_member, Members}
use agent_veil.Payload.Target.{
  PathSegment, path_eq, TextTarget, structural_literal, FieldPath, Targets, new_target, RewriteMode,
}
use agent_veil.Payload.Covers.Track.{
  IsPlaced, path_eq→eq, untracked_values-In, untracked_members-In, literal-IsPlaced,
  untracked-IsPlaced,
}

abbrev pub Covered : FieldPath → Targets → Type 0
Covered p ts = (t : TextTarget) × In t ts × (t.path ≡ p) × (t.literal ≡ none)

track-Covered :
    (path : FieldPath) (ts : Targets) → path ≢ [] → All IsPlaced ts → Covered path (track path ts)
unfolding track new_target
track-Covered path ts ne h = elim (Bool-cases (any (λ u. path_eq u.path path) ts)) [
  | inr new ↦ rw new (
    new_target path FieldClass.structural_metadata RewriteMode.block_only,
    In-append_right _ ts _ (inl refl),
    refl,
    refl,
  )
  | inl known ↦
      let (t, i, same) = any-In (λ u. path_eq u.path path) ts known in
      let at : t.path ≡ path = path_eq→eq t.path path same in
      rw known (t, i, at, placed t at (All-In IsPlaced t ts h i))
]
  where
    placed : (t : TextTarget) → t.path ≡ path → IsPlaced t → t.literal ≡ none
    placed t at (inl l) = l
    placed t at (inr e) = absurd (ne (sym at ∙ e))

Covered-mono :
    (p : FieldPath) (ts us : Targets)
    → ((t : TextTarget) → In t ts → In t us)
    → Covered p ts
    → Covered p us
Covered-mono p ts us f (t, i, at, l) = (t, f t i, at, l)

snoc_ne_nil : (p q : FieldPath) (s : PathSegment) → (p ++ s ∷ q) ≢ []
snoc_ne_nil [] q s e = cc
snoc_ne_nil (a ∷ p) q s e = cc

snoc_append : (p q : FieldPath) (s : PathSegment) → (p ++ s ∷ []) ++ q ≡ p ++ s ∷ q
snoc_append p q s = append_assoc p (s ∷ []) q

located_value :
    (vs : Values) (i : ℕ) (p : FieldPath) (s : Text)
    → locate (Value.array vs) (PathSegment.index i ∷ p) ≡ ok (Value.string s)
    → (v : Value) × (get_value vs i ≡ some v) × (locate v p ≡ ok (Value.string s))
unfolding locate
located_value vs i p s e = elim (Option-cases (get_value vs i)) [
  | inl missing ↦ absurd (cc (rw (missing, locate) at e))
  | inr (v, found) ↦ (v, found, rw (found, locate) at e)
]

located_member :
    (ms : Members) (k : Text) (p : FieldPath) (s : Text)
    → locate (Value.object ms) (PathSegment.key k ∷ p) ≡ ok (Value.string s)
    → (v : Value) × (get_member k ms ≡ some v) × (locate v p ≡ ok (Value.string s))
unfolding locate
located_member ms k p s e = elim (Option-cases (get_member k ms)) [
  | inl missing ↦ absurd (cc (rw (missing, locate) at e))
  | inr (v, found) ↦ (v, found, rw (found, locate) at e)
]

mutual
  unfolding collect_untracked_strings locate get_value get_member

  pub untracked-Covered :
      (v : Value) (path : FieldPath) (ts : Targets) (p : FieldPath) (s : Text)
      → All IsPlaced ts
      → (path ++ p) ≢ []
      → locate v p ≡ ok (Value.string s)
      → Covered (path ++ p) (collect_untracked_strings v path ts)
  untracked-Covered (Value.string u) path ts [] s h ne e =
      subst (λ q. Covered q (track path ts)) (sym (append-nil path))
        (track-Covered path ts (λ z. ne (append-nil path ∙ z)) h)
  untracked-Covered (Value.string u) path ts (PathSegment.key k ∷ p) s h ne e = cc
  untracked-Covered (Value.string u) path ts (PathSegment.index i ∷ p) s h ne e = cc
  untracked-Covered Value.null path ts [] s h ne e = cc
  untracked-Covered Value.null path ts (PathSegment.key k ∷ p) s h ne e = cc
  untracked-Covered Value.null path ts (PathSegment.index i ∷ p) s h ne e = cc
  untracked-Covered (Value.boolean b) path ts [] s h ne e = cc
  untracked-Covered (Value.boolean b) path ts (PathSegment.key k ∷ p) s h ne e = cc
  untracked-Covered (Value.boolean b) path ts (PathSegment.index i ∷ p) s h ne e = cc
  untracked-Covered (Value.number n) path ts [] s h ne e = cc
  untracked-Covered (Value.number n) path ts (PathSegment.key k ∷ p) s h ne e = cc
  untracked-Covered (Value.number n) path ts (PathSegment.index i ∷ p) s h ne e = cc
  untracked-Covered (Value.array vs) path ts [] s h ne e = cc
  untracked-Covered (Value.array vs) path ts (PathSegment.key k ∷ p) s h ne e = cc
  untracked-Covered (Value.array vs) path ts (PathSegment.index i ∷ p) s h ne e =
      untracked_values-Covered vs 0 path ts i i p s h (omega arith) (located_value vs i p s e)
  untracked-Covered (Value.object ms) path ts [] s h ne e = cc
  untracked-Covered (Value.object ms) path ts (PathSegment.index i ∷ p) s h ne e = cc
  untracked-Covered (Value.object ms) path ts (PathSegment.key k ∷ p) s h ne e =
      untracked_members-Covered ms path ts k p s h (located_member ms k p s e)

  untracked_values-Covered :
      (vs : Values) (j : ℕ) (path : FieldPath) (ts : Targets) (i n : ℕ) (p : FieldPath) (s : Text)
      → All IsPlaced ts
      → n ≡ j + i
      → (v : Value) × (get_value vs i ≡ some v) × (locate v p ≡ ok (Value.string s))
      → Covered (path ++ PathSegment.index n ∷ p) (collect_untracked_values vs j path ts)
  untracked_values-Covered Values.nil j path ts i n p s h q (v, g, e) = absurd (cc g)
  untracked_values-Covered (Values.cons v vs) j path ts zero n p s h q (w, g, e) =
      let here : v ≡ w = cc g in
      let at : n ≡ j = omega arith in
      let deep : Covered ((path ++ PathSegment.index j ∷ []) ++ p)
          (collect_untracked_strings v (path ++ PathSegment.index j ∷ []) ts) =
        untracked-Covered v (path ++ PathSegment.index j ∷ []) ts p s h
          (λ z.
            snoc_ne_nil path p (PathSegment.index j)
              (sym (snoc_append path p (PathSegment.index j)) ∙ z))
          (rw here e) in
      rw (at, ← snoc_append path p (PathSegment.index j))
        (Covered-mono _ _ _ (untracked_values-In vs (j + 1) path _) deep)
  untracked_values-Covered (Values.cons v vs) j path ts (suc i) n p s h q (w, g, e) =
      untracked_values-Covered vs (j + 1) path _ i n p s
        (untracked-IsPlaced v (path ++ PathSegment.index j ∷ []) ts h) (omega arith) (w, g, e)

  untracked_members-Covered :
      (ms : Members) (path : FieldPath) (ts : Targets) (k : Text) (p : FieldPath) (s : Text)
      → All IsPlaced ts
      → (v : Value) × (get_member k ms ≡ some v) × (locate v p ≡ ok (Value.string s))
      → Covered (path ++ PathSegment.key k ∷ p) (collect_untracked_members ms path ts)
  untracked_members-Covered Members.end path ts k p s h (v, g, e) = absurd (cc g)
  untracked_members-Covered (Members.member j v ms) path ts k p s h (w, g, e) =
      let us = ts ++ structural_literal j ∷ [] in
      let hu = literal-IsPlaced j ts h in
      elim (Bool-cases (text_eq j k)) [
        | inr other ↦
            untracked_members-Covered ms path _ k p s
              (untracked-IsPlaced v (path ++ PathSegment.key j ∷ []) us hu) (w, rw other at g, e)
        | inl same ↦
            let here : some v ≡ some w = rw same at g in
            let key : j ≡ k = (text_eq_iff j k).0 same in
            let it : v ≡ w = cc here in
            rw (← key, ← snoc_append path p (PathSegment.key j))
              (Covered-mono _ _ _ (untracked_members-In ms path _) (
                untracked-Covered v (path ++ PathSegment.key j ∷ []) us p s hu
                  (λ z.
                    snoc_ne_nil path p (PathSegment.key j)
                      (sym (snoc_append path p (PathSegment.key j)) ∙ z))
                  (rw it e)))
      ]
