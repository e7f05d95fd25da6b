-- ===== src/Payload/Covers/Track.antt =====
-- What `track` and `collect_untracked_strings` of src/payload.rs keep of the targets so far.
use agent_veil.Payload.Strings.{
  track, collect_untracked_strings, collect_untracked_values, collect_untracked_members,
}
use agent_veil.Prelude.{
  ℕ, ◌≡◌, Text, ◌++◌, true, In, none, All, ◌∷◌, ap, Bool-cases, ◌⊎◌, [], text_eq→eq, ap₂, any,
  All-append, inl, ==_iff, arith, inr, ◌+◌, refl, In-append_left,
}
use agent_veil.Payload.Value.{Value, Values, Members}
use agent_veil.Payload.Target.{
  PathSegment, segment_eq, path_eq, TextTarget, structural_literal, FieldPath, Targets, new_target,
}

segment_eq→eq : (a b : PathSegment) → segment_eq a b ≡ true → a ≡ b
unfolding segment_eq
segment_eq→eq (PathSegment.key a) (PathSegment.key b) h = ap PathSegment.key (text_eq→eq a b h)
segment_eq→eq (PathSegment.index i) (PathSegment.index j) h =
    ap PathSegment.index ((==_iff i j).0 h)
segment_eq→eq (PathSegment.key a) (PathSegment.index j) h = cc
segment_eq→eq (PathSegment.index i) (PathSegment.key b) h = cc

pub path_eq→eq : (p q : FieldPath) → path_eq p q ≡ true → p ≡ q
unfolding path_eq
path_eq→eq [] [] h = refl
path_eq→eq (a ∷ p) (b ∷ q) h =
    ap₂ ◌∷◌ (segment_eq→eq a b (ground arith)) (path_eq→eq p q (ground arith))
path_eq→eq [] (b ∷ q) h = cc
path_eq→eq (a ∷ p) [] h = cc

pub track-In : (t : TextTarget) (path : FieldPath) (ts : Targets) → In t ts → In t (track path ts)
unfolding track
track-In t path ts i = elim (Bool-cases (any (λ u. path_eq u.path path) ts)) [
  | inl known ↦ rw known i
  | inr new ↦ rw new (In-append_left t ts _ i)
]

-- The walk drops no target.
mutual
  unfolding collect_untracked_strings

  pub untracked-In :
      (v : Value) (path : FieldPath) (ts : Targets) (t : TextTarget)
      → In t ts
      → In t (collect_untracked_strings v path ts)
  untracked-In Value.null path ts t i = i
  untracked-In (Value.boolean b) path ts t i = i
  untracked-In (Value.number n) path ts t i = i
  untracked-In (Value.string s) path ts t i = track-In t path ts i
  untracked-In (Value.array vs) path ts t i = untracked_values-In vs 0 path ts t i
  untracked-In (Value.object ms) path ts t i = untracked_members-In ms path ts t i

  pub untracked_values-In :
      (vs : Values) (j : ℕ) (path : FieldPath) (ts : Targets) (t : TextTarget)
      → In t ts
      → In t (collect_untracked_values vs j path ts)
  untracked_values-In Values.nil j path ts t i = i
  untracked_values-In (Values.cons v vs) j path ts t i =
      untracked_values-In vs (j + 1) path _ t
        (untracked-In v (path ++ PathSegment.index j ∷ []) ts t i)

  pub untracked_members-In :
      (ms : Members) (path : FieldPath) (ts : Targets) (t : TextTarget)
      → In t ts
      → In t (collect_untracked_members ms path ts)
  untracked_members-In Members.end path ts t i = i
  untracked_members-In (Members.member k v ms) path ts t i =
      untracked_members-In ms path _ t
        (untracked-In v (path ++ PathSegment.key k ∷ []) _ t (In-append_left t ts _ i))

-- A target that is not the literal of a key stands at its path.
abbrev pub IsPlaced : TextTarget → Type 0
IsPlaced t = (t.literal ≡ none) ⊎ (t.path ≡ [])

pub track-IsPlaced :
    (path : FieldPath) (ts : Targets) → All IsPlaced ts → All IsPlaced (track path ts)
unfolding track new_target
track-IsPlaced path ts h = elim (Bool-cases (any (λ u. path_eq u.path path) ts)) [
  | inl known ↦ rw known h
  | inr new ↦ rw new (All-append IsPlaced ts _ h (inl refl, tt))
]

pub literal-IsPlaced :
    (k : Text) (ts : Targets) → All IsPlaced ts → All IsPlaced (ts ++ structural_literal k ∷ [])
unfolding structural_literal
literal-IsPlaced k ts h = All-append IsPlaced ts _ h (inr refl, tt)

mutual
  unfolding collect_untracked_strings

  pub untracked-IsPlaced :
      (v : Value) (path : FieldPath) (ts : Targets)
      → All IsPlaced ts
      → All IsPlaced (collect_untracked_strings v path ts)
  untracked-IsPlaced Value.null path ts h = h
  untracked-IsPlaced (Value.boolean b) path ts h = h
  untracked-IsPlaced (Value.number n) path ts h = h
  untracked-IsPlaced (Value.string s) path ts h = track-IsPlaced path ts h
  untracked-IsPlaced (Value.array vs) path ts h = untracked_values-IsPlaced vs 0 path ts h
  untracked-IsPlaced (Value.object ms) path ts h = untracked_members-IsPlaced ms path ts h

  pub untracked_values-IsPlaced :
      (vs : Values) (j : ℕ) (path : FieldPath) (ts : Targets)
      → All IsPlaced ts
      → All IsPlaced (collect_untracked_values vs j path ts)
  untracked_values-IsPlaced Values.nil j path ts h = h
  untracked_values-IsPlaced (Values.cons v vs) j path ts h =
      untracked_values-IsPlaced vs (j + 1) path _
        (untracked-IsPlaced v (path ++ PathSegment.index j ∷ []) ts h)

  pub untracked_members-IsPlaced :
      (ms : Members) (path : FieldPath) (ts : Targets)
      → All IsPlaced ts
      → All IsPlaced (collect_untracked_members ms path ts)
  untracked_members-IsPlaced Members.end path ts h = h
  untracked_members-IsPlaced (Members.member k v ms) path ts h =
      untracked_members-IsPlaced ms path _
        (untracked-IsPlaced v (path ++ PathSegment.key k ∷ []) _ (literal-IsPlaced k ts h))

-- Some target stands at the path, and its text is the string that is found there.
