-- ===== src/Payload/Covers/Keys.antt =====
-- `collect_untracked_strings` of src/payload.rs adds every key as a literal target.
use agent_veil.Payload.Covers.Track.{untracked_values-In, untracked_members-In, untracked-In}
use agent_veil.Payload.Request.{locate}
use agent_veil.Payload.Strings.{
  collect_untracked_strings, collect_untracked_members, collect_untracked_values,
}
use agent_veil.Prelude.{
  ℕ, Text, In, ◌≡◌, ◌∷◌, some, ok, Option-cases, Bool-cases, inl, text_eq, inr, ◌+◌, ◌++◌, [], suc,
  zero, In-append_right, ap, text_eq→eq, refl,
}
use agent_veil.Payload.Value.{Value, get_member, Values, Members, get_value}
use agent_veil.Payload.Target.{PathSegment, Targets, TextTarget, structural_literal, FieldPath}

-- Some target is the literal of the key.
abbrev pub Named : Text → Targets → Type 0
Named k ts = (t : TextTarget) × In t ts × (t.literal ≡ some k)

Named-mono :
    (k : Text) (ts us : Targets) → ((t : TextTarget) → In t ts → In t us) → Named k ts → Named k us
Named-mono k ts us f (t, i, l) = (t, f t i, l)

own_key-Named :
    (ms : Members) (path : FieldPath) (ts : Targets) (k : Text) (x : Value)
    → get_member k ms ≡ some x
    → Named k (collect_untracked_members ms path ts)
unfolding collect_untracked_strings get_member structural_literal
own_key-Named Members.end path ts k x g = absurd (cc g)
own_key-Named (Members.member j v ms) path ts k x g = elim (Bool-cases (text_eq j k)) [
  | inr other ↦ own_key-Named ms path _ k x (rw other at g)
  | inl same ↦
      let us = ts ++ structural_literal j ∷ [] in
      Named-mono k us _
        (λ t i.
          untracked_members-In ms path _ t (untracked-In v (path ++ PathSegment.key j ∷ []) us t i))
        (structural_literal j, In-append_right _ ts _ (inl refl), ap some (text_eq→eq j k same))
]

-- The reads of one segment of a path.
pub at_value :
    (vs : Values) (i : ℕ) (p : FieldPath) (u : Value)
    → locate (Value.array vs) (PathSegment.index i ∷ p) ≡ ok u
    → (v : Value) × (get_value vs i ≡ some v) × (locate v p ≡ ok u)
unfolding locate
at_value vs i p u e = elim (Option-cases (get_value vs i)) [
  | inl missing ↦ absurd (cc (rw (missing, locate) at e))
  | inr (v, found) ↦ (v, found, rw (found, locate) at e)
]

pub at_member :
    (ms : Members) (k : Text) (p : FieldPath) (u : Value)
    → locate (Value.object ms) (PathSegment.key k ∷ p) ≡ ok u
    → (v : Value) × (get_member k ms ≡ some v) × (locate v p ≡ ok u)
unfolding locate
at_member ms k p u e = elim (Option-cases (get_member k ms)) [
  | inl missing ↦ absurd (cc (rw (missing, locate) at e))
  | inr (v, found) ↦ (v, found, rw (found, locate) at e)
]

mutual
  unfolding collect_untracked_strings locate get_value get_member

  pub untracked-Named :
      (v : Value) (path : FieldPath) (ts : Targets) (p : FieldPath) (o : Members) (k : Text)
      (x : Value)
      → get_member k o ≡ some x
      → locate v p ≡ ok (Value.object o)
      → Named k (collect_untracked_strings v path ts)
  untracked-Named (Value.object ms) path ts [] o k x g e =
      own_key-Named ms path ts k x (let same : ms ≡ o = cc e in rw same g)
  untracked-Named (Value.object ms) path ts (PathSegment.key j ∷ p) o k x g e =
      untracked_members-Named ms path ts j p o k x g (at_member ms j p (Value.object o) e)
  untracked-Named (Value.object ms) path ts (PathSegment.index i ∷ p) o k x g e = absurd (cc e)
  untracked-Named (Value.array vs) path ts (PathSegment.index i ∷ p) o k x g e =
      untracked_values-Named vs 0 path ts i p o k x g (at_value vs i p (Value.object o) e)
  untracked-Named (Value.array vs) path ts [] o k x g e = absurd (cc e)
  untracked-Named (Value.array vs) path ts (PathSegment.key j ∷ p) o k x g e = absurd (cc e)
  untracked-Named Value.null path ts [] o k x g e = absurd (cc e)
  untracked-Named Value.null path ts (PathSegment.key j ∷ p) o k x g e = absurd (cc e)
  untracked-Named Value.null path ts (PathSegment.index i ∷ p) o k x g e = absurd (cc e)
  untracked-Named (Value.boolean b) path ts [] o k x g e = absurd (cc e)
  untracked-Named (Value.boolean b) path ts (PathSegment.key j ∷ p) o k x g e = absurd (cc e)
  untracked-Named (Value.boolean b) path ts (PathSegment.index i ∷ p) o k x g e = absurd (cc e)
  untracked-Named (Value.number n) path ts [] o k x g e = absurd (cc e)
  untracked-Named (Value.number n) path ts (PathSegment.key j ∷ p) o k x g e = absurd (cc e)
  untracked-Named (Value.number n) path ts (PathSegment.index i ∷ p) o k x g e = absurd (cc e)
  untracked-Named (Value.string s) path ts [] o k x g e = absurd (cc e)
  untracked-Named (Value.string s) path ts (PathSegment.key j ∷ p) o k x g e = absurd (cc e)
  untracked-Named (Value.string s) path ts (PathSegment.index i ∷ p) o k x g e = absurd (cc e)

  untracked_values-Named :
      (vs : Values) (j : ℕ) (path : FieldPath) (ts : Targets) (i : ℕ) (p : FieldPath) (o : Members)
      (k : Text) (x : Value)
      → get_member k o ≡ some x
      → (v : Value) × (get_value vs i ≡ some v) × (locate v p ≡ ok (Value.object o))
      → Named k (collect_untracked_values vs j path ts)
  untracked_values-Named Values.nil j path ts i p o k x g (w, f, e) = absurd (cc f)
  untracked_values-Named (Values.cons v vs) j path ts zero p o k x g (w, f, e) =
      let here : v ≡ w = cc f in
      Named-mono k _ _ (untracked_values-In vs (j + 1) path _)
        (untracked-Named v (path ++ PathSegment.index j ∷ []) ts p o k x g (rw here e))
  untracked_values-Named (Values.cons v vs) j path ts (suc i) p o k x g (w, f, e) =
      untracked_values-Named vs (j + 1) path _ i p o k x g (w, f, e)

  untracked_members-Named :
      (ms : Members) (path : FieldPath) (ts : Targets) (j : Text) (p : FieldPath) (o : Members)
      (k : Text) (x : Value)
      → get_member k o ≡ some x
      → (v : Value) × (get_member j ms ≡ some v) × (locate v p ≡ ok (Value.object o))
      → Named k (collect_untracked_members ms path ts)
  untracked_members-Named Members.end path ts j p o k x g (w, f, e) = absurd (cc f)
  untracked_members-Named (Members.member l v ms) path ts j p o k x g (w, f, e) =
      elim (Bool-cases (text_eq l j)) [
        | inr other ↦ untracked_members-Named ms path _ j p o k x g (w, rw other at f, e)
        | inl same ↦
            let here : some v ≡ some w = rw same at f in
            let it : v ≡ w = cc here in
            Named-mono k _ _ (untracked_members-In ms path _)
              (untracked-Named v (path ++ PathSegment.key l ∷ []) _ p o k x g (rw it e))
      ]
