-- ===== src/Payload/Lens.antt =====
-- `locate` and the write through `locate_mut` of src/payload.rs.
use agent_veil.Payload.Request.{locate, write}
use agent_veil.Prelude.{
  ℕ, Text, ◌≡◌, ◌≢◌, some, arith, ok, text_eq_iff, suc, Option-cases, refl, zero, inl, ap, inr, ◌∷◌,
  [], subst, Bool-cases, text_eq, text_eq→eq, ap₂, ◌∙◌,
}
use agent_veil.Payload.Value.{Value, get_member, get_value, set_member, set_value, Values, Members}
use native.Mathlib.Decide.{ℕ_discrete}
use agent_veil.Payload.Covers.Keys.{at_value, at_member}
use agent_veil.Payload.Target.{PathSegment, FieldPath}

pub get_member-set_self :
    (k : Text) (x v : Value) (ms : Members)
    → get_member k ms ≡ some v
    → get_member k (set_member k x ms) ≡ some x
unfolding get_member set_member
get_member-set_self k x v Members.end h = cc h
get_member-set_self k x v (Members.member j w ms) h = ground (arith, get_member-set_self k x v ms)

pub get_member-set_ne :
    (k j : Text) (x : Value) (ms : Members)
    → k ≢ j
    → get_member j (set_member k x ms) ≡ get_member j ms
unfolding get_member set_member
get_member-set_ne k j x Members.end h = refl
get_member-set_ne k j x (Members.member i w ms) h =
    ground (arith, get_member-set_ne k j x ms, text_eq_iff i k, text_eq_iff i j)

get_value-set_self :
    (vs : Values) (i : ℕ) (x v : Value)
    → get_value vs i ≡ some v
    → get_value (set_value vs i x) i ≡ some x
unfolding get_value set_value
get_value-set_self Values.nil i x v h = cc h
get_value-set_self (Values.cons w vs) zero x v h = refl
get_value-set_self (Values.cons w vs) (suc i) x v h = get_value-set_self vs i x v h

get_value-set_ne :
    (vs : Values) (i j : ℕ) (x : Value) → i ≢ j → get_value (set_value vs i x) j ≡ get_value vs j
unfolding get_value set_value
get_value-set_ne Values.nil i j x h = refl
get_value-set_ne (Values.cons w vs) zero zero x h = absurd (h refl)
get_value-set_ne (Values.cons w vs) zero (suc j) x h = refl
get_value-set_ne (Values.cons w vs) (suc i) zero x h = refl
get_value-set_ne (Values.cons w vs) (suc i) (suc j) x h =
    get_value-set_ne vs i j x (λ e. h (ap suc e))

-- What was written is found.
pub locate-write_self :
    (root : Value) (p : FieldPath) (x v : Value)
    → locate root p ≡ ok v
    → locate (write root p x) p ≡ ok x
unfolding locate write
locate-write_self root [] x v h = refl
locate-write_self (Value.object ms) (PathSegment.key k ∷ p) x v h =
    elim (Option-cases (get_member k ms)) [
      | inl missing ↦ absurd (cc (rw (missing, locate) at h))
      | inr (w, found) ↦
          rw (found, write, get_member-set_self k (write w p x) w ms found, locate)
            (locate-write_self w p x v (rw (found, locate) at h))
    ]
locate-write_self (Value.array vs) (PathSegment.index i ∷ p) x v h =
    elim (Option-cases (get_value vs i)) [
      | inl missing ↦ absurd (cc (rw (missing, locate) at h))
      | inr (w, found) ↦
          rw (found, write, get_value-set_self vs i (write w p x) w found, locate)
            (locate-write_self w p x v (rw (found, locate) at h))
    ]
locate-write_self (Value.object ms) (PathSegment.index i ∷ p) x v h = cc h
locate-write_self (Value.array vs) (PathSegment.key k ∷ p) x v h = cc h
locate-write_self Value.null (s ∷ p) x v h = cc h
locate-write_self (Value.boolean b) (s ∷ p) x v h = cc h
locate-write_self (Value.number n) (s ∷ p) x v h = cc h
locate-write_self (Value.string t) (s ∷ p) x v h = cc h

-- A string has no parts.
string_part :
    (root : Value) (t u : Text) (s : PathSegment) (q : FieldPath)
    → root ≡ Value.string t
    → locate root (s ∷ q) ≢ ok (Value.string u)
unfolding locate
string_part root t u (PathSegment.key k) q e h =
    cc (subst (λ v. locate v (PathSegment.key k ∷ q) ≡ ok (Value.string u)) e h)
string_part root t u (PathSegment.index i) q e h =
    cc (subst (λ v. locate v (PathSegment.index i ∷ q) ≡ ok (Value.string u)) e h)

root_string :
    (root : Value) (t : Text) → locate root [] ≡ ok (Value.string t) → root ≡ Value.string t
unfolding locate
root_string root t h = cc h

pub member_at :
    (ms : Members) (k : Text) (p : FieldPath) (v u : Value)
    → get_member k ms ≡ some v
    → locate v p ≡ ok u
    → locate (Value.object ms) (PathSegment.key k ∷ p) ≡ ok u
unfolding locate
member_at ms k p v u g h = rw (g, locate) h

pub value_at :
    (vs : Values) (i : ℕ) (p : FieldPath) (v u : Value)
    → get_value vs i ≡ some v
    → locate v p ≡ ok u
    → locate (Value.array vs) (PathSegment.index i ∷ p) ≡ ok u
unfolding locate
value_at vs i p v u g h = rw (g, locate) h

-- A string elsewhere is found as before.
pub locate-write_ne :
    (root : Value) (p q : FieldPath) (x : Value) (s u : Text)
    → p ≢ q
    → locate root p ≡ ok (Value.string s)
    → locate root q ≡ ok (Value.string u)
    → locate (write root p x) q ≡ ok (Value.string u)
unfolding write
locate-write_ne root [] [] x s u ne hp hq = absurd (ne refl)
locate-write_ne root [] (g ∷ q) x s u ne hp hq =
    absurd (string_part root s u g q (root_string root s hp) hq)
locate-write_ne root (g ∷ p) [] x s u ne hp hq =
    absurd (string_part root u s g p (root_string root u hq) hp)
locate-write_ne (Value.object ms) (PathSegment.key k ∷ p) (PathSegment.key j ∷ q) x s u ne hp hq =
    let (w, found, hp') = at_member ms k p (Value.string s) hp in
    let (w', found', hq') = at_member ms j q (Value.string u) hq in
    elim (Bool-cases (text_eq k j)) [
      | inl t ↦
          let same : k ≡ j = text_eq→eq k j t in
          let it : w ≡ w' = cc (found, found', same) in
          let apart : p ≢ q = λ e. ne (ap₂ ◌∷◌ (ap PathSegment.key same) e) in
          rw (found, write, ← same)
            (member_at (set_member k (write w p x) ms) k q (write w p x) (Value.string u)
              (get_member-set_self k (write w p x) w ms found)
              (locate-write_ne w p q x s u apart hp' (rw it hq')))
      | inr f ↦
          let other : k ≢ j = λ e. cc (f, (text_eq_iff k j).1 e) in
          rw (found, write)
            (member_at (set_member k (write w p x) ms) j q w' (Value.string u)
              (get_member-set_ne k j (write w p x) ms other ∙ found') hq')
    ]
locate-write_ne (Value.array vs) (PathSegment.index i ∷ p) (PathSegment.index j ∷ q) x s u ne hp
      hq =
    let (w, found, hp') = at_value vs i p (Value.string s) hp in
    let (w', found', hq') = at_value vs j q (Value.string u) hq in
    elim (ℕ_discrete i j) [
      | yes same ↦
          let it : w ≡ w' = cc (found, found', same) in
          let apart : p ≢ q = λ e. ne (ap₂ ◌∷◌ (ap PathSegment.index same) e) in
          rw (found, write, ← same)
            (value_at (set_value vs i (write w p x)) i q (write w p x) (Value.string u)
              (get_value-set_self vs i (write w p x) w found)
              (locate-write_ne w p q x s u apart hp' (rw it hq')))
      | no other ↦
          rw (found, write)
            (value_at (set_value vs i (write w p x)) j q w' (Value.string u)
              (get_value-set_ne vs i j (write w p x) other ∙ found') hq')
    ]
locate-write_ne (Value.object ms) (PathSegment.key k ∷ p) (PathSegment.index j ∷ q) x s u ne hp hq =
    absurd (unfold locate in cc hq)
locate-write_ne (Value.object ms) (PathSegment.index i ∷ p) (g ∷ q) x s u ne hp hq =
    absurd (unfold locate in cc hp)
locate-write_ne (Value.array vs) (PathSegment.key k ∷ p) (g ∷ q) x s u ne hp hq =
    absurd (unfold locate in cc hp)
locate-write_ne (Value.array vs) (PathSegment.index i ∷ p) (PathSegment.key j ∷ q) x s u ne hp hq =
    absurd (unfold locate in cc hq)
locate-write_ne Value.null (f ∷ p) (g ∷ q) x s u ne hp hq = absurd (unfold locate in cc hp)
locate-write_ne (Value.boolean b) (f ∷ p) (g ∷ q) x s u ne hp hq = absurd (unfold locate in cc hp)
locate-write_ne (Value.number n) (f ∷ p) (g ∷ q) x s u ne hp hq = absurd (unfold locate in cc hp)
locate-write_ne (Value.string t) (f ∷ p) (g ∷ q) x s u ne hp hq = absurd (unfold locate in cc hp)
