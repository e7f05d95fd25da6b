-- ===== src/Sse/Keeps.antt =====
-- What a restoration of src/sse.rs leaves alone, for the loops and the field writes it is made of.
use agent_veil.Sse.Event.{get_field, set_field, each_item, restore_items, restore_field, SseError}
use agent_veil.Payload.Lens.{get_member-set_self, get_member-set_ne, member_at, value_at}
use agent_veil.Payload.Covers.Keys.{at_member, at_value}
use agent_veil.Payload.Request.{locate}
use agent_veil.Payload.Target.{FieldPath, PathSegment}
use agent_veil.Payload.Value.{Value, Values, get_value, set_member, as_array, as_str}
use agent_veil.Prelude.{
  Run, and_then-inversion, ℕ, Text, ◌≡◌, inl, inr, [], ◌∷◌, ok, refl, some, Bool-cases, text_eq,
  text_eq→eq, text_eq_iff, sym, ap, ◌∙◌, subst, Option-cases, suc, zero,
}

-- Which places of a value are meant: a predicate on the value and a path in it.
abbrev pub Places : Type 1
Places = Value → FieldPath → Type 0

-- Every string of the first value that is not at such a place of it stays where it is.
abbrev pub Keeps : Places → Value → Value → Type 0
Keeps P v v' =
    (path : FieldPath) (u : Text)
    → ¬ P v path
    → locate v path ≡ ok (Value.string u)
    → locate v' path ≡ ok (Value.string u)

-- The places of the value behind a key, and of the items of an array.
abbrev pub Under : Text → Places → Places
Under k P v path =
    (q : FieldPath) × (x : Value) × (path ≡ PathSegment.key k ∷ q)
    × (get_field k v ≡ some x)
    × P x q

abbrev pub Each : Places → Places
Each P v path =
    (i : ℕ) × (q : FieldPath) × (vs : Values) × (x : Value) × (path ≡ PathSegment.index i ∷ q)
    × (v ≡ Value.array vs)
    × (get_value vs i ≡ some x)
    × P x q

abbrev pub IsRoot : Places
IsRoot v path = path ≡ []

pub Keeps-self : (P : Places) (v : Value) → Keeps P v v
Keeps-self P v path u out at = at

pub Keeps-imp :
    (P Q : Places) (v v' : Value)
    → ((path : FieldPath) → P v path → Q v path)
    → Keeps P v v'
    → Keeps Q v v'
Keeps-imp P Q v v' f keeps path u out at = keeps path u (λ p. out (f path p)) at

pub set_field-Keeps :
    (P : Places) (k : Text) (x x' v : Value)
    → get_field k v ≡ some x
    → Keeps P x x'
    → Keeps (Under k P) v (set_field k x' v)
unfolding get_field set_field
set_field-Keeps P k x x' (Value.object ms) found keeps [] u out at = absurd (unfold locate in cc at)
set_field-Keeps P k x x' (Value.object ms) found keeps (PathSegment.index i ∷ q) u out at =
    absurd (unfold locate in cc at)
set_field-Keeps P k x x' (Value.object ms) found keeps (PathSegment.key j ∷ q) u out at =
    let (w, found', at') = at_member ms j q (Value.string u) at in
    elim (Bool-cases (text_eq k j)) [
      | inl t ↦
          let same : k ≡ j = text_eq→eq k j t in
          let it : w ≡ x = cc (found, found', same) in
          member_at (set_member k x' ms) j q x' (Value.string u)
            (rw (← same) (get_member-set_self k x' x ms found))
            (keeps q u (λ p. out (q, x, ap (λ z. PathSegment.key z ∷ q) (sym same), found, p))
              (rw it at at'))
      | inr f ↦
          member_at (set_member k x' ms) j q w (Value.string u)
            (get_member-set_ne k j x' ms (λ e. cc (f, (text_eq_iff k j).1 e)) ∙ found') at'
    ]
set_field-Keeps P k x x' Value.null found keeps path u out at = absurd (cc found)
set_field-Keeps P k x x' (Value.boolean b) found keeps path u out at = absurd (cc found)
set_field-Keeps P k x x' (Value.number n) found keeps path u out at = absurd (cc found)
set_field-Keeps P k x x' (Value.string t) found keeps path u out at = absurd (cc found)
set_field-Keeps P k x x' (Value.array vs) found keeps path u out at = absurd (cc found)

-- A restoration that succeeds keeps all strings but those at the places of the predicate.
abbrev pub Restores : {S : Type 0} → Places → (Value → S → Run SseError S Value) → Type 0
Restores {S} P body = (v v' : Value) (s s' : S) → body v s ≡ (ok v', s') → Keeps P v v'

as_array-array : (v : Value) (vs : Values) → as_array v ≡ some vs → v ≡ Value.array vs
as_array-array (Value.array vs) us h = cc h
as_array-array Value.null us h = absurd (cc h)
as_array-array (Value.boolean b) us h = absurd (cc h)
as_array-array (Value.number n) us h = absurd (cc h)
as_array-array (Value.string t) us h = absurd (cc h)
as_array-array (Value.object ms) us h = absurd (cc h)

pub as_str-string : (v : Value) (t : Text) → as_str v ≡ some t → v ≡ Value.string t
as_str-string (Value.string t) u h = cc h
as_str-string Value.null u h = absurd (cc h)
as_str-string (Value.boolean b) u h = absurd (cc h)
as_str-string (Value.number n) u h = absurd (cc h)
as_str-string (Value.array vs) u h = absurd (cc h)
as_str-string (Value.object ms) u h = absurd (cc h)

pub string-Keeps : (t u : Text) → Keeps IsRoot (Value.string t) (Value.string u)
string-Keeps t u [] w out at = absurd (out refl)
string-Keeps t u (PathSegment.key k ∷ q) w out at = absurd (unfold locate in cc at)
string-Keeps t u (PathSegment.index i ∷ q) w out at = absurd (unfold locate in cc at)

module _ {S : Type 0} (P : Places) (body : Value → S → Run SseError S Value)
    (keeps : Restores P body) where
  each_item-Keeps :
      (vs vs' : Values) (s s' : S)
      → each_item body vs s ≡ (ok vs', s')
      → (i : ℕ) (x : Value) → get_value vs i ≡ some x
      → (x' : Value) × (get_value vs' i ≡ some x') × Keeps P x x'
  unfolding each_item get_value
  each_item-Keeps Values.nil vs' s s' h i x found = absurd (cc found)
  each_item-Keeps (Values.cons v vs) vs' s s' h i x found =
      let (v', t, first, h') = and_then-inversion (body v s) _ vs' s' h in
      let (ws, t', others, h'') = and_then-inversion (each_item body vs t) _ vs' s' h' in
      let made : Values.cons v' ws ≡ vs' = cc h'' in
      subst (λ us. (x' : Value) × (get_value us i ≡ some x') × Keeps P x x') made
        (item v' ws i found (keeps v v' s t first) (each_item-Keeps vs ws t t' others))
    where
      item :
          (v' : Value) (ws : Values) (j : ℕ)
          → get_value (Values.cons v vs) j ≡ some x
          → Keeps P v v'
          → ((k : ℕ) (y : Value)
              → get_value vs k ≡ some y
              → (x' : Value) × (get_value ws k ≡ some x') × Keeps P y x')
          → (x' : Value) × (get_value (Values.cons v' ws) j ≡ some x') × Keeps P x x'
      item v' ws zero e same f = (v', refl, subst (λ y. Keeps P y v') (cc e) same)
      item v' ws (suc k) e same f = f k x e

  array-Keeps :
      (vs vs' : Values) (s s' : S)
      → each_item body vs s ≡ (ok vs', s')
      → Keeps (Each P) (Value.array vs) (Value.array vs')
  array-Keeps vs vs' s s' h [] u out at = absurd (unfold locate in cc at)
  array-Keeps vs vs' s s' h (PathSegment.key k ∷ q) u out at = absurd (unfold locate in cc at)
  array-Keeps vs vs' s s' h (PathSegment.index i ∷ q) u out at =
      let (x, found, at') = at_value vs i q (Value.string u) at in
      let (x', found', same) = each_item-Keeps vs vs' s s' h i x found in
      value_at vs' i q x' (Value.string u) found'
        (same q u (λ p. out (i, q, vs, x, refl, refl, found, p)) at')

  pub restore_items-Restores :
      (field : Text) → Restores (Under field (Each P)) (restore_items body field)
  unfolding restore_items
  restore_items-Restores field v v' s s' h = elim (Option-cases (get_field field v)) [
    | inl missing ↦
        let same : v ≡ v' = cc (rw (missing, restore_items) at h) in
        subst (λ w. Keeps (Under field (Each P)) v w) same (Keeps-self (Under field (Each P)) v)
    | inr (items, found) ↦ elim (Option-cases (as_array items)) [
      | inl other ↦ absurd (cc (ap (λ r. r.0) (rw (found, restore_items, other) at h)))
      | inr (vs, shape) ↦
          let (ws, t, each, h') =
            and_then-inversion (each_item body vs s) _ v' s'
              (rw (found, restore_items, shape) at h) in
          let made : set_field field (Value.array ws) v ≡ v' = cc h' in
          subst (λ w. Keeps (Under field (Each P)) v w) made
            (set_field-Keeps (Each P) field (Value.array vs) (Value.array ws) v
              (found ∙ ap some (as_array-array items vs shape)) (array-Keeps vs ws s t each))
    ]
  ]

  pub restore_field-Restores : (field : Text) → Restores (Under field P) (restore_field body field)
  unfolding restore_field
  restore_field-Restores field v v' s s' h = elim (Option-cases (get_field field v)) [
    | inl missing ↦
        let same : v ≡ v' = cc (rw (missing, restore_field) at h) in
        subst (λ w. Keeps (Under field P) v w) same (Keeps-self (Under field P) v)
    | inr (part, found) ↦
        let (part', t, first, h') =
          and_then-inversion (body part s) _ v' s' (rw (found, restore_field) at h) in
        let made : set_field field part' v ≡ v' = cc h' in
        subst (λ w. Keeps (Under field P) v w) made
          (set_field-Keeps P field part part' v found (keeps part part' s t first))
  ]
