-- ===== src/Ledger/Entries/Apart.antt =====
-- No two entries of the map of src/ledger.rs share a token, and none share a protected value of one
-- scope and class.
use agent_veil.Prelude.{
  ◌≡◌, ◌≢◌, sym, ◌∙◌, Text, text_eq, text_eq_iff, Bool, true, some, [], ◌∷◌, All, inl, inr, arith,
  Bool-cases, ◌↔◌, All-imp, Option, none, if◌then◌else◌, In, ap, All-In, refl,
}
use agent_veil.Domain.{DataClass}
use agent_veil.Domain.Laws.{class_eq_iff}
use agent_veil.Ledger.Entries.{Entry, EntryMap, get, insert, remove, retain, find, holds}
use agent_veil.Ledger.Entries.Find.{
  All-retain, All-remove, All-insert, All-get, find-some, get_of_not-In,
}

abbrev pub secret : Entry → Text × DataClass × Text
secret e = (e.scope, e.data_class, e.value)

pub holds_iff :
    (s : Text) (c : DataClass) (v : Text) (e : Entry)
    → (holds s c v e ≡ true) ↔ (secret e ≡ (s, c, v))
unfolding holds
holds_iff s c v e = (
  λ h. ground (arith, text_eq_iff e.scope s, class_eq_iff e.data_class c, text_eq_iff e.value v),
  λ h. ground (arith, text_eq_iff e.scope s, class_eq_iff e.data_class c, text_eq_iff e.value v),
)

abbrev pub Apart : Text × Entry → Text × Entry → Type 0
Apart a b = (a.0 ≢ b.0) × (secret a.1 ≢ secret b.1)

abbrev pub PairApart : EntryMap → Type 0
PairApart [] = Unit
PairApart (x ∷ m) = All (Apart x) m × PairApart m

pub retain-PairApart : (p : Entry → Bool) (m : EntryMap) → PairApart m → PairApart (retain p m)
unfolding retain
retain-PairApart p [] h = tt
retain-PairApart p ((j, e) ∷ m) h = elim (Bool-cases (p e)) [
  | inl t ↦ rw t (All-retain (Apart (j, e)) p m h.0, retain-PairApart p m h.1)
  | inr f ↦ rw f (retain-PairApart p m h.1)
]

pub remove-PairApart : (k : Text) (m : EntryMap) → PairApart m → PairApart (remove k m)
unfolding remove
remove-PairApart k [] h = tt
remove-PairApart k ((j, e) ∷ m) h = elim (Bool-cases (text_eq j k)) [
  | inl t ↦ rw t h.1
  | inr f ↦ rw f (All-remove (Apart (j, e)) k m h.0, remove-PairApart k m h.1)
]

-- A new token for a value that no entry holds.
pub insert-PairApart_new :
    (k : Text) (v : Entry) (m : EntryMap)
    → All (λ x. x.0 ≢ k) m
    → All (λ x. secret x.1 ≢ secret v) m
    → PairApart m
    → PairApart (insert k v m)
unfolding insert
insert-PairApart_new k v [] ks ss h = (tt, tt)
insert-PairApart_new k v ((j, e) ∷ m) ks ss h = elim (Bool-cases (text_eq j k)) [
  | inl t ↦ absurd (ks.0 ((text_eq_iff j k).0 t))
  | inr f ↦
      rw f
        (All-insert (Apart (j, e)) k v m (ks.0, ss.0) h.0, insert-PairApart_new k v m ks.1 ss.1 h.1)
]

-- A new expiry or recency for a token that is there.
pub insert-PairApart_old :
    (k : Text) (v : Entry) (m : EntryMap) (e : Entry)
    → get k m ≡ some e
    → secret e ≡ secret v
    → PairApart m
    → PairApart (insert k v m)
unfolding insert get
insert-PairApart_old k v [] e g s h = (tt, tt)
insert-PairApart_old k v ((j, x) ∷ m) e g s h = elim (Bool-cases (text_eq j k)) [
  | inl t ↦
      let same : j ≡ k = (text_eq_iff j k).0 t in
      let found : x ≡ e = ground arith in
      let moved : All (Apart (k, v)) m =
        All-imp (Apart (j, x)) (Apart (k, v))
          (λ y a. (λ q. a.0 (same ∙ q), λ q. a.1 (ap secret found ∙ s ∙ q))) m h.0 in
      rw t (moved, h.1)
  | inr f ↦
      let later : get k m ≡ some e = ground arith in
      let a : Apart (j, x) (k, e) = All-get (Apart (j, x)) k m e h.0 later in
      rw f (
        All-insert (Apart (j, x)) k v m (a.0, λ q. a.1 (q ∙ sym s)) h.0,
        insert-PairApart_old k v m e later s h.1,
      )
]

-- What is left of an entry that a test looks at.
abbrev pub keep : (Entry → Bool) → Option Entry → Option Entry
keep p none = none
keep p (some e) = if p e then some e else none

pub get-retain :
    (k : Text) (p : Entry → Bool) (m : EntryMap)
    → PairApart m
    → get k (retain p m) ≡ keep p (get k m)
unfolding get retain
get-retain k p [] h = refl
get-retain k p ((j, e) ∷ m) h = elim (Bool-cases (text_eq j k)) [
  | inl t ↦
      let gone : get k m ≡ none = get_of_not-In k m (
        All-imp (Apart (j, e)) (λ x. x.0 ≢ k) (λ x a q. a.0 ((text_eq_iff j k).0 t ∙ sym q)) m
          h.0) in
      ground (arith, get-retain k p m h.1)
  | inr f ↦ ground (arith, get-retain k p m h.1)
]

pub get-remove :
    (j k : Text) (m : EntryMap)
    → PairApart m
    → get j (remove k m) ≡ (if text_eq k j then none else get j m)
unfolding get remove
get-remove j k [] h = ground arith
get-remove j k ((i, e) ∷ m) h = elim (Bool-cases (text_eq i k)) [
  | inl t ↦
      let same : i ≡ k = (text_eq_iff i k).0 t in
      let gone : get k m ≡ none =
        get_of_not-In k m
          (All-imp (Apart (i, e)) (λ x. x.0 ≢ k) (λ x a q. a.0 (same ∙ sym q)) m h.0) in
      ground (arith, text_eq_iff k j, text_eq_iff i j, text_eq_iff i k)
  | inr f ↦ ground (arith, text_eq_iff k j, text_eq_iff i j, text_eq_iff i k, get-remove j k m h.1)
]

pub get-of_In : (k : Text) (e : Entry) (m : EntryMap) → PairApart m → In (k, e) m → get k m ≡ some e
unfolding get
get-of_In k e [] h i = absurd i
get-of_In k e ((j, x) ∷ m) h (inl q) = ground (arith, text_eq_iff j k)
get-of_In k e ((j, x) ∷ m) h (inr i) =
    let apart : Apart (j, x) (k, e) = All-In (Apart (j, x)) (k, e) m h.0 i in
    ground (arith, text_eq_iff j k, apart.0, get-of_In k e m h.1 i)

-- The entry that holds a secret is unique, so `find` does not depend on the order of the map.
pub find-get :
    (p : Entry → Bool) (m : EntryMap) (k : Text) (e : Entry)
    → PairApart m
    → find p m ≡ some (k, e)
    → (p e ≡ true) × (get k m ≡ some e)
find-get p m k e h f = let (t, i) = find-some p m k e f in (t, get-of_In k e m h i)

pub Apart-unique :
    (m : EntryMap) (k j : Text) (e x : Entry)
    → PairApart m
    → In (k, e) m
    → In (j, x) m
    → secret e ≡ secret x
    → k ≡ j
Apart-unique (y ∷ m) k j e x h (inl a) (inl b) s = ap (λ (z : Text × Entry). z.0) (a ∙ sym b)
Apart-unique (y ∷ m) k j e x h (inl a) (inr b) s =
    absurd ((All-In (Apart y) (j, x) m h.0 b).1 (ap (λ (z : Text × Entry). secret z.1) (sym a) ∙ s))
Apart-unique (y ∷ m) k j e x h (inr a) (inl b) s =
    absurd
      ((All-In (Apart y) (k, e) m h.0 a).1 (ap (λ (z : Text × Entry). secret z.1) (sym b) ∙ sym s))
Apart-unique (y ∷ m) k j e x h (inr a) (inr b) s = Apart-unique m k j e x h.1 a b s
Apart-unique [] k j e x h a b s = absurd a
