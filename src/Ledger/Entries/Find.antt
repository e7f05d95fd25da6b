-- ===== src/Ledger/Entries/Find.antt =====
-- Reads and writes of the entry map of src/ledger.rs: what `get`, `insert`, `remove`, `retain` and
-- `find` do to one another, and to lengths.
use agent_veil.Prelude.{
  ◌+◌, ◌≤◌, ◌≡◌, ◌≢◌, refl, Text, text_eq, text_eq_iff, Bool, true, false, none, some, [], ◌∷◌,
  length, All, In, inl, inr, if◌then◌else◌, is_some, arith, Bool-cases, subst,
}
use agent_veil.Ledger.Entries.{Entry, EntryMap, get, contains_key, insert, remove, retain, find}

pub get-insert :
    (j k : Text) (v : Entry) (m : EntryMap)
    → get j (insert k v m) ≡ (if text_eq k j then some v else get j m)
unfolding get insert
get-insert j k v [] = refl
get-insert j k v ((i, e) ∷ m) =
    ground (arith, get-insert j k v m, text_eq_iff i k, text_eq_iff i j, text_eq_iff k j)

pub contains_key-eq-get : (k : Text) (m : EntryMap) → contains_key k m ≡ is_some (get k m)
unfolding get contains_key
contains_key-eq-get k [] = refl
contains_key-eq-get k ((j, e) ∷ m) = ground (arith, contains_key-eq-get k m)

pub length-insert_new :
    (k : Text) (v : Entry) (m : EntryMap)
    → contains_key k m ≡ false
    → length (insert k v m) ≡ length m + 1
unfolding insert contains_key
length-insert_new k v [] h = omega arith
length-insert_new k v ((j, e) ∷ m) h = ground (arith, length-insert_new k v m)

pub length-insert_old :
    (k : Text) (v : Entry) (m : EntryMap)
    → contains_key k m ≡ true
    → length (insert k v m) ≡ length m
unfolding insert contains_key
length-insert_old k v [] h = absurd (ground arith)
length-insert_old k v ((j, e) ∷ m) h = ground (arith, length-insert_old k v m)

pub length-remove :
    (k : Text) (m : EntryMap) → contains_key k m ≡ true → length (remove k m) + 1 ≡ length m
unfolding remove contains_key
length-remove k [] h = absurd (ground arith)
length-remove k ((j, e) ∷ m) h = ground (arith, length-remove k m)

pub length-remove-le : (k : Text) (m : EntryMap) → length (remove k m) ≤ length m
unfolding remove
length-remove-le k [] = omega arith
length-remove-le k ((j, e) ∷ m) = ground (arith, length-remove-le k m)

pub length-retain-le : (p : Entry → Bool) (m : EntryMap) → length (retain p m) ≤ length m
unfolding retain
length-retain-le p [] = omega arith
length-retain-le p ((j, e) ∷ m) = ground (arith, length-retain-le p m)

pub All-retain :
    (P : Text × Entry → Type 0) (p : Entry → Bool) (m : EntryMap) → All P m → All P (retain p m)
unfolding retain
All-retain P p [] h = tt
All-retain P p ((j, e) ∷ m) h = elim (Bool-cases (p e)) [
  | inl t ↦ rw t (h.0, All-retain P p m h.1)
  | inr f ↦ rw f (All-retain P p m h.1)
]

-- What `retain` keeps passes its test.
pub All-retain_self : (p : Entry → Bool) (m : EntryMap) → All (λ x. p x.1 ≡ true) (retain p m)
unfolding retain
All-retain_self p [] = tt
All-retain_self p ((j, e) ∷ m) = elim (Bool-cases (p e)) [
  | inl t ↦ rw t (t, All-retain_self p m)
  | inr f ↦ rw f (All-retain_self p m)
]

pub All-remove :
    (P : Text × Entry → Type 0) (k : Text) (m : EntryMap) → All P m → All P (remove k m)
unfolding remove
All-remove P k [] h = tt
All-remove P k ((j, e) ∷ m) h = elim (Bool-cases (text_eq j k)) [
  | inl t ↦ rw t h.1
  | inr f ↦ rw f (h.0, All-remove P k m h.1)
]

pub All-insert :
    (P : Text × Entry → Type 0) (k : Text) (v : Entry) (m : EntryMap)
    → P (k, v)
    → All P m
    → All P (insert k v m)
unfolding insert
All-insert P k v [] h hs = (h, tt)
All-insert P k v ((j, e) ∷ m) h hs = elim (Bool-cases (text_eq j k)) [
  | inl t ↦ rw t (h, hs.1)
  | inr f ↦ rw f (hs.0, All-insert P k v m h hs.1)
]

pub All-get :
    (P : Text × Entry → Type 0) (k : Text) (m : EntryMap) (e : Entry)
    → All P m
    → get k m ≡ some e
    → P (k, e)
unfolding get
All-get P k [] e h g = cc
All-get P k ((j, x) ∷ m) e h g = elim (Bool-cases (text_eq j k)) [
  | inl t ↦
      let same : j ≡ k = (text_eq_iff j k).0 t in
      let found : x ≡ e = ground arith in
      subst (λ i. P (i, e)) same (subst (λ y. P (j, y)) found h.0)
  | inr f ↦ All-get P k m e h.1 (ground arith)
]

pub get_of_not-In : (k : Text) (m : EntryMap) → All (λ x. x.0 ≢ k) m → get k m ≡ none
unfolding get
get_of_not-In k [] h = refl
get_of_not-In k ((j, e) ∷ m) h = ground (arith, text_eq_iff j k, get_of_not-In k m h.1, h.0)

pub not-In_of_contains_key :
    (k : Text) (m : EntryMap) → contains_key k m ≡ false → All (λ x. x.0 ≢ k) m
unfolding contains_key
not-In_of_contains_key k [] h = tt
not-In_of_contains_key k ((j, e) ∷ m) h =
    (λ same. ground (arith, text_eq_iff j k), not-In_of_contains_key k m (ground arith))

pub find-none : (p : Entry → Bool) (m : EntryMap) → find p m ≡ none → All (λ x. p x.1 ≡ false) m
unfolding find
find-none p [] h = tt
find-none p ((j, e) ∷ m) h = (ground arith, find-none p m (ground arith))

pub find-some :
    (p : Entry → Bool) (m : EntryMap) (k : Text) (e : Entry)
    → find p m ≡ some (k, e)
    → (p e ≡ true) × In (k, e) m
unfolding find
find-some p [] k e h = absurd (ground arith)
find-some p ((j, x) ∷ m) k e h = elim (Bool-cases (p x)) [
  | inl t ↦ (ground arith, inl (ground arith))
  | inr f ↦ let (t, i) = find-some p m k e (ground arith) in (t, inr i)
]

pub contains_key_of_In :
    (k : Text) (e : Entry) (m : EntryMap) → In (k, e) m → contains_key k m ≡ true
unfolding contains_key
contains_key_of_In k e [] i = absurd i
contains_key_of_In k e ((j, x) ∷ m) (inl q) = ground (arith, text_eq_iff j k)
contains_key_of_In k e ((j, x) ∷ m) (inr i) = ground (arith, contains_key_of_In k e m i)

pub In-of_get : (k : Text) (e : Entry) (m : EntryMap) → get k m ≡ some e → In (k, e) m
unfolding get
In-of_get k e [] g = absurd (ground arith)
In-of_get k e ((j, x) ∷ m) g = elim (Bool-cases (text_eq j k)) [
  | inl t ↦ inl (ground (arith, text_eq_iff j k))
  | inr f ↦ inr (In-of_get k e m (ground arith))
]
