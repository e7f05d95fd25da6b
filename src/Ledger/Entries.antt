-- ===== src/Ledger/Entries.antt =====
-- The entries of the token ledger (`Entry` and the `HashMap` of src/ledger.rs). The map is a list
-- of its entries in the order in which it iterates; the theorems hold for every order.
pub mod Apart
pub mod Find
pub mod Recency
use agent_veil.Prelude.{
  ℕ, Text, text_eq, Bool, true, false, ◌&&◌, Option, none, some, List, [], ◌∷◌, ltb, if◌then◌else◌,
}
use agent_veil.Domain.{DataClass, class_eq}

pub record Entry : Type 0 where
  pub scope : Text
  pub data_class : DataClass
  pub value : Text
  pub expires_at_ms : ℕ
  pub last_used_sequence : ℕ

abbrev pub EntryMap : Type 0
EntryMap = List (Text × Entry)

-- `get`
unfoldable pub get : Text → EntryMap → Option Entry
get k [] = none
get k ((j, e) ∷ m) = if text_eq j k then some e else get k m

-- `contains_key`
unfoldable pub contains_key : Text → EntryMap → Bool
contains_key k [] = false
contains_key k ((j, e) ∷ m) = if text_eq j k then true else contains_key k m

-- `insert`: an entry with the key is replaced where it stands.
unfoldable pub insert : Text → Entry → EntryMap → EntryMap
insert k v [] = (k, v) ∷ []
insert k v ((j, e) ∷ m) =
    let rest = insert k v m in if text_eq j k then (k, v) ∷ m else (j, e) ∷ rest

-- `remove`
unfoldable pub remove : Text → EntryMap → EntryMap
remove k [] = []
remove k ((j, e) ∷ m) = let rest = remove k m in if text_eq j k then m else (j, e) ∷ rest

-- `retain`
unfoldable pub retain : (Entry → Bool) → EntryMap → EntryMap
retain p [] = []
retain p ((j, e) ∷ m) = let rest = retain p m in if p e then (j, e) ∷ rest else rest

-- `iter_mut().find`
unfoldable pub find : (Entry → Bool) → EntryMap → Option (Text × Entry)
find p [] = none
find p ((j, e) ∷ m) = if p e then some (j, e) else find p m

-- The fold of `min_by_key` over `last_used_sequence`; the first of equals stays.
unfoldable pub min_from : Text × Entry → EntryMap → Text × Entry
min_from best [] = best
min_from best (x ∷ m) =
    min_from (if ltb x.1.last_used_sequence best.1.last_used_sequence then x else best) m

unfoldable pub min_by_last_used : EntryMap → Option (Text × Entry)
unfolding min_from
min_by_last_used [] = none
min_by_last_used (x ∷ m) = some (min_from x m)

-- The tests of `issue_tracked` on an entry, but for its expiry.
unfoldable pub holds : Text → DataClass → Text → Entry → Bool
holds scope c value e = text_eq e.scope scope && class_eq e.data_class c && text_eq e.value value
