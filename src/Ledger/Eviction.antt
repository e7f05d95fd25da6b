-- ===== src/Ledger/Eviction.antt =====
-- The eviction of src/ledger.rs: at most one entry goes, and it is a least recently used one.
use agent_veil.Ledger.Entries.Apart.{get-remove}
use agent_veil.Ledger.Entries.Recency.{last_used, min_by_last_used_some, min_by_last_used_lem}
use agent_veil.Ledger.Entries.{Entry, get, min_by_last_used}
use agent_veil.Prelude.{
  length, ◌≡◌, ◌<◌, Text, arith, In, All, ◌≤◌, if◌then◌else◌, text_eq, none, Option-cases, inl, inr,
  leb, true,
}
use agent_veil.Ledger.{TokenLedger, make_room, evict_lru}
use agent_veil.Ledger.Invariant.{IsValid}

module _ {R : Type 0} (s : TokenLedger R) where
  -- On a full ledger one entry is removed; no entry was used before it, and all others stay.
  pub make_room_full :
      IsValid s
      → length s.entries ≡ s.max_entries
      → (victim : Text × Entry) × In victim s.entries
        × All (λ y. last_used victim ≤ last_used y) s.entries
        × ((k : Text)
            → get k (make_room s).entries ≡ (if text_eq victim.0 k then none else get k s.entries))
  unfolding make_room evict_lru
  make_room_full v full = elim (Option-cases (min_by_last_used s.entries)) [
    | inl e ↦ absurd (omega (arith, min_by_last_used_some s.entries e, v.positive))
    | inr (x, e) ↦
        let (here, least) = min_by_last_used_lem s.entries x e in
        let test : leb s.max_entries (length s.entries) ≡ true = ground arith in
        (x, here, least, λ k. rw (test, e, evict_lru) (get-remove k x.0 s.entries v.apart))
  ]

  -- With room left nothing is evicted.
  pub make_room_free : length s.entries < s.max_entries → make_room s ≡ s
  unfolding make_room
  make_room_free free = ground arith
