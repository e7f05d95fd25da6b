-- ===== src/Ledger/Invariant.antt =====
-- The invariant of the token ledger of src/ledger.rs, and that every method keeps it.
use agent_veil.Ledger.Entries.Apart.{
  PairApart, remove-PairApart, retain-PairApart, insert-PairApart_old,
}
use agent_veil.Ledger.Entries.Recency.{last_used, min_by_last_used_some, min_by_last_used_lem}
use agent_veil.Ledger.Entries.Find.{
  length-remove-le, length-retain-le, All-remove, length-insert_old, All-retain,
  contains_key-eq-get, All-insert, All-get, contains_key_of_In, length-remove,
}
use agent_veil.Prelude.{
  ◌<◌, arith, Option-cases, ◌≤◌, ◌≡◌, Bool, All-imp, ltb, not, List, false, length, ok, some, inl,
  text_eq, inr, All, Bool-cases, ◌||◌, leb, [], refl, true,
}
use agent_veil.Ledger.{
  TokenLedger, u64_max, saturating_add, purge_expired, evict_lru, make_room, advance,
  rollback_created, restore_from, restore_exact, clear_scope, clear_all, with_random, Text, ℕ,
  Entry, hard_block, remove, get, min_by_last_used, retain, ◌∷◌, insert, contains_key,
}

-- A hard class or an empty value never enters the ledger.
abbrev pub IsSafe : Text × Entry → Type 0
IsSafe x = (hard_block x.1.data_class ≡ false) × (0 < length x.1.value)

pub record IsValid {R : Type 0} (s : TokenLedger R) : Type 0 where
  pub positive : 0 < s.max_entries
  pub capped : s.max_entries ≤ 16384
  pub bounded : length s.entries ≤ s.max_entries
  pub word : s.sequence ≤ u64_max
  pub apart : PairApart s.entries
  pub safe : All IsSafe s.entries
  pub past : All (λ x. last_used x ≤ s.sequence) s.entries

module _ {R : Type 0} where
  pub with_random-IsValid : (n : ℕ) (r : R) (s : TokenLedger R) → with_random n r ≡ ok s → IsValid s
  unfolding with_random
  with_random-IsValid n r s h = ground arith

  pub retain-IsValid :
      (p : Entry → Bool) (s : TokenLedger R)
      → IsValid s
      → IsValid (record s { entries = retain p s.entries })
  retain-IsValid p s v = record {
    positive = v.positive;
    capped = v.capped;
    bounded = omega (arith, length-retain-le p s.entries, v.bounded);
    word = v.word;
    apart = retain-PairApart p s.entries v.apart;
    safe = All-retain IsSafe p s.entries v.safe;
    past = All-retain (λ x. last_used x ≤ s.sequence) p s.entries v.past;
  }

  pub remove-IsValid :
      (k : Text) (s : TokenLedger R)
      → IsValid s
      → IsValid (record s { entries = remove k s.entries })
  remove-IsValid k s v = record {
    positive = v.positive;
    capped = v.capped;
    bounded = omega (arith, length-remove-le k s.entries, v.bounded);
    word = v.word;
    apart = remove-PairApart k s.entries v.apart;
    safe = All-remove IsSafe k s.entries v.safe;
    past = All-remove (λ x. last_used x ≤ s.sequence) k s.entries v.past;
  }

  -- A token that is there gets a new expiry and the newest sequence number.
  pub refresh-IsValid :
      (k : Text) (e : Entry) (expires : ℕ) (s : TokenLedger R)
      → IsValid s
      → get k s.entries ≡ some e
      → IsValid (record s {
        entries =
            insert k
              (record e { last_used_sequence = s.sequence; expires_at_ms = expires })
              s.entries;
      })
  refresh-IsValid k e expires s v g =
      let e' : Entry = record e { last_used_sequence = s.sequence; expires_at_ms = expires } in
      record {
        positive = v.positive;
        capped = v.capped;
        bounded =
            rw (length-insert_old k e' s.entries (rw (contains_key-eq-get k s.entries, g)))
              v.bounded;
        word = v.word;
        apart = insert-PairApart_old k e' s.entries e g refl v.apart;
        safe = All-insert IsSafe k e' s.entries (All-get IsSafe k s.entries e v.safe g) v.safe;
        past = All-insert (λ x. last_used x ≤ s.sequence) k e' s.entries (omega arith) v.past;
      }

  pub advance-IsValid : (s : TokenLedger R) → IsValid s → IsValid (advance s)
  unfolding advance
  advance-IsValid s v = record {
    positive = v.positive;
    capped = v.capped;
    bounded = v.bounded;
    word = omega arith;
    apart = v.apart;
    safe = v.safe;
    past =
        All-imp (λ x. last_used x ≤ s.sequence) (λ x. last_used x ≤ saturating_add s.sequence 1)
          (λ x h. omega (arith, v.word)) s.entries v.past;
  }

  pub purge_expired-IsValid :
      (now : ℕ) (s : TokenLedger R) → IsValid s → IsValid (purge_expired now s)
  unfolding purge_expired
  purge_expired-IsValid now s v = retain-IsValid (λ e. ltb now e.expires_at_ms) s v

  pub evict_lru-IsValid : (s : TokenLedger R) → IsValid s → IsValid (evict_lru s)
  unfolding evict_lru
  evict_lru-IsValid s v = elim (Option-cases (min_by_last_used s.entries)) [
    | inl e ↦ rw (e, evict_lru) v
    | inr (x, e) ↦ rw (e, evict_lru) (remove-IsValid x.0 s v)
  ]

  pub make_room-IsValid : (s : TokenLedger R) → IsValid s → IsValid (make_room s)
  unfolding make_room
  make_room-IsValid s v = elim (Bool-cases (leb s.max_entries (length s.entries))) [
    | inl full ↦ rw full (evict_lru-IsValid s v)
    | inr room ↦ rw room v
  ]

  -- The eviction leaves room for one entry.
  pub length-make_room :
      (s : TokenLedger R) → IsValid s → length (make_room s).entries < s.max_entries
  unfolding make_room evict_lru
  length-make_room s v = elim (Option-cases (min_by_last_used s.entries)) [
    | inl e ↦ ground (arith, min_by_last_used_some s.entries, v.positive)
    | inr (x, e) ↦
        let here : contains_key x.0 s.entries ≡ true =
          contains_key_of_In x.0 x.1 s.entries (min_by_last_used_lem s.entries x e).0 in
        ground (arith, length-remove x.0 s.entries here, v.bounded)
  ]

  pub make_room-frame :
      (s : TokenLedger R)
      → ((make_room s).max_entries ≡ s.max_entries) × ((make_room s).sequence ≡ s.sequence)
  unfolding make_room evict_lru
  make_room-frame s = ground arith

  pub All-make_room :
      (P : Text × Entry → Type 0) (s : TokenLedger R)
      → All P s.entries
      → All P (make_room s).entries
  unfolding make_room evict_lru
  All-make_room P s h = elim (Bool-cases (leb s.max_entries (length s.entries))) [
    | inr room ↦ rw room h
    | inl full ↦ elim (Option-cases (min_by_last_used s.entries)) [
      | inl e ↦ rw (full, e, evict_lru) h
      | inr (x, e) ↦ rw (full, e, evict_lru) (All-remove P x.0 s.entries h)
    ]
  ]

  pub clear_scope-IsValid :
      (scope : Text) (s : TokenLedger R) → IsValid s → IsValid (clear_scope scope s).1
  unfolding clear_scope
  clear_scope-IsValid scope s v = retain-IsValid (λ e. not (text_eq e.scope scope)) s v

  pub clear_all-IsValid : (s : TokenLedger R) → IsValid s → IsValid (clear_all s).1
  unfolding clear_all
  clear_all-IsValid s v = record {
    positive = v.positive;
    capped = v.capped;
    bounded = omega arith;
    word = v.word;
    apart = tt;
    safe = tt;
    past = tt;
  }

  pub restore_from-IsValid :
      (scope token : Text) (now : ℕ) (s : TokenLedger R)
      → IsValid s
      → IsValid (restore_from scope token now s).1
  unfolding restore_from
  restore_from-IsValid scope token now s v = elim (Option-cases (get token s.entries)) [
    | inl e ↦ rw (e, restore_from) v
    | inr (x, e) ↦ elim (Bool-cases (not (text_eq x.scope scope) || leb x.expires_at_ms now)) [
      | inl refused ↦ rw (e, restore_from, refused) v
      | inr given ↦ rw (e, restore_from, given) (refresh-IsValid token x x.expires_at_ms s v e)
    ]
  ]

  pub restore_exact-IsValid :
      (scope token : Text) (now : ℕ) (s : TokenLedger R)
      → IsValid s
      → IsValid (restore_exact scope token now s).1
  unfolding restore_exact
  restore_exact-IsValid scope token now s v =
      restore_from-IsValid scope token now (advance (purge_expired now s))
        (advance-IsValid (purge_expired now s) (purge_expired-IsValid now s v))

  pub rollback_created-IsValid :
      (scope : Text) (ts : List Text) (s : TokenLedger R)
      → IsValid s
      → IsValid (rollback_created scope ts s)
  unfolding rollback_created
  rollback_created-IsValid scope [] s v = v
  rollback_created-IsValid scope (t ∷ ts) s v = elim (Option-cases (get t s.entries)) [
    | inl e ↦ rw e (rollback_created-IsValid scope ts s v)
    | inr (x, e) ↦ elim (Bool-cases (text_eq x.scope scope)) [
      | inl own ↦
          rw (e, own)
            (rollback_created-IsValid scope ts (record s { entries = remove t s.entries })
              (remove-IsValid t s v))
      | inr other ↦ rw (e, other) (rollback_created-IsValid scope ts s v)
    ]
  ]
