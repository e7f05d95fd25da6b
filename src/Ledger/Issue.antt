-- ===== src/Ledger/Issue.antt =====
-- `issue_tracked` of src/ledger.rs: what a call returns and what it leaves in the map.
use agent_veil.Ledger.Entries.Recency.{last_used}
use agent_veil.Ledger.Entries.Find.{
  length-insert_new, find-none, not-In_of_contains_key, All-insert,
}
use agent_veil.Ledger.Entries.Apart.{secret, find-get, holds_iff, insert-PairApart_new}
use agent_veil.Ledger.Invariant.{
  IsValid, refresh-IsValid, make_room-IsValid, make_room-frame, IsSafe, length-make_room,
  All-make_room,
}
use agent_veil.Prelude.{
  ◌≡◌, true, Result-cases, false, inr, inl, Bool-cases, zero, refl, All, length, ltb, ◌<◌,
  Option-cases, ◌≢◌, ◌&&◌, ◌≤◌, none, arith, [],
}
use agent_veil.Ledger.{
  LedgerError, IssuedToken, TokenLedger, generate_token, attempt, Entry, Result, ok, Text, ℕ, suc,
  contains_key, insert, err, DataClass, place, EntryMap, hard_block, find, holds, ◌∷◌, make_room,
  max_token_attempts,
}

-- What the attempts leave: one new token for the entry, or the map as it was.
abbrev pub Placed :
    {R : Type 0} → TokenLedger R → Entry → Result LedgerError IssuedToken × TokenLedger R → Type 0
Placed s e (ok i, s') =
    (i.created ≡ true)
    × (contains_key i.token s.entries ≡ false)
    × (s' ≡ record s { entries = insert i.token e s.entries; random = s'.random })
Placed s e (err x, s') = s' ≡ record s { random = s'.random }

Placed-IsValid :
    {R : Type 0} (s : TokenLedger R) (e : Entry)
    (r : Result LedgerError IssuedToken × TokenLedger R)
    → IsValid s
    → length s.entries < s.max_entries
    → All (λ x. secret x.1 ≢ secret e) s.entries
    → (hard_block e.data_class ≡ false) × (0 < length e.value)
    → e.last_used_sequence ≤ s.sequence
    → Placed s e r
    → IsValid r.1
Placed-IsValid s e (err x, s') v room fresh safe past p = rw p (record {
  positive = v.positive;
  capped = v.capped;
  bounded = v.bounded;
  word = v.word;
  apart = v.apart;
  safe = v.safe;
  past = v.past;
})
Placed-IsValid s e (ok i, s') v room fresh safe past (created, new, p) = rw p (record {
  positive = v.positive;
  capped = v.capped;
  bounded = omega (arith, length-insert_new i.token e s.entries new);
  word = v.word;
  apart =
      insert-PairApart_new i.token e s.entries (not-In_of_contains_key i.token s.entries new) fresh
        v.apart;
  safe = All-insert IsSafe i.token e s.entries safe v.safe;
  past = All-insert (λ x. last_used x ≤ s.sequence) i.token e s.entries past v.past;
})

-- No entry is past its expiry, as after a purge.
abbrev pub IsFresh : {R : Type 0} → ℕ → TokenLedger R → Type 0
IsFresh now s = All (λ x. ltb now x.1.expires_at_ms ≡ true) s.entries

-- Where the search of `issue_tracked` fails on a fresh ledger, no entry holds the value.
pub not-held :
    (scope : Text) (c : DataClass) (value : Text) (now : ℕ) (m : EntryMap)
    → find (λ e. holds scope c value e && ltb now e.expires_at_ms) m ≡ none
    → All (λ x. ltb now x.1.expires_at_ms ≡ true) m
    → All (λ x. secret x.1 ≢ (scope, c, value)) m
not-held scope c value now m f h =
    go m (find-none (λ e. holds scope c value e && ltb now e.expires_at_ms) m f) h
  where
    go :
        (l : EntryMap)
        → All (λ x. (holds scope c value x.1 && ltb now x.1.expires_at_ms) ≡ false) l
        → All (λ x. ltb now x.1.expires_at_ms ≡ true) l
        → All (λ x. secret x.1 ≢ (scope, c, value)) l
    go [] a b = tt
    go (x ∷ l) a b = (λ q. let t = (holds_iff scope c value x.1).1 q in ground arith, go l a.1 b.1)

module _ {R : Type 0} (fill : R → Result LedgerError Text × R) where
  pub attempt-Placed : (n : ℕ) (e : Entry) (s : TokenLedger R) → Placed s e (attempt fill n e s)
  unfolding attempt
  attempt-Placed zero e s = refl
  attempt-Placed (suc n) e s =
      let next : TokenLedger R = record s {
        random = (generate_token fill e.data_class s.random).1;
      } in
      elim (Result-cases (generate_token fill e.data_class s.random).0) [
        | inr (x, failed) ↦ rw (failed, attempt) refl
        | inl (t, made) ↦ elim (Bool-cases (contains_key t s.entries)) [
          | inl taken ↦ rw (made, attempt, taken) (attempt-Placed n e next)
          | inr new ↦ rw (made, attempt, new) (refl, new, refl)
        ]
      ]

  pub place-IsValid :
      (scope : Text) (c : DataClass) (value : Text) (now expires : ℕ) (s : TokenLedger R)
      → IsValid s
      → IsFresh now s
      → (hard_block c ≡ false) × (0 < length value)
      → IsValid (place fill scope c value now expires s).1
  unfolding place
  place-IsValid scope c value now expires s v fresh safe =
      elim (Option-cases (find (λ e. holds scope c value e && ltb now e.expires_at_ms) s.entries)) [
        | inr ((t, e), found) ↦
            rw (found, place)
              (refresh-IsValid t e expires s v (find-get _ s.entries t e v.apart found).1)
        | inl missed ↦
            let room = make_room s in
            let entry : Entry = record {
              scope = scope;
              data_class = c;
              value = value;
              expires_at_ms = expires;
              last_used_sequence = s.sequence;
            } in
            rw (missed, place)
              (Placed-IsValid room entry (attempt fill max_token_attempts entry room)
                (make_room-IsValid s v) (rw (make_room-frame s).0 (length-make_room s v))
                (All-make_room (λ x. secret x.1 ≢ secret entry) s
                  (not-held scope c value now s.entries missed fresh))
                safe (omega (arith, (make_room-frame s).1))
                (attempt-Placed max_token_attempts entry room))
      ]
