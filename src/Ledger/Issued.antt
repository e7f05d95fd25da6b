-- ===== src/Ledger/Issued.antt =====
-- The calls of `issue_tracked` of src/ledger.rs: the invariant, the errors, and the token issued.
use agent_veil.Ledger.Entries.Apart.{secret, find-get, holds_iff}
use agent_veil.Prelude.{
  ◌≡◌, Result-cases, ok, inr, inl, false, ◌<◌, length, ◌+◌, ◌*◌, ◌≤◌, arith, true, Option-cases,
  none, ◌&&◌, some, if◌then◌else◌, text_eq, ap, ◌∙◌, subst,
}
use agent_veil.Ledger.Entries.Find.{
  All-retain_self, get_of_not-In, get-insert, not-In_of_contains_key,
}
use agent_veil.Ledger.{
  LedgerError, TokenLedger, purge_expired, advance, check_issue, issue_tracked, u64_max,
  checked_mul, ℕ, Result, checked_add, Text, DataClass, ltb, hard_block, Entry, place, IssuedToken,
  get, find, make_room, holds, insert, contains_key, max_token_attempts,
}
use agent_veil.Ledger.Invariant.{IsValid, advance-IsValid, purge_expired-IsValid}
use agent_veil.Ledger.Issue.{IsFresh, place-IsValid, Placed, attempt-Placed}

pub check_issue_lem :
    (c : DataClass) (value : Text) (now ttl expires : ℕ)
    → check_issue c value now ttl ≡ ok expires
    → (hard_block c ≡ false)
      × (0 < length value)
      × (expires ≡ now + ttl * 1000)
      × (expires ≤ u64_max)
unfolding check_issue checked_mul checked_add
check_issue_lem c value now ttl expires h = ground arith

pub IsFresh-purge_expired :
    {R : Type 0} (now : ℕ) (s : TokenLedger R) → IsFresh now (advance (purge_expired now s))
unfolding purge_expired advance
IsFresh-purge_expired now s = All-retain_self (λ e. ltb now e.expires_at_ms) s.entries

-- The entry that a call of `issue_tracked` writes.
abbrev pub issued_entry : {R : Type 0} → Text → DataClass → Text → ℕ → TokenLedger R → Entry
issued_entry scope c value expires s = record {
  scope = scope;
  data_class = c;
  value = value;
  expires_at_ms = expires;
  last_used_sequence = s.sequence;
}

-- What a call leaves for the token that it returns, and for the others: the purged map, after an
-- eviction if the token is new, with the token bound to the value.
pub record Issues {R : Type 0} (e : Entry) (s : TokenLedger R) (i : IssuedToken)
    (s' : TokenLedger R) : Type 0 where
  pub fresh : i.created ≡ true → get i.token (make_room s).entries ≡ none
  pub reused :
      i.created ≡ false → (x : Entry) × (get i.token s.entries ≡ some x) × (secret x ≡ secret e)
  pub others :
      (k : Text)
      → get k s'.entries ≡ (
          if text_eq i.token k
          then some e
          else get k (if i.created then (make_room s).entries else s.entries))

module _ {R : Type 0} (e : Entry) (s : TokenLedger R) (i : IssuedToken) (s' : TokenLedger R) where
  Issues-reused :
      (k : Text) (x : Entry)
      → i ≡ record { token = k; created = false }
      → get k s.entries ≡ some x
      → secret x ≡ secret e
      → s'.entries ≡ insert k e s.entries
      → Issues e s i s'
  Issues-reused k x hi found same hs = record {
    fresh = λ h. absurd (cc (ap (λ (t : IssuedToken). t.created) hi));
    reused = λ h. (x, rw hi found, same);
    others = λ j. rw (hs, hi) (get-insert j k e s.entries);
  }

  Issues-created :
      i.created ≡ true
      → contains_key i.token (make_room s).entries ≡ false
      → s'.entries ≡ insert i.token e (make_room s).entries
      → Issues e s i s'
  Issues-created created absent hs = record {
    fresh = λ h.
        get_of_not-In i.token (make_room s).entries
          (not-In_of_contains_key i.token (make_room s).entries absent);
    reused = λ h. absurd (cc (created, h));
    others = λ j. rw (hs, created) (get-insert j i.token e (make_room s).entries);
  }

module _ {R : Type 0} (fill : R → Result LedgerError Text × R) where
  place-Issues :
      (scope : Text) (c : DataClass) (value : Text) (now expires : ℕ) (s : TokenLedger R)
      → IsValid s
      → (i : IssuedToken) (s' : TokenLedger R) → place fill scope c value now expires s ≡ (ok i, s')
      → Issues (issued_entry scope c value expires s) s i s'
  unfolding place
  place-Issues scope c value now expires s v i s' h =
      elim (Option-cases (find (λ e. holds scope c value e && ltb now e.expires_at_ms) s.entries)) [
        | inr ((t, e), found) ↦
            let (live, here) = find-get _ s.entries t e v.apart found in
            let hh = rw (found, place) at h in
            let held : secret e ≡ (scope, c, value) =
              (holds_iff scope c value e).0 (ground arith) in
            let hi : i ≡ record { token = t; created = false } = cc hh in
            let hs : s' ≡ record s {
              entries =
                  insert t (record e { last_used_sequence = s.sequence; expires_at_ms = expires })
                    s.entries;
            } =
              cc hh in
            let same : ◌≡◌ {A = Entry}
                (record e { last_used_sequence = s.sequence; expires_at_ms = expires })
                (issued_entry scope c value expires s) =
              ground arith in
            Issues-reused (issued_entry scope c value expires s) s i s' t e hi here held
              (ap (λ (l : TokenLedger R). l.entries) hs ∙ ap (λ x. insert t x s.entries) same)
        | inl missed ↦
            let room = make_room s in
            let entry : Entry = issued_entry scope c value expires s in
            let hh = rw (missed, place) at h in
            let (created, absent, made) : Placed room entry (ok i, s') =
              subst (Placed room entry) hh (attempt-Placed fill max_token_attempts entry room) in
            Issues-created (issued_entry scope c value expires s) s i s' created absent
              (ap (λ (l : TokenLedger R). l.entries) made)
      ]

  -- Every call of `issue_tracked`, failing or not, keeps the invariant.
  pub issue_tracked-IsValid :
      (scope : Text) (c : DataClass) (value : Text) (now ttl : ℕ) (s : TokenLedger R)
      → IsValid s
      → IsValid (issue_tracked fill scope c value now ttl s).1
  unfolding issue_tracked
  issue_tracked-IsValid scope c value now ttl s v =
      elim (Result-cases (check_issue c value now ttl)) [
        | inr (e, refused) ↦ rw (refused, issue_tracked) v
        | inl (expires, passed) ↦
            let (soft, nonempty, _, _) = check_issue_lem c value now ttl expires passed in
            rw (passed, issue_tracked)
              (place-IsValid fill scope c value now expires (advance (purge_expired now s))
                (advance-IsValid (purge_expired now s) (purge_expired-IsValid now s v))
                (IsFresh-purge_expired now s) (soft, nonempty))
      ]

  -- The ledger in which `issue_tracked` looks for a token.
  abbrev pub ready : ℕ → TokenLedger R → TokenLedger R
  ready now s = advance (purge_expired now s)

  pub ready-IsValid : (now : ℕ) (s : TokenLedger R) → IsValid s → IsValid (ready now s)
  ready-IsValid now s v = advance-IsValid (purge_expired now s) (purge_expired-IsValid now s v)

  pub issue_tracked-Issues :
      (scope : Text) (c : DataClass) (value : Text) (now ttl : ℕ) (s : TokenLedger R)
      → IsValid s
      → (i : IssuedToken) (s' : TokenLedger R)
      → issue_tracked fill scope c value now ttl s ≡ (ok i, s')
      → Issues (issued_entry scope c value (now + ttl * 1000) (ready now s)) (ready now s) i s'
  unfolding issue_tracked
  issue_tracked-Issues scope c value now ttl s v i s' h =
      elim (Result-cases (check_issue c value now ttl)) [
        | inr (e, refused) ↦ absurd (
            cc (
              ap (λ (p : Result LedgerError IssuedToken × TokenLedger R). p.0)
                (rw (refused, issue_tracked) at h)))
        | inl (expires, passed) ↦
            let (_, _, when, _) = check_issue_lem c value now ttl expires passed in
            subst (λ x. Issues (issued_entry scope c value x (ready now s)) (ready now s) i s') when
              (place-Issues scope c value now expires (ready now s) (ready-IsValid now s v) i s'
                (rw (passed, issue_tracked) at h))
      ]

  pub issued-IsValid :
      (scope : Text) (c : DataClass) (value : Text) (now ttl : ℕ) (s : TokenLedger R)
      → IsValid s
      → (i : IssuedToken) (s' : TokenLedger R)
      → issue_tracked fill scope c value now ttl s ≡ (ok i, s')
      → IsValid s'
  issued-IsValid scope c value now ttl s v i s' h =
      subst (λ (p : Result LedgerError IssuedToken × TokenLedger R). IsValid p.1) h
        (issue_tracked-IsValid scope c value now ttl s v)
