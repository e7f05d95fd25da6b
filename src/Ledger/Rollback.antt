-- ===== src/Ledger/Rollback.antt =====
-- `rollback_created` of src/ledger.rs: which tokens it takes back.
use agent_veil.Ledger.Entries.Apart.{get-remove}
use agent_veil.Ledger.Issued.{ready, issue_tracked-Issues, issued-IsValid}
use agent_veil.Ledger.Entries.{Entry, get, remove}
use agent_veil.Domain.{DataClass}
use agent_veil.Prelude.{
  Text, contains, Result, Option, List, ℕ, Bool, ◌≡◌, false, if◌then◌else◌, ok, ◌&&◌, true, text_eq,
  none, ◌∷◌, Option-cases, [], inl, arith, text_eq_iff, inr, ◌∙◌, Bool-cases, text_eq_refl, refl,
}
use agent_veil.Ledger.{
  LedgerError, IssuedToken, TokenLedger, rollback_created, issue_tracked, make_room, some,
}
use agent_veil.Ledger.Invariant.{IsValid, remove-IsValid}

-- The entry belongs to the scope.
abbrev pub is_owned : Text → Option Entry → Bool
is_owned scope none = false
is_owned scope (some e) = text_eq e.scope scope

module _ {R : Type 0} where
  -- A rollback removes exactly the listed tokens of its scope, and no other entry changes.
  pub get-rollback_created :
      (scope : Text) (ts : List Text) (s : TokenLedger R)
      → IsValid s
      → (k : Text)
      → get k (rollback_created scope ts s).entries
        ≡ (if contains ts k && is_owned scope (get k s.entries) then none else get k s.entries)
  unfolding rollback_created contains
  get-rollback_created scope [] s v k = refl
  get-rollback_created scope (t ∷ ts) s v k = elim (Option-cases (get t s.entries)) [
    | inl e ↦
        rw (e, rollback_created)
          (ground (arith, get-rollback_created scope ts s v k, text_eq_iff t k, e))
    | inr (x, e) ↦ elim (Bool-cases (text_eq x.scope scope)) [
      | inl own ↦
          rw (e, rollback_created, own)
            (ground (
              arith,
              get-rollback_created scope ts (record s { entries = remove t s.entries })
                  (remove-IsValid t s v) k,
              get-remove k t s.entries v.apart,
              text_eq_iff t k,
              e,
              own,
            ))
      | inr other ↦
          rw (e, rollback_created, other)
            (ground (arith, get-rollback_created scope ts s v k, text_eq_iff t k, e, other))
    ]
  ]

module _ {R : Type 0} (fill : R → Result LedgerError Text × R) where
  -- Rolling back a token that a call has just created leaves the entries that the call had found,
  -- less those that had expired and the one that it had evicted.
  pub rollback_created-issue :
      (scope : Text) (c : DataClass) (value : Text) (now ttl : ℕ) (s : TokenLedger R)
      → IsValid s
      → (i : IssuedToken) (s' : TokenLedger R)
      → issue_tracked fill scope c value now ttl s ≡ (ok i, s')
      → i.created ≡ true
      → (k : Text)
      → get k (rollback_created scope (i.token ∷ []) s').entries
        ≡ get k (make_room (ready fill now s)).entries
  rollback_created-issue scope c value now ttl s v i s' h created k =
      let post = issue_tracked-Issues fill scope c value now ttl s v i s' h in
      let v' : IsValid s' = issued-IsValid fill scope c value now ttl s v i s' h in
      get-rollback_created scope (i.token ∷ []) s' v' k
      ∙ (unfold contains in
          ground (
            arith,
            post.others k,
            post.fresh created,
            created,
            text_eq_iff i.token k,
            text_eq_refl scope,
          ))
