-- ===== src/Ledger/RoundTrip.antt =====
-- Issuing and restoring tokens in src/ledger.rs, one call after another.
use agent_veil.Ledger.Issue.{not-held}
use agent_veil.Ledger.Entries.Find.{All-get, find-some, In-of_get}
use agent_veil.Ledger.Entries.Apart.{get-retain, secret, holds_iff, Apart-unique}
use agent_veil.Ledger.Entries.{get, find, holds}
use agent_veil.Prelude.{
  ◌≡◌, ok, if◌then◌else◌, ◌<◌, text_eq, ◌+◌, ◌&&◌, ◌*◌, ltb, false, some, none, ◌∙◌, text_eq_refl,
  arith, Option-cases, inl, ◌≢◌, inr, refl,
}
use agent_veil.Ledger.{
  LedgerError, IssuedToken, TokenLedger, issue_tracked, restore_exact, check_issue, place,
  purge_expired, advance, Result, Text, DataClass, ℕ, Entry,
}
use agent_veil.Ledger.Invariant.{IsValid}
use agent_veil.Ledger.Issued.{
  issue_tracked-Issues, ready, ready-IsValid, IsFresh-purge_expired, issued-IsValid,
}
use agent_veil.Ledger.View.{view, restore_exact-view}

module _ {R : Type 0} (fill : R → Result LedgerError Text × R) where
  -- A token that was just issued restores its value in its own scope until it expires, and nothing
  -- in any other scope or from the time of its expiry on.
  pub restore-issue :
      (scope : Text) (c : DataClass) (value : Text) (now ttl : ℕ) (s : TokenLedger R)
      → IsValid s
      → (i : IssuedToken) (s' : TokenLedger R)
      → issue_tracked fill scope c value now ttl s ≡ (ok i, s')
      → (scope' : Text) (later : ℕ)
      → (restore_exact scope' i.token later s').0
        ≡ (if text_eq scope scope' && ltb later (now + ttl * 1000) then some value else none)
  restore-issue scope c value now ttl s v i s' h scope' later =
      let post = issue_tracked-Issues fill scope c value now ttl s v i s' h in
      let v' : IsValid s' = issued-IsValid fill scope c value now ttl s v i s' h in
      restore_exact-view scope' i.token later s' v'
      ∙ (unfold view in rw (post.others i.token, text_eq_refl))

  -- In a valid ledger that still holds a token whose time has not come, however much was issued and
  -- restored since, a request for the scope, class and value of the token that passes the checks
  -- returns that token, and reports that none was created.
  pub issue_tracked_again :
      (t : Text) (e : Entry) (l : TokenLedger R)
      → IsValid l
      → get t l.entries ≡ some e
      → (now ttl expires : ℕ) → now < e.expires_at_ms
      → check_issue e.data_class e.value now ttl ≡ ok expires
      → (issue_tracked fill e.scope e.data_class e.value now ttl l).0
        ≡ ok (record { token = t; created = false })
  unfolding issue_tracked place
  issue_tracked_again t e l v stands now ttl expires early passed =
      let r : TokenLedger R = ready fill now l in
      let vr : IsValid r = ready-IsValid fill now l v in
      let kept : get t r.entries ≡ some e =
        (unfold purge_expired advance in
          get-retain t (λ x. ltb now x.expires_at_ms) l.entries v.apart
          ∙ rw stands (ground arith)) in
      elim (Option-cases
        (find (λ x. holds e.scope e.data_class e.value x && ltb now x.expires_at_ms) r.entries)) [
          | inl missed ↦ absurd (
              All-get (λ x. secret x.1 ≢ (e.scope, e.data_class, e.value)) t r.entries e
                (not-held e.scope e.data_class e.value now r.entries missed
                  (IsFresh-purge_expired now l))
                kept refl)
          | inr ((t', e'), found) ↦
              let (live, at) = find-some _ r.entries t' e' found in
              let held : secret e' ≡ secret e =
                (holds_iff e.scope e.data_class e.value e').0 (ground arith) in
              let same : t' ≡ t =
                Apart-unique r.entries t' t e' e vr.apart at (In-of_get t e r.entries kept) held in
              rw (passed, issue_tracked, found, place, same)
        ]
