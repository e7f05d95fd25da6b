-- ===== src/Ledger/View.antt =====
-- What a session can read of the ledger of src/ledger.rs, and what `restore_exact`, `owns_token`,
-- `clear_scope` and the purge do to it.
use agent_veil.Ledger.Entries.Find.{get-insert}
use agent_veil.Ledger.Entries.Apart.{get-retain}
use agent_veil.Prelude.{
  ◌≤◌, ◌≡◌, Option-cases, ◌∙◌, is_some, if◌then◌else◌, ltb, inl, arith, text_eq, ◌&&◌, inr, none,
  not, text_eq_iff,
}
use agent_veil.Ledger.{
  TokenLedger, purge_expired, advance, restore_from, restore_exact, owns_token, clear_scope, Text,
  ℕ, Option, Entry, get, some,
}
use agent_veil.Ledger.Invariant.{IsValid}

-- The value of an entry for a scope at a time: the scope's own entry, before its expiry.
abbrev pub visible : Text → ℕ → Option Entry → Option Text
visible scope now none = none
visible scope now (some e) =
    if text_eq e.scope scope && ltb now e.expires_at_ms then some e.value else none

-- The abstract ledger: a partial function from scope, time and token to the value.
unfoldable pub view : {R : Type 0} → TokenLedger R → Text → ℕ → Text → Option Text
view s scope now token = visible scope now (get token s.entries)

module _ {R : Type 0} (s : TokenLedger R) (v : IsValid s) where
  -- The purge at one time hides nothing from that time on.
  pub view-purge_expired :
      (now later : ℕ) (scope token : Text)
      → now ≤ later
      → view (purge_expired now s) scope later token ≡ view s scope later token
  unfolding view purge_expired
  view-purge_expired now later scope token h =
      rw (get-retain token (λ e. ltb now e.expires_at_ms) s.entries v.apart)
        (elim (Option-cases (get token s.entries)) [
          | inl e ↦ rw e
          | inr (x, e) ↦ rw e (ground arith)
        ])

module _ {R : Type 0} (scope token : Text) (now : ℕ) where
  restore_from-view :
      (s : TokenLedger R) → (restore_from scope token now s).0 ≡ view s scope now token
  unfolding restore_from view
  restore_from-view s = elim (Option-cases (get token s.entries)) [
    | inl e ↦ rw (e, restore_from)
    | inr (x, e) ↦ rw (e, restore_from) (ground arith)
  ]

  -- Restoring a token returns exactly what the scope can see of it at that time.
  pub restore_exact-view :
      (s : TokenLedger R) → IsValid s → (restore_exact scope token now s).0 ≡ view s scope now token
  unfolding restore_exact
  restore_exact-view s v =
      restore_from-view (advance (purge_expired now s))
      ∙ (unfold view advance in view-purge_expired s v now now scope token (omega arith))

  -- Owning a token is to see a value.
  pub owns_token-view :
      (s : TokenLedger R)
      → IsValid s
      → (owns_token scope token now s).0 ≡ is_some (view s scope now token)
  unfolding owns_token
  owns_token-view s v = rw (← view-purge_expired s v now now scope token (omega arith)) (
      unfold view in
      elim (Option-cases (get token (purge_expired now s).entries)) [
        | inl e ↦ rw (e, owns_token)
        | inr (x, e) ↦ rw (e, owns_token) (ground arith)
      ])

module _ {R : Type 0} (s : TokenLedger R) where
  view-restore_from :
      (scope token : Text) (now : ℕ) (scope' token' : Text) (later : ℕ)
      → view (restore_from scope token now s).1 scope' later token' ≡ view s scope' later token'
  unfolding restore_from view
  view-restore_from scope token now scope' token' later =
      elim (Option-cases (get token s.entries)) [
        | inl e ↦ rw (e, restore_from)
        | inr (x, e) ↦
            let x' : Entry = record x { last_used_sequence = s.sequence } in
            ground (arith, e, get-insert token' token x' s.entries, text_eq_iff token token')
      ]

module _ {R : Type 0} (s : TokenLedger R) (v : IsValid s) where
  -- A restore changes nothing that any scope can see from then on.
  pub view-restore_exact :
      (scope token : Text) (now : ℕ) (scope' token' : Text) (later : ℕ)
      → now ≤ later
      → view (restore_exact scope token now s).1 scope' later token' ≡ view s scope' later token'
  unfolding restore_exact
  view-restore_exact scope token now scope' token' later h =
      view-restore_from (advance (purge_expired now s)) scope token now scope' token' later
      ∙ (unfold view advance in view-purge_expired s v now later scope' token' h)

  -- Clearing a scope hides its tokens and no others.
  pub view-clear_scope :
      (scope scope' token : Text) (now : ℕ)
      → view (clear_scope scope s).1 scope' now token
        ≡ (if text_eq scope scope' then none else view s scope' now token)
  unfolding view clear_scope
  view-clear_scope scope scope' token now =
      rw (get-retain token (λ e. not (text_eq e.scope scope)) s.entries v.apart)
        (elim (Option-cases (get token s.entries)) [
          | inl e ↦ rw e (ground arith)
          | inr (x, e) ↦ rw e (
              ground (
                arith,
                text_eq_iff x.scope scope,
                text_eq_iff x.scope scope',
                text_eq_iff scope scope',
              ))
        ])
