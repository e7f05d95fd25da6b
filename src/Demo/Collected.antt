-- ===== src/Demo/Collected.antt =====
-- The tokens that src/demo.rs collects from a request are those that stand in its strings.
use agent_veil.Demo.Reads.{Reads}
use agent_veil.Demo.Standing.{token_at-Reads, Reads-token_at}
use agent_veil.Demo.Tokens.{
  TokenSets, codex_demo_tokens, collect_both, collect_codex_demo_tokens, collect_token_members,
  collect_token_values, collect_tokens_with_prefix, only_tokens,
}
use agent_veil.Detector.Matches.{match_indices}
use agent_veil.Payload.Value.{Value, Values, Members}
use agent_veil.Prelude.{
  ℕ, ◌≡◌, ◌≢◌, ◌⊎◌, ◌↔◌, Text, bytes, List, some, [], ◌∷◌, All, In, arith, inl, inr, refl, sym,
  subst,
}
use agent_veil.Demo.Places.{collect_at-In, In-collect_at}

-- Some string of the value, its keys among them, has the property.
mutual
  pub HasString : (Text → Type 0) → Value → Type 0
  HasString P (Value.string s) = P s
  HasString P (Value.array vs) = HasStringValues P vs
  HasString P (Value.object ms) = HasStringMembers P ms
  HasString P Value.null = ⊥
  HasString P (Value.boolean b) = ⊥
  HasString P (Value.number n) = ⊥

  pub HasStringValues : (Text → Type 0) → Values → Type 0
  HasStringValues P Values.nil = ⊥
  HasStringValues P (Values.cons v vs) = HasString P v ⊎ HasStringValues P vs

  pub HasStringMembers : (Text → Type 0) → Members → Type 0
  HasStringMembers P Members.end = ⊥
  HasStringMembers P (Members.member k v ms) = P k ⊎ HasString P v ⊎ HasStringMembers P ms

-- One of the two sets, with the prefix of its tokens.
module _ (set : TokenSets → List Text) (first : ℕ) (p : Text) (once : All (λ b. b ≢ first) p)
    (both : (s : Text) (sets : TokenSets)
      → set (collect_both s sets) ≡ collect_tokens_with_prefix s (first ∷ p) (set sets))
    (t : Text) where
  abbrev Stands : Text → Type 0
  Stands = Reads (first ∷ p) t

  both-In :
      (s : Text) (sets : TokenSets) → In t (set (collect_both s sets)) → In t (set sets) ⊎ Stands s
  unfolding collect_tokens_with_prefix
  both-In s sets m =
      elim (collect_at-In s (first ∷ p) t (match_indices s (first ∷ p)) (set sets)
        (subst (In t) (both s sets) m)) [
          | inl old ↦ inl old
          | inr (start, at, h) ↦ inr (token_at-Reads first p once s t start at h)
        ]

  In-both :
      (s : Text) (sets : TokenSets) → In t (set sets) ⊎ Stands s → In t (set (collect_both s sets))
  unfolding collect_tokens_with_prefix
  In-both s sets m = subst (In t) (sym (both s sets)) (
      In-collect_at s (first ∷ p) t (match_indices s (first ∷ p)) (set sets)
        (elim m [ inl old ↦ inl old | inr r ↦ inr (Reads-token_at first p once s t r) ]))

  mutual
    unfolding collect_codex_demo_tokens HasString

    collect-In :
        (v : Value) (sets : TokenSets)
        → In t (set (collect_codex_demo_tokens v sets))
        → In t (set sets) ⊎ HasString Stands v
    collect-In Value.null sets m = inl m
    collect-In (Value.boolean b) sets m = inl m
    collect-In (Value.number n) sets m = inl m
    collect-In (Value.string s) sets m = both-In s sets m
    collect-In (Value.array vs) sets m = collect_values-In vs sets m
    collect-In (Value.object ms) sets m = collect_members-In ms sets m

    collect_values-In :
        (vs : Values) (sets : TokenSets)
        → In t (set (collect_token_values vs sets))
        → In t (set sets) ⊎ HasStringValues Stands vs
    collect_values-In Values.nil sets m = inl m
    collect_values-In (Values.cons v vs) sets m =
        elim (collect_values-In vs (collect_codex_demo_tokens v sets) m) [
          | inr later ↦ inr (inr later)
          | inl sooner ↦ elim (collect-In v sets sooner) [
            | inl old ↦ inl old
            | inr here ↦ inr (inl here)
          ]
        ]

    collect_members-In :
        (ms : Members) (sets : TokenSets)
        → In t (set (collect_token_members ms sets))
        → In t (set sets) ⊎ HasStringMembers Stands ms
    collect_members-In Members.end sets m = inl m
    collect_members-In (Members.member k v ms) sets m =
        elim (collect_members-In ms (collect_codex_demo_tokens v (collect_both k sets)) m) [
          | inr later ↦ inr (inr (inr later))
          | inl sooner ↦ elim (collect-In v (collect_both k sets) sooner) [
            | inr here ↦ inr (inr (inl here))
            | inl first_of ↦ elim (both-In k sets first_of) [
              | inl old ↦ inl old
              | inr key ↦ inr (inl key)
            ]
          ]
        ]

  mutual
    unfolding collect_codex_demo_tokens HasString

    In-collect :
        (v : Value) (sets : TokenSets)
        → In t (set sets) ⊎ HasString Stands v
        → In t (set (collect_codex_demo_tokens v sets))
    In-collect Value.null sets (inl m) = m
    In-collect Value.null sets (inr m) = absurd m
    In-collect (Value.boolean b) sets (inl m) = m
    In-collect (Value.boolean b) sets (inr m) = absurd m
    In-collect (Value.number n) sets (inl m) = m
    In-collect (Value.number n) sets (inr m) = absurd m
    In-collect (Value.string s) sets m = In-both s sets m
    In-collect (Value.array vs) sets m = In-collect_values vs sets m
    In-collect (Value.object ms) sets m = In-collect_members ms sets m

    In-collect_values :
        (vs : Values) (sets : TokenSets)
        → In t (set sets) ⊎ HasStringValues Stands vs
        → In t (set (collect_token_values vs sets))
    In-collect_values Values.nil sets (inl m) = m
    In-collect_values Values.nil sets (inr m) = absurd m
    In-collect_values (Values.cons v vs) sets (inl old) =
        In-collect_values vs (collect_codex_demo_tokens v sets) (inl (In-collect v sets (inl old)))
    In-collect_values (Values.cons v vs) sets (inr (inl here)) =
        In-collect_values vs (collect_codex_demo_tokens v sets) (inl (In-collect v sets (inr here)))
    In-collect_values (Values.cons v vs) sets (inr (inr later)) =
        In-collect_values vs (collect_codex_demo_tokens v sets) (inr later)

    In-collect_members :
        (ms : Members) (sets : TokenSets)
        → In t (set sets) ⊎ HasStringMembers Stands ms
        → In t (set (collect_token_members ms sets))
    In-collect_members Members.end sets (inl m) = m
    In-collect_members Members.end sets (inr m) = absurd m
    In-collect_members (Members.member k v ms) sets (inl old) =
        In-collect_members ms (collect_codex_demo_tokens v (collect_both k sets))
          (inl (In-collect v (collect_both k sets) (inl (In-both k sets (inl old)))))
    In-collect_members (Members.member k v ms) sets (inr (inl key)) =
        In-collect_members ms (collect_codex_demo_tokens v (collect_both k sets))
          (inl (In-collect v (collect_both k sets) (inl (In-both k sets (inr key)))))
    In-collect_members (Members.member k v ms) sets (inr (inr (inl here))) =
        In-collect_members ms (collect_codex_demo_tokens v (collect_both k sets))
          (inl (In-collect v (collect_both k sets) (inr here)))
    In-collect_members (Members.member k v ms) sets (inr (inr (inr later))) =
        In-collect_members ms (collect_codex_demo_tokens v (collect_both k sets)) (inr later)

-- A token stands in a string of the value exactly if it is the given one.
abbrev pub HasOnly : Text → Text → Value → Type 0
HasOnly prefix token v = (t : Text) → HasString (Reads prefix t) v ↔ (t ≡ token)

only_tokens-some :
    (es ps : List Text) (e p : Text)
    → only_tokens es ps ≡ some (e, p)
    → (es ≡ e ∷ []) × (ps ≡ p ∷ [])
unfolding only_tokens
only_tokens-some (e ∷ []) (p ∷ []) e' p' h = (cc h, cc h)
only_tokens-some [] ps e' p' h = absurd (cc h)
only_tokens-some (e ∷ []) [] e' p' h = absurd (cc h)
only_tokens-some (e ∷ []) (p ∷ q ∷ ps) e' p' h = absurd (cc h)
only_tokens-some (e ∷ f ∷ es) ps e' p' h = absurd (cc h)

-- The tokens of an address and of a host that are found are the only ones in the request.
pub codex_demo_tokens-HasOnly :
    (request : Value) (email private_ip : Text)
    → codex_demo_tokens request ≡ some (email, private_ip)
    → HasOnly (bytes "[AV_EMAIL_") email request × HasOnly (bytes "[AV_IPV4_") private_ip request
unfolding codex_demo_tokens collect_both bytes
codex_demo_tokens-HasOnly request email private_ip h =
    let none_yet : TokenSets = record { email_tokens = []; private_ip_tokens = [] } in
    let sets : TokenSets = collect_codex_demo_tokens request none_yet in
    let (es, ps) = only_tokens-some sets.email_tokens sets.private_ip_tokens email private_ip h in
    (
      λ t. (
        λ m. only_member t email (
            subst (In t) es (
              In-collect (λ s. s.email_tokens) b'[' (bytes "AV_EMAIL_") (omega arith)
                (λ s sets. refl) t request none_yet (inr m))),
        λ e. fresh_member (
            collect-In (λ s. s.email_tokens) b'[' (bytes "AV_EMAIL_") (omega arith) (λ s sets. refl)
              t request none_yet (subst (In t) (sym es) (inl e))),
      ),
      λ t. (
        λ m. only_member t private_ip (
            subst (In t) ps (
              In-collect (λ s. s.private_ip_tokens) b'[' (bytes "AV_IPV4_") (omega arith)
                (λ s sets. refl) t request none_yet (inr m))),
        λ e. fresh_member (
            collect-In (λ s. s.private_ip_tokens) b'[' (bytes "AV_IPV4_") (omega arith)
              (λ s sets. refl) t request none_yet (subst (In t) (sym ps) (inl e))),
      ),
    )
  where
    only_member : (t u : Text) → In t (u ∷ []) → t ≡ u
    only_member t u (inl e) = e
    only_member t u (inr m) = absurd m

    fresh_member : {P : Type 0} → ⊥ ⊎ P → P
    fresh_member (inl m) = absurd m
    fresh_member (inr x) = x
