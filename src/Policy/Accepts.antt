-- ===== src/Policy/Accepts.antt =====
-- `ValidatedPolicy::validate` of src/policy.rs as a whole, and what its callers may rely on.
use agent_veil.Prelude.{◌≡◌, ◌↔◌, some, Option, Text, ok, arith, Option-cases, inl, inr}
use agent_veil.Domain.{DataClass}
use agent_veil.Policy.{Policy, CategoryRule, ValidatedPolicy, validate, rule_for}
use agent_veil.Policy.Rules.{IsSafeRule}
use agent_veil.Policy.Sound.{IsWellFormed, check_policy→IsWellFormed, IsWellFormed→check_policy}

module _ (to_vec : Policy → Option Text) (digest : Text → Text) where
  -- What validation accepts: a well-formed policy, kept as it is beside its digest.
  pub Accepts : Policy → ValidatedPolicy → Type 0
  Accepts p v =
      (b : Text) × (to_vec p ≡ some b)
      × (v ≡ record { inner = p; hash = digest b })
      × IsWellFormed p

  validate→Accepts :
      (p : Policy) (v : ValidatedPolicy) → validate to_vec digest p ≡ ok v → Accepts p v
  unfolding validate Accepts
  validate→Accepts p v h = elim (Option-cases (to_vec p)) [
    | inl failed ↦ absurd (ground arith)
    | inr (b, made) ↦ (b, made, ground arith, check_policy→IsWellFormed p (ground arith))
  ]

  Accepts→validate :
      (p : Policy) (v : ValidatedPolicy) → Accepts p v → validate to_vec digest p ≡ ok v
  unfolding validate Accepts
  Accepts→validate p v (b, made, e, w) = rw (IsWellFormed→check_policy p w, made, e)

  -- Validation returns exactly the well-formed policies whose canonical form exists, unchanged and
  -- with the digest of that form; every other policy is an error.
  pub validate_iff :
      (p : Policy) (v : ValidatedPolicy) → (validate to_vec digest p ≡ ok v) ↔ Accepts p v
  validate_iff p v = (validate→Accepts p v, Accepts→validate p v)

  -- After validation every class has a rule, so the indexing in `rule_for` never panics, and the
  -- rule is safe: hard classes block, only tokenize restores, and its time to live is bounded.
  pub rule_for_total :
      (p : Policy) (v : ValidatedPolicy)
      → validate to_vec digest p ≡ ok v
      → (c : DataClass) → (r : CategoryRule) × (rule_for v c ≡ some r) × IsSafeRule c r
  unfolding rule_for Accepts
  rule_for_total p v h c = let (b, made, e, w) = validate→Accepts p v h in rw e (w.rules c)
