-- ===== src/Policy/Rules.antt =====
-- One rule of a policy: what `validate_rule` of src/policy.rs accepts.
use agent_veil.Prelude.{
  ℕ, ◌≤◌, ◌<◌, ◌≡◌, ◌↔◌, true, some, Option-cases, inl, inr, unwrap_or, ok, arith,
}
use agent_veil.Domain.{DataClass, Action, hard_block, action_eq}
use agent_veil.Policy.{
  CategoryRule, validate_rule, max_restoration_ttl_seconds, default_restoration_ttl_seconds,
}

-- The rule as the documentation words it.
pub record IsSafeRule (c : DataClass) (r : CategoryRule) : Type 0 where
  pub hard : hard_block c ≡ true → r.action ≡ Action.block
  pub restorable : (r.restorable ≡ true) ↔ (r.action ≡ Action.tokenize)
  pub ttl :
      (t : ℕ)
      → r.ttl_seconds ≡ some t
      → (r.action ≡ Action.tokenize) × (0 < t) × (t ≤ max_restoration_ttl_seconds)

pub validate_rule→IsSafeRule :
    (c : DataClass) (r : CategoryRule) → validate_rule c r ≡ ok tt → IsSafeRule c r
unfolding validate_rule action_eq
validate_rule→IsSafeRule c r h = record {
  hard = λ e. ground arith;
  restorable = (λ e. ground arith, λ e. ground arith);
  ttl = λ t e. ground arith;
}

pub IsSafeRule→validate_rule :
    (c : DataClass) (r : CategoryRule) → IsSafeRule c r → validate_rule c r ≡ ok tt
unfolding validate_rule action_eq
IsSafeRule→validate_rule c r s = elim (Option-cases r.ttl_seconds) [
  | inl absent ↦ ground (arith, s.hard, s.restorable.0, s.restorable.1)
  | inr (t, given) ↦ ground (arith, s.hard, s.restorable.0, s.restorable.1, s.ttl t given)
]

-- Validation of one rule accepts exactly the safe rules.
pub validate_rule_iff :
    (c : DataClass) (r : CategoryRule) → (validate_rule c r ≡ ok tt) ↔ IsSafeRule c r
validate_rule_iff c r = (validate_rule→IsSafeRule c r, IsSafeRule→validate_rule c r)

-- The time to live that the engine reads off a rule.
abbrev pub effective_ttl : CategoryRule → ℕ
effective_ttl r = unwrap_or r.ttl_seconds default_restoration_ttl_seconds

pub effective_ttl_bounds :
    (c : DataClass) (r : CategoryRule)
    → IsSafeRule c r
    → (0 < effective_ttl r) × (effective_ttl r ≤ max_restoration_ttl_seconds)
effective_ttl_bounds c r s = elim (Option-cases r.ttl_seconds) [
  | inl absent ↦ rw absent (omega arith, omega arith)
  | inr (t, given) ↦ rw given ((s.ttl t given).1, (s.ttl t given).2)
]
