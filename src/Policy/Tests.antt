-- ===== src/Policy/Tests.antt =====
-- Runs of the validation of src/policy.rs on policies/default.yaml, and its theorems at that policy.
use agent_veil.Domain.{Action, hard_block, DataClass, action_eq, policy_key}
use agent_veil.Prelude.{
  Text, bytes, Option, ◌≡◌, false, true, some, ok, none, err, ◌↔◌, ◌∷◌, [], refl,
  is_ascii_lowercase, is_ascii_digit, text_eq, contains,
}
use agent_veil.Policy.{
  CategoryRule, Policy, ValidatedPolicy, validate, validate_rule, check_policy, rule_for,
  check_keys, RestorationDefault, check_classes, lookup, PolicyError, validate_detector_settings,
  is_safe_slug, is_slug_byte, unsafe_term, has_control, known_category_keys,
}
use agent_veil.Policy.Accepts.{Accepts, validate_iff, rule_for_total}
use agent_veil.Policy.Rules.{IsSafeRule}

abbrev pub blocks : CategoryRule
blocks = record { action = Action.block; restorable = false; ttl_seconds = none }

abbrev pub masks : CategoryRule
masks = record { action = Action.mask; restorable = false; ttl_seconds = none }

abbrev pub tokenizes : CategoryRule
tokenizes = record { action = Action.tokenize; restorable = true; ttl_seconds = some 900 }

abbrev pub default : Policy
default = record {
  version = 1;
  name = bytes "default";
  description = bytes "Balanced local protection for verified Codex CLI traffic";
  defaults = record {
    unknown_sensitive = Action.block;
    raw_logging = false;
    restoration = RestorationDefault.deny;
    max_request_bytes = 4194304;
    ledger_max_entries = 4096;
  };
  categories =
      (bytes "agentveil.token_namespace", blocks)
      ∷ (bytes "credentials", blocks)
      ∷ (bytes "custom.term", masks)
      ∷ (bytes "filesystem.home_path", masks)
      ∷ (bytes "infrastructure.hostname", tokenizes)
      ∷ (bytes "infrastructure.private_ip", tokenizes)
      ∷ (bytes "network.database_url", blocks)
      ∷ (bytes "pii.email", masks)
      ∷ (bytes "pii.phone", masks)
      ∷ (bytes "private_keys", blocks)
      ∷ (bytes "security.jwt", blocks)
      ∷ [];
  detectors = record { internal_hostname_suffixes = []; custom_terms = []; home_prefixes = [] };
}

-- A stand-in for the canonical form and its digest.
abbrev pub to_vec : Policy → Option Text
to_vec p = some p.name

abbrev pub digest : Text → Text
digest s = s

abbrev pub validated : ValidatedPolicy
validated = record { inner = default; hash = bytes "default" }

pub default_validates : validate to_vec digest default ≡ ok validated
unfolding validate check_policy check_keys check_classes lookup validate_rule
    validate_detector_settings is_safe_slug is_slug_byte unsafe_term has_control is_ascii_lowercase
    is_ascii_digit text_eq contains known_category_keys policy_key bytes action_eq hard_block
default_validates = refl

-- A policy that lets credentials pass is refused.
credentials_must_block :
    validate_rule DataClass.credentials masks
    ≡ err (PolicyError.hard_block_invariant DataClass.credentials)
unfolding validate_rule hard_block action_eq
credentials_must_block = refl

validate_iff_example :
    (validate to_vec digest default ≡ ok validated) ↔ Accepts to_vec digest default validated
validate_iff_example = validate_iff to_vec digest default validated

rule_for_total_example :
    (r : CategoryRule) × (rule_for validated DataClass.email ≡ some r)
    × IsSafeRule DataClass.email r
rule_for_total_example =
    rule_for_total to_vec digest default validated default_validates DataClass.email
