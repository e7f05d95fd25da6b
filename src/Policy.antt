-- ===== src/Policy.antt =====
-- The policy and its validation (src/policy.rs). A `BTreeMap` is the list of its entries in the
-- order of the keys; `serde_yaml`, `serde_json` and `blake3` are parameters.
pub mod Rules
pub mod Sound
pub mod Accepts
pub mod Tests
use agent_veil.Prelude.{
  ℕ, ◌*◌, Text, bytes, text_eq, contains, Bool, false, not, ◌&&◌, ◌||◌, Option, none, some, List,
  [], ◌∷◌, ◌++◌, length, all, any, ltb, leb, ◌==◌, if◌then◌else◌, Result, ok, ◌>>=◌, ◌>>◌,
  refuse_if, ok_or, unwrap_or, is_some, is_ascii_lowercase, is_ascii_digit,
}
use agent_veil.Domain.{DataClass, Action, policy_key, hard_block, action_eq}

abbrev pub max_restoration_ttl_seconds : ℕ
max_restoration_ttl_seconds = 30 * 60

abbrev pub default_restoration_ttl_seconds : ℕ
default_restoration_ttl_seconds = 15 * 60

pub data RestorationDefault : Type 0 where
  deny : RestorationDefault

pub record PolicyDefaults : Type 0 where
  pub unknown_sensitive : Action
  pub raw_logging : Bool
  pub restoration : RestorationDefault
  pub max_request_bytes : ℕ
  pub ledger_max_entries : ℕ

pub record CategoryRule : Type 0 where
  pub action : Action
  pub restorable : Bool
  pub ttl_seconds : Option ℕ

pub record DetectorSettings : Type 0 where
  pub internal_hostname_suffixes : List Text
  pub custom_terms : List Text
  pub home_prefixes : List Text

abbrev pub Categories : Type 0
Categories = List (Text × CategoryRule)

pub record Policy : Type 0 where
  pub version : ℕ
  pub name : Text
  pub description : Text
  pub defaults : PolicyDefaults
  pub categories : Categories
  pub detectors : DetectorSettings

pub record ValidatedPolicy : Type 0 where
  pub inner : Policy
  pub hash : Text

pub data PolicyError : Type 0 where
  parse canonicalize unsafe_policy_name raw_logging_forbidden : PolicyError
  unknown_sensitive_must_block invalid_max_request_bytes invalid_ledger_capacity : PolicyError
  too_many_detector_terms unsafe_detector_term : PolicyError
  unsupported_version : ℕ → PolicyError
  unknown_category missing_category : Text → PolicyError
  hard_block_invariant hard_block_restoration : DataClass → PolicyError
  restoration_requires_tokenize tokenization_requires_restoration : DataClass → PolicyError
  ttl_requires_tokenize invalid_ttl : DataClass → PolicyError

abbrev pub all_data_classes : List DataClass
all_data_classes =
    DataClass.credentials ∷ DataClass.private_key ∷ DataClass.jwt ∷ DataClass.database_credential
    ∷ DataClass.email ∷ DataClass.phone ∷ DataClass.private_ipv4 ∷ DataClass.internal_hostname
    ∷ DataClass.home_path ∷ DataClass.custom_term ∷ DataClass.token_namespace ∷ []

unfoldable pub known_category_keys : List Text
unfolding bytes
known_category_keys =
    bytes "credentials"
    ∷ bytes "private_keys"
    ∷ bytes "security.jwt"
    ∷ bytes "network.database_url"
    ∷ bytes "pii.email"
    ∷ bytes "pii.phone"
    ∷ bytes "infrastructure.private_ip"
    ∷ bytes "infrastructure.hostname"
    ∷ bytes "filesystem.home_path"
    ∷ bytes "custom.term"
    ∷ bytes "agentveil.token_namespace"
    ∷ []

-- `categories.get(key)`
unfoldable pub lookup : Text → Categories → Option CategoryRule
lookup k [] = none
lookup k ((j, r) ∷ m) = if text_eq j k then some r else lookup k m

unfoldable pub validate_rule : DataClass → CategoryRule → Result PolicyError (Unit {0})
validate_rule c r = do
  refuse_if (hard_block c && not (action_eq r.action Action.block))
      (PolicyError.hard_block_invariant c)
  refuse_if (hard_block c && r.restorable) (PolicyError.hard_block_restoration c)
  refuse_if (r.restorable && not (action_eq r.action Action.tokenize))
      (PolicyError.restoration_requires_tokenize c)
  refuse_if (action_eq r.action Action.tokenize && not r.restorable)
      (PolicyError.tokenization_requires_restoration c)
  refuse_if (not (action_eq r.action Action.tokenize) && is_some r.ttl_seconds)
      (PolicyError.ttl_requires_tokenize c)
  let ttl = unwrap_or r.ttl_seconds default_restoration_ttl_seconds
  refuse_if
      (action_eq r.action Action.tokenize && (ttl == 0 || ltb max_restoration_ttl_seconds ttl))
      (PolicyError.invalid_ttl c)

-- `char::is_control`, read off UTF-8: U+0000 to U+001F and U+007F are one byte, U+0080 to U+009F
-- are 0xC2 and a byte from 0x80 to 0x9F.
unfoldable pub has_control : Text → Bool
has_control [] = false
has_control (b ∷ []) = ltb b 32 || b == 127
has_control (b ∷ c ∷ s) =
    (ltb b 32 || b == 127 || (b == 0xC2 && leb 0x80 c && leb c 0x9F)) || has_control (c ∷ s)

unfoldable pub unsafe_term : Text → Bool
unsafe_term t = ltb (length t) 3 || ltb 128 (length t) || has_control t

unfoldable pub validate_detector_settings : DetectorSettings → Result PolicyError (Unit {0})
validate_detector_settings s = do
  refuse_if
      (ltb 64 (length s.internal_hostname_suffixes)
        || ltb 128 (length s.custom_terms)
        || ltb 16 (length s.home_prefixes))
      PolicyError.too_many_detector_terms
  refuse_if (any unsafe_term (s.internal_hostname_suffixes ++ (s.custom_terms ++ s.home_prefixes)))
      PolicyError.unsafe_detector_term

unfoldable pub is_slug_byte : ℕ → Bool
is_slug_byte b = is_ascii_lowercase b || is_ascii_digit b || b == b'-' || b == b'_'

unfoldable pub is_safe_slug : Text → Bool
is_safe_slug s = not (length s == 0) && leb (length s) 48 && all is_slug_byte s

-- The loop over `categories.keys()`.
unfoldable pub check_keys : Categories → Result PolicyError (Unit {0})
check_keys [] = ok tt
check_keys ((k, r) ∷ m) = do
  refuse_if (not (contains known_category_keys k)) (PolicyError.unknown_category k)
  check_keys m

-- The loop over `ALL_DATA_CLASSES`.
unfoldable pub check_classes : Categories → List DataClass → Result PolicyError (Unit {0})
check_classes m [] = ok tt
check_classes m (c ∷ cs) = do
  rule ← ok_or (lookup (policy_key c) m) (PolicyError.missing_category (policy_key c))
  validate_rule c rule
  check_classes m cs

-- The checks of `ValidatedPolicy::validate` in their order.
unfoldable pub check_policy : Policy → Result PolicyError (Unit {0})
check_policy p = do
  refuse_if (not (p.version == 1)) (PolicyError.unsupported_version p.version)
  refuse_if (not (is_safe_slug p.name)) PolicyError.unsafe_policy_name
  refuse_if p.defaults.raw_logging PolicyError.raw_logging_forbidden
  refuse_if (not (action_eq p.defaults.unknown_sensitive Action.block))
      PolicyError.unknown_sensitive_must_block
  refuse_if
      (not (
        leb 1024 p.defaults.max_request_bytes
        && leb p.defaults.max_request_bytes (8 * 1024 * 1024)))
      PolicyError.invalid_max_request_bytes
  refuse_if (not (leb 1 p.defaults.ledger_max_entries && leb p.defaults.ledger_max_entries 16384))
      PolicyError.invalid_ledger_capacity
  check_keys p.categories
  check_classes p.categories all_data_classes
  validate_detector_settings p.detectors

-- `serde_json::to_vec` and the hexadecimal digest of `blake3::hash` are parameters.
module _ (to_vec : Policy → Option Text) (digest : Text → Text) where
  unfoldable pub validate : Policy → Result PolicyError ValidatedPolicy
  validate p = do
    check_policy p
    canonical ← ok_or (to_vec p) PolicyError.canonicalize
    ok (record { inner = p; hash = digest canonical })

  -- `serde_yaml::from_slice` is `from_slice`.
  unfoldable pub from_yaml : (Text → Option Policy) → Text → Result PolicyError ValidatedPolicy
  from_yaml from_slice source = do p ← ok_or (from_slice source) PolicyError.parse; validate p

-- The indexing `categories[key]` panics where this is `none`.
unfoldable pub rule_for : ValidatedPolicy → DataClass → Option CategoryRule
rule_for v c = lookup (policy_key c) v.inner.categories
