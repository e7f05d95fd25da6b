-- ===== src/Policy/Sound.antt =====
-- What a policy that `ValidatedPolicy::validate` of src/policy.rs accepts looks like, and that
-- nothing else is refused.
use agent_veil.Prelude.{
  ℕ, ◌≤◌, ◌<◌, ◌*◌, ◌≡◌, ◌↔◌, ◌⊎◌, all, is_ascii_lowercase, is_ascii_digit, refl, ap, true, false,
  List, [], ◌∷◌, ◌++◌, some, Text, All, All-In, In-All, any-All, All-any, In, inl, inr, map, subst,
  contains→In, In→contains, length, contains, ok, arith, Option-cases,
}
use agent_veil.Domain.{DataClass, Action, policy_key, action_eq}
use agent_veil.Policy.{
  Policy, Categories, CategoryRule, DetectorSettings, lookup, validate_rule, check_keys,
  check_classes, check_policy, all_data_classes, known_category_keys, validate_detector_settings,
  unsafe_term, is_safe_slug, is_slug_byte,
}
use agent_veil.Policy.Rules.{IsSafeRule, validate_rule→IsSafeRule, IsSafeRule→validate_rule}

-- The class has a rule in the map, and it is a safe one.
abbrev pub HasSafeRule : Categories → DataClass → Type 0
HasSafeRule m c = (r : CategoryRule) × (lookup (policy_key c) m ≡ some r) × IsSafeRule c r

check_classes→All :
    (m : Categories) (cs : List DataClass) → check_classes m cs ≡ ok tt → All (HasSafeRule m) cs
unfolding check_classes
check_classes→All m [] h = tt
check_classes→All m (c ∷ cs) h = elim (Option-cases (lookup (policy_key c) m)) [
  | inl missing ↦ absurd (ground arith)
  | inr (r, found) ↦
      let valid : validate_rule c r ≡ ok tt = ground arith in
      ((r, found, validate_rule→IsSafeRule c r valid), check_classes→All m cs (ground arith))
]

All→check_classes :
    (m : Categories) (cs : List DataClass) → All (HasSafeRule m) cs → check_classes m cs ≡ ok tt
unfolding check_classes
All→check_classes m [] h = refl
All→check_classes m (c ∷ cs) ((r, found, safe), rest) =
    rw (found, IsSafeRule→validate_rule c r safe) (All→check_classes m cs rest)

In-all_data_classes : (c : DataClass) → In c all_data_classes
In-all_data_classes DataClass.credentials = inl refl
In-all_data_classes DataClass.private_key = inr (inl refl)
In-all_data_classes DataClass.jwt = inr (inr (inl refl))
In-all_data_classes DataClass.database_credential = inr (inr (inr (inl refl)))
In-all_data_classes DataClass.email = inr (inr (inr (inr (inl refl))))
In-all_data_classes DataClass.phone = inr (inr (inr (inr (inr (inl refl)))))
In-all_data_classes DataClass.private_ipv4 = inr (inr (inr (inr (inr (inr (inl refl))))))
In-all_data_classes DataClass.internal_hostname = inr (inr (inr (inr (inr (inr (inr (inl refl)))))))
In-all_data_classes DataClass.home_path = inr (inr (inr (inr (inr (inr (inr (inr (inl refl))))))))
In-all_data_classes DataClass.custom_term =
    inr (inr (inr (inr (inr (inr (inr (inr (inr (inl refl)))))))))
In-all_data_classes DataClass.token_namespace =
    inr (inr (inr (inr (inr (inr (inr (inr (inr (inr (inl refl))))))))))

keys-eq-policy_keys : known_category_keys ≡ map policy_key all_data_classes
unfolding known_category_keys policy_key
keys-eq-policy_keys = refl

In-map :
    (k : Text) (cs : List DataClass)
    → In k (map policy_key cs)
    → (c : DataClass) × (k ≡ policy_key c)
In-map k (c ∷ cs) (inl e) = (c, e)
In-map k (c ∷ cs) (inr m) = In-map k cs m
In-map k [] m = absurd m

In-map_of_In :
    (c : DataClass) (cs : List DataClass) → In c cs → In (policy_key c) (map policy_key cs)
In-map_of_In c (d ∷ cs) (inl e) = inl (ap policy_key e)
In-map_of_In c (d ∷ cs) (inr m) = inr (In-map_of_In c cs m)
In-map_of_In c [] m = absurd m

-- The key is that of a data class.
abbrev pub IsClassKey : Text → Type 0
IsClassKey k = (c : DataClass) × (k ≡ policy_key c)

known→IsClassKey : (k : Text) → contains known_category_keys k ≡ true → IsClassKey k
known→IsClassKey k h =
    In-map k all_data_classes
      (subst (λ ks. In k ks) keys-eq-policy_keys (contains→In known_category_keys k h))

IsClassKey→known : (k : Text) → IsClassKey k → contains known_category_keys k ≡ true
IsClassKey→known k (c, e) =
    rw (e, keys-eq-policy_keys)
      (In→contains _ _ (In-map_of_In c all_data_classes (In-all_data_classes c)))

abbrev pub KnowsKeys : Categories → Type 0
KnowsKeys m = All (λ e. IsClassKey e.0) m

check_keys→KnowsKeys : (m : Categories) → check_keys m ≡ ok tt → KnowsKeys m
unfolding check_keys
check_keys→KnowsKeys [] h = tt
check_keys→KnowsKeys ((k, r) ∷ m) h =
    (known→IsClassKey k (ground arith), check_keys→KnowsKeys m (ground arith))

KnowsKeys→check_keys : (m : Categories) → KnowsKeys m → check_keys m ≡ ok tt
unfolding check_keys
KnowsKeys→check_keys [] h = refl
KnowsKeys→check_keys ((k, r) ∷ m) (known, rest) =
    rw (IsClassKey→known k known) (KnowsKeys→check_keys m rest)

-- A lowercase letter, a digit, a dash or an underscore.
abbrev pub IsSlugByte : ℕ → Type 0
IsSlugByte b = ((b'a' ≤ b) × (b ≤ b'z')) ⊎ (((b'0' ≤ b) × (b ≤ b'9')) ⊎ ((b ≡ b'-') ⊎ (b ≡ b'_')))

slug_bytes→All : (s : Text) → all is_slug_byte s ≡ true → All IsSlugByte s
unfolding is_slug_byte is_ascii_lowercase is_ascii_digit
slug_bytes→All [] h = tt
slug_bytes→All (b ∷ s) h = (ground arith, slug_bytes→All s (ground arith))

All→slug_bytes : (s : Text) → All IsSlugByte s → all is_slug_byte s ≡ true
unfolding is_slug_byte is_ascii_lowercase is_ascii_digit
All→slug_bytes [] h = refl
All→slug_bytes (b ∷ s) h = let k = h.0 in ground (arith, All→slug_bytes s h.1)

pub record IsSlug (s : Text) : Type 0 where
  pub nonempty : 0 < length s
  pub short : length s ≤ 48
  pub safe : All IsSlugByte s

pub is_safe_slug_iff : (s : Text) → (is_safe_slug s ≡ true) ↔ IsSlug s
unfolding is_safe_slug
is_safe_slug_iff s = (
  λ h. record {
    nonempty = ground arith;
    short = ground arith;
    safe = slug_bytes→All s (ground arith);
  },
  λ w. ground (arith, All→slug_bytes s w.safe),
)

pub record IsSafeSettings (s : DetectorSettings) : Type 0 where
  pub suffixes : length s.internal_hostname_suffixes ≤ 64
  pub terms : length s.custom_terms ≤ 128
  pub prefixes : length s.home_prefixes ≤ 16
  pub safe :
      All
        (λ t. unsafe_term t ≡ false)
        (s.internal_hostname_suffixes ++ (s.custom_terms ++ s.home_prefixes))

pub record IsWellFormed (p : Policy) : Type 0 where
  pub version : p.version ≡ 1
  pub slug : IsSlug p.name
  pub silent : p.defaults.raw_logging ≡ false
  pub unknown : p.defaults.unknown_sensitive ≡ Action.block
  pub min_bytes : 1024 ≤ p.defaults.max_request_bytes
  pub max_bytes : p.defaults.max_request_bytes ≤ 8 * 1024 * 1024
  pub min_entries : 1 ≤ p.defaults.ledger_max_entries
  pub max_entries : p.defaults.ledger_max_entries ≤ 16384
  pub keys : KnowsKeys p.categories
  pub rules : (c : DataClass) → HasSafeRule p.categories c
  pub settings : IsSafeSettings p.detectors

settings→IsSafeSettings :
    (s : DetectorSettings) → validate_detector_settings s ≡ ok tt → IsSafeSettings s
unfolding validate_detector_settings
settings→IsSafeSettings s h = record {
  suffixes = ground arith;
  terms = ground arith;
  prefixes = ground arith;
  safe = any-All unsafe_term _ (ground arith);
}

IsSafeSettings→settings :
    (s : DetectorSettings) → IsSafeSettings s → validate_detector_settings s ≡ ok tt
unfolding validate_detector_settings
IsSafeSettings→settings s w = ground (arith, All-any unsafe_term _ w.safe)

-- The checks accept only well-formed policies.
pub check_policy→IsWellFormed : (p : Policy) → check_policy p ≡ ok tt → IsWellFormed p
unfolding check_policy action_eq
check_policy→IsWellFormed p h = record {
  version = ground arith;
  slug = (is_safe_slug_iff p.name).0 (ground arith);
  silent = ground arith;
  unknown = ground arith;
  min_bytes = ground arith;
  max_bytes = ground arith;
  min_entries = ground arith;
  max_entries = ground arith;
  keys = check_keys→KnowsKeys p.categories (ground arith);
  rules = λ c.
      All-In (HasSafeRule p.categories) c all_data_classes
        (check_classes→All p.categories all_data_classes (ground arith)) (In-all_data_classes c);
  settings = settings→IsSafeSettings p.detectors (ground arith);
}

-- The checks accept every well-formed policy.
pub IsWellFormed→check_policy : (p : Policy) → IsWellFormed p → check_policy p ≡ ok tt
unfolding check_policy action_eq
IsWellFormed→check_policy p w = ground (
  arith,
  (is_safe_slug_iff p.name).1 w.slug,
  KnowsKeys→check_keys p.categories w.keys,
  All→check_classes p.categories all_data_classes
      (In-All (HasSafeRule p.categories) all_data_classes (λ c _. w.rules c)),
  IsSafeSettings→settings p.detectors w.settings,
)
