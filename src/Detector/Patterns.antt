-- ===== src/Detector/Patterns.antt =====
-- `Scanner::new` of src/detector.rs: the patterns and what the scanner takes from the settings. The
-- compiler of regular expressions is a parameter.
use agent_veil.Detector.Matches.{to_ascii_lowercase}
use agent_veil.Detector.Scan.{Scanner, PatternDetector}
use agent_veil.Detector.{DetectorError}
use agent_veil.Domain.{DataClass, DetectorId, Confidence}
use agent_veil.Policy.{DetectorSettings}
use agent_veil.Prelude.{
  Text, bytes, Bool, true, false, Option, List, [], ◌∷◌, Result, ok, ◌>>=◌, map, ok_or,
}

abbrev pub Specification : Type 0
Specification = Text × DataClass × DetectorId × Confidence × Bool

abbrev pub specifications : List Specification
specifications =
    (
      bytes "\\[AV_(?:EMAIL|PHONE|IPV4|HOST|PATH|TERM)_[A-F0-9]{32}\\]",
      DataClass.token_namespace,
      DetectorId.agent_veil_token_namespace,
      Confidence.high,
      false,
    )
    ∷ (
      bytes "(?-u:sk-(?:proj-|svcacct-)?[A-Za-z0-9_-]{16,})",
      DataClass.credentials,
      DetectorId.open_ai_api_key,
      Confidence.high,
      true,
    )
    ∷ (
      bytes "(?-u:(?:gh[pousr]_[A-Za-z0-9]{30,}|github_pat_[A-Za-z0-9_]{40,}))",
      DataClass.credentials,
      DetectorId.github_token,
      Confidence.high,
      true,
    )
    ∷ (
      bytes "(?-u:(?:AKIA|ASIA)[A-Z0-9]{16})",
      DataClass.credentials,
      DetectorId.aws_access_key_id,
      Confidence.high,
      true,
    )
    ∷ (
      bytes "(?-u:AIza[A-Za-z0-9_-]{35})",
      DataClass.credentials,
      DetectorId.google_api_key,
      Confidence.high,
      true,
    )
    ∷ (
      bytes "(?-u:(?:sk|rk)_(?:test|live)_[A-Za-z0-9]{16,})",
      DataClass.credentials,
      DetectorId.stripe_secret_key,
      Confidence.high,
      true,
    )
    ∷ (
      bytes "(?-u:(?:xox[bpar]-|xapp-|xwfp-)[A-Za-z0-9-]{16,})",
      DataClass.credentials,
      DetectorId.slack_token,
      Confidence.high,
      true,
    )
    ∷ (
      bytes
          "(?i:\\b(?:postgres(?:ql)?|mysql|mongodb(?:\\+srv)?|redis|mssql)://[^/\\s:@]+:[^@\\s/]+@[^/\\s]+)",
      DataClass.database_credential,
      DetectorId.credentialed_database_url,
      Confidence.high,
      true,
    )
    ∷ (
      bytes "(?i-u:\\bbearer[ \\t]+[A-Za-z0-9._~+/=-]{20,}\\b)",
      DataClass.credentials,
      DetectorId.bearer_credential,
      Confidence.contextual,
      true,
    )
    ∷ (
      bytes "(?-u:eyJ[A-Za-z0-9_-]{6,}\\.[A-Za-z0-9_-]{6,}\\.[A-Za-z0-9_-]{8,})",
      DataClass.jwt,
      DetectorId.jwt,
      Confidence.high,
      true,
    )
    ∷ []

abbrev pub email_pattern : Text
email_pattern =
    bytes
      "(?-u:\\b[A-Za-z0-9.!#$%&'*+/=?^_`{|}~-]+@[A-Za-z0-9](?:[A-Za-z0-9-]{0,61}[A-Za-z0-9])?(?:\\.[A-Za-z0-9](?:[A-Za-z0-9-]{0,61}[A-Za-z0-9])?)+\\b)"

abbrev pub private_ipv4_pattern : Text
private_ipv4_pattern = bytes "(?-u:\\b(?:[0-9]{1,3}\\.){3}[0-9]{1,3}\\b)"

abbrev pub phone_pattern : Text
phone_pattern = bytes "(?-u:(?:\\+?1[-. ]?)?\\(?[2-9][0-9]{2}\\)?[-. ][0-9]{3}[-. ][0-9]{4})"

abbrev pub env_assignment_pattern : Text
env_assignment_pattern =
    bytes
      "(?im)^\\s*(?:export\\s+)?[A-Z0-9_]*(?:API_KEY|SECRET|PASSWORD|PASSWD|TOKEN|CLIENT_SECRET|PRIVATE_KEY)[A-Z0-9_]*\\s*[:=]\\s*[\"']?([^\\s#\"']{12,})"

module _ {R : Type 0} (regex_new : Text → Option R) where
  unfoldable pub compile : Text → Result DetectorError R
  compile pattern = ok_or (regex_new pattern) DetectorError.pattern

  unfoldable pub compile_patterns :
      List Specification → Result DetectorError (List (PatternDetector R))
  compile_patterns [] = ok []
  compile_patterns ((pattern, c, d, k, secret) ∷ rest) = do
    regex ← compile pattern
    others ← compile_patterns rest
    ok (
        record { regex = regex; data_class = c; detector = d; confidence = k; secret_only = secret }
        ∷ others)

  unfoldable pub new : DetectorSettings → Result DetectorError (Scanner R)
  new settings = do
    patterns ← compile_patterns specifications
    email ← compile email_pattern
    private_ipv4 ← compile private_ipv4_pattern
    phone ← compile phone_pattern
    env_assignment ← compile env_assignment_pattern
    ok (record {
      patterns = patterns;
      email = email;
      private_ipv4 = private_ipv4;
      phone = phone;
      env_assignment = env_assignment;
      internal_hostname_suffixes = map to_ascii_lowercase settings.internal_hostname_suffixes;
      custom_terms = settings.custom_terms;
      home_prefixes = settings.home_prefixes;
    })
