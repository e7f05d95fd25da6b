-- ===== src/Domain.antt =====
-- The vocabulary of the program (src/domain.rs): the classes of sensitive data, the actions of a
-- policy, the detectors, and a finding with its span of source bytes.
pub mod Laws
use agent_veil.Prelude.{ℕ, Text, bytes, Bool, true, false, ◌&&◌, ltb}

pub data DataClass : Type 0 where
  credentials private_key jwt database_credential email phone private_ipv4 : DataClass
  internal_hostname home_path custom_term token_namespace : DataClass

-- The texts of `policy_key`.
unfoldable pub policy_key : DataClass → Text
unfolding bytes
policy_key DataClass.credentials = bytes "credentials"
policy_key DataClass.private_key = bytes "private_keys"
policy_key DataClass.jwt = bytes "security.jwt"
policy_key DataClass.database_credential = bytes "network.database_url"
policy_key DataClass.email = bytes "pii.email"
policy_key DataClass.phone = bytes "pii.phone"
policy_key DataClass.private_ipv4 = bytes "infrastructure.private_ip"
policy_key DataClass.internal_hostname = bytes "infrastructure.hostname"
policy_key DataClass.home_path = bytes "filesystem.home_path"
policy_key DataClass.custom_term = bytes "custom.term"
policy_key DataClass.token_namespace = bytes "agentveil.token_namespace"

-- The texts of `token_label`.
unfoldable pub token_label : DataClass → Text
unfolding bytes
token_label DataClass.email = bytes "EMAIL"
token_label DataClass.phone = bytes "PHONE"
token_label DataClass.private_ipv4 = bytes "IPV4"
token_label DataClass.internal_hostname = bytes "HOST"
token_label DataClass.home_path = bytes "PATH"
token_label DataClass.custom_term = bytes "TERM"
token_label _ = bytes "BLOCKED"

-- The classes that a policy can only block.
unfoldable pub hard_block : DataClass → Bool
hard_block DataClass.credentials = true
hard_block DataClass.private_key = true
hard_block DataClass.jwt = true
hard_block DataClass.database_credential = true
hard_block DataClass.token_namespace = true
hard_block _ = false

pub data Action : Type 0 where
  block mask tokenize allow : Action

-- The derived `==` of `Action`.
unfoldable pub action_eq : Action → Action → Bool
action_eq Action.block Action.block = true
action_eq Action.mask Action.mask = true
action_eq Action.tokenize Action.tokenize = true
action_eq Action.allow Action.allow = true
action_eq _ _ = false

unfoldable pub precedence : Action → ℕ
precedence Action.block = 4
precedence Action.mask = 3
precedence Action.tokenize = 2
precedence Action.allow = 1

pub data DetectorId : Type 0 where
  agent_veil_token_namespace open_ai_api_key github_token aws_access_key_id : DetectorId
  aws_secret_assignment google_api_key stripe_secret_key slack_token : DetectorId
  pem_private_key credentialed_database_url bearer_credential jwt : DetectorId
  env_credential_assignment email phone private_ipv4 internal_hostname : DetectorId
  home_path custom_term : DetectorId

pub data Confidence : Type 0 where
  high contextual : Confidence

pub data FieldClass : Type 0 where
  instructions message_text agent_message_text function_arguments function_output : FieldClass
  custom_tool_input custom_tool_output tool_description tool_schema_text : FieldClass
  reasoning_summary client_metadata structural_metadata : FieldClass

-- `Range<usize>`
pub record Span : Type 0 where
  pub start : ℕ
  pub end : ℕ

pub record Finding : Type 0 where
  pub data_class : DataClass
  pub detector : DetectorId
  pub confidence : Confidence
  pub source_span : Span

-- `Finding::overlaps`
unfoldable pub overlaps : Finding → Finding → Bool
overlaps f g =
    ltb f.source_span.start g.source_span.end && ltb g.source_span.start f.source_span.end

unfoldable pub DataClass-discrete : Discrete DataClass
DataClass-discrete = hlevel

-- The derived `==` of `DataClass`.
unfoldable pub class_eq : DataClass → DataClass → Bool
unfolding DataClass-discrete
class_eq a b = elim (DataClass-discrete a b) [ yes e ↦ true | no n ↦ false ]

-- The positions by which the derived `Ord` and `==` compare.
unfoldable pub class_rank : DataClass → ℕ
class_rank DataClass.credentials = 0
class_rank DataClass.private_key = 1
class_rank DataClass.jwt = 2
class_rank DataClass.database_credential = 3
class_rank DataClass.email = 4
class_rank DataClass.phone = 5
class_rank DataClass.private_ipv4 = 6
class_rank DataClass.internal_hostname = 7
class_rank DataClass.home_path = 8
class_rank DataClass.custom_term = 9
class_rank DataClass.token_namespace = 10

unfoldable pub detector_rank : DetectorId → ℕ
detector_rank DetectorId.agent_veil_token_namespace = 0
detector_rank DetectorId.open_ai_api_key = 1
detector_rank DetectorId.github_token = 2
detector_rank DetectorId.aws_access_key_id = 3
detector_rank DetectorId.aws_secret_assignment = 4
detector_rank DetectorId.google_api_key = 5
detector_rank DetectorId.stripe_secret_key = 6
detector_rank DetectorId.slack_token = 7
detector_rank DetectorId.pem_private_key = 8
detector_rank DetectorId.credentialed_database_url = 9
detector_rank DetectorId.bearer_credential = 10
detector_rank DetectorId.jwt = 11
detector_rank DetectorId.env_credential_assignment = 12
detector_rank DetectorId.email = 13
detector_rank DetectorId.phone = 14
detector_rank DetectorId.private_ipv4 = 15
detector_rank DetectorId.internal_hostname = 16
detector_rank DetectorId.home_path = 17
detector_rank DetectorId.custom_term = 18

unfoldable pub confidence_rank : Confidence → ℕ
confidence_rank Confidence.high = 0
confidence_rank Confidence.contextual = 1

unfoldable pub field_rank : FieldClass → ℕ
field_rank FieldClass.instructions = 0
field_rank FieldClass.message_text = 1
field_rank FieldClass.agent_message_text = 2
field_rank FieldClass.function_arguments = 3
field_rank FieldClass.function_output = 4
field_rank FieldClass.custom_tool_input = 5
field_rank FieldClass.custom_tool_output = 6
field_rank FieldClass.tool_description = 7
field_rank FieldClass.tool_schema_text = 8
field_rank FieldClass.reasoning_summary = 9
field_rank FieldClass.client_metadata = 10
field_rank FieldClass.structural_metadata = 11
