-- ===== src/Launcher.antt =====
-- src/main.rs: what the commands check before anything is started. Processes, the environment and
-- the file system answer through parameters; clap reads the command line.
pub mod Resolve
pub mod Resolved
pub mod Launch
pub mod Ends
pub mod Checked
pub mod Guarded
mod Tests
use agent_veil.Gateway.Settings.{GatewayError}
use agent_veil.Ledger.{LedgerError, encode}
use agent_veil.Policy.{PolicyError}
use agent_veil.Sse.Text.{starts_with}
use agent_veil.Prelude.{
  Text, bytes, Bool, not, ◌&&◌, ◌||◌, Option, none, some, List, [], ◌∷◌, Result, ok, err, any,
  contains, text_eq, refuse_if,
}

-- `CliError`; the errors of the demonstrations are left out of their two variants.
pub data CliError : Type 0 where
  policy_read codex_missing codex_version_invalid codex_status codex_auth_unavailable : CliError
  unsupported_codex_version unsafe_model_name routing_override random_unavailable : CliError
  gateway_bind codex_launch codex_wait codex_failed gateway_task gateway_runtime : CliError
  gateway_stopped gateway_shutdown_timeout demo codex_demo : CliError
  policy : PolicyError → CliError
  missing_environment : Text → CliError
  scope : LedgerError → CliError
  gateway : GatewayError → CliError

pub data ReasoningEffort : Type 0 where
  none_effort low medium high : ReasoningEffort

-- `as_str`
unfoldable pub effort_str : ReasoningEffort → Text
unfolding bytes
effort_str ReasoningEffort.none_effort = bytes "none"
effort_str ReasoningEffort.low = bytes "low"
effort_str ReasoningEffort.medium = bytes "medium"
effort_str ReasoningEffort.high = bytes "high"

unfoldable pub supported_model : Text → Bool
unfolding bytes
supported_model model = text_eq model (bytes "gpt-5.6-luna")

unfoldable pub routing_words : List Text
unfolding bytes
routing_words =
    bytes "-c"
    ∷ bytes "--config"
    ∷ bytes "-m"
    ∷ bytes "--model"
    ∷ bytes "-p"
    ∷ bytes "--profile"
    ∷ bytes "--oss"
    ∷ bytes "--local-provider"
    ∷ bytes "--remote"
    ∷ bytes "--remote-auth-token-env"
    ∷ bytes "--ignore-user-config"
    ∷ bytes "resume"
    ∷ bytes "fork"
    ∷ bytes "cloud"
    ∷ bytes "app"
    ∷ bytes "app-server"
    ∷ bytes "remote-control"
    ∷ bytes "mcp-server"
    ∷ bytes "exec-server"
    ∷ bytes "sandbox"
    ∷ bytes "login"
    ∷ bytes "logout"
    ∷ bytes "update"
    ∷ []

unfoldable pub routing_prefixes : List Text
unfolding bytes
routing_prefixes =
    bytes "--config="
    ∷ bytes "--model="
    ∷ bytes "--profile="
    ∷ bytes "--oss="
    ∷ bytes "--local-provider="
    ∷ bytes "--remote="
    ∷ bytes "--remote-auth-token-env="
    ∷ []

-- `argument.starts_with(short) && !argument.starts_with("--")`
unfoldable pub is_short : Text → Text → Bool
unfolding bytes
is_short short argument = starts_with argument short && not (starts_with argument (bytes "--"))

unfoldable pub is_routing_override : Text → Bool
unfolding bytes
is_routing_override argument =
    contains routing_words argument
    || any (λ prefix. starts_with argument prefix) routing_prefixes
    || is_short (bytes "-c") argument
    || is_short (bytes "-m") argument
    || is_short (bytes "-p") argument

unfoldable pub reject_routing_overrides : List Text → Result CliError (Unit {0})
reject_routing_overrides arguments =
    refuse_if (any is_routing_override arguments) CliError.routing_override

-- `random_hex`, on what the random source fills in.
unfoldable pub random_hex : Option Text → Result CliError Text
random_hex none = err CliError.random_unavailable
random_hex (some random) = ok (encode random)
