-- ===== src/Launcher/Launch.antt =====
-- `launch_codex` of src/main.rs. What it does to the world is a list of events; what the world
-- answers is a parameter.
use agent_veil.Detector.Matches.{to_ascii_lowercase}
use agent_veil.Gateway.Settings.{
  GatewayConfig, GatewayError, RestorationMode, UpstreamMode, check_config,
}
use agent_veil.Launcher.{
  CliError, ReasoningEffort, effort_str, supported_model, reject_routing_overrides, random_hex,
}
use agent_veil.Launcher.Resolve.{Output, Surroundings, preflight_codex, resolve_codex}
use agent_veil.Ledger.{parse_scope}
use agent_veil.Policy.{ValidatedPolicy}
use agent_veil.Prelude.{
  ℕ, Text, bytes, Bool, true, false, not, Option, none, some, List, [], ◌∷◌, ◌++◌, Result, ok, err,
  ◌>>=◌, ◌>>◌, refuse_if, ok_or, map_err,
}

pub record LaunchArguments : Type 0 where
  pub bind_is_loopback : Bool
  pub model : Text
  pub reasoning_effort : ReasoningEffort
  pub codex_args : List Text

-- `tokio::process::Command`: the environment is what is added to the inherited one.
pub record Command : Type 0 where
  pub program : Text
  pub arguments : List Text
  pub environment : List (Text × Text)

-- The address that a listener got, and whether it is a loopback one.
pub record Listening : Type 0 where
  pub address : Text
  pub is_loopback : Bool

-- How the task of the gateway ended.
pub data GatewayEnd : Type 0 where
  task_failed runtime_failed returned : GatewayEnd

-- What `select!` sees first; a child that was waited for tells whether it succeeded.
pub data FirstStop : Type 0 where
  child_ended : Option Bool → FirstStop
  gateway_ended : GatewayEnd → FirstStop

-- The answers of the world, a path being a text: the search path and the files, the two runs of Codex
-- by its path, the policy that the file holds, the random source by the number of the call and of the bytes, the rest
-- of `build_router` after its checks, and the end of the gateway within the period of grace.
pub record Host : Type 0 where
  pub surroundings : Surroundings Text
  pub version_run : Text → Option Output
  pub login_run : Text → Option Output
  pub loaded_policy : Result CliError ValidatedPolicy
  pub random : ℕ → ℕ → Option Text
  pub listen : Option Listening
  pub parse_address : Text → Option Bool
  pub build : GatewayConfig → ValidatedPolicy → Text → Result GatewayError (Unit {0})
  pub spawns : Command → Bool
  pub first_stop : FirstStop
  pub grace : Option GatewayEnd

pub data Event : Type 0 where
  gateway_started : Event
  codex_spawned : Command → Event
  codex_waited codex_killed shutdown_sent gateway_joined gateway_aborted : Event

-- `-c` before each setting.
unfoldable pub config_arguments : List Text → List Text
unfolding bytes
config_arguments [] = []
config_arguments (setting ∷ settings) = bytes "-c" ∷ setting ∷ config_arguments settings

-- `format!("\"{value}\"")`
unfoldable pub quoted : Text → Text
quoted value = b'"' ∷ value ++ b'"' ∷ []

unfoldable pub launch_settings : Text → Text → ReasoningEffort → List Text
unfolding bytes
launch_settings provider_id base_url effort =
    let provider_key = bytes "model_providers." ++ provider_id in
    (bytes "model_provider=" ++ quoted provider_id)
    ∷ (provider_key ++ bytes ".name=\"AgentVeil\"")
    ∷ (provider_key ++ (bytes ".base_url=" ++ quoted base_url))
    ∷ (provider_key ++ bytes ".wire_api=\"responses\"")
    ∷ (provider_key ++ bytes ".requires_openai_auth=true")
    ∷ (provider_key ++ bytes ".supports_websockets=false")
    ∷ (provider_key
        ++ bytes ".env_http_headers={ \"X-AgentVeil-Session\" = \"AGENTVEIL_SESSION_TOKEN\" }")
    ∷ (bytes "model_reasoning_effort=" ++ quoted (effort_str effort))
    ∷ bytes "shell_environment_policy.ignore_default_excludes=false"
    ∷ bytes "shell_environment_policy.set.AGENTVEIL_SESSION_TOKEN=\"\""
    ∷ []

unfoldable pub launch_command : LaunchArguments → Text → Text → Text → Text → Command
unfolding bytes
launch_command a program provider_id address token = record {
  program = program;
  arguments =
      bytes "-m"
      ∷ a.model
      ∷ (config_arguments (
            launch_settings provider_id (bytes "http://" ++ (address ++ bytes "/v1"))
              a.reasoning_effort)
          ++ a.codex_args);
  environment = (bytes "AGENTVEIL_SESSION_TOKEN", token) ∷ [];
}

-- The configuration of the gateway: the live service, and nothing restored.
unfoldable pub launch_config : Listening → ValidatedPolicy → Text → GatewayConfig
launch_config listening policy token = record {
  bind_is_loopback = listening.is_loopback;
  local_session_token = token;
  upstream = UpstreamMode.open_ai;
  restoration_mode = RestorationMode.disabled;
  policy_name = policy.inner.name;
}

-- The checks of the arguments, before anything else.
unfoldable pub check_arguments : LaunchArguments → Result CliError (Unit {0})
check_arguments a = do
  refuse_if (not (supported_model a.model)) CliError.unsafe_model_name
  reject_routing_overrides a.codex_args
  refuse_if (not a.bind_is_loopback) (CliError.gateway GatewayError.non_loopback_bind)

module _ (host : Host) where
  -- What happens before the gateway starts: the command that will be spawned.
  unfoldable pub prepare : LaunchArguments → Result CliError Command
  unfolding bytes
  prepare a = do
    check_arguments a
    program ← resolve_codex host.surroundings
    version ← preflight_codex (host.version_run program) (host.login_run program)
    policy ← host.loaded_policy
    token ← random_hex (host.random 0 32)
    scope_id ← random_hex (host.random 1 16)
    provider ← random_hex (host.random 2 12)
    scope ← map_err CliError.scope (parse_scope (bytes "avscope_" ++ scope_id))
    listening ← ok_or host.listen CliError.gateway_bind
    map_err CliError.gateway
        (check_config host.parse_address (launch_config listening policy token))
    map_err CliError.gateway (host.build (launch_config listening policy token) policy scope)
    ok (
        launch_command a program (bytes "agentveil-session-" ++ to_ascii_lowercase provider)
          listening.address token)

  unfoldable pub gateway_result : GatewayEnd → Result CliError (Unit {0})
  gateway_result GatewayEnd.task_failed = err CliError.gateway_task
  gateway_result GatewayEnd.runtime_failed = err CliError.gateway_runtime
  gateway_result GatewayEnd.returned = ok tt

  -- What follows the end of the child: the gateway is told to stop, and is aborted after the period
  -- of grace.
  unfoldable pub stop_gateway : Bool → Option GatewayEnd → Result CliError (Unit {0}) × List Event
  stop_gateway success none =
      (err CliError.gateway_shutdown_timeout, Event.shutdown_sent ∷ Event.gateway_aborted ∷ [])
  stop_gateway success (some end) = (
    gateway_result end >> refuse_if (not success) CliError.codex_failed,
    Event.shutdown_sent ∷ Event.gateway_joined ∷ [],
  )

  -- The child runs. A child that cannot be waited for is dropped, which kills it, and so is the
  -- sender, which stops the gateway.
  unfoldable pub supervise : FirstStop → Result CliError (Unit {0}) × List Event
  supervise (FirstStop.child_ended none) =
      (err CliError.codex_wait, Event.codex_killed ∷ Event.shutdown_sent ∷ [])
  supervise (FirstStop.child_ended (some success)) =
      let (result, events) = stop_gateway success host.grace in
      (result, Event.codex_waited ∷ events)
  supervise (FirstStop.gateway_ended end) = (
    gateway_result end >> err CliError.gateway_stopped,
    Event.gateway_joined ∷ Event.codex_killed ∷ Event.codex_waited ∷ [],
  )

  -- From the start of the gateway on. Where Codex cannot be spawned the sender is dropped.
  unfoldable pub run_codex : Command → Result CliError (Unit {0}) × List Event
  run_codex command = elim (host.spawns command) [
    | false ↦ (err CliError.codex_launch, Event.gateway_started ∷ Event.shutdown_sent ∷ [])
    | true ↦
        let (result, events) = supervise host.first_stop in
        (result, Event.gateway_started ∷ Event.codex_spawned command ∷ events)
  ]

  unfoldable pub launch_codex : LaunchArguments → Result CliError (Unit {0}) × List Event
  launch_codex a = elim (prepare a) [ err e ↦ (err e, []) | ok command ↦ run_codex command ]
