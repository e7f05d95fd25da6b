-- ===== src/Launcher/Tests.antt =====
-- Runs of src/main.rs, and its theorems at them.
use agent_veil.Detector.Matches.{to_ascii_lowercase}
use agent_veil.Sse.Text.{
  starts_with, strip_prefix, is_utf8, utf8_from, lead, trim, trim_start, trim_start_within,
  trim_end, after_space,
}
use agent_veil.Ledger.{encode, hex_digit, parse_scope, is_scope_byte}
use agent_veil.Gateway.Settings.{
  check_config, validate_upstream, is_bad_token, is_disabled, is_openai_mode,
}
use agent_veil.Launcher.Ends.{HasEnded, IsStopping, launch_codex-HasEnded}
use agent_veil.Launcher.Guarded.{IsGuarded, launch_codex-IsGuarded}
use agent_veil.Launcher.Launch.{
  LaunchArguments, Command, Host, Event, FirstStop, GatewayEnd, launch_codex, launch_command,
  prepare, check_arguments, launch_config, run_codex, supervise, stop_gateway, gateway_result,
}
use agent_veil.Launcher.Resolve.{
  Surroundings, resolve_codex, first_candidate, candidate, is_executable, preflight_codex,
  codex_version,
}
use agent_veil.Launcher.Resolved.{IsFirst, resolve_codex_iff}
use agent_veil.Launcher.{
  CliError, ReasoningEffort, reject_routing_overrides, is_routing_override, routing_words,
  routing_prefixes, is_short, supported_model, random_hex,
}
use agent_veil.Policy.Tests.{validated}
use agent_veil.Prelude.{
  ℕ, ◌+◌, ◌≡◌, ◌↔◌, refl, bytes, true, Option, none, some, List, [], ◌∷◌, ◌++◌, ok, err, In, inl,
  inr, replicate, ◌==◌, if◌then◌else◌, contains, subst, text_eq, sym, is_ascii_alphanumeric,
  is_ascii_lowercase, is_ascii_uppercase, is_ascii_digit,
}

-- The directories 1 to 4 offer the files 11 to 14: 11 is not there, 12 lies in the workspace, and
-- nobody may execute 13.
abbrev surroundings : Surroundings ℕ
surroundings = record {
  path = some (1 ∷ 2 ∷ 3 ∷ 4 ∷ []);
  workspace = some 0;
  codex_in = λ d. d + 10;
  canonicalize = λ p. if p == 11 then none else some p;
  metadata = λ p. some (record { is_file = true; mode = if p == 13 then 420 else 493 });
  is_within = λ w p. p == 12;
}

found : resolve_codex surroundings ≡ ok 14
unfolding resolve_codex first_candidate candidate is_executable
found = refl

resolve_codex_iff_example : (resolve_codex surroundings ≡ ok 14) ↔ (
    (directories : List ℕ) × (◌≡◌ {A = Option (List ℕ)}
      (some (1 ∷ 2 ∷ 3 ∷ 4 ∷ []))
      (some directories))
    × IsFirst surroundings directories 14)
resolve_codex_iff_example = resolve_codex_iff surroundings 14

overridden :
    reject_routing_overrides (bytes "exec" ∷ bytes "-cmodel_provider=\"other\"" ∷ [])
    ≡ err CliError.routing_override
unfolding reject_routing_overrides is_routing_override routing_words routing_prefixes is_short bytes
    contains text_eq starts_with strip_prefix
overridden = refl

permitted : reject_routing_overrides (bytes "--sandbox" ∷ bytes "read-only" ∷ []) ≡ ok tt
unfolding reject_routing_overrides is_routing_override routing_words routing_prefixes is_short bytes
    contains text_eq starts_with strip_prefix
permitted = refl

abbrev arguments : LaunchArguments
arguments = record {
  bind_is_loopback = true;
  model = bytes "gpt-5.6-luna";
  reasoning_effort = ReasoningEffort.medium;
  codex_args = bytes "exec" ∷ [];
}

abbrev host : Host
host = record {
  surroundings = record {
    path = some (bytes "/usr/bin" ∷ []);
    workspace = some (bytes "/home");
    codex_in = λ d. d ++ bytes "/codex";
    canonicalize = λ p. some p;
    metadata = λ p. some (record { is_file = true; mode = 493 });
    is_within = λ w p. starts_with p w;
  };
  version_run = λ p. some (record { success = true; stdout = bytes "codex 0.144.4\n" });
  login_run = λ p. some (record { success = true; stdout = [] });
  loaded_policy = ok validated;
  random = λ i n. some (replicate n 65);
  listen = some (record { address = bytes "127.0.0.1:4000"; is_loopback = true });
  parse_address = λ h. none;
  build = λ c p s. ok tt;
  spawns = λ c. true;
  first_stop = FirstStop.child_ended (some true);
  grace = some GatewayEnd.returned;
}

abbrev launched : Command
launched =
    launch_command arguments (bytes "/usr/bin/codex")
      (bytes "agentveil-session-414141414141414141414141") (bytes "127.0.0.1:4000")
      (encode (replicate 32 65))

launches : launch_codex host arguments ≡ (
  ok tt,
  Event.gateway_started
      ∷ Event.codex_spawned launched
      ∷ Event.codex_waited
      ∷ Event.shutdown_sent
      ∷ Event.gateway_joined
      ∷ [],
)
unfolding launch_codex prepare resolve_codex first_candidate candidate is_executable preflight_codex
    codex_version is_utf8 utf8_from lead trim trim_start trim_start_within trim_end after_space
    check_arguments supported_model reject_routing_overrides is_routing_override routing_words
    routing_prefixes is_short bytes contains text_eq starts_with strip_prefix random_hex encode
    hex_digit parse_scope is_scope_byte is_ascii_alphanumeric is_ascii_lowercase is_ascii_uppercase
    is_ascii_digit check_config launch_config validate_upstream is_bad_token is_disabled
    is_openai_mode to_ascii_lowercase run_codex supervise stop_gateway gateway_result launch_command
launches = refl

spawned : In (Event.codex_spawned launched) (launch_codex host arguments).1
spawned = subst (λ r. In (Event.codex_spawned launched) r.1) (sym launches) (inr (inl refl))

launch_codex-IsGuarded_example : IsGuarded host arguments launched
launch_codex-IsGuarded_example = launch_codex-IsGuarded host arguments launched spawned

launch_codex-HasEnded_example :
    (rest : List Event) × ((launch_codex host arguments).1
      ≡ Event.gateway_started ∷ Event.codex_spawned launched ∷ rest)
    × HasEnded rest
    × IsStopping rest
launch_codex-HasEnded_example = launch_codex-HasEnded host arguments launched spawned
