-- ===== src/Launcher/Guarded.antt =====
-- Under what conditions src/main.rs spawns Codex, and with what arguments and environment.
use agent_veil.Detector.Matches.{to_ascii_lowercase}
use agent_veil.Gateway.Settings.{
  GatewayConfig, IsSafeConfig, UpstreamMode, check_config, check_config-IsSafeConfig,
}
use agent_veil.Launcher.Checked.{
  IsPermitted, IsReady, check_arguments-IsPermitted, preflight_codex-IsReady,
}
use agent_veil.Launcher.Ends.{spawned_prepared}
use agent_veil.Launcher.Launch.{
  Host, Event, LaunchArguments, Command, Listening, check_arguments, config_arguments, launch_codex,
  launch_command, launch_config, launch_settings, prepare, quoted,
}
use agent_veil.Launcher.Resolve.{preflight_codex, resolve_codex}
use agent_veil.Launcher.Resolved.{IsFirst, resolve_codex_iff}
use agent_veil.Launcher.{CliError, ReasoningEffort, random_hex}
use agent_veil.Ledger.{encode, parse_scope}
use agent_veil.Policy.{ValidatedPolicy}
use agent_veil.Prelude.{
  ◌≡◌, ◌++◌, ◌∷◌, [], In, List, Option, Text, ap, bytes, inl, inr, none, some, ok, refl, sym, subst,
  append_assoc, Ensures, Ensures-map_err, Ensures-bind, Ensures-itself, Ensures-ok, Ensures-ok_or,
}

-- A setting is handed over with `-c` before it.
abbrev pub Sets : List Text → Text → Type 0
Sets arguments setting =
    (before : List Text) × (after : List Text) × (arguments
      ≡ before ++ bytes "-c" ∷ setting ∷ after)

config_arguments-Sets :
    (settings : List Text) (setting : Text)
    → In setting settings
    → Sets (config_arguments settings) setting
unfolding config_arguments
config_arguments-Sets [] setting m = absurd m
config_arguments-Sets (s ∷ settings) setting (inl e) =
    ([], config_arguments settings, ap (λ x. bytes "-c" ∷ x ∷ config_arguments settings) (sym e))
config_arguments-Sets (s ∷ settings) setting (inr m) =
    let (before, after, split) = config_arguments-Sets settings setting m in
    (bytes "-c" ∷ s ∷ before, after, ap (λ l. bytes "-c" ∷ s ∷ l) split)

-- The settings direct Codex to the gateway at an address as the provider of that name, which gets
-- the session token from the environment in a header, and they empty that variable in the
-- environment of the commands that Codex runs.
pub record Directs (provider address : Text) (settings : List Text) : Type 0 where
  pub chosen : Sets settings (bytes "model_provider=\"" ++ (provider ++ bytes "\""))
  pub base_url : Sets settings (
      (bytes "model_providers." ++ provider)
      ++ (bytes ".base_url=\"http://" ++ (address ++ bytes "/v1\"")))
  pub token_header : Sets settings (
      (bytes "model_providers." ++ provider)
      ++ bytes ".env_http_headers={ \"X-AgentVeil-Session\" = \"AGENTVEIL_SESSION_TOKEN\" }")
  pub token_hidden :
      Sets settings (bytes "shell_environment_policy.set.AGENTVEIL_SESSION_TOKEN=\"\"")
  pub only_sse :
      Sets settings ((bytes "model_providers." ++ provider) ++ bytes ".supports_websockets=false")

launch_settings-Directs :
    (provider address : Text) (effort : ReasoningEffort)
    → Directs provider address (
        config_arguments
          (launch_settings provider (bytes "http://" ++ (address ++ bytes "/v1")) effort))
unfolding launch_settings quoted bytes
launch_settings-Directs provider address effort = record {
  chosen = config_arguments-Sets _ _ (inl refl);
  base_url = config_arguments-Sets _ _ (
      inr (
        inr (
          inl (
            ap (λ t. (bytes "model_providers." ++ provider) ++ (bytes ".base_url=\"http://" ++ t))
              (sym (append_assoc address (bytes "/v1") (bytes "\"")))))));
  token_header = config_arguments-Sets _ _ (inr (inr (inr (inr (inr (inr (inl refl)))))));
  token_hidden =
      config_arguments-Sets _ _ (inr (inr (inr (inr (inr (inr (inr (inr (inr (inl refl))))))))));
  only_sse = config_arguments-Sets _ _ (inr (inr (inr (inr (inr (inl refl))))));
}

-- The conditions on which a command is spawned: the arguments of the user are permitted, the program
-- is the first Codex of the search path and has answered, and the gateway was built for the live
-- service with nothing restored. The token of the gateway is what the random source gave, and the
-- command gets it in its environment. Its arguments are the model, the settings that direct Codex
-- to the address of the gateway, and last the arguments of the user.
pub record IsGuarded (host : Host) (a : LaunchArguments) (c : Command) : Type 0 where
  pub permitted : IsPermitted a
  pub directories : List Text
  pub search_path : host.surroundings.path ≡ some directories
  pub first : IsFirst host.surroundings directories c.program
  pub ready : IsReady (host.version_run c.program) (host.login_run c.program)
  pub random : Text
  pub drawn : host.random 0 32 ≡ some random
  pub listening : Listening
  pub listens : host.listen ≡ some listening
  pub config : GatewayConfig
  pub policy : ValidatedPolicy
  pub scope : Text
  pub loaded : host.loaded_policy ≡ ok policy
  pub built : host.build config policy scope ≡ ok tt
  pub safe : IsSafeConfig host.parse_address config
  pub live : config.upstream ≡ UpstreamMode.open_ai
  pub token : config.local_session_token ≡ encode random
  pub address_checked : config.bind_is_loopback ≡ listening.is_loopback
  pub policy_checked : config.policy_name ≡ policy.inner.name
  pub environment : c.environment ≡ (bytes "AGENTVEIL_SESSION_TOKEN", encode random) ∷ []
  pub provider : Text
  pub settings : List Text
  pub directed : Directs provider listening.address settings
  pub arguments : c.arguments ≡ bytes "-m" ∷ a.model ∷ (settings ++ a.codex_args)

random_hex-ok :
    (o : Option Text) (t : Text)
    → random_hex o ≡ ok t
    → (random : Text) × (o ≡ some random) × (encode random ≡ t)
unfolding random_hex
random_hex-ok none t h = absurd (cc h)
random_hex-ok (some random) t h = (random, refl, cc h)

-- The results of the steps before the gateway starts.
record Prepared (host : Host) (a : LaunchArguments) (c : Command) : Type 0 where
  program : Text
  version : Text
  token : Text
  scope : Text
  provider : Text
  policy : ValidatedPolicy
  listening : Listening
  checked : check_arguments a ≡ ok tt
  found : resolve_codex host.surroundings ≡ ok program
  answered : preflight_codex (host.version_run program) (host.login_run program) ≡ ok version
  loaded : host.loaded_policy ≡ ok policy
  drawn : random_hex (host.random 0 32) ≡ ok token
  listens : host.listen ≡ some listening
  safe : check_config host.parse_address (launch_config listening policy token) ≡ ok tt
  built : host.build (launch_config listening policy token) policy scope ≡ ok tt
  made : launch_command a program provider listening.address token ≡ c

module _ (host : Host) (a : LaunchArguments) where
  prepare-Prepared : Ensures (Prepared host a) (prepare host a)
  unfolding prepare
  prepare-Prepared = Ensures-bind _ _ (Ensures-itself (check_arguments a)) λ _ checked.
      Ensures-bind _ _ (Ensures-itself (resolve_codex host.surroundings)) λ program found.
        Ensures-bind _ _
          (Ensures-itself (preflight_codex (host.version_run program) (host.login_run program)))
          λ version answered. Ensures-bind _ _ (Ensures-itself host.loaded_policy) λ policy loaded.
            Ensures-bind _ _ (Ensures-itself (random_hex (host.random 0 32))) λ token drawn.
              Ensures-bind _ _ (Ensures-itself (random_hex (host.random 1 16))) λ scope_id _.
                Ensures-bind _ _ (Ensures-itself (random_hex (host.random 2 12))) λ provider _.
                  Ensures-bind _ _
                    (Ensures-map_err CliError.scope (parse_scope (bytes "avscope_" ++ scope_id)))
                    λ scope _.
                      Ensures-bind _ _ (Ensures-ok_or host.listen CliError.gateway_bind)
                        λ listening listens.
                          Ensures-bind _ _
                            (Ensures-map_err CliError.gateway (
                              check_config host.parse_address
                                (launch_config listening policy token)))
                            λ _ safe.
                              Ensures-bind _ _
                                (Ensures-map_err CliError.gateway
                                  (host.build (launch_config listening policy token) policy scope))
                                λ _ built. Ensures-ok _ (record {
                                  program = program;
                                  version = version;
                                  token = token;
                                  scope = scope;
                                  provider =
                                      bytes "agentveil-session-" ++ to_ascii_lowercase provider;
                                  policy = policy;
                                  listening = listening;
                                  checked = checked;
                                  found = found;
                                  answered = answered;
                                  loaded = loaded;
                                  drawn = drawn;
                                  listens = listens;
                                  safe = safe;
                                  built = built;
                                  made = refl;
                                })

  Prepared-IsGuarded : (c : Command) → Prepared host a c → IsGuarded host a c
  unfolding launch_config launch_command
  Prepared-IsGuarded c p =
      let (random, source, encoded) = random_hex-ok (host.random 0 32) p.token p.drawn in
      let (directories, search_path, first) =
        (resolve_codex_iff host.surroundings p.program).0 p.found in
      let config : GatewayConfig = launch_config p.listening p.policy p.token in
      subst (IsGuarded host a) p.made (record {
        permitted = check_arguments-IsPermitted a p.checked;
        directories = directories;
        search_path = search_path;
        first = first;
        ready = preflight_codex-IsReady _ _ p.version p.answered;
        random = random;
        drawn = source;
        listening = p.listening;
        listens = p.listens;
        config = config;
        policy = p.policy;
        scope = p.scope;
        loaded = p.loaded;
        built = p.built;
        safe = check_config-IsSafeConfig host.parse_address config p.safe;
        live = refl;
        token = sym encoded;
        address_checked = refl;
        policy_checked = refl;
        environment = ap (λ t. (bytes "AGENTVEIL_SESSION_TOKEN", t) ∷ []) (sym encoded);
        provider = p.provider;
        settings = config_arguments (
            launch_settings p.provider (bytes "http://" ++ (p.listening.address ++ bytes "/v1"))
              a.reasoning_effort);
        directed = launch_settings-Directs p.provider p.listening.address a.reasoning_effort;
        arguments = refl;
      })

  -- Codex is spawned only where the arguments of the user are permitted and override no routing,
  -- the program is the first Codex of the search path outside the workspace, its runs told a known
  -- version and a user who is logged in, and the gateway was built on a loopback address, for the
  -- live service and with nothing restored. Codex gets the token of that gateway, drawn from the
  -- random source, in its environment, and as arguments the model, the settings that direct it to
  -- the gateway, and last those of the user.
  pub launch_codex-IsGuarded :
      (c : Command) → In (Event.codex_spawned c) (launch_codex host a).1 → IsGuarded host a c
  launch_codex-IsGuarded c m =
      Prepared-IsGuarded c (prepare-Prepared.at c (spawned_prepared host a c m).0)
