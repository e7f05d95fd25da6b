-- ===== src/Launcher/Checked.antt =====
-- What the checks of src/main.rs before a launch ensure: of the arguments and of Codex itself.
use agent_veil.Launcher.Launch.{LaunchArguments, check_arguments}
use agent_veil.Launcher.Resolve.{Output, codex_version, preflight_codex}
use agent_veil.Launcher.{
  CliError, is_routing_override, is_short, reject_routing_overrides, routing_prefixes,
  routing_words, supported_model,
}
use agent_veil.Payload.Target.{texts}
use agent_veil.Sse.Text.{is_utf8, starts_with, starts_with-prefix, strip_prefix, trim}
use agent_veil.Prelude.{
  ◌≡◌, ◌⊎◌, ◌∙◌, ◌++◌, ◌∷◌, [], All, Bool, In, In→contains, List, Option, Text, any, ap, arith,
  bytes, contains, contains→In, inl, inr, not, ok, ok_of_bind, ok_or, ok_or_ok, refl, refuse_if_ok,
  refused_last, some, text_eq→eq, true, In-All,
}

-- An argument that would change where or how Codex connects: one of the words, or anything that
-- begins with one of the prefixes.
abbrev pub Overrides : Text → Type 0
Overrides argument =
    In argument (
      texts (
        "-c" ∷ "--config" ∷ "-m" ∷ "--model" ∷ "-p" ∷ "--profile" ∷ "--oss" ∷ "--local-provider"
        ∷ "--remote" ∷ "--remote-auth-token-env" ∷ "--ignore-user-config" ∷ "resume" ∷ "fork"
        ∷ "cloud" ∷ "app" ∷ "app-server" ∷ "remote-control" ∷ "mcp-server" ∷ "exec-server"
        ∷ "sandbox" ∷ "login" ∷ "logout" ∷ "update" ∷ []))
    ⊎ ((prefix : Text) × (rest : Text) × In prefix (
          texts (
            "--config=" ∷ "--model=" ∷ "--profile=" ∷ "--oss=" ∷ "--local-provider=" ∷ "--remote="
            ∷ "--remote-auth-token-env=" ∷ []))
        × (argument ≡ prefix ++ rest))
    ⊎ ((short : Text) × (rest : Text) × In short (texts ("-c" ∷ "-m" ∷ "-p" ∷ []))
        × (argument ≡ short ++ rest))

any_of_In :
    (test : Text → Bool) (x : Text) (xs : List Text) → In x xs → test x ≡ true → any test xs ≡ true
any_of_In test x [] m h = absurd m
any_of_In test x (y ∷ ys) (inl e) h = ground (arith, ap test e)
any_of_In test x (y ∷ ys) (inr m) h = ground (arith, any_of_In test x ys m h)

abbrev shorts : List Text
shorts = texts ("-c" ∷ "-m" ∷ "-p" ∷ [])

is_short-prefix : (short rest : Text) → In short shorts → is_short short (short ++ rest) ≡ true
unfolding is_short starts_with strip_prefix texts bytes
is_short-prefix short rest (inl e) = rw e refl
is_short-prefix short rest (inr (inl e)) = rw e refl
is_short-prefix short rest (inr (inr (inl e))) = rw e refl
is_short-prefix short rest (inr (inr (inr m))) = absurd m

is_short-is_routing_override :
    (short x : Text) → In short shorts → is_short short x ≡ true → is_routing_override x ≡ true
unfolding is_routing_override texts
is_short-is_routing_override short x (inl e) h = ground (arith, ap (λ t. is_short t x) e)
is_short-is_routing_override short x (inr (inl e)) h = ground (arith, ap (λ t. is_short t x) e)
is_short-is_routing_override short x (inr (inr (inl e))) h =
    ground (arith, ap (λ t. is_short t x) e)
is_short-is_routing_override short x (inr (inr (inr m))) h = absurd m

Overrides-is_routing_override : (x : Text) → Overrides x → is_routing_override x ≡ true
unfolding is_routing_override routing_words routing_prefixes texts
Overrides-is_routing_override x (inl m) = ground (arith, In→contains routing_words x m)
Overrides-is_routing_override x (inr (inl (prefix, rest, m, split))) =
    let begins : starts_with x prefix ≡ true =
      ap (λ y. starts_with y prefix) split ∙ starts_with-prefix prefix rest in
    ground (arith, any_of_In (λ p. starts_with x p) prefix routing_prefixes m begins)
Overrides-is_routing_override x (inr (inr (short, rest, m, split))) =
    is_short-is_routing_override short x m
      (ap (is_short short) split ∙ is_short-prefix short rest m)

-- The arguments that the user may give.
pub record IsPermitted (a : LaunchArguments) : Type 0 where
  pub model : a.model ≡ bytes "gpt-5.6-luna"
  pub unrouted : All (λ argument. ¬ Overrides argument) a.codex_args
  pub loopback : a.bind_is_loopback ≡ true

pub check_arguments-IsPermitted : (a : LaunchArguments) → check_arguments a ≡ ok tt → IsPermitted a
unfolding check_arguments reject_routing_overrides supported_model
check_arguments-IsPermitted a h =
    let (supported, h₁) =
      refuse_if_ok (not (supported_model a.model)) CliError.unsafe_model_name _ tt h in
    let (_, h₂, rejected) = ok_of_bind (reject_routing_overrides a.codex_args) _ h₁ in
    let none_found = refused_last (any is_routing_override a.codex_args) _ rejected in
    let bound = refused_last (not a.bind_is_loopback) _ h₂ in
    record {
      model = text_eq→eq a.model (bytes "gpt-5.6-luna") (ground arith);
      unrouted =
          In-All (λ x. ¬ Overrides x) a.codex_args
            λ x m o. cc (
              any_of_In is_routing_override x a.codex_args m (Overrides-is_routing_override x o),
              none_found,
            );
      loopback = ground arith;
    }

-- What the two runs of Codex said: a version that is known to work, and a user who is logged in.
pub record IsReady (version_run login_run : Option Output) : Type 0 where
  pub version : Output
  pub login : Output
  pub version_ran : version_run ≡ some version
  pub version_succeeded : version.success ≡ true
  pub is_known : In (trim version.stdout) (bytes "codex-cli 0.144.4" ∷ bytes "codex 0.144.4" ∷ [])
  pub login_ran : login_run ≡ some login
  pub login_succeeded : login.success ≡ true

pub preflight_codex-IsReady :
    (ran login_ran : Option Output) (version : Text)
    → preflight_codex ran login_ran ≡ ok version
    → IsReady ran login_ran
unfolding preflight_codex codex_version
preflight_codex-IsReady ran login_ran version h =
    let (v, h₁, asked) = ok_of_bind (codex_version ran) _ h in
    let (login, h₂, answered) = ok_of_bind (ok_or login_ran CliError.codex_status) _ h₁ in
    let (logged_in, _) =
      refuse_if_ok (not login.success) CliError.codex_auth_unavailable _ version h₂ in
    let (output, k₁, known) = ok_of_bind (ok_or ran CliError.codex_missing) _ asked in
    let (succeeded, k₂) = refuse_if_ok (not output.success) CliError.codex_missing _ v k₁ in
    let (_, k₃) =
      refuse_if_ok (not (is_utf8 output.stdout)) CliError.codex_version_invalid _ v k₂ in
    let (supported, _) =
      refuse_if_ok
        (not
          (contains (bytes "codex-cli 0.144.4" ∷ bytes "codex 0.144.4" ∷ []) (trim output.stdout)))
        CliError.unsupported_codex_version _ v k₃ in
    record {
      version = output;
      login = login;
      version_ran = ok_or_ok ran _ output known;
      version_succeeded = ground arith;
      is_known =
          contains→In (bytes "codex-cli 0.144.4" ∷ bytes "codex 0.144.4" ∷ []) (trim output.stdout)
            (ground arith);
      login_ran = ok_or_ok login_ran _ login answered;
      login_succeeded = ground arith;
    }
