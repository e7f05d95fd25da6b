-- ===== src/Launcher/Resolve.antt =====
-- How src/main.rs finds Codex and what it asks of it.
use agent_veil.Launcher.{CliError}
use agent_veil.Policy.{Policy, ValidatedPolicy, from_yaml}
use agent_veil.Sse.Text.{is_utf8, trim}
use agent_veil.Prelude.{
  ℕ, ◌/◌, ◌%◌, Text, bytes, Bool, false, not, ◌&&◌, ◌||◌, ◌==◌, Option, none, some, List, [], ◌∷◌,
  Result, ok, err, ◌>>=◌, ◌>>◌, contains, refuse_if, ok_or, map_err, if◌then◌else◌,
}

pub record FileMetadata : Type 0 where
  pub is_file : Bool
  pub mode : ℕ

-- What the file system and the environment say; a path is a `P`.
pub record Surroundings (P : Type 0) : Type 0 where
  pub path : Option (List P)
  pub workspace : Option P
  pub codex_in : P → P
  pub canonicalize : P → Option P
  pub metadata : P → Option FileMetadata
  pub is_within : P → P → Bool

-- `mode & 0o111 != 0`
unfoldable pub is_executable : ℕ → Bool
is_executable mode = mode % 2 == 1 || mode / 8 % 2 == 1 || mode / 64 % 2 == 1

module _ {P : Type 0} (s : Surroundings P) where
  abbrev pub in_workspace : Option P → P → Bool
  in_workspace none file = false
  in_workspace (some workspace) file = s.is_within workspace file

  abbrev pub is_program : Option FileMetadata → Bool
  is_program none = false
  is_program (some m) = m.is_file && is_executable m.mode

  -- The file that a directory offers, if it may be launched.
  unfoldable pub candidate : P → Option P
  candidate directory = elim (s.canonicalize (s.codex_in directory)) [
    | none ↦ none
    | some file ↦
        if is_program (s.metadata file) && not (in_workspace s.workspace file)
        then some file
        else none
  ]

  -- The loop over the directories.
  unfoldable pub first_candidate : List P → Result CliError P
  first_candidate [] = err CliError.codex_missing
  first_candidate (directory ∷ directories) = elim (candidate directory) [
    | none ↦ first_candidate directories
    | some file ↦ ok file
  ]

  unfoldable pub resolve_codex : Result CliError P
  resolve_codex = ok_or s.path CliError.codex_missing >>= first_candidate

-- A process that has run: whether it succeeded, and what it wrote.
pub record Output : Type 0 where
  pub success : Bool
  pub stdout : Text

unfoldable pub codex_version : Option Output → Result CliError Text
unfolding bytes
codex_version ran = do
  output ← ok_or ran CliError.codex_missing
  refuse_if (not output.success) CliError.codex_missing
  refuse_if (not (is_utf8 output.stdout)) CliError.codex_version_invalid
  refuse_if
      (not (contains (bytes "codex-cli 0.144.4" ∷ bytes "codex 0.144.4" ∷ []) (trim output.stdout)))
      CliError.unsupported_codex_version
  ok (trim output.stdout)

-- The second process is `codex login status`.
unfoldable pub preflight_codex : Option Output → Option Output → Result CliError Text
preflight_codex ran login_ran = do
  version ← codex_version ran
  login ← ok_or login_ran CliError.codex_status
  refuse_if (not login.success) CliError.codex_auth_unavailable
  ok version

-- `load_policy`, on what reading the file gives.
unfoldable pub load_policy :
    (Policy → Option Text)
    → (Text → Text)
    → (Text → Option Policy)
    → Option Text
    → Result CliError ValidatedPolicy
load_policy to_vec digest from_slice read = do
  source ← ok_or read CliError.policy_read
  map_err CliError.policy (from_yaml to_vec digest from_slice source)

unfoldable pub required_env : Text → Option Text → Result CliError Text
required_env name value = ok_or value (CliError.missing_environment name)

-- `doctor`: the version of Codex and the status of the port.
unfoldable pub doctor :
    {P : Type 0}
    → Surroundings P
    → (P → Option Output × Option Output)
    → Bool
    → Result CliError (Text × Text)
unfolding bytes
doctor s run port_is_free = do
  codex ← resolve_codex s
  version ← preflight_codex (run codex).0 (run codex).1
  ok (version, if port_is_free then bytes "available" else bytes "in_use")
