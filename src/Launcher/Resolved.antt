-- ===== src/Launcher/Resolved.antt =====
-- Which file the search of src/main.rs for Codex finds.
use agent_veil.Launcher.{CliError}
use agent_veil.Launcher.Resolve.{
  FileMetadata, Surroundings, is_executable, in_workspace, candidate, first_candidate,
  resolve_codex,
}
use agent_veil.Prelude.{
  ℕ, ◌/◌, ◌%◌, ◌^◌, ◌≡◌, ◌⊎◌, ◌↔◌, sym, refl, true, false, not, ◌&&◌, Option, none, some, List, [],
  ◌∷◌, ◌++◌, ok, ok_or, All, Bool-cases, Option-cases, inl, inr, arith, ap, subst, ◌∙◌, ok_of_bind,
  ok_or_ok, ◌>>=◌,
}

-- Bit `k` of a mode: the execute bits of the others, the group and the owner are 0, 3 and 6.
abbrev HasBit : ℕ → ℕ → Type 0
HasBit mode k = mode / 2 ^ k % 2 ≡ 1

abbrev pub IsExecutable : ℕ → Type 0
IsExecutable mode = HasBit mode 0 ⊎ HasBit mode 3 ⊎ HasBit mode 6

is_executable_sound : (mode : ℕ) → is_executable mode ≡ true → IsExecutable mode
unfolding is_executable
is_executable_sound mode h = ground arith

is_executable_complete : (mode : ℕ) → IsExecutable mode → is_executable mode ≡ true
unfolding is_executable
is_executable_complete mode (inl h) = ground arith
is_executable_complete mode (inr (inl h)) = ground arith
is_executable_complete mode (inr (inr h)) = ground arith

module _ {P : Type 0} (s : Surroundings P) where
  -- The directory offers the file: its `codex` resolves to it, and it is a plain file that someone
  -- may execute and that does not lie in the workspace.
  pub record Offers (directory file : P) : Type 0 where
    pub metadata : FileMetadata
    pub resolved : s.canonicalize (s.codex_in directory) ≡ some file
    pub known : s.metadata file ≡ some metadata
    pub plain : metadata.is_file ≡ true
    pub executable : IsExecutable metadata.mode
    pub outside :
        (workspace : P) → s.workspace ≡ some workspace → s.is_within workspace file ≡ false

  outside_workspace :
      (o : Option P) (file : P)
      → in_workspace s o file ≡ false
      → (w : P) → o ≡ some w
      → s.is_within w file ≡ false
  outside_workspace none file h w e = absurd (cc e)
  outside_workspace (some v) file h w e = ap (λ x. s.is_within x file) (sym (cc e)) ∙ h

  not_in_workspace :
      (o : Option P) (file : P)
      → ((w : P) → o ≡ some w → s.is_within w file ≡ false)
      → in_workspace s o file ≡ false
  not_in_workspace none file h = refl
  not_in_workspace (some v) file h = h v refl

  candidate-Offers : (d file : P) → candidate s d ≡ some file → Offers d file
  unfolding candidate
  candidate-Offers d file h = elim (Option-cases (s.canonicalize (s.codex_in d))) [
    | inl lost ↦ absurd (cc (rw (candidate, lost) at h))
    | inr (found, e) ↦ elim (Option-cases (s.metadata found)) [
      | inl unknown ↦ absurd (cc (rw (candidate, e, unknown) at h))
      | inr (m, known) ↦
          elim (Bool-cases
            ((m.is_file && is_executable m.mode) && not (in_workspace s s.workspace found))) [
              | inr f ↦ absurd (cc (rw (candidate, e, known, f) at h))
              | inl t ↦
                  let same : found ≡ file = cc (rw (candidate, e, known, t) at h) in
                  subst (Offers d) same (record {
                    metadata = m;
                    resolved = e;
                    known = known;
                    plain = ground arith;
                    executable = is_executable_sound m.mode (ground arith);
                    outside = outside_workspace s.workspace found (ground arith);
                  })
            ]
    ]
  ]

  Offers-candidate : (d file : P) → Offers d file → candidate s d ≡ some file
  unfolding candidate
  Offers-candidate d file o = rw (
    candidate,
    o.resolved,
    o.known,
    o.plain,
    is_executable_complete o.metadata.mode o.executable,
    not_in_workspace s.workspace file o.outside,
  )

  -- The directory is one of the path, it offers the file, and no directory before it offers any.
  abbrev pub IsFirst : List P → P → Type 0
  IsFirst directories file =
      (before : List P) × (directory : P) × (after : List P) × (directories
        ≡ before ++ directory ∷ after)
      × Offers directory file
      × All (λ d. (other : P) → ¬ Offers d other) before

  first_candidate-IsFirst :
      (directories : List P) (file : P)
      → first_candidate s directories ≡ ok file
      → IsFirst directories file
  unfolding first_candidate
  first_candidate-IsFirst [] file h = absurd (cc h)
  first_candidate-IsFirst (d ∷ ds) file h = elim (Option-cases (candidate s d)) [
    | inl no_file ↦
        let (before, directory, after, split, offered, earlier) =
          first_candidate-IsFirst ds file (rw (first_candidate, no_file) at h) in
        (
          d ∷ before,
          directory,
          after,
          ap (λ l. d ∷ l) split,
          offered,
          ((λ other o. cc (Offers-candidate d other o, no_file)), earlier),
        )
    | inr (found, e) ↦
        let same : found ≡ file = cc (rw (first_candidate, e) at h) in
        ([], d, ds, refl, candidate-Offers d file (e ∙ ap some same), tt)
  ]

  first_candidate-finds :
      (before : List P) (d : P) (after : List P) (file : P)
      → Offers d file
      → All (λ d. (other : P) → ¬ Offers d other) before
      → first_candidate s (before ++ d ∷ after) ≡ ok file
  unfolding first_candidate
  first_candidate-finds [] d after file o earlier = rw (first_candidate, Offers-candidate d file o)
  first_candidate-finds (b ∷ before) d after file o (nothing, earlier) =
      elim (Option-cases (candidate s b)) [
        | inl no_file ↦
            rw (first_candidate, no_file) (first_candidate-finds before d after file o earlier)
        | inr (found, e) ↦ absurd (nothing found (candidate-Offers b found e))
      ]

  -- Codex is found exactly where a directory of the path offers it, and it is what the first such
  -- directory offers: its `codex`, resolved to a plain file with an execute bit outside the
  -- workspace, where no directory before it resolves to such a file.
  pub resolve_codex_iff :
      (file : P)
      → (resolve_codex s ≡ ok file)
        ↔ ((directories : List P) × (s.path ≡ some directories) × IsFirst directories file)
  unfolding resolve_codex
  resolve_codex_iff file = (
    λ h.
        let (directories, found, known) =
          ok_of_bind (ok_or s.path CliError.codex_missing) (first_candidate s) h in
        (
          directories,
          ok_or_ok s.path CliError.codex_missing directories known,
          first_candidate-IsFirst directories file found,
        ),
    λ (directories, known, (before, d, after, split, o, earlier)).
        ap (λ path. ok_or path CliError.codex_missing >>= first_candidate s) known
        ∙ (ap (first_candidate s) split ∙ first_candidate-finds before d after file o earlier),
  )
