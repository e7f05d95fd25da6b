-- ===== src/Launcher/Ends.antt =====
-- What holds of every run of `launch_codex` of src/main.rs.
use agent_veil.Launcher.Launch.{
  Host, Event, FirstStop, supervise, stop_gateway, LaunchArguments, prepare, Command, launch_codex,
  run_codex,
}
use agent_veil.Prelude.{
  refl, List, In, inl, inr, ◌⊎◌, none, some, Option-cases, ◌≡◌, ok, ap, ◌∷◌, [], Result-cases,
  Bool-cases, ◌∙◌, sym, All, All-In,
}

-- Codex has ended: it was waited for, or killed.
abbrev pub HasEnded : List Event → Type 0
HasEnded events = In Event.codex_waited events ⊎ In Event.codex_killed events

-- The gateway has ended or been told to end.
abbrev pub IsStopping : List Event → Type 0
IsStopping events = In Event.shutdown_sent events ⊎ In Event.gateway_joined events

module _ (host : Host) where
  supervise-HasEnded :
      (stop : FirstStop) → HasEnded (supervise host stop).1 × IsStopping (supervise host stop).1
  unfolding supervise stop_gateway
  supervise-HasEnded (FirstStop.child_ended none) = (inr (inl refl), inl (inr (inl refl)))
  supervise-HasEnded (FirstStop.child_ended (some success)) = elim (Option-cases host.grace) [
    | inl late ↦ rw late (inl (inl refl), inl (inr (inl refl)))
    | inr (end, joined) ↦ rw joined (inl (inl refl), inl (inr (inl refl)))
  ]
  supervise-HasEnded (FirstStop.gateway_ended end) = (inr (inr (inl refl)), inr (inl refl))

  -- The event spawns nothing.
  abbrev SpawnsNothing : Event → Type 0
  SpawnsNothing (Event.codex_spawned c) = ⊥
  SpawnsNothing Event.gateway_started = Unit
  SpawnsNothing Event.codex_waited = Unit
  SpawnsNothing Event.codex_killed = Unit
  SpawnsNothing Event.shutdown_sent = Unit
  SpawnsNothing Event.gateway_joined = Unit
  SpawnsNothing Event.gateway_aborted = Unit

  supervise-SpawnsNothing : (stop : FirstStop) → All SpawnsNothing (supervise host stop).1
  unfolding supervise stop_gateway
  supervise-SpawnsNothing (FirstStop.child_ended none) = (tt, (tt, tt))
  supervise-SpawnsNothing (FirstStop.child_ended (some success)) = elim (Option-cases host.grace) [
    | inl late ↦ rw late (tt, (tt, (tt, tt)))
    | inr (end, joined) ↦ rw joined (tt, (tt, (tt, tt)))
  ]
  supervise-SpawnsNothing (FirstStop.gateway_ended end) = (tt, (tt, (tt, tt)))

  only_spawned :
      (c d : Command)
      → In
          (Event.codex_spawned c)
          (Event.gateway_started ∷ Event.codex_spawned d ∷ (supervise host host.first_stop).1)
      → c ≡ d
  only_spawned c d (inl e) = absurd (cc e)
  only_spawned c d (inr (inl e)) = cc e
  only_spawned c d (inr (inr m)) = absurd (
      All-In SpawnsNothing (Event.codex_spawned c) (supervise host host.first_stop).1
        (supervise-SpawnsNothing host.first_stop) m)

  -- A run that spawns Codex has prepared that command, and nothing but the start of the gateway
  -- comes before it.
  pub spawned_prepared :
      (a : LaunchArguments) (c : Command)
      → In (Event.codex_spawned c) (launch_codex host a).1
      → (prepare host a ≡ ok c)
        × ((launch_codex host a).1
            ≡ Event.gateway_started ∷ Event.codex_spawned c ∷ (supervise host host.first_stop).1)
  unfolding launch_codex run_codex
  spawned_prepared a c m = elim (Result-cases (prepare host a)) [
    | inr (e, refused) ↦ absurd (rw (launch_codex, refused) at m)
    | inl (command, made) ↦ elim (Bool-cases (host.spawns command)) [
      | inr f ↦ absurd (
          All-In SpawnsNothing (Event.codex_spawned c)
            (Event.gateway_started ∷ Event.shutdown_sent ∷ []) (tt, (tt, tt))
            (rw (launch_codex, made, run_codex, f) at m))
      | inl t ↦
          let same = only_spawned c command (rw (launch_codex, made, run_codex, t) at m) in
          (
            made ∙ ap ok (sym same),
            rw (launch_codex, made, run_codex, t)
                (ap
                  (λ x.
                    Event.gateway_started
                    ∷ Event.codex_spawned x
                    ∷ (supervise host host.first_stop).1)
                  (sym same)),
          )
    ]
  ]

  -- Once Codex is spawned, it is waited for or killed, and the gateway has ended or is told to end,
  -- whatever fails and whichever of the two ends first.
  pub launch_codex-HasEnded :
      (a : LaunchArguments) (c : Command)
      → In (Event.codex_spawned c) (launch_codex host a).1
      → (rest : List Event) × ((launch_codex host a).1
          ≡ Event.gateway_started ∷ Event.codex_spawned c ∷ rest)
        × HasEnded rest
        × IsStopping rest
  launch_codex-HasEnded a c m =
      let (ended, stopping) = supervise-HasEnded host.first_stop in
      ((supervise host host.first_stop).1, (spawned_prepared a c m).1, ended, stopping)
