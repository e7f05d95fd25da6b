-- ===== src/Gateway/Streams.antt =====
-- The bodies that `relay_upstream` of src/gateway.rs yields where it restores display text.
use agent_veil.Sse.Event.{SseError}
use agent_veil.Gateway.Relay.{StreamError, Body, Arrival, finished, frames_of, restore_stream}
use agent_veil.Payload.Value.{Value}
use agent_veil.Sse.Chunks.{push-append}
use agent_veil.Sse.Frame.{SseTransformer, push, finish}
use agent_veil.Prelude.{
  ℕ, ◌≡◌, refl, sym, ap, ◌∙◌, Text, Option, some, List, [], ◌∷◌, ◌++◌, append_assoc, ok, err,
  Result-cases, Option-cases, inl, inr, append-nil, subst, Result,
}

-- Nothing, or one error.
abbrev pub IsEnd : Body → Type 0
IsEnd [] = Unit
IsEnd (err e ∷ []) = Unit
IsEnd (err e ∷ x ∷ rest) = ⊥
IsEnd (ok frame ∷ rest) = ⊥

-- No error at all.
abbrev pub IsClean : Body → Type 0
IsClean [] = Unit
IsClean (err e ∷ rest) = ⊥
IsClean (ok frame ∷ rest) = IsClean rest

-- Frames, and then at most one error.
abbrev pub EndsAtError : Body → Type 0
EndsAtError body =
    (frames : List Text) × (end : Body) × IsEnd end × (body ≡ frames_of frames ++ end)

-- Chunks that arrive at one time.
unfoldable pub arrive : ℕ → List Text → List Arrival
arrive now_ms [] = []
arrive now_ms (chunk ∷ chunks) =
    record { now_ms = now_ms; chunk = some chunk } ∷ arrive now_ms chunks

unfoldable pub concat : List Text → Text
concat [] = []
concat (chunk ∷ chunks) = chunk ++ concat chunks

frames_of-append : (f g : List Text) → frames_of (f ++ g) ≡ frames_of f ++ frames_of g
unfolding frames_of
frames_of-append [] g = refl
frames_of-append (frame ∷ f) g = ap (λ b. ok frame ∷ b) (frames_of-append f g)

finished-EndsAtError : (t : SseTransformer) → EndsAtError (finished t)
unfolding finished frames_of
finished-EndsAtError t = elim (Result-cases (finish t)) [
  | inl (u, done) ↦ ([], [], tt, rw (finished, done) refl)
  | inr (e, cut) ↦ ([], err (StreamError.sse e) ∷ [], tt, rw (finished, cut) refl)
]

IsClean-append : (f : List Text) (rest : Body) → IsClean (frames_of f ++ rest) → IsClean rest
unfolding frames_of
IsClean-append [] rest h = h
IsClean-append (frame ∷ f) rest h = IsClean-append f rest h

module _ (from_str : Text → Option Value) (to_string : Value → Option Text) {S : Type 0}
    (restore : ℕ → Text → S → Text × S) where
  -- A restored body is a list of frames with at most one error, which is the last that it yields:
  -- after an error of the connection or of the transformer nothing more is relayed.
  pub restore_stream-EndsAtError :
      (t : SseTransformer) (arrivals : List Arrival) (s : S)
      → EndsAtError (restore_stream from_str to_string restore t arrivals s).0
  unfolding restore_stream
  restore_stream-EndsAtError t [] s = finished-EndsAtError t
  restore_stream-EndsAtError t (a ∷ arrivals) s = elim (Option-cases a.chunk) [
    | inl lost ↦ (
      [],
      err StreamError.upstream ∷ [],
      tt,
      rw (restore_stream, lost) (unfold frames_of in refl),
    )
    | inr (chunk, came) ↦
        let r = push from_str to_string (restore a.now_ms) t chunk s in
        elim (Result-cases r.0.0) [
          | inr (e, failed) ↦ (
            [],
            err (StreamError.sse e) ∷ [],
            tt,
            rw (restore_stream, came, failed) (unfold frames_of in refl),
          )
          | inl (frames, pushed) ↦
              let (more, end, last, whole) = restore_stream-EndsAtError r.0.1 arrivals r.1 in
              (
                frames ++ more,
                end,
                last,
                rw (restore_stream, came, pushed)
                    (ap (λ b. frames_of frames ++ b) whole
                      ∙ sym (append_assoc (frames_of frames) (frames_of more) end)
                      ∙ ap (λ b. b ++ end) (sym (frames_of-append frames more))),
              )
        ]
  ]

  -- What one chunk without an error puts before the rest.
  one_chunk :
      (now : ℕ) (a : Text) (cs : List Text) (t : SseTransformer) (s : S) (f : List Text)
      (t' : SseTransformer) (s' : S)
      → push from_str to_string (restore now) t a s ≡ ((ok f, t'), s')
      → restore_stream from_str to_string restore t (arrive now (a ∷ cs)) s ≡ (
        frames_of f ++ (restore_stream from_str to_string restore t' (arrive now cs) s').0,
        (restore_stream from_str to_string restore t' (arrive now cs) s').1,
      )
  unfolding restore_stream arrive
  one_chunk now a cs t s f t' s' h =
      let pushed : (push from_str to_string (restore now) t a s).0.0 ≡ ok f = ap (λ r. r.0.0) h in
      rw (restore_stream, pushed)
        (ap
          (λ (r : (Result SseError (List Text) × SseTransformer) × S).
            let rest = restore_stream from_str to_string restore r.0.1 (arrive now cs) r.1 in
            (frames_of f ++ rest.0, rest.1))
          h)

  -- The first two chunks of a stream that meets no error may come as one.
  merge_chunks :
      (now : ℕ) (a b : Text) (cs : List Text) (t : SseTransformer) (s : S)
      → IsClean (restore_stream from_str to_string restore t (arrive now (a ∷ b ∷ cs)) s).0
      → restore_stream from_str to_string restore t (arrive now (a ∷ b ∷ cs)) s
        ≡ restore_stream from_str to_string restore t (arrive now ((a ++ b) ∷ cs)) s
  unfolding restore_stream arrive
  merge_chunks now a b cs t s clean =
      let r = push from_str to_string (restore now) t a s in
      elim (Result-cases r.0.0) [
        | inr (e, failed) ↦ absurd (rw (restore_stream, failed) at clean)
        | inl (f, first) ↦
            let clean' = IsClean-append f _ (rw (restore_stream, first) at clean) in
            let q = push from_str to_string (restore now) r.0.1 b r.1 in
            elim (Result-cases q.0.0) [
              | inr (e, failed) ↦ absurd (rw (restore_stream, failed) at clean')
              | inl (g, second) ↦
                  let both =
                    push-append from_str to_string (restore now) t a b s f r.0.1 r.1 g q.0.1 q.1
                      (λ i. ((first i, r.0.1), r.1)) (λ i. ((second i, q.0.1), q.1)) in
                  let joined = one_chunk now (a ++ b) cs t s (f ++ g) q.0.1 q.1 both in
                  let rest = restore_stream from_str to_string restore q.0.1 (arrive now cs) q.1 in
                  one_chunk now a (b ∷ cs) t s f r.0.1 r.1 (λ i. ((first i, r.0.1), r.1))
                  ∙ ap (λ x. (frames_of f ++ x.0, x.1))
                      (one_chunk now b cs r.0.1 r.1 g q.0.1 q.1 (λ i. ((second i, q.0.1), q.1)))
                  ∙ ap (λ x. (x, rest.1))
                      (sym (append_assoc (frames_of f) (frames_of g) rest.0)
                        ∙ ap (λ x. x ++ rest.0) (sym (frames_of-append f g)))
                  ∙ sym joined
            ]
      ]

  -- If chunks that arrive at one time meet no error, the body that they yield, and the state of the
  -- engine after it, are those of one chunk that holds all their bytes.
  pub restore_stream-concat :
      (now : ℕ) (a : Text) (cs : List Text) (t : SseTransformer) (s : S)
      → IsClean (restore_stream from_str to_string restore t (arrive now (a ∷ cs)) s).0
      → restore_stream from_str to_string restore t (arrive now (a ∷ cs)) s
        ≡ restore_stream from_str to_string restore t (arrive now (concat (a ∷ cs) ∷ [])) s
  unfolding concat
  restore_stream-concat now a [] t s clean =
      ap (λ b. restore_stream from_str to_string restore t (arrive now (b ∷ [])) s)
        (sym (append-nil a))
  restore_stream-concat now a (b ∷ cs) t s clean =
      let merged = merge_chunks now a b cs t s clean in
      merged
      ∙ restore_stream-concat now (a ++ b) cs t s (subst (λ x. IsClean x.0) merged clean)
      ∙ ap (λ c. restore_stream from_str to_string restore t (arrive now (c ∷ [])) s)
          (append_assoc a b (concat cs))
