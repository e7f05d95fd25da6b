-- ===== src/Sse/Chunks.antt =====
-- The transformer of src/sse.rs does not depend on how the stream is cut into chunks.
pub mod Ends
pub mod Rounds
use agent_veil.Sse.Event.{SseError}
use agent_veil.Payload.Value.{Value}
use agent_veil.Sse.Frame.{find_frame_end, take_frames, push, SseTransformer, max_sse_event_bytes}
use agent_veil.Prelude.{
  ◌≡◌, Text, [], ◌∷◌, ◌++◌, length, arith, Option-cases, inl, inr, true, refl, false, Bool-cases,
  ◌∙◌, ap, sym, List, Option, Result, ok, ◌+◌, none, length-append, ltb, ◌&&◌, not, is_some, Bool,
  append_assoc,
}
use agent_veil.Sse.Chunks.Ends.{find_frame_end-append}
use agent_veil.Sse.Chunks.Rounds.{add_frames, done_round, take_frames-append, take_frames_done}

add_frames-ok :
    {S : Type 0} (fs : List Text) (r : Result SseError (List Text) × Text) (s : S) (gs : List Text)
    → r.0 ≡ ok gs
    → add_frames fs (r, s) ≡ ((ok (fs ++ gs), r.1), s)
add_frames-ok [] (r, u) s gs h = rw h refl
add_frames-ok (f ∷ fs) (r, u) s gs h = rw (add_frames-ok fs (r, u) s gs h) refl

module _ (from_str : Text → Option Value) (to_string : Value → Option Text) {S : Type 0}
    (restore : Text → S → Text × S) where
  push-inversion :
      (t : SseTransformer) (chunk : Text) (s : S) (frames : List Text) (t' : SseTransformer)
      (s' : S)
      → push from_str to_string restore t chunk s ≡ ((ok frames, t'), s')
      → (ltb max_sse_event_bytes (length (t.buffer ++ chunk))
            && not (is_some (find_frame_end (t.buffer ++ chunk)))
          ≡ false)
        × (take_frames from_str to_string restore
              (length (t.buffer ++ chunk))
              t.restoration_mode
              (t.buffer ++ chunk)
              s
            ≡ ((ok frames, t'.buffer), s'))
        × (t'.restoration_mode ≡ t.restoration_mode)
  unfolding push
  push-inversion t chunk s frames t' s' h =
      elim (Bool-cases (
        ltb max_sse_event_bytes (length (t.buffer ++ chunk))
        && not (is_some (find_frame_end (t.buffer ++ chunk))))) [
          | inl refused ↦ absurd (cc (ap (λ r. r.0.0) (rw (refused, push) at h)))
          | inr f ↦
              let h' = rw (f, push) at h in
              (
                f,
                λ i. (((h' i).0.0, (h' i).0.1.buffer), (h' i).1),
                sym (ap (λ r. r.0.1.restoration_mode) h'),
              )
        ]

  abbrev is_oversize : Text → Bool
  is_oversize buffer =
      ltb max_sse_event_bytes (length buffer) && not (is_some (find_frame_end buffer))

  frame_end_before : (u v : Text) → is_oversize (u ++ v) ≡ true → find_frame_end u ≡ none
  frame_end_before u v over = elim (Option-cases (find_frame_end u)) [
    | inl missing ↦ missing
    | inr (e, found) ↦ absurd (ground (arith, find_frame_end-append u v e found))
  ]

  push-take_frames :
      (t : SseTransformer) (chunk : Text) (s : S) (r : (Result SseError (List Text) × Text) × S)
      → is_oversize (t.buffer ++ chunk) ≡ false
      → take_frames from_str to_string restore
          (length (t.buffer ++ chunk))
          t.restoration_mode
          (t.buffer ++ chunk)
          s
        ≡ r
      → push from_str to_string restore t chunk s ≡ ((r.0.0, record t { buffer = r.0.1 }), r.1)
  unfolding push
  push-take_frames t chunk s r f h = rw (f, push, h) refl

  -- If two chunks are taken one after the other, they are taken at once, with the same frames, the
  -- same state of the transformer and of the closure.
  pub push-append :
      (t : SseTransformer) (a b : Text) (s : S) (f : List Text) (t' : SseTransformer) (s' : S)
      (g : List Text) (t'' : SseTransformer) (s'' : S)
      → push from_str to_string restore t a s ≡ ((ok f, t'), s')
      → push from_str to_string restore t' b s' ≡ ((ok g, t''), s'')
      → push from_str to_string restore t (a ++ b) s ≡ ((ok (f ++ g), t''), s'')
  push-append t a b s f t' s' g t'' s'' first second =
      let (within, taken, mode) = push-inversion t a s f t' s' first in
      let (within', taken', mode') = push-inversion t' b s' g t'' s'' second in
      let buffer = t.buffer ++ a in
      let assoc : t.buffer ++ (a ++ b) ≡ buffer ++ b = sym (append_assoc t.buffer a b) in
      let small : is_oversize (buffer ++ b) ≡ false =
        elim (Bool-cases (is_oversize (buffer ++ b))) [
          | inr f ↦ f
          | inl over ↦
              let still : buffer ≡ t'.buffer =
                ap (λ r. r.0.1)
                  (sym (
                      done_round from_str to_string restore t.restoration_mode (length buffer)
                        buffer s (frame_end_before buffer b over))
                    ∙ taken) in
              absurd (cc (over, within', still))
        ] in
      let second' : take_frames from_str to_string restore (length (t'.buffer ++ b))
            t.restoration_mode (t'.buffer ++ b) s'
          ≡ ((ok g, t''.buffer), s'') =
        rw mode at taken' in
      let joined =
        take_frames-append from_str to_string restore t.restoration_mode (length buffer) buffer b s
          f t'.buffer s' (omega arith) taken
        ∙ ap (add_frames f) second'
        ∙ add_frames-ok f (ok g, t''.buffer) s'' g refl in
      let bound : length buffer + length b ≡ length (buffer ++ b) =
        omega (arith, length-append buffer b) in
      push-take_frames t (a ++ b) s ((ok (f ++ g), t''.buffer), s'') (rw assoc small)
        (rw (assoc, ← bound) joined)
      ∙ (λ i. (
        (ok (f ++ g), record { buffer = t''.buffer; restoration_mode = (sym mode ∙ sym mode') i }),
        s'',
      ))

  -- After a successful call no complete frame is left in the buffer.
  pub push_done :
      (t : SseTransformer) (chunk : Text) (s : S) (f : List Text) (t' : SseTransformer) (s' : S)
      → push from_str to_string restore t chunk s ≡ ((ok f, t'), s')
      → find_frame_end t'.buffer ≡ none
  push_done t chunk s f t' s' h =
      let (within, taken, mode) = push-inversion t chunk s f t' s' h in
      take_frames_done from_str to_string restore t.restoration_mode (length (t.buffer ++ chunk))
        (t.buffer ++ chunk) s f t'.buffer s' (omega arith) taken
