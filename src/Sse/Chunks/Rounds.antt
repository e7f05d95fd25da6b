-- ===== src/Sse/Chunks/Rounds.antt =====
-- The loop of `push` of src/sse.rs: its rounds, the bound of it, and buffers that grow.
use agent_veil.Sse.Event.{SseError, SseRestorationMode}
use agent_veil.Payload.Value.{Value}
use agent_veil.Sse.Frame.{find_frame_end, add_frame, take_frames, transform_frame}
use agent_veil.Prelude.{
  ℕ, ◌≤◌, ◌≡◌, Text, [], ◌∷◌, ◌++◌, some, length, arith, Option-cases, inl, inr, refl, suc, ◌∙◌, ap,
  sym, List, Option, Result, ok, ◌+◌, none, take, Result-cases, ◌≢◌, drop, zero, err, length-drop,
  length-append, take-append, drop-append, subst,
}
use agent_veil.Sse.Chunks.Ends.{find_frame_end_bounds, find_frame_end-append}

-- The frames of two calls.
abbrev pub add_frames :
    {S : Type 0}
    → List Text
    → (Result SseError (List Text) × Text) × S
    → (Result SseError (List Text) × Text) × S
add_frames [] r = r
add_frames (frame ∷ frames) r = add_frame frame (add_frames frames r)

module _ (from_str : Text → Option Value) (to_string : Value → Option Text) {S : Type 0}
    (restore : Text → S → Text × S) (mode : SseRestorationMode) where
  abbrev pub frames_of : ℕ → Text → S → (Result SseError (List Text) × Text) × S
  frames_of n buffer s = take_frames from_str to_string restore n mode buffer s

  abbrev pub transform : Text → S → Result SseError Text × S
  transform frame s = transform_frame from_str to_string restore mode frame s

  pub done_round :
      (n : ℕ) (buffer : Text) (s : S)
      → find_frame_end buffer ≡ none
      → frames_of n buffer s ≡ ((ok [], buffer), s)
  unfolding take_frames
  done_round zero buffer s h = refl
  done_round (suc n) buffer s h = rw (h, take_frames) refl

  fail_round :
      (n : ℕ) (buffer : Text) (s : S) (end : ℕ) (e : SseError)
      → find_frame_end buffer ≡ some end
      → (transform (take end buffer) s).0 ≡ err e
      → frames_of (suc n) buffer s ≡ ((err e, drop end buffer), (transform (take end buffer) s).1)
  unfolding take_frames
  fail_round n buffer s end e h k = rw (h, take_frames, k) refl

  next_round :
      (n : ℕ) (buffer : Text) (s : S) (end : ℕ) (frame : Text)
      → find_frame_end buffer ≡ some end
      → (transform (take end buffer) s).0 ≡ ok frame
      → frames_of (suc n) buffer s
        ≡ add_frame frame (frames_of n (drop end buffer) (transform (take end buffer) s).1)
  unfolding take_frames
  next_round n buffer s end frame h k = rw (h, take_frames, k) refl

  data Round (buffer : Text) (s : S) : Type 0 where
    done : find_frame_end buffer ≡ none → Round buffer s
    fail :
        (end : ℕ) (e : SseError)
        → find_frame_end buffer ≡ some end
        → (transform (take end buffer) s).0 ≡ err e
        → Round buffer s
    next :
        (end : ℕ) (frame : Text)
        → find_frame_end buffer ≡ some end
        → (transform (take end buffer) s).0 ≡ ok frame
        → Round buffer s

  round : (buffer : Text) (s : S) → Round buffer s
  round buffer s = elim (Option-cases (find_frame_end buffer)) [
    | inl h ↦ Round.done h
    | inr (end, h) ↦ elim (Result-cases (transform (take end buffer) s).0) [
      | inl (frame, k) ↦ Round.next end frame h k
      | inr (e, k) ↦ Round.fail end e h k
    ]
  ]

  end_of_nil : (buffer : Text) (end : ℕ) → length buffer ≤ 0 → find_frame_end buffer ≢ some end
  end_of_nil buffer end h found = absurd (omega (arith, find_frame_end_bounds buffer end found))

  length_of_rest :
      (n : ℕ) (buffer : Text) (end : ℕ)
      → length buffer ≤ suc n
      → find_frame_end buffer ≡ some end
      → length (drop end buffer) ≤ n
  length_of_rest n buffer end h found =
      omega (arith, find_frame_end_bounds buffer end found, length-drop end buffer)

  -- Any two bounds that are enough give the same frames.
  pub take_frames_bound :
      (m n : ℕ) (buffer : Text) (s : S)
      → length buffer ≤ m
      → length buffer ≤ n
      → frames_of m buffer s ≡ frames_of n buffer s
  take_frames_bound zero zero buffer s hm hn = refl
  take_frames_bound zero (suc n) buffer s hm hn = elim (round buffer s) [
    | Round.done h ↦ done_round zero buffer s h ∙ sym (done_round (suc n) buffer s h)
    | Round.fail end e h k ↦ absurd (end_of_nil buffer end hm h)
    | Round.next end frame h k ↦ absurd (end_of_nil buffer end hm h)
  ]
  take_frames_bound (suc m) zero buffer s hm hn = elim (round buffer s) [
    | Round.done h ↦ done_round (suc m) buffer s h ∙ sym (done_round zero buffer s h)
    | Round.fail end e h k ↦ absurd (end_of_nil buffer end hn h)
    | Round.next end frame h k ↦ absurd (end_of_nil buffer end hn h)
  ]
  take_frames_bound (suc m) (suc n) buffer s hm hn = elim (round buffer s) [
    | Round.done h ↦ done_round (suc m) buffer s h ∙ sym (done_round (suc n) buffer s h)
    | Round.fail end e h k ↦ fail_round m buffer s end e h k ∙ sym (fail_round n buffer s end e h k)
    | Round.next end frame h k ↦
        next_round m buffer s end frame h k
        ∙ ap (add_frame frame) (
            take_frames_bound m n (drop end buffer) (transform (take end buffer) s).1
              (length_of_rest m buffer end hm h) (length_of_rest n buffer end hn h))
        ∙ sym (next_round n buffer s end frame h k)
  ]

  add_frame-inversion :
      (frame : Text) (r : (Result SseError (List Text) × Text) × S) (frames : List Text)
      (rest : Text) (t : S)
      → add_frame frame r ≡ ((ok frames, rest), t)
      → (others : List Text) × (r ≡ ((ok others, rest), t)) × (frames ≡ frame ∷ others)
  add_frame-inversion frame ((err e, u), v) frames rest t h = absurd (cc h)
  add_frame-inversion frame ((ok others, u), v) frames rest t h =
      (others, ground (arith, h), ground (arith, h))

  at_end :
      (n : ℕ) (a b : Text) (s : S) (frames : List Text) (rest : Text) (t : S)
      → length a ≤ n
      → find_frame_end a ≡ none
      → frames_of n a s ≡ ((ok frames, rest), t)
      → frames_of (n + length b) (a ++ b) s
        ≡ add_frames frames (frames_of (length (rest ++ b)) (rest ++ b) t)
  at_end n a b s frames rest t h finished taken =
      let same : ((ok [], a), s) ≡ ((ok frames, rest), t) =
        sym (done_round n a s finished) ∙ taken in
      let no_frames : frames ≡ [] = cc same in
      let kept : rest ≡ a = cc same in
      let no_change : t ≡ s = cc same in
      rw (no_frames, kept, no_change)
        (take_frames_bound (n + length b) (length (a ++ b)) (a ++ b) s
          (omega (arith, length-append a b)) (omega arith))

  -- Frames that are already complete are taken first.
  pub take_frames-append :
      (n : ℕ) (a b : Text) (s : S) (frames : List Text) (rest : Text) (t : S)
      → length a ≤ n
      → frames_of n a s ≡ ((ok frames, rest), t)
      → frames_of (n + length b) (a ++ b) s
        ≡ add_frames frames (frames_of (length (rest ++ b)) (rest ++ b) t)
  take_frames-append zero a b s frames rest t h taken = elim (round a s) [
    | Round.done finished ↦ at_end zero a b s frames rest t h finished taken
    | Round.fail end e found k ↦ absurd (end_of_nil a end h found)
    | Round.next end frame found k ↦ absurd (end_of_nil a end h found)
  ]
  take_frames-append (suc n) a b s frames rest t h taken = elim (round a s) [
    | Round.done finished ↦ at_end (suc n) a b s frames rest t h finished taken
    | Round.fail end e found k ↦
        absurd (cc (ap (λ r. r.0.0) (fail_round n a s end e found k), ap (λ r. r.0.0) taken))
    | Round.next end frame found k ↦
        let (others, taken', whole) =
          add_frame-inversion frame _ frames rest t
            (sym (next_round n a s end frame found k) ∙ taken) in
        let within : end ≤ length a = (find_frame_end_bounds a end found).1 in
        let prefix : take end (a ++ b) ≡ take end a = take-append end a b within in
        let k' : (transform (take end (a ++ b)) s).0 ≡ ok frame = rw prefix k in
        let longer : suc n + length b ≡ suc (n + length b) = omega arith in
        rw (whole, longer)
          (next_round (n + length b) (a ++ b) s end frame (find_frame_end-append a b end found) k'
            ∙ rw (prefix, drop-append end a b within)
                (ap (add_frame frame) (
                  take_frames-append n (drop end a) b (transform (take end a) s).1 others rest t
                    (length_of_rest n a end h found) taken')))
  ]

  -- With a bound that is enough, no frame end is left in the buffer.
  pub take_frames_done :
      (n : ℕ) (buffer : Text) (s : S) (frames : List Text) (rest : Text) (t : S)
      → length buffer ≤ n
      → frames_of n buffer s ≡ ((ok frames, rest), t)
      → find_frame_end rest ≡ none
  take_frames_done zero buffer s frames rest t h taken = elim (round buffer s) [
    | Round.done finished ↦
        let same = sym (done_round zero buffer s finished) ∙ taken in
        subst (λ u. find_frame_end u ≡ none) (ap (λ r. r.0.1) same) finished
    | Round.fail end e found k ↦ absurd (end_of_nil buffer end h found)
    | Round.next end frame found k ↦ absurd (end_of_nil buffer end h found)
  ]
  take_frames_done (suc n) buffer s frames rest t h taken = elim (round buffer s) [
    | Round.done finished ↦
        let same = sym (done_round (suc n) buffer s finished) ∙ taken in
        subst (λ u. find_frame_end u ≡ none) (ap (λ r. r.0.1) same) finished
    | Round.fail end e found k ↦
        absurd (cc (ap (λ r. r.0.0) (fail_round n buffer s end e found k), ap (λ r. r.0.0) taken))
    | Round.next end frame found k ↦
        let (others, taken', whole) =
          add_frame-inversion frame _ frames rest t
            (sym (next_round n buffer s end frame found k) ∙ taken) in
        take_frames_done n (drop end buffer) (transform (take end buffer) s).1 others rest t
          (length_of_rest n buffer end h found) taken'
  ]
