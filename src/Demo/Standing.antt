-- ===== src/Demo/Standing.antt =====
-- `collect_tokens_with_prefix` of src/demo.rs reads exactly the tokens that stand in a text.
use agent_veil.Demo.Tokens.{ends_with_bracket, is_token_digit, random_hex_length, token_at}
use agent_veil.Detector.Matches.{match_indices}
use agent_veil.Engine.Slice.{get_range, is_char_boundary}
use agent_veil.Prelude.{
  ℕ, ◌+◌, ◌-◌, ◌≤◌, ◌≡◌, ◌≢◌, ◌++◌, ◌∙◌, Text, bytes, Bool, true, ◌&&◌, none, some, [], ◌∷◌, All,
  In, all, ap, append_assoc, arith, drop, inl, inr, Bool-cases, if◌then◌else◌, leb, length,
  length-append, refl, subst, sym, take, text_eq, text_eq→eq, take-append-drop, length-drop,
}
use agent_veil.Demo.Reads.{
  Reads, digits_complete, digits_sound, drop-prefix, is_char_boundary-le, match_from_complete,
  match_from_sound, take-prefix,
}

boundaries : Text → Text → Text → Bool
boundaries s before t =
    is_char_boundary s (length before) && is_char_boundary s (length before + length t)

ends_with_bracket-append :
    (x : Text) (c : ℕ) → ends_with_bracket (x ++ c ∷ []) ≡ text_eq (c ∷ []) (bytes "]")
ends_with_bracket-append [] c = refl
ends_with_bracket-append (b ∷ []) c = refl
ends_with_bracket-append (b ∷ d ∷ x) c = ends_with_bracket-append (d ∷ x) c

-- What is read behind a prefix, where there is enough text.
get_range-middle :
    (s before t after : Text) (stop : ℕ)
    → s ≡ before ++ (t ++ after)
    → stop ≡ length before + length t
    → get_range s (record { start = length before; end = stop })
      ≡ (if boundaries s before t then some t else none)
unfolding get_range boundaries
get_range-middle s before t after stop split at =
    let width : stop - length before ≡ length t = omega arith in
    let slice : take (stop - length before) (drop (length before) s) ≡ t =
      ap (λ n. take n (drop (length before) s)) width
      ∙ (ap (λ x. take (length t) (drop (length before) x)) split
          ∙ (ap (λ x. take (length t) x) (drop-prefix before (t ++ after))
              ∙ take-prefix t after)) in
    let ordered : leb (length before) stop ≡ true = ground arith in
    ground (arith, ordered, slice, ap (is_char_boundary s) at)

-- The token of a place, on the parts of the text there.
token_at-parts :
    (s prefix before digits : Text) (c : ℕ) (after : Text)
    → length digits ≡ 32
    → s ≡ before ++ ((prefix ++ (digits ++ c ∷ [])) ++ after)
    → token_at s prefix (length before) ≡ (
        if boundaries s before (prefix ++ (digits ++ c ∷ []))
        then (if text_eq (c ∷ []) (bytes "]") && all is_token_digit digits
            then some (prefix ++ (digits ++ c ∷ []))
            else none)
        else none)
unfolding token_at
token_at-parts s prefix before digits c after count split =
    let t : Text = prefix ++ (digits ++ c ∷ []) in
    let stop : length before + length prefix + random_hex_length + 1 ≡ length before + length t =
      omega (arith, length-append prefix (digits ++ c ∷ []), length-append digits (c ∷ [])) in
    let middle = get_range-middle s before t after _ split stop in
    let bracket : ends_with_bracket t ≡ text_eq (c ∷ []) (bytes "]") =
      ap ends_with_bracket (sym (append_assoc prefix digits (c ∷ [])))
      ∙ ends_with_bracket-append (prefix ++ digits) c in
    let inner : take 32 (drop (length prefix) t) ≡ digits =
      ap (take 32) (drop-prefix prefix (digits ++ c ∷ []))
      ∙ (ap (λ n. take n (digits ++ c ∷ [])) (sym count) ∙ take-prefix digits (c ∷ [])) in
    elim (Bool-cases (boundaries s before t)) [
      | inl y ↦ rw (token_at, middle, y, bracket, inner) refl
      | inr n ↦ rw (token_at, middle, n) refl
    ]

-- A text that is long enough, cut behind its 32nd byte.
cut_32 :
    (xs : Text)
    → 33 ≤ length xs
    → (digits : Text) × (c : ℕ) × (after : Text) × (xs ≡ digits ++ c ∷ after) × (length digits ≡ 32)
cut_32 xs h = at (drop 32 xs) (take-append-drop 32 xs) (length-drop 32 xs)
  where
    at :
        (rest : Text)
        → take 32 xs ++ rest ≡ xs
        → length rest ≡ length xs - 32
        → (digits : Text) × (c : ℕ) × (after : Text) × (xs ≡ digits ++ c ∷ after)
          × (length digits ≡ 32)
    at [] whole size = absurd (omega arith)
    at (c ∷ after) whole size = (
      take 32 xs,
      c,
      after,
      sym whole,
      omega (arith, ap (λ x. length x) whole, length-append (take 32 xs) (c ∷ after)),
    )

token_at-le :
    (s prefix t : Text) (start : ℕ)
    → token_at s prefix start ≡ some t
    → start + length prefix + 33 ≤ length s
unfolding token_at get_range
token_at-le s prefix t start h =
    let stop = start + length prefix + random_hex_length + 1 in
    elim (Bool-cases (leb start stop && is_char_boundary s start && is_char_boundary s stop)) [
      | inl y ↦ omega (arith, is_char_boundary-le s stop (ground arith))
      | inr n ↦ absurd (cc (rw (token_at, get_range, n) at h))
    ]

parts-Reads :
    (s prefix before digits : Text) (c : ℕ) (after t : Text)
    → length digits ≡ 32
    → s ≡ before ++ ((prefix ++ (digits ++ c ∷ [])) ++ after)
    → token_at s prefix (length before) ≡ some t
    → Reads prefix t s
unfolding boundaries
parts-Reads s prefix before digits c after t count split h =
    let u : Text = prefix ++ (digits ++ c ∷ []) in
    let known = sym (token_at-parts s prefix before digits c after count split) ∙ h in
    elim (Bool-cases (boundaries s before u)) [
      | inr n ↦ absurd (cc (rw n at known))
      | inl y ↦ elim (Bool-cases (text_eq (c ∷ []) (bytes "]") && all is_token_digit digits)) [
        | inr n ↦ absurd (cc (rw (y, n) at known))
        | inl z ↦
            let same : u ≡ t = cc (rw (y, z) at known) in
            let bracket : c ∷ [] ≡ bytes "]" = text_eq→eq (c ∷ []) (bytes "]") (ground arith) in
            subst (λ t. Reads prefix t s) same
              (record {
                before = before;
                after = after;
                place = split;
                token = record {
                  digits = digits;
                  digit_count = count;
                  hexadecimal = digits_sound digits (ground arith);
                  parts = ap (λ x. prefix ++ (digits ++ x)) bracket;
                };
                begins = ground arith;
                ends = ground arith;
              })
      ]
    ]

module _ (first : ℕ) (p : Text) (once : All (λ b. b ≢ first) p) where
  abbrev prefix : Text
  prefix = first ∷ p

  -- What is read at a match is a token that stands there.
  pub token_at-Reads :
      (s t : Text) (start : ℕ)
      → In start (match_indices s prefix)
      → token_at s prefix start ≡ some t
      → Reads prefix t s
  unfolding match_indices
  token_at-Reads s t start m h =
      let (before, rest, split, at) = match_from_sound first p once 0 0 s start m in
      let here : start ≡ length before = omega arith in
      let enough = token_at-le s prefix t start h in
      let (digits, c, after, cut, count) = cut_32 rest (
        omega (
          arith,
          ap (λ x. length x) split,
          length-append before (prefix ++ rest),
          length-append prefix rest,
        )) in
      let whole : s ≡ before ++ ((prefix ++ (digits ++ c ∷ [])) ++ after) =
        split
        ∙ ap (λ x. before ++ x)
            (ap (λ x. prefix ++ x) (cut ∙ sym (append_assoc digits (c ∷ []) after))
              ∙ sym (append_assoc prefix (digits ++ c ∷ []) after)) in
      parts-Reads s prefix before digits c after t count whole
        (ap (token_at s prefix) (sym here) ∙ h)

  -- Every token that stands in the text is read at a match.
  pub Reads-token_at :
      (s t : Text)
      → Reads prefix t s
      → (start : ℕ) × In start (match_indices s prefix) × (token_at s prefix start ≡ some t)
  unfolding match_indices bytes text_eq
  Reads-token_at s t r =
      let apart : boundaries s r.before t ≡ true =
        (unfold boundaries in rw (r.begins, r.ends) refl) in
      let within = ap (boundaries s r.before) (sym r.token.parts) ∙ apart in
      let hexadecimal = digits_complete r.token.digits r.token.hexadecimal in
      let whole : s ≡ r.before ++ ((prefix ++ (r.token.digits ++ bytes "]")) ++ r.after) =
        r.place ∙ ap (λ x. r.before ++ (x ++ r.after)) r.token.parts in
      let opened : s ≡ r.before ++ (prefix ++ ((r.token.digits ++ bytes "]") ++ r.after)) =
        whole
        ∙ ap (λ x. r.before ++ x) (append_assoc prefix (r.token.digits ++ bytes "]") r.after) in
      (
        length r.before,
        subst (λ n. In n (match_indices s prefix)) (omega arith)
            (match_from_complete first p once 0 0 s r.before _ tt opened),
        token_at-parts s prefix r.before r.token.digits b']' r.after r.token.digit_count whole
            ∙ rw (within, hexadecimal) (ap some (sym r.token.parts)),
      )
