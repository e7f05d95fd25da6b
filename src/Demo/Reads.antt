-- ===== src/Demo/Reads.antt =====
-- Where `collect_tokens_with_prefix` of src/demo.rs finds a token: at every place where one stands.
use agent_veil.Demo.Tokens.{is_token_digit}
use agent_veil.Detector.Matches.{match_from}
use agent_veil.Engine.Slice.{is_char_boundary}
use agent_veil.Sse.Text.{starts_with, starts_with-prefix, strip_prefix}
use agent_veil.Prelude.{
  ℕ, zero, suc, ◌+◌, ◌-◌, ◌≤◌, ◌≡◌, ◌≢◌, ◌⊎◌, ◌++◌, ◌∙◌, Text, bytes, true, [], ◌∷◌, All, In, all,
  ap, arith, drop, inl, inr, Bool-cases, is_ascii_digit, length, refl, subst, sym, take,
}

-- A digit of a token: 0 to 9 or A to F.
abbrev pub IsTokenDigit : ℕ → Type 0
IsTokenDigit b = ((b'0' ≤ b) × (b ≤ b'9')) ⊎ ((b'A' ≤ b) × (b ≤ b'F'))

-- A token: the prefix, 32 digits and a bracket.
pub record IsToken (prefix t : Text) : Type 0 where
  pub digits : Text
  pub digit_count : length digits ≡ 32
  pub hexadecimal : All IsTokenDigit digits
  pub parts : t ≡ prefix ++ (digits ++ bytes "]")

-- A token stands in the text, between two boundaries of characters.
pub record Reads (prefix t s : Text) : Type 0 where
  pub before : Text
  pub after : Text
  pub place : s ≡ before ++ (t ++ after)
  pub token : IsToken prefix t
  pub begins : is_char_boundary s (length before) ≡ true
  pub ends : is_char_boundary s (length before + length t) ≡ true

pub digits_sound : (ds : Text) → all is_token_digit ds ≡ true → All IsTokenDigit ds
unfolding is_token_digit is_ascii_digit
digits_sound [] h = tt
digits_sound (d ∷ ds) h = (one d (ground arith), digits_sound ds (ground arith))
  where
    one : (b : ℕ) → is_token_digit b ≡ true → IsTokenDigit b
    one b h = ground arith

pub digits_complete : (ds : Text) → All IsTokenDigit ds → all is_token_digit ds ≡ true
unfolding is_token_digit is_ascii_digit
digits_complete [] h = refl
digits_complete (d ∷ ds) (h, hs) = ground (arith, digits_complete ds hs)

starts_with-split : (s p : Text) → starts_with s p ≡ true → (rest : Text) × (s ≡ p ++ rest)
unfolding starts_with strip_prefix
starts_with-split s [] h = (s, refl)
starts_with-split [] (a ∷ p) h = absurd (cc h)
starts_with-split (b ∷ s) (a ∷ p) h =
    let same : a ≡ b = ground arith in
    let (rest, split) = starts_with-split s p (ground arith) in
    (rest, cc (same, ap (λ x. b ∷ x) split))

pub take-prefix : (w after : Text) → take (length w) (w ++ after) ≡ w
take-prefix [] after = refl
take-prefix (b ∷ w) after = ap (λ s. b ∷ s) (take-prefix w after)

pub drop-prefix : (w after : Text) → drop (length w) (w ++ after) ≡ after
drop-prefix [] after = refl
drop-prefix (b ∷ w) after = drop-prefix w after

pub is_char_boundary-le : (s : Text) (i : ℕ) → is_char_boundary s i ≡ true → i ≤ length s
unfolding is_char_boundary
is_char_boundary-le s zero h = omega arith
is_char_boundary-le [] (suc i) h = absurd (cc h)
is_char_boundary-le (b ∷ []) (suc zero) h = omega arith
is_char_boundary-le (a ∷ b ∷ s) (suc zero) h = omega arith
is_char_boundary-le (a ∷ s) (suc (suc i)) h = omega (arith, is_char_boundary-le s (suc i) h)

-- The matches of a prefix whose first byte does not come again in it.
module _ (first : ℕ) (p : Text) (once : All (λ b. b ≢ first) p) where
  pub match_from_complete :
      (i skip : ℕ) (s before after : Text)
      → All (λ b. b ≢ first) (take skip s)
      → s ≡ before ++ ((first ∷ p) ++ after)
      → In (i + length before) (match_from (first ∷ p) i skip s)
  unfolding match_from
  match_from_complete i skip [] [] after free e = absurd (cc e)
  match_from_complete i skip [] (c ∷ before) after free e = absurd (cc e)
  match_from_complete i (suc skip) (b ∷ s) [] after free e = absurd (free.0 (cc e))
  match_from_complete i (suc skip) (b ∷ s) (c ∷ before) after free e =
      subst (λ n. In n (match_from (first ∷ p) (i + 1) skip s)) (omega arith)
        (match_from_complete (i + 1) skip s before after free.1 (cc e))
  match_from_complete i zero (b ∷ s) [] after free e =
      let found : starts_with (b ∷ s) (first ∷ p) ≡ true =
        ap (λ x. starts_with x (first ∷ p)) e ∙ starts_with-prefix (first ∷ p) after in
      rw (match_from, found) (inl (omega arith))
  match_from_complete i zero (b ∷ s) (c ∷ before) after free e =
      elim (Bool-cases (starts_with (b ∷ s) (first ∷ p))) [
        | inl t ↦
            let (rest, split) = starts_with-split (b ∷ s) (first ∷ p) t in
            let tail : s ≡ p ++ rest = cc split in
            let width : ℕ = length (first ∷ p) - 1 in
            let exact : width ≡ length p = omega arith in
            let passed : take width s ≡ p =
              ap (λ n. take n s) exact ∙ (ap (λ x. take (length p) x) tail ∙ take-prefix p rest) in
            rw (match_from, t)
              (inr (
                subst (λ n. In n (match_from (first ∷ p) (i + 1) width s)) (omega arith)
                  (match_from_complete (i + 1) width s before after
                    (subst (All (λ b. b ≢ first)) (sym passed) once) (cc e))))
        | inr f ↦
            rw (match_from, f)
              (subst (λ n. In n (match_from (first ∷ p) (i + 1) 0 s)) (omega arith)
                (match_from_complete (i + 1) 0 s before after tt (cc e)))
      ]

  -- Each match is an occurrence of the prefix.
  pub match_from_sound :
      (i skip : ℕ) (s : Text) (start : ℕ)
      → In start (match_from (first ∷ p) i skip s)
      → (before : Text) × (after : Text) × (s ≡ before ++ ((first ∷ p) ++ after))
        × (start ≡ i + length before)
  unfolding match_from
  match_from_sound i skip [] start m = absurd m
  match_from_sound i (suc skip) (b ∷ s) start m =
      let (before, after, split, at) = match_from_sound (i + 1) skip s start m in
      (b ∷ before, after, ap (λ x. b ∷ x) split, omega arith)
  match_from_sound i zero (b ∷ s) start m = elim (Bool-cases (starts_with (b ∷ s) (first ∷ p))) [
    | inl t ↦ elim (rw (match_from, t) at m) [
      | inl here ↦
          let (rest, split) = starts_with-split (b ∷ s) (first ∷ p) t in
          ([], rest, split, omega arith)
      | inr m' ↦
          let (before, after, split, at) =
            match_from_sound (i + 1) (length (first ∷ p) - 1) s start m' in
          (b ∷ before, after, ap (λ x. b ∷ x) split, omega arith)
    ]
    | inr f ↦
        let (before, after, split, at) =
          match_from_sound (i + 1) 0 s start (rw (match_from, f) at m) in
        (b ∷ before, after, ap (λ x. b ∷ x) split, omega arith)
  ]
