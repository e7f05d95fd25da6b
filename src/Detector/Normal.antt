-- ===== src/Detector/Normal.antt =====
-- `normalize` of src/detector.rs: the characters that it cuts the source into begin and end at
-- boundaries.
use agent_veil.Detector.Decode.{chars, push_byte, is_continuation, is_invisible_control}
use agent_veil.Detector.Located.{
  IsLocated, IsLocatedOutput, append-IsLocated, IsLocatedView,
  remove_structural_continuations-IsLocated,
}
use agent_veil.Detector.View.{normalize_chars, normalize}
use agent_veil.Engine.Slice.{is_char_boundary}
use agent_veil.Prelude.{
  ℕ, ◌+◌, ◌<◌, ◌≡◌, refl, ap, ◌∙◌, Text, Bool, true, not, List, [], ◌∷◌, ◌++◌, length,
  length-append, arith, Bool-cases, append_assoc, inl, inr, subst₂, subst, Ensures,
}

-- The text of a list of characters.
concat : List Text → Text
concat [] = []
concat (c ∷ cs) = c ++ concat cs

-- The text is empty or begins with a byte that is not inside a character.
abbrev is_fresh : Text → Bool
is_fresh [] = true
is_fresh (b ∷ s) = not (is_continuation b)

-- No character is empty, and behind each of them another one begins.
abbrev IsSplit : List Text → Type 0
IsSplit [] = Unit
IsSplit (c ∷ cs) = (0 < length c) × (is_fresh (concat cs) ≡ true) × IsSplit cs

concat-push_byte :
    (b : ℕ) (s : Text) (cs : List Text) → concat cs ≡ s → concat (push_byte b s cs) ≡ b ∷ s
unfolding push_byte concat
concat-push_byte b [] cs h = ap (λ t. b ∷ t) h
concat-push_byte b (a ∷ s) [] h = cc
concat-push_byte b (a ∷ s) (c ∷ cs) h = elim (Bool-cases (is_continuation a)) [
  | inl t ↦ rw t (ap (λ t. b ∷ t) h)
  | inr f ↦ rw f (ap (λ t. b ∷ t) h)
]

concat-chars : (s : Text) → concat (chars s) ≡ s
unfolding chars concat
concat-chars [] = refl
concat-chars (b ∷ s) = concat-push_byte b s (chars s) (concat-chars s)

push_byte-IsSplit :
    (b : ℕ) (s : Text) (cs : List Text) → concat cs ≡ s → IsSplit cs → IsSplit (push_byte b s cs)
unfolding push_byte concat
push_byte-IsSplit b [] cs h k = (omega arith, rw h refl, k)
push_byte-IsSplit b (a ∷ s) [] h k = (omega arith, refl, tt)
push_byte-IsSplit b (a ∷ s) (c ∷ cs) h k = elim (Bool-cases (is_continuation a)) [
  | inl t ↦ rw t ((omega arith, k.1, k.2))
  | inr f ↦ rw f ((omega arith, rw h (rw f refl), k))
]

chars-IsSplit : (s : Text) → IsSplit (chars s)
unfolding chars
chars-IsSplit [] = tt
chars-IsSplit (b ∷ s) = push_byte-IsSplit b s (chars s) (concat-chars s) (chars-IsSplit s)

-- Behind any bytes, a fresh rest begins at a boundary.
is_char_boundary-append :
    (s rest : Text) → is_fresh rest ≡ true → is_char_boundary (s ++ rest) (length s) ≡ true
unfolding is_char_boundary is_continuation
is_char_boundary-append [] rest h = refl
is_char_boundary-append (a ∷ []) [] h = refl
is_char_boundary-append (a ∷ []) (b ∷ rest) h = h
is_char_boundary-append (a ∷ b ∷ s) rest h = is_char_boundary-append (b ∷ s) rest h

-- A character that stands at a boundary ends at one.
ends_at_boundary :
    (before c rest source : Text)
    → before ++ (c ++ rest) ≡ source
    → is_fresh rest ≡ true
    → is_char_boundary source (length before + length c) ≡ true
ends_at_boundary before c rest source h after =
    subst₂ (λ s n. is_char_boundary s n ≡ true) (append_assoc before c rest ∙ h)
      (length-append before c) (is_char_boundary-append (before ++ c) rest after)

character-IsLocated :
    (before c rest source : Text)
    → before ++ (c ++ rest) ≡ source
    → 0 < length c
    → is_char_boundary source (length before) ≡ true
    → is_fresh rest ≡ true
    → IsLocated source (record { start = length before; end = length before + length c })
character-IsLocated before c rest source h p at after = record {
  not_empty = omega arith;
  inside = omega (arith, length-append before (c ++ rest), length-append c rest, ap length h);
  starts = at;
  ends = ends_at_boundary before c rest source h after;
}

module _ (nfkc : Text → Text) {source : Text} where
  normalize_chars-IsLocated :
      (cs : List Text) (before : Text)
      → before ++ concat cs ≡ source
      → is_char_boundary source (length before) ≡ true
      → IsSplit cs
      → IsLocatedOutput source (normalize_chars nfkc (length before) cs)
  unfolding concat normalize_chars
  normalize_chars-IsLocated [] before h at k = tt
  normalize_chars-IsLocated (c ∷ cs) before h at k =
      let ends = ends_at_boundary before c (concat cs) source h k.1 in
      let later =
        subst (λ n. IsLocatedOutput source (normalize_chars nfkc n cs)) (length-append before c)
          (normalize_chars-IsLocated cs (before ++ c) (append_assoc before c (concat cs) ∙ h)
            (rw (length-append before c) ends) k.2) in
      let located = character-IsLocated before c (concat cs) source h k.0 at k.1 in
      elim (Bool-cases (is_invisible_control c)) [
        | inl t ↦ rw (normalize_chars, t) later
        | inr f ↦ rw (normalize_chars, f) (append-IsLocated (nfkc c) _ _ located later)
      ]

pub normalize-IsLocated :
    (nfkc : Text → Text) (source : Text) → Ensures (IsLocatedView source) (normalize nfkc source)
unfolding normalize is_char_boundary
normalize-IsLocated nfkc source = remove_structural_continuations-IsLocated _ (
    normalize_chars-IsLocated nfkc (chars source) [] (concat-chars source) refl
      (chars-IsSplit source))
