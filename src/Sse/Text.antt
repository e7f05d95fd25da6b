-- ===== src/Sse/Text.antt =====
-- The text functions of the standard library that src/sse.rs calls, over UTF-8 bytes.
use agent_veil.Prelude.{
  ℕ, zero, suc, Text, Bool, true, false, [], ◌∷◌, ◌++◌, ◌&&◌, ◌||◌, leb, ◌==◌, if◌then◌else◌,
  Option, none, some, length, ◌≡◌, List, is_some, ◌<◌, ◌≤◌, arith, Option-cases, inl, inr, refl,
}

abbrev within : ℕ → ℕ → ℕ → Bool
within low high b = leb low b && leb b high

-- The bytes that follow a leading byte: how many, and the range of the first of them.
unfoldable pub lead : ℕ → Option (ℕ × ℕ × ℕ)
lead b =
    if leb b 0x7F
    then some (0, 0, 0)
    else if within 0xC2 0xDF b
    then some (1, 0x80, 0xBF)
    else if b == 0xE0
    then some (2, 0xA0, 0xBF)
    else if b == 0xED
    then some (2, 0x80, 0x9F)
    else if within 0xE1 0xEF b
    then some (2, 0x80, 0xBF)
    else if b == 0xF0
    then some (3, 0x90, 0xBF)
    else if within 0xF1 0xF3 b
    then some (3, 0x80, 0xBF)
    else if b == 0xF4
    then some (3, 0x80, 0x8F)
    else none

unfoldable pub utf8_from : ℕ → ℕ → ℕ → Text → Bool
utf8_from zero low high [] = true
utf8_from (suc n) low high [] = false
utf8_from (suc n) low high (b ∷ s) = within low high b && utf8_from n 0x80 0xBF s
utf8_from zero low high (b ∷ s) = elim (lead b) [
  | none ↦ false
  | some (n, low', high') ↦ utf8_from n low' high' s
]

-- `std::str::from_utf8` succeeds.
unfoldable pub is_utf8 : Text → Bool
is_utf8 s = utf8_from 0 0 0 s

-- The text after its first character, if that is white space of Unicode.
unfoldable pub after_space : Text → Option Text
after_space [] = none
after_space (a ∷ []) = if within 0x09 0x0D a || a == 0x20 then some [] else none
after_space (a ∷ b ∷ []) =
    if within 0x09 0x0D a || a == 0x20
    then some (b ∷ [])
    else if a == 0xC2 && (b == 0x85 || b == 0xA0)
    then some []
    else none
after_space (a ∷ b ∷ c ∷ s) =
    if within 0x09 0x0D a || a == 0x20
    then some (b ∷ c ∷ s)
    else if a == 0xC2 && (b == 0x85 || b == 0xA0)
    then some (c ∷ s)
    else if a == 0xE1 && b == 0x9A && c == 0x80
        || a == 0xE2
          && (b == 0x80 && (within 0x80 0x8A c || c == 0xA8 || c == 0xA9 || c == 0xAF)
              || b == 0x81 && c == 0x9F)
        || a == 0xE3 && b == 0x80 && c == 0x80
    then some s
    else none

-- `trim_start`; the first argument bounds the characters, and the length of the text is enough.
unfoldable pub trim_start_within : ℕ → Text → Text
trim_start_within zero s = s
trim_start_within (suc n) s = elim (after_space s) [
  | none ↦ s
  | some rest ↦ trim_start_within n rest
]

unfoldable pub trim_start : Text → Text
trim_start s = trim_start_within (length s) s

after_space_shorter : (s r : Text) → after_space s ≡ some r → length r < length s
unfolding after_space
after_space_shorter [] r h = cc h
after_space_shorter (a ∷ []) r h = ground arith
after_space_shorter (a ∷ b ∷ []) r h = ground arith
after_space_shorter (a ∷ b ∷ c ∷ s) r h = ground arith

trim_start_within_done :
    (n : ℕ) (s : Text) → length s ≤ n → after_space (trim_start_within n s) ≡ none
unfolding trim_start_within
trim_start_within_done zero [] h = unfold after_space in refl
trim_start_within_done zero (a ∷ s) h = absurd (omega arith)
trim_start_within_done (suc n) s h = elim (Option-cases (after_space s)) [
  | inl e ↦ rw (e, trim_start_within) e
  | inr (r, e) ↦
      rw (e, trim_start_within)
        (trim_start_within_done n r (omega (arith, after_space_shorter s r e)))
]

-- The bound is enough: no white space is left in front.
pub trim_start_done : (s : Text) → after_space (trim_start s) ≡ none
unfolding trim_start
trim_start_done s = trim_start_within_done (length s) s (omega arith)

abbrev is_nil : Text → Bool
is_nil [] = true
is_nil (b ∷ s) = false

unfoldable pub trim_end : Text → Text
trim_end [] = []
trim_end (b ∷ s) = if is_nil (trim_start (b ∷ s)) then [] else b ∷ trim_end s

-- `trim`
unfoldable pub trim : Text → Text
trim s = trim_end (trim_start s)

-- `trim_end_matches(['\r', '\n'])`
unfoldable pub trim_newlines : Text → Text
trim_newlines [] = []
trim_newlines (b ∷ s) =
    let rest = trim_newlines s in if is_nil rest && (b == b'\r' || b == b'\n') then [] else b ∷ rest

-- `split_inclusive('\n')`
unfoldable pub split_lines : Text → List Text
split_lines [] = []
split_lines (b ∷ s) =
    let rest = split_lines s in
    if b == b'\n'
    then (b ∷ []) ∷ rest
    else elim rest [ [] ↦ (b ∷ []) ∷ [] | line ∷ lines ↦ (b ∷ line) ∷ lines ]

unfoldable pub strip_prefix : Text → Text → Option Text
strip_prefix [] s = some s
strip_prefix (a ∷ p) [] = none
strip_prefix (a ∷ p) (b ∷ s) = if a == b then strip_prefix p s else none

unfoldable pub starts_with : Text → Text → Bool
starts_with s p = is_some (strip_prefix p s)

pub starts_with-prefix : (p rest : Text) → starts_with (p ++ rest) p ≡ true
unfolding starts_with strip_prefix
starts_with-prefix [] rest = refl
starts_with-prefix (b ∷ p) rest = ground (arith, starts_with-prefix p rest)
