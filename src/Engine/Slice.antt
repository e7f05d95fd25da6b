-- ===== src/Engine/Slice.antt =====
-- Slices of texts in src/engine.rs, at byte positions that must be boundaries of characters.
use agent_veil.Domain.{Span}
use agent_veil.Prelude.{
  ℕ, zero, suc, Text, Bool, true, false, not, ◌&&◌, leb, Option, none, some, take, drop, ◌-◌, ◌++◌,
  [], ◌∷◌, if◌then◌else◌,
}

-- `str::is_char_boundary`: the start, the end, or a byte that begins a character.
unfoldable pub is_char_boundary : Text → ℕ → Bool
is_char_boundary s zero = true
is_char_boundary [] (suc i) = false
is_char_boundary (b ∷ []) (suc zero) = true
is_char_boundary (a ∷ b ∷ s) (suc zero) = not (leb 0x80 b && leb b 0xBF)
is_char_boundary (a ∷ s) (suc (suc i)) = is_char_boundary s (suc i)

-- `text.get(span)`
unfoldable pub get_range : Text → Span → Option Text
get_range s span =
    if leb span.start span.end && is_char_boundary s span.start && is_char_boundary s span.end
    then some (take (span.end - span.start) (drop span.start s))
    else none

-- `replace_range`, at boundaries.
unfoldable pub replace_range : Text → Span → Text → Text
replace_range s span replacement = take span.start s ++ (replacement ++ drop span.end s)
