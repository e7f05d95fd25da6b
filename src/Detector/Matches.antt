-- ===== src/Detector/Matches.antt =====
-- The text functions of the standard library that the scanner of src/detector.rs calls, over UTF-8
-- bytes.
use agent_veil.Domain.{Span}
use agent_veil.Sse.Text.{starts_with, after_space}
use agent_veil.Prelude.{
  ℕ, zero, suc, ◌+◌, ◌-◌, ◌*◌, Text, Bool, true, false, ◌&&◌, ◌||◌, ◌==◌, ltb, leb, Option, none,
  some, List, [], ◌∷◌, if◌then◌else◌, take, drop, length, is_some, map, is_ascii_uppercase,
  is_ascii_lowercase, is_ascii_digit,
}

-- `&text[range]`
unfoldable pub slice : Text → Span → Text
slice s span = take (span.end - span.start) (drop span.start s)

abbrev is_nil : Text → Bool
is_nil [] = true
is_nil (b ∷ s) = false

-- `str::find`, from a position.
unfoldable pub find_from : ℕ → Text → Text → Option ℕ
find_from i pattern [] = if is_nil pattern then some i else none
find_from i pattern (b ∷ s) =
    let later = find_from (i + 1) pattern s in if starts_with (b ∷ s) pattern then some i else later

unfoldable pub find : Text → Text → Option ℕ
find pattern s = find_from 0 pattern s

unfoldable pub contains_text : Text → Text → Bool
contains_text s pattern = is_some (find pattern s)

-- `str::match_indices`, for a pattern that is not empty; the second number counts the bytes of the
-- last match that are still to pass.
unfoldable pub match_from : Text → ℕ → ℕ → Text → List ℕ
match_from pattern i skip [] = []
match_from pattern i (suc skip) (b ∷ s) = match_from pattern (i + 1) skip s
match_from pattern i zero (b ∷ s) = elim (starts_with (b ∷ s) pattern) [
  | true ↦ i ∷ match_from pattern (i + 1) (length pattern - 1) s
  | false ↦ match_from pattern (i + 1) 0 s
]

unfoldable pub match_indices : Text → Text → List ℕ
match_indices s pattern = match_from pattern 0 0 s

unfoldable pub to_ascii_lowercase : Text → Text
to_ascii_lowercase s = map (λ b. if is_ascii_uppercase b then b + 32 else b) s

unfoldable pub to_ascii_uppercase : Text → Text
to_ascii_uppercase s = map (λ b. if is_ascii_lowercase b then b - 32 else b) s

-- `find(char::is_whitespace)`
unfoldable pub find_space : ℕ → Text → Option ℕ
find_space i [] = none
find_space i (b ∷ s) =
    let later = find_space (i + 1) s in if is_some (after_space (b ∷ s)) then some i else later

-- `rfind` of a character with a property, on the characters from a position.
unfoldable pub rfind : (Text → Bool) → ℕ → List Text → Option ℕ
rfind p i [] = none
rfind p i (c ∷ cs) = elim (rfind p (i + length c) cs) [
  | some j ↦ some j
  | none ↦ if p c then some i else none
]

unfoldable pub last_char : List Text → Option Text
last_char [] = none
last_char (c ∷ []) = some c
last_char (c ∷ d ∷ cs) = last_char (d ∷ cs)

unfoldable pub first_char : List Text → Option Text
first_char [] = none
first_char (c ∷ cs) = some c

-- An octet of an address: one to three digits, no leading zero, at most 255.
unfoldable pub octet_from : ℕ → Text → Option ℕ
octet_from value [] = if leb value 255 then some value else none
octet_from value (b ∷ s) = if is_ascii_digit b then octet_from (value * 10 + (b - b'0')) s else none

unfoldable pub octet : Text → Option ℕ
octet [] = none
octet (b ∷ []) = octet_from 0 (b ∷ [])
octet (b ∷ c ∷ s) = if b == b'0' || ltb 1 (length s) then none else octet_from 0 (b ∷ c ∷ s)

-- `split('.')`
unfoldable pub split_dots : Text → List Text
split_dots [] = [] ∷ []
split_dots (b ∷ s) =
    let rest = split_dots s in
    if b == b'.' then [] ∷ rest else elim rest [ [] ↦ (b ∷ []) ∷ [] | p ∷ ps ↦ (b ∷ p) ∷ ps ]

unfoldable pub octets : List Text → Option (List ℕ)
octets [] = some []
octets (t ∷ ts) = elim (octet t) [
  | none ↦ none
  | some n ↦ elim (octets ts) [ none ↦ none | some ns ↦ some (n ∷ ns) ]
]

-- `is_private`, `is_loopback` or `is_link_local`
unfoldable pub is_internal : List ℕ → Bool
is_internal (a ∷ b ∷ c ∷ d ∷ []) =
    a == 10
    || a == 172 && (leb 16 b && leb b 31)
    || a == 192 && b == 168
    || a == 127
    || a == 169 && b == 254
is_internal _ = false

-- `parse::<Ipv4Addr>()`, and then the three tests.
unfoldable pub is_private_address : Text → Bool
is_private_address s = elim (octets (split_dots s)) [ none ↦ false | some ns ↦ is_internal ns ]
