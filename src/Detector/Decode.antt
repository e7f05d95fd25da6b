-- ===== src/Detector/Decode.antt =====
-- The decoders of src/detector.rs: characters of a text, escapes of JSON, hexadecimal digits.
use agent_veil.Sse.Text.{starts_with}
use agent_veil.Prelude.{
  ℕ, suc, ◌+◌, ◌-◌, ◌*◌, ◌/◌, ◌%◌, Text, bytes, Bool, false, ◌&&◌, ◌||◌, ◌==◌, ltb, leb, Option,
  none, some, List, [], ◌∷◌, if◌then◌else◌, take, drop, length, text_eq, is_ascii_alphanumeric,
}

-- A byte inside a character.
unfoldable pub is_continuation : ℕ → Bool
is_continuation b = leb 0x80 b && leb b 0xBF

-- One more byte in front of a text that is already split; `next` is the text after the byte.
unfoldable pub push_byte : ℕ → Text → List Text → List Text
push_byte b [] cs = (b ∷ []) ∷ cs
push_byte b (a ∷ s) [] = (b ∷ []) ∷ []
push_byte b (a ∷ s) (c ∷ cs) = if is_continuation a then (b ∷ c) ∷ cs else (b ∷ []) ∷ c ∷ cs

-- `chars`: the characters of a text, each as its bytes.
unfoldable pub chars : Text → List Text
chars [] = []
chars (b ∷ s) = push_byte b s (chars s)

-- The ranges of `is_invisible_control`, over the bytes of the character.
unfoldable pub is_invisible_control : Text → Bool
is_invisible_control (a ∷ b ∷ []) = a == 0xC2 && b == 0xAD
is_invisible_control (a ∷ b ∷ c ∷ []) =
    a == 0xE2 && b == 0x80 && (leb 0x8B c && leb c 0x8F || leb 0xAA c && leb c 0xAE)
    || a == 0xE2 && b == 0x81 && (leb 0xA0 c && leb c 0xAF)
    || a == 0xEF && b == 0xBB && c == 0xBF
is_invisible_control _ = false

unfoldable pub hex : ℕ → Option ℕ
hex b =
    if leb b'0' b && leb b b'9'
    then some (b - b'0')
    else if leb b'a' b && leb b b'f'
    then some (b - b'a' + 10)
    else if leb b'A' b && leb b b'F'
    then some (b - b'A' + 10)
    else none

-- The loop of `parse_hex_quad`, on a `u16`.
unfoldable pub hex_digits : ℕ → Text → Option ℕ
hex_digits value [] = some value
hex_digits value (b ∷ s) = elim (hex b) [
  | none ↦ none
  | some digit ↦ hex_digits (value * 16 % 65536 + digit) s
]

unfoldable pub parse_hex_quad : Text → Option ℕ
parse_hex_quad s = if length s == 4 then hex_digits 0 s else none

-- `char::to_string`: the UTF-8 bytes of a character.
unfoldable pub to_utf8 : ℕ → Text
to_utf8 c =
    if ltb c 0x80
    then c ∷ []
    else if ltb c 0x800
    then (0xC0 + c / 64) ∷ (0x80 + c % 64) ∷ []
    else if ltb c 0x10000
    then (0xE0 + c / 4096) ∷ (0x80 + c / 64 % 64) ∷ (0x80 + c % 64) ∷ []
    else (0xF0 + c / 262144) ∷ (0x80 + c / 4096 % 64) ∷ (0x80 + c / 64 % 64) ∷ (0x80 + c % 64) ∷ []

-- A surrogate of the first kind has been read; the rest begins behind it.
unfoldable pub decode_surrogate : ℕ → Text → Option (Text × ℕ)
decode_surrogate first s =
    if text_eq (take 2 s) (bytes "\\u")
    then elim (parse_hex_quad (take 4 (drop 2 s))) [
      | none ↦ none
      | some second ↦
          if leb 0xDC00 second && leb second 0xDFFF
          then some (to_utf8 (0x10000 + ((first - 0xD800) * 1024 + (second - 0xDC00))), 12)
          else none
    ]
    else none

-- The argument is the text behind `\u`; the second result is the length of the whole escape.
unfoldable pub decode_unicode_escape : Text → Option (Text × ℕ)
decode_unicode_escape s = elim (parse_hex_quad (take 4 s)) [
  | none ↦ none
  | some first ↦
      if leb 0xD800 first && leb first 0xDBFF
      then decode_surrogate first (drop 4 s)
      else if leb 0xDC00 first && leb first 0xDFFF
      then none
      else some (to_utf8 first, 6)
]

-- The argument is the text behind the backslash.
unfoldable pub decode_escape : Text → Option (Text × ℕ)
decode_escape [] = none
decode_escape (b ∷ s) =
    if b == b'"' || b == b'\\' || b == b'/'
    then some (b ∷ [], 2)
    else if b == b'b'
    then some (0x08 ∷ [], 2)
    else if b == b'f'
    then some (0x0C ∷ [], 2)
    else if b == b'n'
    then some (0x0A ∷ [], 2)
    else if b == b'r'
    then some (0x0D ∷ [], 2)
    else if b == b't'
    then some (0x09 ∷ [], 2)
    else if b == b'u'
    then decode_unicode_escape s
    else none

-- A step of a byte loop reads the rest of the text. It copies the byte that stands there, or
-- replaces a number of bytes by others.
abbrev pub Step : Type 0
Step = Text → Option (Text × ℕ)

unfoldable pub escape_step : Step
escape_step [] = none
escape_step (b ∷ s) = if b == b'\\' then decode_escape s else none

unfoldable pub percent_step : Step
percent_step (b ∷ high ∷ low ∷ s) =
    if b == b'%'
    then elim (hex high) [
      | none ↦ none
      | some h ↦ elim (hex low) [ none ↦ none | some l ↦ some ((h * 16 + l) ∷ [], 3) ]
    ]
    else none
percent_step _ = none

-- How many spaces and tabs a text begins with.
unfoldable pub blanks : Text → ℕ
blanks [] = 0
blanks (b ∷ s) = let rest = blanks s in if b == b' ' || b == b'\t' then suc rest else 0

-- A backslash before a line break disappears, with the indentation of the next line.
unfoldable pub continuation_step : Step
continuation_step [] = none
continuation_step (b ∷ s) =
    if b == b'\\'
    then if starts_with s (b'\n' ∷ [])
      then some ([], 2 + blanks (drop 1 s))
      else if starts_with s (b'\r' ∷ b'\n' ∷ [])
      then some ([], 3 + blanks (drop 2 s))
      else none
    else none

unfoldable pub is_token_byte : ℕ → Bool
is_token_byte b = is_ascii_alphanumeric b || b == b'_' || b == b'-'
