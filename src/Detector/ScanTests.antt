-- ===== src/Detector/ScanTests.antt =====
-- Runs of the scanner of src/detector.rs and its theorems at them.
use agent_veil.Detector.Compose.{
  composed_views, composed_views_within, explore, is_seen, visit, saturating_mul, decoded_views,
  enqueue, spans_eq,
}
use agent_veil.Detector.Decode.{
  chars, push_byte, is_continuation, is_invisible_control, continuation_step, escape_step,
  percent_step, blanks, decode_surrogate, decode_escape, decode_unicode_escape, parse_hex_quad,
  hex_digits, hex, to_utf8,
}
use agent_veil.Detector.Matches.{match_indices, match_from, to_ascii_lowercase, rfind}
use agent_veil.Detector.Rounds.{composed_views_within-composed_views, length-composed_views_within}
use agent_veil.Detector.Rules.{
  phone, collect, internal_hostnames, internal_hostname, hostname_start, bounded, is_boundary,
  is_hostname_character,
}
use agent_veil.Detector.Scan.{Scanner, scan}
use agent_veil.Detector.Scanned.{AreFound, scan-AreFound}
use agent_veil.Detector.View.{
  ScanView, normalize, normalize_chars, append_with_source, remove_structural_continuations,
  rewrite, from_bytes, copy_byte, decode_json_escapes, replaced, combined_source, combined, hull,
  when_changed, decode_percent_encoding, canonicalize, canonicalize_chars, drop_byte,
}
use agent_veil.Detector.{DetectorError}
use agent_veil.Domain.{Span}
use agent_veil.Engine.Slice.{is_char_boundary}
use agent_veil.Sse.Text.{is_utf8, utf8_from, lead, starts_with, strip_prefix}
use agent_veil.Prelude.{
  ℕ, ◌≤◌, Text, bytes, Bool, false, Option, some, List, [], ◌∷◌, ◌++◌, ◌≡◌, refl, ok, err, length,
  replicate, arith, text_eq, is_ascii_alphanumeric, is_ascii_lowercase, is_ascii_uppercase,
  is_ascii_digit,
}

-- Expressions that find what the first of them finds: a span of the text.
abbrev find_iter : ℕ → Text → List Span
find_iter n s = record { start = n; end = length s } ∷ []

abbrev captures_iter : ℕ → Text → List (Span × Option Span)
captures_iter n s = []

abbrev unicode : Text → Bool
unicode c = false

abbrev same : Text → Text
same c = c

abbrev scanner : Scanner ℕ
scanner = record {
  patterns = [];
  email = 0;
  private_ipv4 = 1;
  phone = 2;
  env_assignment = 0;
  internal_hostname_suffixes = bytes ".corp" ∷ [];
  custom_terms = [];
  home_prefixes = bytes "/home/" ∷ [];
}

-- A text as a view of itself.
abbrev plain : Text → ScanView
plain s = record { text = s; source_by_byte = replicate (length s) (record { start = 0; end = 1 }) }

-- A soft hyphen disappears, and the other bytes keep their places.
normalized :
    normalize same (bytes "a" ++ (0xC2 ∷ 0xAD ∷ bytes "b"))
    ≡ ok (record {
      text = bytes "ab";
      source_by_byte = record { start = 0; end = 1 } ∷ record { start = 3; end = 4 } ∷ [];
    })
unfolding normalize normalize_chars chars push_byte is_continuation is_invisible_control
    append_with_source remove_structural_continuations rewrite continuation_step copy_byte
    from_bytes is_utf8 utf8_from lead bytes
normalized = refl

-- An escape of JSON becomes the character, which has the span of the whole escape.
unescaped :
    decode_json_escapes (record {
      text = bytes "\\u0041";
      source_by_byte =
          record { start = 0; end = 1 }
          ∷ record { start = 1; end = 2 }
          ∷ record { start = 2; end = 3 }
          ∷ record { start = 3; end = 4 }
          ∷ record { start = 4; end = 5 }
          ∷ record { start = 5; end = 6 }
          ∷ [];
    })
    ≡ ok (some (record { text = bytes "A"; source_by_byte = record { start = 0; end = 6 } ∷ [] }))
unfolding decode_json_escapes rewrite escape_step decode_escape decode_unicode_escape parse_hex_quad
    hex_digits hex to_utf8 replaced combined_source combined hull append_with_source when_changed
    from_bytes is_utf8 utf8_from lead bytes
unescaped = refl

-- Eleven characters of three bytes before a number: the context of 32 bytes begins inside one.
phone_panics :
    phone
      (plain (
        0xE2
        ∷ 0x82
        ∷ 0xAC
        ∷ 0xE2
        ∷ 0x82
        ∷ 0xAC
        ∷ 0xE2
        ∷ 0x82
        ∷ 0xAC
        ∷ 0xE2
        ∷ 0x82
        ∷ 0xAC
        ∷ 0xE2
        ∷ 0x82
        ∷ 0xAC
        ∷ 0xE2
        ∷ 0x82
        ∷ 0xAC
        ∷ 0xE2
        ∷ 0x82
        ∷ 0xAC
        ∷ 0xE2
        ∷ 0x82
        ∷ 0xAC
        ∷ 0xE2
        ∷ 0x82
        ∷ 0xAC
        ∷ 0xE2
        ∷ 0x82
        ∷ 0xAC
        ∷ 0xE2
        ∷ 0x82
        ∷ 0xAC
        ∷ bytes "202-555-0100"))
      (record { start = 33; end = 45 })
    ≡ err DetectorError.panicked
unfolding phone is_char_boundary bytes
phone_panics = refl

-- A character of two bytes before a name: the name is taken to begin inside the character.
hostname_panics :
    internal_hostnames unicode (plain (0xC3 ∷ 0xA9 ∷ bytes "db.corp")) (bytes ".corp")
    ≡ err DetectorError.panicked
unfolding internal_hostnames internal_hostname hostname_start bounded is_boundary collect
    is_char_boundary bytes match_indices match_from to_ascii_lowercase rfind chars push_byte
    is_continuation is_hostname_character starts_with strip_prefix is_ascii_alphanumeric
    is_ascii_lowercase is_ascii_uppercase is_ascii_digit
hostname_panics = refl

scan-AreFound_example :
    AreFound
      (bytes "me /home/x")
      (scan find_iter captures_iter unicode same scanner (bytes "me /home/x"))
scan-AreFound_example =
    scan-AreFound find_iter captures_iter unicode same scanner (bytes "me /home/x")

composed_views_within-composed_views_example :
    composed_views_within same 9 (plain (bytes "%41"))
    ≡ some (composed_views same (plain (bytes "%41")))
composed_views_within-composed_views_example =
    composed_views_within-composed_views same 9 (plain (bytes "%41")) (omega arith)

-- The text, and its decoded form.
two_views :
    composed_views_within same 9 (plain (bytes "%41"))
    ≡ some (ok (plain (bytes "%41") ∷ plain (bytes "A") ∷ []))
unfolding composed_views_within explore is_seen visit saturating_mul bytes decoded_views
    decode_json_escapes rewrite escape_step when_changed copy_byte enqueue decode_percent_encoding
    percent_step hex replaced combined_source spans_eq blanks chars continuation_step decode_escape
    decode_surrogate decode_unicode_escape hex_digits is_continuation is_invisible_control
    parse_hex_quad push_byte to_utf8 append_with_source canonicalize canonicalize_chars combined
    drop_byte from_bytes hull remove_structural_continuations text_eq is_utf8 lead starts_with
    strip_prefix utf8_from
two_views = refl

length-composed_views_within_example :
    (rest : List ScanView) × (◌≡◌ {A = List ScanView}
      (plain (bytes "%41") ∷ plain (bytes "A") ∷ [])
      (plain (bytes "%41") ∷ rest))
    × (length rest ≤ 6)
length-composed_views_within_example =
    length-composed_views_within same 9 (plain (bytes "%41"))
      (plain (bytes "%41") ∷ plain (bytes "A") ∷ []) two_views
