-- ===== src/Detector/Rules.antt =====
-- The detectors of src/detector.rs that are no plain patterns. A regular expression is known by the
-- ranges that it finds, `char::is_alphanumeric` by its answers: both are parameters.
use agent_veil.Detector.Decode.{chars}
use agent_veil.Detector.Matches.{
  slice, find, contains_text, match_indices, to_ascii_lowercase, to_ascii_uppercase, find_space,
  rfind, last_char, first_char, is_private_address,
}
use agent_veil.Detector.View.{ScanView, finding}
use agent_veil.Detector.{DetectorError}
use agent_veil.Domain.{Span, Finding, DataClass, DetectorId, Confidence}
use agent_veil.Engine.Slice.{is_char_boundary}
use agent_veil.Sse.Text.{starts_with}
use agent_veil.Prelude.{
  ℕ, zero, suc, ◌+◌, ◌-◌, Text, bytes, Bool, true, false, not, ◌&&◌, ◌||◌, ◌==◌, Option, none, some,
  List, [], ◌∷◌, ◌++◌, Result, ok, err, ◌>>=◌, if◌then◌else◌, take, drop, length, any, contains,
  unwrap_or, text_eq, is_ascii_alphanumeric,
}

abbrev pub Findings : Type 0
Findings = Result DetectorError (List Finding)

-- A loop that pushes the findings of each item.
unfoldable pub collect : {A : Type 0} → (A → Findings) → List A → Findings
collect f [] = ok []
collect f (a ∷ items) = do first ← f a; rest ← collect f items; ok (first ++ rest)

unfoldable pub push_finding : ScanView → Span → DataClass → DetectorId → Confidence → Findings
push_finding view span c d k = do made ← finding view span c d k; ok (made ∷ [])

abbrev pub begin_marker : Text
begin_marker = bytes "-----BEGIN "

abbrev pub private_key_labels : List Text
private_key_labels =
    bytes "PRIVATE KEY"
    ∷ bytes "ENCRYPTED PRIVATE KEY"
    ∷ bytes "RSA PRIVATE KEY"
    ∷ bytes "DSA PRIVATE KEY"
    ∷ bytes "EC PRIVATE KEY"
    ∷ bytes "OPENSSH PRIVATE KEY"
    ∷ []

-- What follows a begin marker: no end of it, another label up to a length, or a key of a length.
pub data KeyBlock : Type 0 where
  unfinished : KeyBlock
  other key : ℕ → KeyBlock

abbrev pub end_marker : Text → Text
end_marker label = bytes "-----END " ++ (label ++ bytes "-----")

-- The body of a key, which ends after its end marker; the number is the length up to the body.
unfoldable pub key_body : ℕ → Text → Text → KeyBlock
key_body n label body = elim (find (end_marker label) body) [
  | none ↦ KeyBlock.unfinished
  | some m ↦ KeyBlock.key (n + m + length (end_marker label))
]

-- The body of the loop, on the text from a begin marker on.
unfoldable pub key_block : Text → KeyBlock
key_block s =
    let rest = drop 11 s in
    elim (find (bytes "-----") rest) [
      | none ↦ KeyBlock.unfinished
      | some n ↦
          let label = take n rest in
          if contains private_key_labels label
          then key_body (11 + n + 5) label (drop (n + 5) rest)
          else KeyBlock.other (11 + n + 5)
    ]

-- The loop, from a position; the first number counts the bytes before the cursor that are still to
-- pass.
unfoldable pub private_keys_from : ScanView → ℕ → ℕ → Text → Findings
private_keys_from view skip i [] = ok []
private_keys_from view (suc skip) i (b ∷ s) = private_keys_from view skip (i + 1) s
private_keys_from view zero i (b ∷ s) = elim (starts_with (b ∷ s) begin_marker) [
  | false ↦ private_keys_from view 0 (i + 1) s
  | true ↦ elim (key_block (b ∷ s)) [
    | KeyBlock.unfinished ↦
        push_finding view (record { start = i; end = length view.text }) DataClass.private_key
          DetectorId.pem_private_key Confidence.high
    | KeyBlock.other n ↦ private_keys_from view (n - 1) (i + 1) s
    | KeyBlock.key n ↦
        push_finding view (record { start = i; end = i + n }) DataClass.private_key
          DetectorId.pem_private_key Confidence.high
        >>= (λ first. private_keys_from view (n - 1) (i + 1) s >>= (λ rest. ok (first ++ rest)))
  ]
]

unfoldable pub scan_private_keys : ScanView → Findings
scan_private_keys view = private_keys_from view 0 0 view.text

abbrev pub placeholders : List Text
placeholders =
    bytes "changeme"
    ∷ bytes "replace_me"
    ∷ bytes "placeholder"
    ∷ bytes "example_only"
    ∷ bytes "your_secret_here"
    ∷ []

unfoldable pub is_placeholder : Text → Bool
is_placeholder value =
    let lower = to_ascii_lowercase value in
    starts_with lower (bytes "${")
    || starts_with lower (bytes "<")
    || any (λ placeholder. text_eq lower placeholder) placeholders

-- A match of the whole expression with the range of its first group.
unfoldable pub env_assignment : ScanView → Span × Option Span → Findings
env_assignment view (whole, none) = ok []
env_assignment view (whole, some candidate) =
    if is_placeholder (slice view.text candidate)
    then ok []
    else push_finding view candidate DataClass.credentials
        (if starts_with (to_ascii_uppercase (drop whole.start view.text))
            (bytes "AWS_SECRET_ACCESS_KEY")
          then DetectorId.aws_secret_assignment
          else DetectorId.env_credential_assignment)
        Confidence.contextual

unfoldable pub scan_env_assignments : ScanView → List (Span × Option Span) → Findings
scan_env_assignments view captures = collect (env_assignment view) captures

unfoldable pub scan_email : ScanView → List Span → Findings
scan_email view matches =
    collect
      (λ candidate. push_finding view candidate DataClass.email DetectorId.email Confidence.high)
      matches

unfoldable pub private_ipv4 : ScanView → Span → Findings
private_ipv4 view candidate =
    if is_private_address (slice view.text candidate)
    then push_finding view candidate DataClass.private_ipv4 DetectorId.private_ipv4 Confidence.high
    else ok []

unfoldable pub scan_private_ipv4 : ScanView → List Span → Findings
scan_private_ipv4 view matches = collect (private_ipv4 view) matches

abbrev pub phone_labels : List Text
phone_labels =
    bytes "phone" ∷ bytes "mobile" ∷ bytes "telephone" ∷ bytes "tel" ∷ bytes "contact" ∷ []

-- The 32 bytes before the candidate are sliced; inside a character the slice panics.
unfoldable pub phone : ScanView → Span → Findings
phone view candidate =
    let context_start = candidate.start - 32 in
    let context =
      to_ascii_lowercase
        (slice view.text (record { start = context_start; end = candidate.start })) in
    if not (is_char_boundary view.text context_start)
    then err DetectorError.panicked
    else if any (λ label. contains_text context label) phone_labels
    then push_finding view candidate DataClass.phone DetectorId.phone Confidence.contextual
    else ok []

unfoldable pub scan_phone : ScanView → List Span → Findings
scan_phone view matches = collect (phone view) matches

unfoldable pub is_hostname_character : Text → Bool
is_hostname_character (b ∷ []) = is_ascii_alphanumeric b || b == b'-' || b == b'.'
is_hostname_character _ = false

module _ (is_alphanumeric : Text → Bool) where
  unfoldable pub is_word_character : Option Text → Bool
  is_word_character none = false
  is_word_character (some c) = is_alphanumeric c || text_eq c (bytes "_")

  -- Both slices panic inside a character.
  unfoldable pub is_boundary : Text → ℕ → ℕ → Result DetectorError Bool
  is_boundary value start end =
      if not (is_char_boundary value start && is_char_boundary value end)
      then err DetectorError.panicked
      else ok (
          not (is_word_character (last_char (chars (take start value))))
          && not (is_word_character (first_char (chars (drop end value)))))

  -- A match that stands between boundaries.
  unfoldable pub bounded : ScanView → Span → DataClass → DetectorId → Findings
  bounded view span c d = do
    at_boundary ← is_boundary view.text span.start span.end
    if at_boundary then push_finding view span c d Confidence.high else ok []

  -- Where the name begins that ends in a suffix: a byte behind the last character of no name.
  unfoldable pub hostname_start : Text → ℕ → ℕ
  hostname_start value start =
      elim (rfind (λ c. not (is_hostname_character c)) 0 (chars (take start value))) [
        | none ↦ 0
        | some index ↦ index + 1
      ]

  unfoldable pub internal_hostname : ScanView → Text → ℕ → Findings
  internal_hostname view suffix start =
      let from = hostname_start view.text start in
      if from == start
      then ok []
      else bounded view (record { start = from; end = start + length suffix })
          DataClass.internal_hostname DetectorId.internal_hostname

  unfoldable pub internal_hostnames : ScanView → Text → Findings
  internal_hostnames view suffix =
      collect (internal_hostname view suffix) (match_indices (to_ascii_lowercase view.text) suffix)

  unfoldable pub custom_term : ScanView → Text → Findings
  custom_term view term =
      collect
        (λ start.
          bounded view (record { start = start; end = start + length term }) DataClass.custom_term
            DetectorId.custom_term)
        (match_indices view.text term)

  unfoldable pub home_path : ScanView → Text → Findings
  home_path view prefix =
      collect
        (λ start.
          push_finding view
            (record {
              start = start;
              end = unwrap_or (find_space start (drop start view.text)) (length view.text);
            })
            DataClass.home_path DetectorId.home_path Confidence.high)
        (match_indices view.text prefix)

  unfoldable pub scan_configured : ScanView → List Text → List Text → List Text → Findings
  scan_configured view suffixes terms prefixes = do
    hostnames ← collect (internal_hostnames view) suffixes
    custom ← collect (custom_term view) terms
    paths ← collect (home_path view) prefixes
    ok (hostnames ++ (custom ++ paths))
