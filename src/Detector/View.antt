-- ===== src/Detector/View.antt =====
-- `ScanView` of src/detector.rs: a text to scan in which every byte knows the span of the source
-- that it comes from. Normalization of Unicode (NFKC) is a parameter.
use agent_veil.Detector.Decode.{
  chars, is_invisible_control, Step, escape_step, percent_step, continuation_step, is_token_byte,
}
use agent_veil.Detector.{DetectorError}
use agent_veil.Domain.{Span, Finding, DataClass, DetectorId, Confidence}
use agent_veil.Sse.Text.{is_utf8}
use agent_veil.Prelude.{
  ℕ, zero, suc, ◌+◌, ◌-◌, Text, Bool, true, false, not, ◌&&◌, ◌||◌, ◌==◌, ltb, leb, Option, none,
  some, List, [], ◌∷◌, ◌++◌, Result, ok, err, ◌>>=◌, ◌>>◌, if◌then◌else◌, take, drop, length,
  replicate, min, max, refuse_if,
}

pub record ScanView : Type 0 where
  pub text : Text
  pub source_by_byte : List Span

-- What a byte loop has put out, and whether it has changed anything.
pub record Output : Type 0 where
  pub output : Text
  pub mappings : List Span
  pub changed : Bool

unfoldable pub from_bytes : Text → List Span → Result DetectorError ScanView
from_bytes output mappings = do
  refuse_if (not (length output == length mappings)) DetectorError.invalid_source_map
  refuse_if (not (is_utf8 output)) DetectorError.invalid_normalized_utf8
  ok (record { text = output; source_by_byte = mappings })

-- The span from the least start to the greatest end.
unfoldable pub hull : Span → List Span → Span
hull span [] = span
hull span (s ∷ ss) = hull (record { start = min span.start s.start; end = max span.end s.end }) ss

-- The end of `combined_source`, on the mappings of the range.
unfoldable pub combined : List Span → Result DetectorError Span
combined [] = err DetectorError.invalid_source_map
combined (s ∷ ss) =
    let span = hull s ss in
    if leb span.end span.start then err DetectorError.invalid_source_map else ok span

unfoldable pub combined_source : List Span → Span → Result DetectorError Span
combined_source source_by_byte scan_span =
    if leb scan_span.end scan_span.start || ltb (length source_by_byte) scan_span.end
    then err DetectorError.invalid_source_map
    else combined (take (scan_span.end - scan_span.start) (drop scan_span.start source_by_byte))

unfoldable pub finding :
    ScanView → Span → DataClass → DetectorId → Confidence → Result DetectorError Finding
finding view scan_span c d k = do
  source ← combined_source view.source_by_byte scan_span
  ok (record { data_class = c; detector = d; confidence = k; source_span = source })

-- `append_with_source`, in front of what follows.
unfoldable pub append_with_source : Text → Span → Output → Output
append_with_source value source rest = record {
  output = value ++ rest.output;
  mappings = replicate (length value) source ++ rest.mappings;
  changed = true;
}

unfoldable pub copy_byte : ℕ → Span → Output → Output
copy_byte b source rest = record rest {
  output = b ∷ rest.output;
  mappings = source ∷ rest.mappings;
}

unfoldable pub drop_byte : Output → Output
drop_byte rest = record rest { changed = true }

abbrev pub nothing : Output
nothing = record { output = []; mappings = []; changed = false }

-- The bytes of a replacement share the combined source of the bytes that they stand for; where
-- there are none, no source is asked for.
unfoldable pub replaced : Text → ℕ → List Span → Result DetectorError (Output → Output)
replaced [] n mappings = ok drop_byte
replaced (b ∷ out) n mappings = do
  source ← combined_source mappings (record { start = 0; end = n })
  ok (append_with_source (b ∷ out) source)

-- The loop over the bytes and their sources. The first number counts the bytes of a replaced
-- group that are still to pass.
unfoldable pub rewrite : Step → ℕ → Text → List Span → Result DetectorError Output
rewrite step skip [] mappings = ok nothing
rewrite step skip (b ∷ s) [] = err DetectorError.panicked
rewrite step (suc skip) (b ∷ s) (m ∷ ms) = rewrite step skip s ms
rewrite step zero (b ∷ s) (m ∷ ms) = elim (step (b ∷ s)) [
  | none ↦ rewrite step 0 s ms >>= (λ rest. ok (copy_byte b m rest))
  | some (out, n) ↦
      replaced out n (m ∷ ms)
      >>= (λ (put : Output → Output). rewrite step (n - 1) s ms >>= (λ rest. ok (put rest)))
]

unfoldable pub remove_structural_continuations : ScanView → Result DetectorError ScanView
remove_structural_continuations view = do
  out ← rewrite continuation_step 0 view.text view.source_by_byte
  from_bytes out.output out.mappings

-- A view is made only where something has changed.
unfoldable pub when_changed : Output → Result DetectorError (Option ScanView)
when_changed out =
    if out.changed then from_bytes out.output out.mappings >>= (λ view. ok (some view)) else ok none

unfoldable pub decode_json_escapes : ScanView → Result DetectorError (Option ScanView)
decode_json_escapes view = do
  out ← rewrite escape_step 0 view.text view.source_by_byte
  when_changed out

unfoldable pub decode_percent_encoding : ScanView → Result DetectorError (Option ScanView)
decode_percent_encoding view = do
  out ← rewrite percent_step 0 view.text view.source_by_byte
  refuse_if (out.changed && not (is_utf8 out.output)) DetectorError.invalid_percent_encoding
  when_changed out

abbrev next_is_token : Text → Bool
next_is_token [] = false
next_is_token (b ∷ s) = is_token_byte b

-- The loop of `collapse_candidate_separators`; the first argument tells whether the byte before is
-- one of a token.
unfoldable pub collapse : Bool → Text → List Span → Result DetectorError Output
collapse after_token [] mappings = ok nothing
collapse after_token (b ∷ s) [] = err DetectorError.panicked
collapse after_token (b ∷ s) (m ∷ ms) = do
  rest ← collapse (is_token_byte b) s ms
  ok (if b == b'.' && after_token && next_is_token s then drop_byte rest else copy_byte b m rest)

unfoldable pub collapse_candidate_separators : ScanView → Result DetectorError (Option ScanView)
collapse_candidate_separators view = do
  out ← collapse false view.text view.source_by_byte
  when_changed out

module _ (nfkc : Text → Text) where
  -- The loop of `normalize`, from the position of the next character.
  unfoldable pub normalize_chars : ℕ → List Text → Output
  normalize_chars start [] = nothing
  normalize_chars start (c ∷ cs) =
      let rest = normalize_chars (start + length c) cs in
      if is_invisible_control c
      then rest
      else append_with_source (nfkc c) (record { start = start; end = start + length c }) rest

  unfoldable pub normalize : Text → Result DetectorError ScanView
  normalize source =
      let out = normalize_chars 0 (chars source) in
      remove_structural_continuations (record { text = out.output; source_by_byte = out.mappings })

  -- The loop of `canonicalize`, with the sources of the characters that are left.
  unfoldable pub canonicalize_chars : List Text → List Span → Result DetectorError Output
  canonicalize_chars [] mappings = ok nothing
  canonicalize_chars (c ∷ cs) mappings = elim (is_invisible_control c) [
    | true ↦ canonicalize_chars cs (drop (length c) mappings)
    | false ↦ combined_source mappings (record { start = 0; end = length c }) >>= (λ source.
        canonicalize_chars cs (drop (length c) mappings)
        >>= (λ rest. ok (append_with_source (nfkc c) source rest)))
  ]

  unfoldable pub canonicalize : ScanView → Result DetectorError ScanView
  canonicalize view = do
    out ← canonicalize_chars (chars view.text) view.source_by_byte
    remove_structural_continuations (record { text = out.output; source_by_byte = out.mappings })
