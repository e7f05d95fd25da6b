-- ===== src/Detector/Compose.antt =====
-- `composed_views` of src/detector.rs: a text and what at most two layers of decoding make of it.
use agent_veil.Detector.View.{ScanView, decode_json_escapes, decode_percent_encoding, canonicalize}
use agent_veil.Detector.{DetectorError}
use agent_veil.Domain.{Span}
use agent_veil.Prelude.{
  ℕ, zero, suc, ◌+◌, ◌-◌, ◌*◌, ◌^◌, min, max, Text, Bool, true, false, ◌&&◌, ◌||◌, ◌==◌, ltb, leb,
  Option, none, some, List, [], ◌∷◌, ◌++◌, Result, ok, err, ◌>>=◌, if◌then◌else◌, length, text_eq,
  any, unwrap_or,
}

abbrev pub max_decode_layers : ℕ
max_decode_layers = 2

abbrev pub max_regular_views : ℕ
max_regular_views = 8

-- `usize::saturating_mul`
unfoldable pub saturating_mul : ℕ → ℕ → ℕ
saturating_mul a b = min (a * b) (2 ^ 64 - 1)

unfoldable pub spans_eq : List Span → List Span → Bool
spans_eq [] [] = true
spans_eq (a ∷ s) (b ∷ t) = a.start == b.start && a.end == b.end && spans_eq s t
spans_eq _ _ = false

-- `HashSet::contains` on the text and the sources of a view.
unfoldable pub is_seen : ScanView → List ScanView → Bool
is_seen view seen =
    any (λ v. text_eq v.text view.text && spans_eq v.source_by_byte view.source_by_byte) seen

-- The views that are still to visit, each with its depth.
abbrev pub Queue : Type 0
Queue = List (ScanView × ℕ)

module _ (nfkc : Text → Text) where
  -- What a decoding adds to the queue.
  unfoldable pub enqueue : ℕ → Option ScanView → Result DetectorError Queue
  enqueue depth none = ok []
  enqueue depth (some decoded) = do view ← canonicalize nfkc decoded; ok ((view, depth + 1) ∷ [])

  unfoldable pub decoded_views : ScanView → ℕ → Result DetectorError Queue
  decoded_views view depth = if leb max_decode_layers depth then ok [] else do
    json ← decode_json_escapes view
    first ← enqueue depth json
    percent ← decode_percent_encoding view
    second ← enqueue depth percent
    ok (first ++ second)

  -- The body of the loop for a view that is new: what it adds to the queue.
  unfoldable pub visit : ℕ → ScanView → ℕ → List ScanView → Result DetectorError Queue
  visit max_output_bytes view depth views =
      if leb max_regular_views (length views) || ltb max_output_bytes (length view.text)
      then err DetectorError.normalization_limit
      else decoded_views view depth

  -- The loop over the queue. Nothing is returned where the number of rounds does not suffice. Each
  -- view that is new enters both `seen` and `views`, so one list is both.
  unfoldable pub explore :
      ℕ → ℕ → Queue → List ScanView → Option (Result DetectorError (List ScanView))
  explore rounds max_output_bytes [] views = some (ok views)
  explore zero max_output_bytes ((view, depth) ∷ queue) views = none
  explore (suc rounds) max_output_bytes ((view, depth) ∷ queue) views = elim (is_seen view views) [
    | true ↦ explore rounds max_output_bytes queue views
    | false ↦ elim (visit max_output_bytes view depth views) [
      | err e ↦ some (err e)
      | ok added ↦ explore rounds max_output_bytes (queue ++ added) (views ++ view ∷ [])
    ]
  ]

  unfoldable pub composed_views_within :
      ℕ → ScanView → Option (Result DetectorError (List ScanView))
  composed_views_within rounds root =
      explore rounds (max (saturating_mul (length root.source_by_byte) 4) 4) ((root, 0) ∷ []) []

  -- The loop takes seven rounds at most.
  unfoldable pub composed_views : ScanView → Result DetectorError (List ScanView)
  composed_views root =
      unwrap_or (composed_views_within 7 root) (err DetectorError.normalization_limit)
