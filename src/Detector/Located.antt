-- ===== src/Detector/Located.antt =====
-- Every byte of a view of src/detector.rs comes from whole characters of the source.
use agent_veil.Detector.Decode.{Step, chars, is_invisible_control, is_token_byte}
use agent_veil.Detector.View.{
  ScanView, Output, hull, combined, combined_source, from_bytes, append_with_source, replaced,
  rewrite, collapse, when_changed, remove_structural_continuations, decode_json_escapes,
  decode_percent_encoding, collapse_candidate_separators, canonicalize_chars, canonicalize,
  drop_byte, copy_byte,
}
use agent_veil.Domain.{Span}
use agent_veil.Engine.Slice.{is_char_boundary}
use agent_veil.Prelude.{
  ◌≤◌, ◌<◌, ◌≡◌, Text, true, min, max, List, [], ◌∷◌, All, All-take, All-drop, length, arith,
  Ensures, Ensures-ok, Ensures-err, Option, Ensures-refuse_if, All-append, some, Ensures-bind, drop,
  All-replicate, ℕ, Bool, none, false, Bool-cases, suc, if◌then◌else◌, Option-cases, inl, inr, ◌-◌,
  zero, ensures_rules,
}

-- A part of the source that is not empty, from a boundary of characters to another.
pub record IsLocated (source : Text) (span : Span) : Type 0 where
  pub not_empty : span.start < span.end
  pub inside : span.end ≤ length source
  pub starts : is_char_boundary source span.start ≡ true
  pub ends : is_char_boundary source span.end ≡ true

module _ (source : Text) where
  abbrev pub IsLocatedView : ScanView → Type 0
  IsLocatedView view = All (IsLocated source) view.source_by_byte

  abbrev pub IsLocatedOutput : Output → Type 0
  IsLocatedOutput out = All (IsLocated source) out.mappings

  abbrev pub IsLocatedOption : Option ScanView → Type 0
  IsLocatedOption none = Unit
  IsLocatedOption (some view) = IsLocatedView view

module _ {source : Text} where
  hull-IsLocated :
      (s : Span) (ss : List Span)
      → IsLocated source s
      → All (IsLocated source) ss
      → IsLocated source (hull s ss)
  unfolding hull
  hull-IsLocated s [] h k = h
  hull-IsLocated s (t ∷ ts) h k =
      hull-IsLocated (record { start = min s.start t.start; end = max s.end t.end }) ts
        (record {
          not_empty = omega (arith, h.not_empty, k.0.not_empty);
          inside = omega (arith, h.inside, k.0.inside);
          starts = ground (arith, h.starts, k.0.starts);
          ends = ground (arith, h.ends, k.0.ends);
        })
        k.1

  combined-IsLocated :
      (ss : List Span) → All (IsLocated source) ss → Ensures (IsLocated source) (combined ss)
  unfolding combined
  combined-IsLocated [] h = Ensures-err _
  combined-IsLocated (s ∷ ss) h = search (ensures_rules, hull-IsLocated s ss h.0 h.1)

  pub combined_source-IsLocated :
      (ss : List Span) (span : Span)
      → All (IsLocated source) ss
      → Ensures (IsLocated source) (combined_source ss span)
  unfolding combined_source
  combined_source-IsLocated ss span h =
      let part =
        combined-IsLocated _ (All-take _ (span.end - span.start) _ (All-drop _ span.start ss h)) in
      search (ensures_rules, part)

  from_bytes-IsLocated :
      (s : Text) (ms : List Span)
      → All (IsLocated source) ms
      → Ensures (IsLocatedView source) (from_bytes s ms)
  unfolding from_bytes
  from_bytes-IsLocated s ms h = search (ensures_rules, h)

  pub append-IsLocated :
      (value : Text) (span : Span) (rest : Output)
      → IsLocated source span
      → IsLocatedOutput source rest
      → IsLocatedOutput source (append_with_source value span rest)
  unfolding append_with_source
  append-IsLocated value span rest h k = All-append _ _ _ (All-replicate _ (length value) span h) k

  replaced-IsLocated :
      (out : Text) (n : ℕ) (ms : List Span)
      → All (IsLocated source) ms
      → Ensures
          (λ put. (rest : Output) → IsLocatedOutput source rest → IsLocatedOutput source (put rest))
          (replaced out n ms)
  unfolding replaced drop_byte
  replaced-IsLocated [] n ms h = Ensures-ok _ λ rest k. k
  replaced-IsLocated (b ∷ out) n ms h =
      Ensures-bind _ _ (combined_source-IsLocated ms (record { start = 0; end = n }) h)
        λ span k. Ensures-ok _ λ rest. append-IsLocated (b ∷ out) span rest k

  rewrite-IsLocated :
      (step : Step) (skip : ℕ) (s : Text) (ms : List Span)
      → All (IsLocated source) ms
      → Ensures (IsLocatedOutput source) (rewrite step skip s ms)
  unfolding rewrite copy_byte
  rewrite-IsLocated step zero [] ms h = Ensures-ok _ tt
  rewrite-IsLocated step (suc skip) [] ms h = Ensures-ok _ tt
  rewrite-IsLocated step zero (b ∷ s) [] h = Ensures-err _
  rewrite-IsLocated step (suc skip) (b ∷ s) [] h = Ensures-err _
  rewrite-IsLocated step (suc skip) (b ∷ s) (m ∷ ms) h = rewrite-IsLocated step skip s ms h.1
  rewrite-IsLocated step zero (b ∷ s) (m ∷ ms) h = elim (Option-cases (step (b ∷ s))) [
    | inl e ↦
        rw (rewrite, e)
          (Ensures-bind _ _ (rewrite-IsLocated step 0 s ms h.1) λ rest k. Ensures-ok _ (h.0, k))
    | inr ((out, n), e) ↦
        rw (rewrite, e)
          (Ensures-bind _ _ (replaced-IsLocated out n (m ∷ ms) h) λ put keeps.
            Ensures-bind _ _ (rewrite-IsLocated step (n - 1) s ms h.1)
              λ rest k. Ensures-ok _ (keeps rest k))
  ]

  collapse-IsLocated :
      (after_token : Bool) (s : Text) (ms : List Span)
      → All (IsLocated source) ms
      → Ensures (IsLocatedOutput source) (collapse after_token s ms)
  unfolding collapse copy_byte drop_byte
  collapse-IsLocated after_token [] ms h = Ensures-ok _ tt
  collapse-IsLocated after_token (b ∷ s) [] h = Ensures-err _
  collapse-IsLocated after_token (b ∷ s) (m ∷ ms) h =
      Ensures-bind _ _ (collapse-IsLocated (is_token_byte b) s ms h.1)
        λ rest k. Ensures-ok _ (either_way _ (drop_byte rest) (copy_byte b m rest) k (h.0, k))
    where
      either_way :
          (t : Bool) (x y : Output)
          → IsLocatedOutput source x
          → IsLocatedOutput source y
          → IsLocatedOutput source (if t then x else y)
      either_way true x y p q = p
      either_way false x y p q = q

  when_changed-IsLocated :
      (out : Output)
      → IsLocatedOutput source out
      → Ensures (IsLocatedOption source) (when_changed out)
  unfolding when_changed
  when_changed-IsLocated out h =
      search (ensures_rules, from_bytes-IsLocated out.output out.mappings h)

  pub remove_structural_continuations-IsLocated :
      (view : ScanView)
      → IsLocatedView source view
      → Ensures (IsLocatedView source) (remove_structural_continuations view)
  unfolding remove_structural_continuations
  remove_structural_continuations-IsLocated view h =
      Ensures-bind _ _ (rewrite-IsLocated _ 0 view.text view.source_by_byte h)
        λ out k. from_bytes-IsLocated out.output out.mappings k

  pub decode_json_escapes-IsLocated :
      (view : ScanView)
      → IsLocatedView source view
      → Ensures (IsLocatedOption source) (decode_json_escapes view)
  unfolding decode_json_escapes
  decode_json_escapes-IsLocated view h =
      Ensures-bind _ _ (rewrite-IsLocated _ 0 view.text view.source_by_byte h)
        when_changed-IsLocated

  pub decode_percent_encoding-IsLocated :
      (view : ScanView)
      → IsLocatedView source view
      → Ensures (IsLocatedOption source) (decode_percent_encoding view)
  unfolding decode_percent_encoding
  decode_percent_encoding-IsLocated view h =
      Ensures-bind _ _ (rewrite-IsLocated _ 0 view.text view.source_by_byte h)
        λ out k. Ensures-refuse_if _ _ _ λ _. when_changed-IsLocated out k

  pub collapse_candidate_separators-IsLocated :
      (view : ScanView)
      → IsLocatedView source view
      → Ensures (IsLocatedOption source) (collapse_candidate_separators view)
  unfolding collapse_candidate_separators
  collapse_candidate_separators-IsLocated view h =
      Ensures-bind _ _ (collapse-IsLocated false view.text view.source_by_byte h)
        when_changed-IsLocated

  module _ (nfkc : Text → Text) where
    canonicalize_chars-IsLocated :
        (cs : List Text) (ms : List Span)
        → All (IsLocated source) ms
        → Ensures (IsLocatedOutput source) (canonicalize_chars nfkc cs ms)
    unfolding canonicalize_chars
    canonicalize_chars-IsLocated [] ms h = Ensures-ok _ tt
    canonicalize_chars-IsLocated (c ∷ cs) ms h =
        let later =
          canonicalize_chars-IsLocated cs (drop (length c) ms) (All-drop _ (length c) ms h) in
        elim (Bool-cases (is_invisible_control c)) [
          | inl t ↦ rw (canonicalize_chars, t) later
          | inr f ↦
              rw (canonicalize_chars, f)
                (Ensures-bind _ _
                  (combined_source-IsLocated ms (record { start = 0; end = length c }) h)
                  λ span k.
                    Ensures-bind _ _ later
                      λ rest q. Ensures-ok _ (append-IsLocated (nfkc c) span rest k q))
        ]

    pub canonicalize-IsLocated :
        (view : ScanView)
        → IsLocatedView source view
        → Ensures (IsLocatedView source) (canonicalize nfkc view)
    unfolding canonicalize
    canonicalize-IsLocated view h =
        Ensures-bind _ _ (canonicalize_chars-IsLocated (chars view.text) view.source_by_byte h)
          λ out k. remove_structural_continuations-IsLocated _ k
