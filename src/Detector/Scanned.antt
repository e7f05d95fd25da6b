-- ===== src/Detector/Scanned.antt =====
-- Where the findings of the scanner of src/detector.rs lie.
use agent_veil.Detector.Composed.{composed_views-IsLocated}
use agent_veil.Detector.Normal.{normalize-IsLocated}
use agent_veil.Detector.{DetectorError}
use agent_veil.Detector.Scan.{
  insert_finding, sort_findings, dedup_from, dedup, scan_views, finding_le, same_finding, Scanner,
  scan_view, scan_pattern, max_scan_views, scan_regular, PatternDetector, scan,
}
use agent_veil.Detector.Located.{
  IsLocated, IsLocatedView, combined_source-IsLocated, IsLocatedOption,
  collapse_candidate_separators-IsLocated,
}
use agent_veil.Detector.Rules.{
  Findings, collect, push_finding, private_keys_from, key_block, KeyBlock, begin_marker,
  env_assignment, private_ipv4, phone, bounded, internal_hostname, scan_configured,
  internal_hostnames, custom_term, home_path, scan_private_keys, scan_env_assignments, scan_email,
  scan_private_ipv4, scan_phone, is_boundary,
}
use agent_veil.Detector.View.{ScanView, finding}
use agent_veil.Domain.{Span, Finding, DataClass, DetectorId, Confidence}
use agent_veil.Sse.Text.{starts_with}
use agent_veil.Prelude.{
  ℕ, zero, suc, ◌+◌, ◌-◌, Text, List, [], ◌∷◌, ◌++◌, All, All-append, Bool-cases, Ensures,
  Ensures-ok, Ensures-bind, ok, inl, inr, In-All, ◌>>=◌, length, Bool, Option, some, ensures_rules,
  none, Ensures-if, false, refuse_if, leb, ◌>>◌, true, Ensures-refuse_if,
}

module _ (source : Text) where
  -- A finding whose span is a part of the source between boundaries of characters.
  abbrev pub IsFoundIn : Finding → Type 0
  IsFoundIn f = IsLocated source f.source_span

  abbrev pub AreFound : Findings → Type 0
  AreFound r = Ensures (All IsFoundIn) r

  no_findings : AreFound (ok [])
  no_findings = Ensures-ok [] tt

  insert_finding-All :
      (f : Finding) (fs : List Finding)
      → IsFoundIn f
      → All IsFoundIn fs
      → All IsFoundIn (insert_finding f fs)
  unfolding insert_finding
  insert_finding-All f [] h k = (h, tt)
  insert_finding-All f (g ∷ gs) h k = elim (Bool-cases (finding_le f g)) [
    | inl t ↦ rw t (h, k)
    | inr n ↦ rw n (k.0, insert_finding-All f gs h k.1)
  ]

  sort_findings-All : (fs : List Finding) → All IsFoundIn fs → All IsFoundIn (sort_findings fs)
  unfolding sort_findings
  sort_findings-All [] h = tt
  sort_findings-All (f ∷ fs) h = insert_finding-All f _ h.0 (sort_findings-All fs h.1)

  dedup_from-All :
      (kept : Finding) (fs : List Finding) → All IsFoundIn fs → All IsFoundIn (dedup_from kept fs)
  unfolding dedup_from
  dedup_from-All kept [] h = tt
  dedup_from-All kept (f ∷ fs) h = elim (Bool-cases (same_finding f kept)) [
    | inl t ↦ rw (dedup_from, t) (dedup_from-All kept fs h.1)
    | inr n ↦ rw (dedup_from, n) (h.0, dedup_from-All f fs h.1)
  ]

  dedup-All : (fs : List Finding) → All IsFoundIn fs → All IsFoundIn (dedup fs)
  unfolding dedup
  dedup-All [] h = tt
  dedup-All (f ∷ fs) h = (h.0, dedup_from-All f fs h.1)

module _ {source : Text} where
  collect-AreFound :
      {A : Type 0} (P : A → Type 0) (f : A → Findings) (items : List A)
      → ((a : A) → P a → AreFound source (f a))
      → All P items
      → AreFound source (collect f items)
  unfolding collect
  collect-AreFound P f [] h k = Ensures-ok _ tt
  collect-AreFound P f (a ∷ items) h k = Ensures-bind _ _ (h a k.0) λ first p.
      Ensures-bind _ _ (collect-AreFound P f items h k.1)
        λ rest q. Ensures-ok _ (All-append _ first rest p q)

  collect_each :
      {A : Type 0} (f : A → Findings) (items : List A)
      → ((a : A) → AreFound source (f a))
      → AreFound source (collect f items)
  collect_each f items h =
      collect-AreFound (λ a. Unit {0}) f items (λ a u. h a) (In-All _ items λ a m. tt)

  join-AreFound :
      (first rest : Findings)
      → AreFound source first
      → AreFound source rest
      → AreFound source (first >>= (λ a. rest >>= (λ b. ok (a ++ b))))
  join-AreFound first rest h k =
      Ensures-bind _ _ h λ a p. Ensures-bind _ _ k λ b q. Ensures-ok _ (All-append _ a b p q)

  module _ (view : ScanView) (h : IsLocatedView source view) where
    push_finding-AreFound :
        (span : Span) (c : DataClass) (d : DetectorId) (k : Confidence)
        → AreFound source (push_finding view span c d k)
    unfolding push_finding finding
    push_finding-AreFound span c d k =
        Ensures-bind _ _
          (Ensures-bind {Q = IsFoundIn source} _ _
            (combined_source-IsLocated view.source_by_byte span h) λ s p. Ensures-ok _ p)
          λ f q. Ensures-ok _ (q, tt)

    private_keys_from-AreFound :
        (skip i : ℕ) (s : Text) → AreFound source (private_keys_from view skip i s)
    unfolding private_keys_from
    private_keys_from-AreFound zero i [] = Ensures-ok _ tt
    private_keys_from-AreFound (suc skip) i [] = Ensures-ok _ tt
    private_keys_from-AreFound (suc skip) i (b ∷ s) = private_keys_from-AreFound skip (i + 1) s
    private_keys_from-AreFound zero i (b ∷ s) =
        elim (Bool-cases (starts_with (b ∷ s) begin_marker)) [
          | inr f ↦ rw (private_keys_from, f) (private_keys_from-AreFound 0 (i + 1) s)
          | inl t ↦
              rw (private_keys_from, t)
                (key (key_block (b ∷ s)) λ n. private_keys_from-AreFound (n - 1) (i + 1) s)
        ]
      where
        key :
            (block : KeyBlock)
            → ((n : ℕ) → AreFound source (private_keys_from view (n - 1) (i + 1) s))
            → AreFound source (elim block [
              | KeyBlock.unfinished ↦
                  push_finding view
                    (record { start = i; end = length view.text })
                    DataClass.private_key
                    DetectorId.pem_private_key
                    Confidence.high
              | KeyBlock.other n ↦ private_keys_from view (n - 1) (i + 1) s
              | KeyBlock.key n ↦
                  push_finding view
                    (record { start = i; end = i + n })
                    DataClass.private_key
                    DetectorId.pem_private_key
                    Confidence.high
                  >>= (λ first.
                      private_keys_from view (n - 1) (i + 1) s >>= (λ rest. ok (first ++ rest)))
            ])
        key KeyBlock.unfinished f = push_finding-AreFound _ _ _ _
        key (KeyBlock.other n) f = f n
        key (KeyBlock.key n) f = join-AreFound _ _ (push_finding-AreFound _ _ _ _) (f n)

    env_assignment-AreFound : (c : Span × Option Span) → AreFound source (env_assignment view c)
    unfolding env_assignment
    env_assignment-AreFound (whole, none) = Ensures-ok _ tt
    env_assignment-AreFound (whole, some candidate) =
        search (ensures_rules, push_finding-AreFound, no_findings source)

    private_ipv4-AreFound : (candidate : Span) → AreFound source (private_ipv4 view candidate)
    unfolding private_ipv4
    private_ipv4-AreFound candidate =
        search (ensures_rules, push_finding-AreFound, no_findings source)

    phone-AreFound : (candidate : Span) → AreFound source (phone view candidate)
    unfolding phone
    phone-AreFound candidate = search (ensures_rules, push_finding-AreFound, no_findings source)

    module _ (is_alphanumeric : Text → Bool) where
      bounded-AreFound :
          (span : Span) (c : DataClass) (d : DetectorId)
          → AreFound source (bounded is_alphanumeric view span c d)
      unfolding bounded
      bounded-AreFound span c d =
          Ensures-bind {P = λ t. Unit {0}}
            (is_boundary is_alphanumeric view.text span.start span.end) _
            (record { at = λ t e. tt })
            λ t u. search (ensures_rules, push_finding-AreFound, no_findings source)

      internal_hostnames-AreFound :
          (suffix : Text) → AreFound source (internal_hostnames is_alphanumeric view suffix)
      unfolding internal_hostnames internal_hostname
      internal_hostnames-AreFound suffix =
          collect_each (internal_hostname is_alphanumeric view suffix) _
            λ start. search (ensures_rules, bounded-AreFound, no_findings source)

      custom_term-AreFound : (term : Text) → AreFound source (custom_term is_alphanumeric view term)
      unfolding custom_term
      custom_term-AreFound term = collect_each _ _ λ start. bounded-AreFound _ _ _

      home_path-AreFound : (prefix : Text) → AreFound source (home_path is_alphanumeric view prefix)
      unfolding home_path
      home_path-AreFound prefix = collect_each _ _ λ start. push_finding-AreFound _ _ _ _

      scan_configured-AreFound :
          (suffixes terms prefixes : List Text)
          → AreFound source (scan_configured is_alphanumeric view suffixes terms prefixes)
      unfolding scan_configured
      scan_configured-AreFound suffixes terms prefixes =
          Ensures-bind _ _ (collect_each _ suffixes internal_hostnames-AreFound) λ hostnames p.
            Ensures-bind _ _ (collect_each _ terms custom_term-AreFound) λ custom q.
              Ensures-bind _ _ (collect_each _ prefixes home_path-AreFound)
                λ paths r. Ensures-ok _ (All-append _ hostnames _ p (All-append _ custom paths q r))

  scan_views-IsLocated :
      (count : ℕ) (views : List ScanView)
      → All (IsLocatedView source) views
      → Ensures (All (λ v. IsLocatedView source v.0)) (scan_views count views)
  unfolding scan_views
  scan_views-IsLocated count [] h = Ensures-ok _ tt
  scan_views-IsLocated count (view ∷ views) h = Ensures-refuse_if _ _ _ λ _.
      Ensures-bind _ _ (collapse_candidate_separators-IsLocated view h.0)
        λ collapsed k. add collapsed k (λ n. scan_views-IsLocated n views h.1)
    where
      add :
          (collapsed : Option ScanView)
          → IsLocatedOption source collapsed
          → ((n : ℕ) → Ensures (All (λ v. IsLocatedView source v.0)) (scan_views n views))
          → Ensures (All (λ v. IsLocatedView source v.0)) (elim collapsed [
            | none ↦ scan_views (count + 1) views >>= (λ rest. ok ((view, false) ∷ rest))
            | some c ↦
                refuse_if (leb max_scan_views (count + 1)) DetectorError.normalization_limit
                >> (scan_views (count + 2) views
                    >>= (λ rest. ok ((view, false) ∷ (c, true) ∷ rest)))
          ])
      add none k f =
          Ensures-bind _ _ (f (count + 1)) λ rest q. Ensures-ok ((view, false) ∷ rest) (h.0, q)
      add (some c) k f = Ensures-refuse_if _ _ _ λ _.
          Ensures-bind _ _ (f (count + 2))
            λ rest q. Ensures-ok ((view, false) ∷ (c, true) ∷ rest) (h.0, (k, q))

module _ {R : Type 0} (find_iter : R → Text → List Span)
    (captures_iter : R → Text → List (Span × Option Span)) (is_alphanumeric : Text → Bool)
    (nfkc : Text → Text) (scanner : Scanner R) where
  scan_pattern-AreFound :
      {source : Text} (view : ScanView) (secret_view : Bool) (p : PatternDetector R)
      → IsLocatedView source view
      → AreFound source
          (scan_pattern find_iter captures_iter is_alphanumeric nfkc view secret_view p)
  unfolding scan_pattern
  scan_pattern-AreFound {source} view secret_view p h =
      let found =
        collect_each (λ candidate. push_finding view candidate p.data_class p.detector p.confidence)
          (find_iter p.regex view.text) λ candidate. push_finding-AreFound view h _ _ _ _ in
      search (ensures_rules, found, no_findings source)

  scan_regular-AreFound :
      {source : Text} (view : ScanView)
      → IsLocatedView source view
      → AreFound source (scan_regular find_iter captures_iter is_alphanumeric nfkc scanner view)
  unfolding scan_regular scan_email scan_private_ipv4 scan_phone
  scan_regular-AreFound view h =
      Ensures-bind _ _ (collect_each _ _ λ c. push_finding-AreFound view h _ _ _ _) λ emails p.
        Ensures-bind _ _ (collect_each _ _ (private_ipv4-AreFound view h)) λ addresses q.
          Ensures-bind _ _ (collect_each _ _ (phone-AreFound view h)) λ phones r.
            Ensures-bind _ _ (scan_configured-AreFound view h is_alphanumeric _ _ _) λ configured s.
              Ensures-ok _ (
                All-append _ emails _ p
                  (All-append _ addresses _ q (All-append _ phones configured r s)))

  scan_view-AreFound :
      {source : Text} (v : ScanView × Bool)
      → IsLocatedView source v.0
      → AreFound source (scan_view find_iter captures_iter is_alphanumeric nfkc scanner v)
  unfolding scan_view scan_private_keys scan_env_assignments
  scan_view-AreFound {source} (view, secret_view) h =
      Ensures-bind _ _
        (collect_each _ scanner.patterns λ p. scan_pattern-AreFound view secret_view p h)
        λ matched p. Ensures-bind _ _ (private_keys_from-AreFound view h 0 0 view.text) λ keys q.
          Ensures-bind _ _ (collect_each _ _ (env_assignment-AreFound view h)) λ assignments r.
            Ensures-bind _ _
              (Ensures-if secret_view _ _ (λ e. no_findings source)
                (λ e. scan_regular-AreFound view h))
              λ regular s. Ensures-ok _ (
                All-append _ matched _ p
                  (All-append _ keys _ q (All-append _ assignments regular r s)))

  -- Whatever the expressions find, every finding of a scan that succeeds has a span that is not
  -- empty, ends inside the source, and begins and ends at boundaries of characters of the source.
  pub scan-AreFound :
      (source : Text)
      → AreFound source (scan find_iter captures_iter is_alphanumeric nfkc scanner source)
  unfolding scan
  scan-AreFound source = Ensures-bind _ _ (normalize-IsLocated nfkc source) λ normalized p.
      Ensures-bind _ _ (composed_views-IsLocated nfkc normalized p) λ regular_views q.
        Ensures-bind _ _ (scan_views-IsLocated 0 regular_views q) λ views r.
          Ensures-bind _ _ (collect-AreFound _ _ views scan_view-AreFound r)
            λ findings s. Ensures-ok _ (dedup-All source _ (sort_findings-All source findings s))
