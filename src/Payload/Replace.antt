-- ===== src/Payload/Replace.antt =====
-- `replace_text` of src/payload.rs.
use agent_veil.Payload.Target.{TextTarget, PayloadError}
use agent_veil.Prelude.{
  ℕ, Text, ◌≡◌, ok, get_elem?, some, none, ◌≢◌, ◌⊎◌, false, inl, inr, Option-cases, arith,
  Result-cases, ◌∙◌, ap, refl, ok_or, sym,
}
use agent_veil.Payload.Value.{Value, is_string, as_str}
use agent_veil.Payload.Lens.{locate-write_self, locate-write_ne}
use agent_veil.Payload.Request.{ValidatedRequest, replace_text, text, locate, write}

replace_text-inversion :
    (r : ValidatedRequest) (i : ℕ) (x : Text) (r' : ValidatedRequest)
    → replace_text r i x ≡ ok r'
    → (t : TextTarget) × (s : Text) × (get_elem? r.targets i ≡ some t)
      × (t.literal ≡ none)
      × (locate r.value t.path ≡ ok (Value.string s))
      × (r' ≡ record r { value = write r.value t.path (Value.string x) })
unfolding replace_text
replace_text-inversion r i x r' h = elim (Option-cases (get_elem? r.targets i)) [
  | inl missing ↦ absurd (ground arith)
  | inr (t, found) ↦ elim (Option-cases t.literal) [
    | inr (k, literal) ↦ absurd (ground arith)
    | inl plain ↦ elim (Result-cases (locate r.value t.path)) [
      | inr (e, lost) ↦ absurd (ground arith)
      | inl (v, at) ↦ elim (string_cases v) [
        | inr other ↦ absurd (ground arith)
        | inl (s, shape) ↦ (t, s, found, plain, at ∙ ap ok shape, ground arith)
      ]
    ]
  ]
]
  where
    string_cases : (v : Value) → ((s : Text) × (v ≡ Value.string s)) ⊎ (is_string v ≡ false)
    string_cases (Value.string s) = inl (s, refl)
    string_cases _ = inr refl

text-locate :
    (r : ValidatedRequest) (t : TextTarget) (s : Text)
    → t.literal ≡ none
    → locate r.value t.path ≡ ok (Value.string s)
    → text r t ≡ ok s
unfolding text
text-locate r t s plain at = rw (plain, at, text) refl

locate-text :
    (r : ValidatedRequest) (t : TextTarget) (s : Text)
    → t.literal ≡ none
    → text r t ≡ ok s
    → locate r.value t.path ≡ ok (Value.string s)
unfolding text
locate-text r t s plain reads = elim (Result-cases (locate r.value t.path)) [
  | inr (e, lost) ↦ absurd (ground arith)
  | inl (v, at) ↦ at ∙ ap ok (as_string v (rw (plain, at, text) at reads))
]
  where
    as_string :
        (v : Value) → ok_or (as_str v) PayloadError.target_changed_type ≡ ok s → v ≡ Value.string s
    as_string (Value.string x) e = cc e
    as_string Value.null e = cc e
    as_string (Value.boolean b) e = cc e
    as_string (Value.number n) e = cc e
    as_string (Value.array vs) e = cc e
    as_string (Value.object ms) e = cc e

text-literal :
    (r r' : ValidatedRequest) (t : TextTarget) (k : Text)
    → t.literal ≡ some k
    → text r t ≡ text r' t
unfolding text
text-literal r r' t k literal = rw (literal, text) refl

-- After a replacement the target reads the replacement, the targets are the same, and every text at
-- another place reads as before.
pub text-replace_text :
    (r : ValidatedRequest) (i : ℕ) (x : Text) (r' : ValidatedRequest)
    → replace_text r i x ≡ ok r'
    → (t : TextTarget) × (get_elem? r.targets i ≡ some t)
      × (text r' t ≡ ok x)
      × (r'.targets ≡ r.targets)
      × ((u : TextTarget) (s : Text) → t.path ≢ u.path → text r u ≡ ok s → text r' u ≡ ok s)
text-replace_text r i x r' h =
    let (t, s, found, plain, at, shape) = replace_text-inversion r i x r' h in
    let new : r'.value ≡ write r.value t.path (Value.string x) = ap (λ q. q.value) shape in
    (
      t,
      found,
      text-locate r' t x plain (
          ap (λ v. locate v t.path) new
          ∙ locate-write_self r.value t.path (Value.string x) (Value.string s) at),
      ap (λ q. q.targets) shape,
      λ u y ne reads. elim (Option-cases u.literal) [
        | inr (k, literal) ↦ sym (text-literal r r' u k literal) ∙ reads
        | inl other ↦ text-locate r' u y other (
            ap (λ v. locate v u.path) new
            ∙ locate-write_ne r.value t.path u.path (Value.string x) s y ne at
                (locate-text r u y other reads))
      ],
    )
