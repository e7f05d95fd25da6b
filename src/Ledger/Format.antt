-- ===== src/Ledger/Format.antt =====
-- The text of a token (`generate_token` of src/ledger.rs): it has the reserved shape, and the
-- random bytes can be read back from it.
use agent_veil.Domain.{token_label, DataClass, hard_block}
use agent_veil.Prelude.{
  Text, ◌≤◌, ◌<◌, All, length, ◌/◌, ◌⊎◌, arith, ◌≡◌, ◌%◌, ◌*◌, [], ap₂, refl, ◌++◌, List, In,
  Result, bytes, false, ok, inl, ok_of_bind, inr,
}
use agent_veil.Ledger.{
  hex_digit, encode, ℕ, ◌∷◌, format_token, generate_token, LedgerError, token_random_bytes,
}

-- `[A-F0-9]`
abbrev pub IsUpperHex : ℕ → Type 0
IsUpperHex b = ((b'0' ≤ b) × (b ≤ b'9')) ⊎ ((b'A' ≤ b) × (b ≤ b'F'))

hex_digit-IsUpperHex : (n : ℕ) → n < 16 → IsUpperHex (hex_digit n)
unfolding hex_digit
hex_digit-IsUpperHex n h = ground arith

hex_digit-injective : (a b : ℕ) → a < 16 → b < 16 → hex_digit a ≡ hex_digit b → a ≡ b
unfolding hex_digit
hex_digit-injective a b ha hb h = ground arith

abbrev pub IsByte : ℕ → Type 0
IsByte b = b < 256

pub encode-All : (s : Text) → All IsByte s → All IsUpperHex (encode s)
unfolding encode
encode-All [] h = tt
encode-All (b ∷ s) h = (
  hex_digit-IsUpperHex (b / 16) (let k = h.0 in omega arith),
  (hex_digit-IsUpperHex (b % 16) (omega arith), encode-All s h.1),
)

pub length-encode : (s : Text) → length (encode s) ≡ 2 * length s
unfolding encode
length-encode [] = omega arith
length-encode (b ∷ s) = omega (arith, length-encode s)

byte_of_halves : (a b : ℕ) → a / 16 ≡ b / 16 → a % 16 ≡ b % 16 → a ≡ b
byte_of_halves a b h k = omega arith

pub encode-injective : (s t : Text) → All IsByte s → All IsByte t → encode s ≡ encode t → s ≡ t
unfolding encode
encode-injective [] [] hs ht e = refl
encode-injective (a ∷ s) (b ∷ t) hs ht e =
    let (p, q, r) = cons_cons e in
    ap₂ ◌∷◌
      (byte_of_halves a b
        (hex_digit-injective (a / 16) (b / 16) (let k = hs.0 in omega arith)
          (let k = ht.0 in omega arith) p)
        (hex_digit-injective (a % 16) (b % 16) (omega arith) (omega arith) q))
      (encode-injective s t hs.1 ht.1 r)
  where
    cons_cons :
        {w x y z : ℕ} {l m : Text}
        → ◌≡◌ {A = Text} (w ∷ x ∷ l) (y ∷ z ∷ m)
        → (w ≡ y) × (x ≡ z) × (l ≡ m)
    cons_cons e = (cc, cc, cc)
encode-injective [] (b ∷ t) hs ht e = cc
encode-injective (a ∷ s) [] hs ht e = cc

append_cancel_left : (p s t : Text) → p ++ s ≡ p ++ t → s ≡ t
append_cancel_left [] s t e = e
append_cancel_left (x ∷ p) s t e = append_cancel_left p s t (cc e)

append_cancel_last : (s t : Text) (x : ℕ) → s ++ x ∷ [] ≡ t ++ x ∷ [] → s ≡ t
append_cancel_last [] [] x e = refl
append_cancel_last (a ∷ s) (b ∷ t) x e = ap₂ ◌∷◌ (cc e) (append_cancel_last s t x (cc e))
append_cancel_last [] (b ∷ []) x e = cc
append_cancel_last [] (b ∷ c ∷ t) x e = cc
append_cancel_last (a ∷ []) [] x e = cc
append_cancel_last (a ∷ c ∷ s) [] x e = cc

-- Two tokens of a class are equal only if the random bytes are.
pub format_token-injective :
    (c : DataClass) (s t : Text)
    → All IsByte s
    → All IsByte t
    → format_token c s ≡ format_token c t
    → s ≡ t
unfolding format_token
format_token-injective c s t hs ht e = encode-injective s t hs ht (
    append_cancel_last (encode s) (encode t) b']' (
      append_cancel_left (bytes "_") _ _
        (append_cancel_left (token_label c) _ _ (append_cancel_left (bytes "[AV_") _ _ e))))

-- The classes that the reserved pattern `[AV_(EMAIL|PHONE|IPV4|HOST|PATH|TERM)_[A-F0-9]{32}]` names.
abbrev pub reserved_labels : List Text
reserved_labels =
    bytes "EMAIL" ∷ bytes "PHONE" ∷ bytes "IPV4" ∷ bytes "HOST" ∷ bytes "PATH" ∷ bytes "TERM" ∷ []

-- The text fits the reserved pattern.
abbrev pub IsReserved : Text → Type 0
IsReserved t =
    (label : Text) × (hex : Text) × In label reserved_labels
    × (length hex ≡ 32)
    × All IsUpperHex hex
    × (t ≡ bytes "[AV_" ++ (label ++ (bytes "_" ++ (hex ++ bytes "]"))))

In-reserved_labels : (c : DataClass) → hard_block c ≡ false → In (token_label c) reserved_labels
unfolding token_label hard_block bytes
In-reserved_labels DataClass.email h = inl refl
In-reserved_labels DataClass.phone h = inr (inl refl)
In-reserved_labels DataClass.private_ipv4 h = inr (inr (inl refl))
In-reserved_labels DataClass.internal_hostname h = inr (inr (inr (inl refl)))
In-reserved_labels DataClass.home_path h = inr (inr (inr (inr (inl refl))))
In-reserved_labels DataClass.custom_term h = inr (inr (inr (inr (inr (inl refl)))))
In-reserved_labels DataClass.credentials h = absurd (cc h)
In-reserved_labels DataClass.private_key h = absurd (cc h)
In-reserved_labels DataClass.jwt h = absurd (cc h)
In-reserved_labels DataClass.database_credential h = absurd (cc h)
In-reserved_labels DataClass.token_namespace h = absurd (cc h)

-- The random source fills the array of sixteen bytes.
abbrev pub FillsBytes : {R : Type 0} → (R → Result LedgerError Text × R) → Type 0
FillsBytes {R} fill =
    (r : R) (b : Text) → (fill r).0 ≡ ok b → (length b ≡ token_random_bytes) × All IsByte b

-- Every token made for a class that may enter the ledger fits the reserved pattern, so that the
-- scanner finds it again and the restoration reads it as one token.
pub generate_token-IsReserved :
    {R : Type 0} (fill : R → Result LedgerError Text × R)
    → FillsBytes fill
    → (c : DataClass) (r : R) (t : Text) → hard_block c ≡ false
    → (generate_token fill c r).0 ≡ ok t
    → IsReserved t
unfolding generate_token format_token
generate_token-IsReserved fill fills c r t soft h =
    let (b, made, filled) = ok_of_bind (fill r).0 (λ b. ok (format_token c b)) h in
    let (size, range) = fills r b filled in
    (
      token_label c,
      encode b,
      In-reserved_labels c soft,
      omega (arith, length-encode b, size),
      encode-All b range,
      cc made,
    )
