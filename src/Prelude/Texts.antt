-- ===== src/Prelude/Texts.antt =====
-- Texts as their UTF-8 bytes: slices, comparison, and the classes of ASCII bytes.
use Prim.Native.Nat.{ℕ}
use Prim.Native.Char.{code}
use Prim.Native.String.{String}
use mathlib.Core.Path.{◌≡◌, refl, sym, ap₂, subst}
use mathlib.Core.Bool.{Bool, true, false, ◌&&◌, ◌||◌}
use mathlib.Core.Logic.{◌↔◌, inl, inr}
use mathlib.Core.List.{List, [], ◌∷◌}
use native.Mathlib.Omega.{arith}
use agent_veil.Prelude.Lists.{In}
use agent_veil.Prelude.Tests.{leb, ◌==◌, Bool-cases}

-- A Rust `String` or `&str`: its bytes.
abbrev pub Text : Type 0
Text = List ℕ

-- The bytes of an ASCII literal.
unfoldable pub bytes : String → Text
bytes String.[] = []
bytes (String.◌∷◌ c s) = code c ∷ bytes s

unfoldable pub text_eq : Text → Text → Bool
text_eq [] [] = true
text_eq (a ∷ s) (b ∷ t) = a == b && text_eq s t
text_eq _ _ = false

pub text_eq_refl : (s : Text) → text_eq s s ≡ true
unfolding text_eq
text_eq_refl [] = refl
text_eq_refl (a ∷ s) = ground (arith, text_eq_refl s)

pub text_eq→eq : (s t : Text) → text_eq s t ≡ true → s ≡ t
unfolding text_eq
text_eq→eq [] [] h = refl
text_eq→eq (a ∷ s) (b ∷ t) h =
    let e : a ≡ b = ground arith in ap₂ ◌∷◌ e (text_eq→eq s t (ground arith))
text_eq→eq [] (b ∷ t) h = cc
text_eq→eq (a ∷ s) [] h = cc

pub text_eq_iff : (s t : Text) → (text_eq s t ≡ true) ↔ (s ≡ t)
text_eq_iff s t = (text_eq→eq s t, λ e. subst (λ u. text_eq s u ≡ true) e (text_eq_refl s))

unfoldable pub contains : List Text → Text → Bool
contains [] s = false
contains (t ∷ ts) s = text_eq t s || contains ts s

pub contains→In : (ts : List Text) (s : Text) → contains ts s ≡ true → In s ts
unfolding contains
contains→In [] s h = absurd (ground arith)
contains→In (t ∷ ts) s h = elim (Bool-cases (text_eq t s)) [
  | inl e ↦ inl (sym (text_eq→eq t s e))
  | inr e ↦ inr (contains→In ts s (ground arith))
]

pub In→contains : (ts : List Text) (s : Text) → In s ts → contains ts s ≡ true
unfolding contains
In→contains (t ∷ ts) s (inl e) = ground (arith, text_eq_refl s, text_eq_iff t s)
In→contains (t ∷ ts) s (inr m) = ground (arith, In→contains ts s m)
In→contains [] s m = absurd m

unfoldable pub is_ascii_lowercase : ℕ → Bool
is_ascii_lowercase b = leb b'a' b && leb b b'z'

unfoldable pub is_ascii_uppercase : ℕ → Bool
is_ascii_uppercase b = leb b'A' b && leb b b'Z'

unfoldable pub is_ascii_digit : ℕ → Bool
is_ascii_digit b = leb b'0' b && leb b b'9'

unfoldable pub is_ascii_alphanumeric : ℕ → Bool
unfolding is_ascii_lowercase is_ascii_uppercase is_ascii_digit
is_ascii_alphanumeric b = is_ascii_lowercase b || is_ascii_uppercase b || is_ascii_digit b
